-- ===== src/Reboot/Log.antt =====
-- How long the log of reboot.c becomes, and what it keeps.
use cvos.Prelude.{ℕ, suc, ◌+◌, ◌≤◌, ◌≡◌, refl, sym, ◌∙◌, ap, arith, List, [], ◌∷◌, ◌++◌}
use cvos.Prelude.{Bool, true, false, ◌==◌, if◌then◌else◌, ltb, length}
use cvos.Prelude.{length-append}
use mathlib.Core.List.{append_assoc, append-nil}
use cvos.Reboot.{reset_log_size, add_one_reset_log}

-- the file after several calls, each with what `fopen` does and the line
abbrev pub add_lines : List (Bool × List ℕ) → List ℕ → List ℕ
add_lines [] file = file
add_lines ((opens, line) ∷ rest) file = add_lines rest (add_one_reset_log opens line file)

-- each line has at most `n` bytes
abbrev pub Short : ℕ → List (Bool × List ℕ) → Type 0
Short n [] = Unit
Short n ((opens, line) ∷ rest) = (length line ≤ n) × Short n rest

-- the lines that were written
abbrev pub written : List (Bool × List ℕ) → List ℕ
written [] = []
written ((opens, line) ∷ rest) = (if opens then line else []) ++ written rest

add-length :
    (n : ℕ) (opens : Bool) (line file : List ℕ)
    → length line ≤ n
    → length file ≤ reset_log_size + n
    → length (add_one_reset_log opens line file) ≤ reset_log_size + n
unfolding add_one_reset_log
add-length n opens line file small h = ground (arith, length-append file line)

add-keeps :
    (opens : Bool) (line file : List ℕ)
    → length file ≤ reset_log_size
    → add_one_reset_log opens line file ≡ file ++ (if opens then line else [])
unfolding add_one_reset_log
add-keeps false line file h = sym (append-nil file)
add-keeps true line [] h = refl
add-keeps true line (c ∷ file) h =
    let under : ltb reset_log_size (suc (length file)) ≡ false = ground arith in
    let some_text : (suc (length file) == 0) ≡ false = ground arith in rw (under, some_text) refl

bounded :
    (n : ℕ) (calls : List (Bool × List ℕ)) (file : List ℕ)
    → Short n calls
    → length file ≤ reset_log_size + n
    → length (add_lines calls file) ≤ reset_log_size + n
bounded n [] file short h = h
bounded n ((opens, line) ∷ rest) file short h =
    bounded n rest (add_one_reset_log opens line file) short.1
      (add-length n opens line file short.0 h)

kept :
    (calls : List (Bool × List ℕ)) (file : List ℕ)
    → length file + length (written calls) ≤ reset_log_size
    → add_lines calls file ≡ file ++ written calls
kept [] file h = sym (append-nil file)
kept ((opens, line) ∷ rest) file h =
    let now = if opens then line else [] in
    let step = add-keeps opens line file (omega arith) in
    let sum = length-append now (written rest) in
    ap (add_lines rest) step
    ∙ kept rest (file ++ now) (omega (arith, h, sum, length-append file now))
    ∙ append_assoc file now (written rest)

-- Over any sequence of calls of `FLASH_AddOneResetLog` with lines of at most `n` bytes, on a file that is no
-- longer than 100 KB and one such line, the file never gets longer than that; and as long as the file and all
-- lines written come to at most 100 KB, it holds them all in their order.
pub add_lines_lem :
    (n : ℕ) (calls : List (Bool × List ℕ)) (file : List ℕ)
    → Short n calls
    → length file ≤ reset_log_size + n
    → (length (add_lines calls file) ≤ reset_log_size + n)
      × (length file + length (written calls) ≤ reset_log_size
          → add_lines calls file ≡ file ++ written calls)
add_lines_lem n calls file short h = (bounded n calls file short h, kept calls file)
