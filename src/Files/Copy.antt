-- ===== src/Files/Copy.antt =====
-- What `osFileCopy` of vos.c copies.
use cvos.Prelude.{ℕ, zero, suc, ◌+◌, ◌≤◌, ◌<◌, ◌≡◌, refl, sym, ◌∙◌, ap, arith, inl, inr, ◌⊎◌}
use cvos.Prelude.{List, [], ◌∷◌, ◌++◌, Option, some, true, false, Bool-cases}
use cvos.Prelude.{ℤ, pos, negsuc, neg, pos_part, is_neg, is_zero, ◌-ℤ◌}
use cvos.Prelude.{if◌then◌else◌, leb, ◌^◌, ◌==◌, take, take_all, length, length-append}
use mathlib.Core.List.{append_assoc, append-nil}
use cvos.Files.{Calls, Mode, less_one, copy_loop, file_copy_at, file_copy}

-- What is documented of `read` and `write` on two files: a call that reads gives the next bytes of the one
-- that are left, as many as it says; a call that writes hands a first part of its bytes over to the other, as
-- long as it says.
pub record Moves (q : Calls) (rd wd : ℤ) (left wire : q.State → List ℕ) : Type 0 where
  pub size : (n : ℕ) (s : q.State) → length (q.read rd n s).1 ≡ pos_part (q.read rd n s).0
  pub next : (n : ℕ) (s : q.State) → left s ≡ (q.read rd n s).1 ++ left (q.read rd n s).2
  pub quiet : (n : ℕ) (s : q.State) → wire (q.read rd n s).2 ≡ wire s
  pub handed :
      (p : List ℕ) (s : q.State)
      → wire (q.write wd p s).1 ≡ wire s ++ take (pos_part (q.write wd p s).0) p
  pub kept : (p : List ℕ) (s : q.State) → left (q.write wd p s).1 ≡ left s

-- `n` bytes are counted, and if these are all that were left, they are handed over.
abbrev Copied :
    (q : Calls) (left wire : q.State → List ℕ) (size : ℕ) (s : q.State)
    → Option (ℕ × q.State)
    → Type 0
Copied q left wire size s out =
    (n : ℕ) × (s' : q.State) × (out ≡ some (size + n, s'))
    × (n ≤ length (left s))
    × (n ≡ length (left s) → wire s' ≡ wire s ++ left s)

empty_of_length : (xs : List ℕ) → length xs ≡ 0 → xs ≡ []
empty_of_length [] e = refl
empty_of_length (x ∷ xs) e = absurd (omega (arith, e))

less_one-cases :
    (r : ℤ) → ((less_one r ≡ true) × (pos_part r ≡ 0)) ⊎ ((less_one r ≡ false) × (1 ≤ pos_part r))
less_one-cases (pos zero) = inl (refl, refl)
less_one-cases (pos (suc n)) = inr (ground arith, omega arith)
less_one-cases (negsuc n) = inl (refl, refl)

same_part : (a b : ℤ) → is_zero (a -ℤ b) ≡ true → pos_part a ≡ pos_part b
same_part a b e = ground arith

module _ (q : Calls) (rd wd : ℤ) (left wire : q.State → List ℕ)
    (moves : Moves q rd wd left wire) where
  copy_loop-Copied :
      (fuel size : ℕ) (s : q.State)
      → length (left s) < fuel
      → size + length (left s) < 2 ^ 31
      → Copied q left wire size s (copy_loop q fuel rd wd size s)
  unfolding copy_loop
  copy_loop-Copied zero size s h bound = absurd (omega arith)
  copy_loop-Copied (suc fuel) size s h bound =
      let (r, bytes, s1) = q.read rd 0x1000 s in
      let (w, s2) = q.write wd bytes s1 in
      let long = moves.size 0x1000 s in
      let next = moves.next 0x1000 s in
      let total = ap length next ∙ length-append bytes (left s1) in
      elim (less_one-cases r) [
        | inl (stop, nothing) ↦ (
          0,
          s1,
          rw (copy_loop, stop) (ap (λ t. some (t, s1)) (omega arith)),
          omega arith,
          λ all.
              moves.quiet 0x1000 s
              ∙ sym (append-nil (wire s))
              ∙ ap (λ t. wire s ++ t) (sym (empty_of_length (left s) (sym all))),
        )
        | inr (go, some_read) ↦ elim (Bool-cases (is_zero (r -ℤ w))) [
          | inl whole ↦
              let kept = moves.kept bytes s1 in
              let (n, s', e, most, last) =
                copy_loop-Copied fuel (size + length bytes) s2
                  (omega (arith, ap length kept, total, long, some_read))
                  (omega (arith, ap length kept, total)) in
              let in_range : leb (2 ^ 31) (size + length bytes) ≡ false =
                ground (arith, total, bound) in
              let all_taken = take_all (pos_part w) bytes (long ∙ same_part r w whole) in
              let put : wire s2 ≡ wire s ++ bytes =
                moves.handed bytes s1
                ∙ ap (λ t. wire s1 ++ t) all_taken
                ∙ ap (λ t. t ++ bytes) (moves.quiet 0x1000 s) in
              (
                length bytes + n,
                s',
                rw (copy_loop, go, whole, in_range, e) (ap (λ t. some (t, s')) (omega arith)),
                omega (arith, most, ap length kept, total),
                λ all.
                    last (omega (arith, all, ap length kept, total))
                    ∙ ap (λ t. t ++ left s2) put
                    ∙ ap (λ t. (wire s ++ bytes) ++ t) kept
                    ∙ append_assoc (wire s) bytes (left s1)
                    ∙ ap (λ t. wire s ++ t) (sym next),
              )
          | inr short ↦ (
            0,
            s2,
            rw (copy_loop, go, short) (ap (λ t. some (t, s2)) (omega arith)),
            omega arith,
            λ all. absurd (omega (arith, all, total, long, some_read)),
          )
        ]
      ]

  -- Where both files are opened and `fstat` gives the length of what is left to read, on a system that reads
  -- and writes what it says, and where what is left is shorter than 2 ^ 31 bytes: `osFileCopy` comes to an end, with 0 or -5, and 0 is returned only if all bytes
  -- of the one file were handed over to the other, in their order; it closes both.
  pub file_copy_lem :
      (fuel : ℕ) (infile outfile : List ℕ) (k k1 k2 : q.State) (st : ℤ)
      → q.open_file infile Mode.read_only k ≡ (rd, k1)
      → is_neg rd ≡ false
      → q.open_file outfile Mode.create_write k1 ≡ (wd, k2)
      → is_neg wd ≡ false
      → q.fstat rd k2 ≡ (st, length (left k2))
      → is_neg st ≡ false
      → length (left k2) < fuel
      → length (left k2) < 2 ^ 31
      → (ret : ℤ) × (k3 : q.State) × (file_copy q fuel (some infile) (some outfile) k
          ≡ some (ret, (q.close wd (q.close rd k3).1).1))
        × ((ret ≡ pos 0) × (wire k3 ≡ wire k2 ++ left k2) ⊎ (ret ≡ neg 5))
  unfolding file_copy file_copy_at
  file_copy_lem fuel infile outfile k k1 k2 st open_in good_in open_out good_out stat good_stat h
        bound =
      let (n, k3, e, most, last) = copy_loop-Copied fuel 0 k2 h (omega arith) in
      let count : 0 + n ≡ n = omega arith in
      let copied : (ret : ℤ)
          → (if length (left k2) == n then pos 0 else neg 5) ≡ ret
          → file_copy_at q fuel rd wd k2 ≡ some (ret, k3) =
        λ ret is_ret.
          rw (file_copy_at, stat, good_stat, e, count) (ap (λ t. some (t, k3)) is_ret) in
      elim (Bool-cases (length (left k2) == n)) [
        | inl all ↦
            let whole : n ≡ length (left k2) = ground arith in
            (
              pos 0,
              k3,
              rw (file_copy, open_in, good_in, open_out, good_out, copied (pos 0) (rw all refl))
                  refl,
              inl (refl, last whole),
            )
        | inr part ↦ (
          neg 5,
          k3,
          rw (file_copy, open_in, good_in, open_out, good_out, copied (neg 5) (rw part refl)) refl,
          inr refl,
        )
      ]
