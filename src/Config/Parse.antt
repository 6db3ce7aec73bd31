-- ===== src/Config/Parse.antt =====
-- Reading the lines of an image with `_cfg_getline` and `_cfg_parse`.
use cvos.Prelude.{ℕ, zero, suc, ◌≤◌, ◌<◌, ◌≡◌, refl, sym, ◌∙◌, ap, arith, inl, inr}
use cvos.Prelude.{List, [], ◌∷◌, Option, none, some, Bool, true, false, Bool-cases}
use cvos.Prelude.{◌==◌, length, ◌>>=◌}
use cvos.Prelude.{no_nul, no_nul-cases}
use mathlib.Core.Bool.{true≢false}
use cvos.Config.{Entry}
use cvos.Config.Text.{is_eol, is_text, skip, take_line, end_line, get_line}
use cvos.Config.Text.{parse_line, parse_loop, parse}

-- what a part of an image keeps
abbrev Shorter : List ℕ → List ℕ → Type 0
Shorter s image = (length s ≤ length image) × (no_nul s ≡ true)

skip-Shorter : (test : ℕ → Bool) (s : List ℕ) → no_nul s ≡ true → Shorter (skip test s) s
unfolding skip
skip-Shorter test [] h = (omega arith, refl)
skip-Shorter test (c ∷ s) h = elim (Bool-cases (test c)) [
  | inl drops ↦
      let (l, n) = skip-Shorter test s (no_nul-cases c s h).1 in rw (skip, drops) (omega arith, n)
  | inr keeps ↦ rw (skip, keeps) (omega arith, h)
]

take_line-Shorter : (s : List ℕ) → no_nul s ≡ true → Shorter (take_line s).1 s
unfolding take_line
take_line-Shorter [] h = (omega arith, refl)
take_line-Shorter (c ∷ s) h = elim (Bool-cases (is_text c)) [
  | inl text ↦
      let (l, n) = take_line-Shorter s (no_nul-cases c s h).1 in
      rw (take_line, text) (omega arith, n)
  | inr end ↦ rw (take_line, end) (omega arith, h)
]

end_line-Shorter :
    (line t : List ℕ) (n : ℕ)
    → length t ≤ suc n
    → no_nul t ≡ true
    → (length (end_line line t).1 ≤ n) × (no_nul (end_line line t).1 ≡ true)
end_line-Shorter line [] n l h = (omega arith, refl)
end_line-Shorter line (x ∷ r) n l h =
    let (other, rest) = no_nul-cases x r h in rw other (omega arith, rest)

-- The image after a line is shorter than the one before it.
get_line-Shorter : (c : ℕ) (s : List ℕ) → no_nul (c ∷ s) ≡ true → Shorter (get_line (c ∷ s)).1 s
unfolding get_line
get_line-Shorter c s h =
    let (l, n) = skip-Shorter is_eol (c ∷ s) h in
    let (l', n') = take_line-Shorter (skip is_eol (c ∷ s)) n in
    end_line-Shorter _ (take_line (skip is_eol (c ∷ s))).1 (length s) (omega arith) n'

parse_loop_ends :
    (fuel : ℕ) (image : List ℕ)
    → length image < fuel
    → no_nul image ≡ true
    → (es : List Entry) × (parse_loop fuel image ≡ some es)
unfolding parse_loop
parse_loop_ends zero image l h = absurd (omega arith)
parse_loop_ends (suc fuel) [] l h = ([], refl)
parse_loop_ends (suc fuel) (c ∷ s) l h =
    let (m, n) = get_line-Shorter c s h in
    let (es, later) = parse_loop_ends fuel (get_line (c ∷ s)).1 (omega arith) n in
    let add : List Entry → Option (List Entry) =
      λ es'. some (elim (parse_line (get_line (c ∷ s)).0) [ none ↦ es' | some e ↦ e ∷ es' ]) in
    (
      elim (parse_line (get_line (c ∷ s)).0) [ none ↦ es | some e ↦ e ∷ es ],
      ap (λ o. o >>= add) later,
    )

-- `_cfg_parse` comes to an end on an image without a NUL, in at most one turn more than the image has bytes.
pub parse_ends :
    (image : List ℕ) → no_nul image ≡ true → (es : List Entry) × (parse image ≡ some es)
unfolding parse
parse_ends image h = parse_loop_ends (suc (length image)) image (omega arith) h

-- The bytes that are passed over are not NUL.
no_nul-rest : (c : ℕ) (s : List ℕ) → no_nul (suc c ∷ s) ≡ false → no_nul s ≡ false
no_nul-rest c s h = let other : (suc c == 0) ≡ false = ground arith in sym (rw other refl) ∙ h

no_nul-skip : (s : List ℕ) → no_nul s ≡ false → no_nul (skip is_eol s) ≡ false
unfolding skip
no_nul-skip [] h = h
no_nul-skip (zero ∷ s) h = refl
no_nul-skip (suc c ∷ s) h = elim (Bool-cases (is_eol (suc c))) [
  | inl drops ↦ rw (skip, drops) (no_nul-skip s (no_nul-rest c s h))
  | inr keeps ↦ rw (skip, keeps) h
]

no_nul-take_line : (s : List ℕ) → no_nul s ≡ false → no_nul (take_line s).1 ≡ false
unfolding take_line
no_nul-take_line [] h = h
no_nul-take_line (zero ∷ s) h = refl
no_nul-take_line (suc c ∷ s) h = elim (Bool-cases (is_text (suc c))) [
  | inl text ↦ rw (take_line, text) (no_nul-take_line s (no_nul-rest c s h))
  | inr end ↦ rw (take_line, end) h
]

no_nul-end_line : (line t : List ℕ) → no_nul t ≡ false → no_nul (end_line line t).1 ≡ false
no_nul-end_line line [] h = h
no_nul-end_line line (zero ∷ r) h = refl
no_nul-end_line line (suc x ∷ r) h =
    let other : (suc x == 0) ≡ false = ground arith in rw other (no_nul-rest x r h)

no_nul-get_line : (s : List ℕ) → no_nul s ≡ false → no_nul (get_line s).1 ≡ false
unfolding get_line
no_nul-get_line s h =
    no_nul-end_line _ (take_line (skip is_eol s)).1
      (no_nul-take_line (skip is_eol s) (no_nul-skip s h))

-- On an image with a NUL `_cfg_parse` never comes to an end, however many turns it is given.
parse_loop-nul : (fuel : ℕ) (image : List ℕ) → no_nul image ≡ false → parse_loop fuel image ≡ none
unfolding parse_loop
parse_loop-nul zero image h = refl
parse_loop-nul (suc fuel) [] h = absurd (true≢false h)
parse_loop-nul (suc fuel) (c ∷ s) h =
    let add : List Entry → Option (List Entry) =
      λ es'. some (elim (parse_line (get_line (c ∷ s)).0) [ none ↦ es' | some e ↦ e ∷ es' ]) in
    ap (λ o. o >>= add) (parse_loop-nul fuel (get_line (c ∷ s)).1 (no_nul-get_line (c ∷ s) h))
