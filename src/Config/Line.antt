-- ===== src/Config/Line.antt =====
-- One line of a configuration: printed by `_cfg_output`, it is read back by `_cfg_parse`.
use cvos.Prelude.{ℕ, ◌≡◌, refl, sym, ◌∙◌, ap, inl, inr}
use cvos.Prelude.{List, [], ◌∷◌, ◌++◌, some, Bool, true, false, Bool-cases}
use cvos.Prelude.{if◌then◌else◌, ◌==◌, arith}
use mathlib.Core.Bool.{true≢false}
use cvos.Config.Text.{is_eol, is_white, is_text, skip, trim, take_line, end_line, get_line}
use cvos.Config.Text.{split_at_char}

-- every byte is one of a line
abbrev pub all_text : List ℕ → Bool
all_text [] = true
all_text (c ∷ s) = let rest = all_text s in if is_text c then rest else false

-- no byte is `c`
abbrev pub lacks_char : ℕ → List ℕ → Bool
lacks_char c [] = true
lacks_char c (x ∷ s) = let rest = lacks_char c s in if x == c then false else rest

all_text-cases :
    (c : ℕ) (s : List ℕ) → all_text (c ∷ s) ≡ true → (is_text c ≡ true) × (all_text s ≡ true)
all_text-cases c s h = elim (Bool-cases (is_text c)) [
  | inl text ↦ (text, sym (rw text refl) ∙ h)
  | inr end ↦ absurd (true≢false (sym h ∙ rw end refl))
]

pub all_text-append :
    (xs ys : List ℕ) → all_text xs ≡ true → all_text ys ≡ true → all_text (xs ++ ys) ≡ true
all_text-append [] ys h k = k
all_text-append (x ∷ xs) ys h k =
    let (text, rest) = all_text-cases x xs h in rw text (all_text-append xs ys rest k)

take_line-text :
    (line rest : List ℕ)
    → all_text line ≡ true
    → take_line (line ++ (10 ∷ rest)) ≡ (line, 10 ∷ rest)
unfolding take_line
take_line-text [] rest h = refl
take_line-text (c ∷ line) rest h =
    let (text, more) = all_text-cases c line h in
    rw (take_line, text, take_line-text line rest more) refl

text_not_eol : (c : ℕ) → is_text c ≡ true → is_eol c ≡ false
text_not_eol c h = elim (Bool-cases (is_eol c)) [
  | inr inside ↦ inside
  | inl end ↦ elim (Bool-cases (c == 0)) [
    | inl nul ↦ absurd (true≢false (sym h ∙ rw nul refl))
    | inr other ↦ absurd (true≢false (sym h ∙ rw (other, end) refl))
  ]
]

-- A line that its end is not trimmed of is read as it was written.
pub get_line-text :
    (c : ℕ) (line rest : List ℕ)
    → all_text (c ∷ line) ≡ true
    → trim is_white (c ∷ line) ≡ c ∷ line
    → get_line ((c ∷ line) ++ (10 ∷ rest)) ≡ (c ∷ line, rest)
unfolding get_line skip
get_line-text c line rest h t =
    let (text, more) = all_text-cases c line h in
    let start : skip is_eol ((c ∷ line) ++ (10 ∷ rest)) ≡ (c ∷ line) ++ (10 ∷ rest) =
      rw (skip, text_not_eol c text) refl in
    ap (λ s. end_line (take_line s).0 (take_line s).1) start
    ∙ ap (λ r. end_line r.0 r.1) (take_line-text (c ∷ line) rest h)
    ∙ ap (λ s. (s, rest)) t

module _ (test : ℕ → Bool) where
  pub trim-append :
      (xs : List ℕ) (y : ℕ) (ys : List ℕ)
      → trim test (y ∷ ys) ≡ y ∷ ys
      → trim test (xs ++ (y ∷ ys)) ≡ xs ++ (y ∷ ys)
  unfolding trim
  trim-append [] y ys t = t
  trim-append (x ∷ []) y ys t =
      ap (λ r. elim r [ [] ↦ if test x then [] else x ∷ [] | d ∷ ds ↦ x ∷ d ∷ ds ]) t
  trim-append (x ∷ z ∷ xs) y ys t =
      ap (λ r. elim r [ [] ↦ if test x then [] else x ∷ [] | d ∷ ds ↦ x ∷ d ∷ ds ])
        (trim-append (z ∷ xs) y ys t)

  pub trim-cons :
      (c : ℕ) (s : List ℕ) → test c ≡ false → trim test s ≡ s → trim test (c ∷ s) ≡ c ∷ s
  unfolding trim
  trim-cons c [] h t = rw h refl
  trim-cons c (d ∷ s) h t =
      ap (λ r. elim r [ [] ↦ if test c then [] else c ∷ [] | d' ∷ ds ↦ c ∷ d' ∷ ds ]) t

pub split_at_char-first :
    (c : ℕ) (s t : List ℕ) → lacks_char c s ≡ true → split_at_char c (s ++ (c ∷ t)) ≡ some (s, t)
unfolding split_at_char
split_at_char-first c [] t l = let same : (c == c) ≡ true = ground arith in rw same refl
split_at_char-first c (x ∷ s) t l = elim (Bool-cases (x == c)) [
  | inl found ↦ absurd (true≢false (sym l ∙ rw found refl))
  | inr missed ↦
      rw (split_at_char, missed, split_at_char-first c s t (sym (rw missed refl) ∙ l)) refl
]
