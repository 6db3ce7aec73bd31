-- ===== src/Prelude/Strings.antt =====
-- C strings in a block: the bytes before the first NUL.
use Prim.Native.Nat.{ℕ, zero, suc}
use mathlib.Core.Path.{◌≡◌, refl, sym, ◌∙◌, ap}
use mathlib.Core.Logic.{inl, inr}
use mathlib.Core.Bool.{Bool, true, false, true≢false}
use mathlib.Core.Option.{some}
use mathlib.Core.List.{List, [], ◌∷◌, ◌++◌}
use native.Mathlib.Omega.{arith}
use cvos.Prelude.Tests.{◌==◌, if◌then◌else◌, Bool-cases}
use cvos.Prelude.Lists.{length, drop}
use cvos.Prelude.Memory.{strlen, string_of, str_eq, bytes_eq}

-- no byte is NUL
abbrev pub no_nul : List ℕ → Bool
no_nul [] = true
no_nul (c ∷ s) = let rest = no_nul s in if c == 0 then false else rest

pub no_nul-cases :
    (c : ℕ) (s : List ℕ) → no_nul (c ∷ s) ≡ true → ((c == 0) ≡ false) × (no_nul s ≡ true)
no_nul-cases c s h = elim (Bool-cases (c == 0)) [
  | inl nul ↦ absurd (true≢false (sym h ∙ rw nul refl))
  | inr other ↦ (other, sym (rw other refl) ∙ h)
]

pub no_nul-append :
    (xs ys : List ℕ) → no_nul xs ≡ true → no_nul ys ≡ true → no_nul (xs ++ ys) ≡ true
no_nul-append [] ys h k = k
no_nul-append (x ∷ xs) ys h k =
    let (other, rest) = no_nul-cases x xs h in rw other (no_nul-append xs ys rest k)

pub no_nul-drop : (n : ℕ) (xs : List ℕ) → no_nul xs ≡ true → no_nul (drop n xs) ≡ true
no_nul-drop zero xs h = h
no_nul-drop (suc n) [] h = refl
no_nul-drop (suc n) (x ∷ xs) h = no_nul-drop n xs (no_nul-cases x xs h).1

-- A string ends at its NUL.
pub strlen-nul : (s rest : List ℕ) → no_nul s ≡ true → strlen (s ++ (0 ∷ rest)) ≡ some (length s)
unfolding strlen
strlen-nul [] rest h = refl
strlen-nul (c ∷ s) rest h =
    let (other, clean) = no_nul-cases c s h in rw (other, strlen-nul s rest clean) refl

pub string_of-prefix : (s rest : List ℕ) → no_nul s ≡ true → string_of (length s) (s ++ rest) ≡ s
unfolding string_of
string_of-prefix [] rest h = refl
string_of-prefix (c ∷ s) rest h =
    let (other, clean) = no_nul-cases c s h in
    rw other (ap (λ t. c ∷ t) (string_of-prefix s rest clean))

-- `strcmp` looks at the strings, and not at what stands behind their NULs.
pub str_eq-nul :
    (s t x y : List ℕ)
    → no_nul s ≡ true
    → no_nul t ≡ true
    → str_eq (s ++ (0 ∷ x)) (t ++ (0 ∷ y)) ≡ some (bytes_eq s t)
unfolding str_eq
str_eq-nul [] [] x y hs ht = refl
str_eq-nul [] (b ∷ t) x y hs ht =
    let (other, _) = no_nul-cases b t ht in
    let differ : (0 == b) ≡ false = ground arith in rw differ refl
str_eq-nul (a ∷ s) [] x y hs ht = let (other, _) = no_nul-cases a s hs in rw other refl
str_eq-nul (a ∷ s) (b ∷ t) x y hs ht =
    let (na, hs') = no_nul-cases a s hs in
    let (_, ht') = no_nul-cases b t ht in
    rw (na, str_eq-nul s t x y hs' ht')
      (elim (Bool-cases (a == b)) [ inl e ↦ rw e refl | inr e ↦ rw e refl ])
