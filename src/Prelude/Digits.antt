-- ===== src/Prelude/Digits.antt =====
-- The recursion that the bitwise operations stand for, freed of its fuel, and induction by halving.
use Prim.Native.Nat.{ℕ, zero, suc, ◌+◌, ◌*◌, ◌/◌, ◌%◌, ◌≤◌, digits}
use mathlib.Core.Path.{◌≡◌, refl, sym, ◌∙◌, ap}
use native.Mathlib.Omega.{arith}

module _ (rest : ℕ → ℕ) (op : ℕ → ℕ → ℕ) where
  out_of_digits : (fuel y : ℕ) → digits rest op fuel 0 y ≡ rest y
  out_of_digits zero y = refl
  out_of_digits (suc fuel) y = refl

  -- Any two amounts of fuel that are at least the first number give one result.
  pub digits_agree : (k l x y : ℕ) → x ≤ k → x ≤ l → digits rest op k x y ≡ digits rest op l x y
  digits_agree k l zero y hk hl = out_of_digits k y ∙ sym (out_of_digits l y)
  digits_agree zero l (suc x) y hk hl = absurd (omega arith)
  digits_agree (suc k) zero (suc x) y hk hl = absurd (omega arith)
  digits_agree (suc k) (suc l) (suc x) y hk hl =
      ap (λ t. t * 2 + op (suc x % 2) (y % 2))
        (digits_agree k l (suc x / 2) (y / 2) (omega arith) (omega arith))

module _ {ℓ} (P : ℕ → Type ℓ) (base : P 0) (step : (a : ℕ) → P (suc a / 2) → P (suc a)) where
  halving_below : (bound a : ℕ) → a ≤ bound → P a
  halving_below bound zero h = base
  halving_below zero (suc a) h = absurd (omega arith)
  halving_below (suc bound) (suc a) h = step a (halving_below bound (suc a / 2) (omega arith))

  pub halving : (a : ℕ) → P a
  halving a = halving_below a a (omega arith)
