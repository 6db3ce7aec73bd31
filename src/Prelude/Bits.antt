-- ===== src/Prelude/Bits.antt =====
-- Exclusive or at variables: the laws that the CRC arguments need, from the digit recursion.
use Prim.Native.Nat.{ℕ, zero, suc, ◌+◌, ◌*◌, ◌/◌, ◌%◌, ◌<◌, ◌^◌, bit_xor, digits, differ}
use Prim.Native.Nat.{bit_xor-bitwise}
use mathlib.Core.Path.{◌≡◌, refl, sym, ap, ◌∙◌}
use cvos.Prelude.Digits.{digits_agree, halving}
use native.Mathlib.Nat.{pow-suc}
use native.Mathlib.Omega.{arith}

pub zero-bit_xor : (b : ℕ) → bit_xor 0 b ≡ b
zero-bit_xor b = bit_xor-bitwise 0 b

differ-mod : (a b : ℕ) → differ (a % 2) (b % 2) ≡ (a + b) % 2
differ-mod a b = go (a % 2) (b % 2) (omega arith) (omega arith) ∙ omega arith
  where
    go : (x y : ℕ) → x < 2 → y < 2 → differ x y ≡ (x + y) % 2
    go zero y p q = omega arith
    go (suc zero) zero p q = refl
    go (suc zero) (suc zero) p q = refl
    go (suc zero) (suc (suc y)) p q = absurd (omega arith)
    go (suc (suc x)) y p q = absurd (omega arith)

-- The lowest digit of an exclusive or, and what stands above it.
pub bit_xor_step : (a b : ℕ) → bit_xor a b ≡ bit_xor (a / 2) (b / 2) * 2 + (a + b) % 2
bit_xor_step zero b = omega (arith, zero-bit_xor b, zero-bit_xor (b / 2))
bit_xor_step (suc a) b =
    let h = suc a / 2 in
    let above : digits (λ t. t) differ a h (b / 2) ≡ digits (λ t. t) differ h h (b / 2) =
      digits_agree (λ t. t) differ a h h (b / 2) (omega arith) (omega arith) in
    bit_xor-bitwise (suc a) b
    ∙ ap (λ t. t * 2 + differ (suc a % 2) (b % 2)) (above ∙ sym (bit_xor-bitwise h (b / 2)))
    ∙ ap (λ t. bit_xor h (b / 2) * 2 + t) (differ-mod (suc a) b)

pub bit_xor_self : (a : ℕ) → bit_xor a a ≡ 0
bit_xor_self =
    halving (λ a. bit_xor a a ≡ 0) refl (λ a h. omega (arith, bit_xor_step (suc a) (suc a), h))

pub bit_xor-zero : (a : ℕ) → bit_xor a 0 ≡ a
bit_xor-zero = halving (λ a. bit_xor a 0 ≡ a) refl (λ a h. omega (arith, bit_xor_step (suc a) 0, h))

half_xor : (a b : ℕ) → bit_xor a b / 2 ≡ bit_xor (a / 2) (b / 2)
half_xor a b = omega (arith, bit_xor_step a b)

pub bit_xor_assoc : (a b c : ℕ) → bit_xor (bit_xor a b) c ≡ bit_xor a (bit_xor b c)
bit_xor_assoc =
    halving (λ a. (b c : ℕ) → bit_xor (bit_xor a b) c ≡ bit_xor a (bit_xor b c))
      (λ b c. rw (zero-bit_xor b, zero-bit_xor (bit_xor b c)) refl)
      (λ a h b c.
        rw
          (
            bit_xor_step (bit_xor (suc a) b) c,
            bit_xor_step (suc a) (bit_xor b c),
            half_xor (suc a) b,
            half_xor b c,
          )
          (omega (arith, bit_xor_step (suc a) b, bit_xor_step b c, h (b / 2) (c / 2))))

-- Exclusive or with the same number twice changes nothing.
pub bit_xor_cancel : (a b : ℕ) → bit_xor (bit_xor a b) b ≡ a
bit_xor_cancel a b = rw (bit_xor_assoc a b b, bit_xor_self b) (bit_xor-zero a)

-- Numbers whose exclusive or is 0 are equal.
pub bit_xor-eq-zero : (a b : ℕ) → bit_xor a b ≡ 0 → a ≡ b
bit_xor-eq-zero =
    halving (λ a. (b : ℕ) → bit_xor a b ≡ 0 → a ≡ b) (λ b e. omega (arith, zero-bit_xor b, e))
      (λ a h b e.
        let low = bit_xor_step (suc a) b in
        let high : bit_xor (suc a / 2) (b / 2) ≡ 0 = omega (arith, low, e) in
        omega (arith, low, e, h (b / 2) high))

-- Exclusive or stays within the bits of its operands.
pub bit_xor-lt : (k a b : ℕ) → a < 2 ^ k → b < 2 ^ k → bit_xor a b < 2 ^ k
bit_xor-lt zero zero zero p q = p
bit_xor-lt zero (suc a) b p q = absurd (omega arith)
bit_xor-lt zero zero (suc b) p q = absurd (omega arith)
bit_xor-lt (suc k) a b p q = omega (
  arith,
  pow-suc 2 k,
  bit_xor_step a b,
  bit_xor-lt k (a / 2) (b / 2) (omega (arith, pow-suc 2 k)) (omega (arith, pow-suc 2 k)),
)
