-- ===== src/Prelude/Masks.antt =====
-- `&` with one bit, and exclusive or under shifts.
use Prim.Native.Nat.{ℕ, zero, suc, ◌+◌, ◌*◌, ◌/◌, ◌%◌, ◌≤◌, ◌<◌, ◌^◌, min, digits, bit_and, bit_xor}
use Prim.Native.Nat.{bit_and-bitwise}
use mathlib.Core.Path.{◌≡◌, refl, sym, ◌∙◌, ap, ap₂}
use native.Mathlib.Omega.{arith}
use native.Mathlib.Nat.{
  pow-suc, div-div-eq-div-mul, mul_comm, div-add-mod, mod-lt, mod-eq_of_lt, one-le-pow,
  add-mul-mod_self_left,
}
use cvos.Prelude.Digits.{digits_agree, halving}
use cvos.Prelude.Bits.{bit_xor_step, bit_xor_assoc}

pub bit_and_step : (a b : ℕ) → bit_and a b ≡ bit_and (a / 2) (b / 2) * 2 + min (a % 2) (b % 2)
bit_and_step zero b = omega (arith, bit_and-bitwise 0 b, bit_and-bitwise 0 (b / 2))
bit_and_step (suc a) b =
    let h = suc a / 2 in
    let above : digits (λ t. 0) min a h (b / 2) ≡ digits (λ t. 0) min h h (b / 2) =
      digits_agree (λ t. 0) min a h h (b / 2) (omega arith) (omega arith) in
    bit_and-bitwise (suc a) b
    ∙ ap (λ t. t * 2 + min (suc a % 2) (b % 2)) (above ∙ sym (bit_and-bitwise h (b / 2)))

no_bits : (a : ℕ) → bit_and a 0 ≡ 0
no_bits = halving (λ a. bit_and a 0 ≡ 0) refl (λ a h. omega (arith, bit_and_step (suc a) 0, h))

-- The lowest bit.
pub bit_and-one : (a : ℕ) → bit_and a 1 ≡ a % 2
bit_and-one a = omega (arith, bit_and_step a 1, no_bits (a / 2))

-- The mask 0x3f of the MD5 blocks.
pub bit_and_63 : (a : ℕ) → bit_and a 63 ≡ a % 64
bit_and_63 a = omega (
  arith,
  bit_and_step a 63,
  bit_and_step (a / 2) 31,
  bit_and_step (a / 2 / 2) 15,
  bit_and_step (a / 2 / 2 / 2) 7,
  bit_and_step (a / 2 / 2 / 2 / 2) 3,
  bit_and-one (a / 2 / 2 / 2 / 2 / 2),
)

-- `bit_and_step` for a mask whose lowest bit is clear.
pub bit_and_double : (a m : ℕ) → bit_and a (m * 2) ≡ bit_and (a / 2) m * 2
bit_and_double a m =
    let half : m * 2 / 2 ≡ m = omega arith in bit_and_step a (m * 2) ∙ rw half (omega arith)

-- The masks 0x80 and 0x8000 of the CRC loops.
pub bit_and_128 : (a : ℕ) → bit_and a 128 ≡ a / 128 % 2 * 128
bit_and_128 a = omega (
  arith,
  bit_and_double a 64,
  bit_and_double (a / 2) 32,
  bit_and_double (a / 2 / 2) 16,
  bit_and_double (a / 2 / 2 / 2) 8,
  bit_and_double (a / 2 / 2 / 2 / 2) 4,
  bit_and_double (a / 2 / 2 / 2 / 2 / 2) 2,
  bit_and_double (a / 2 / 2 / 2 / 2 / 2 / 2) 1,
  bit_and-one (a / 2 / 2 / 2 / 2 / 2 / 2 / 2),
)

-- `bit_and_double` eight times over.
bit_and_high : (a m : ℕ) → bit_and a (m * 2 * 2 * 2 * 2 * 2 * 2 * 2 * 2) ≡ bit_and (a / 256) m * 256
bit_and_high a m =
    let e : a / 2 / 2 / 2 / 2 / 2 / 2 / 2 / 2 ≡ a / 256 = omega arith in
    rw (← e) (
      omega (
        arith,
        bit_and_double a (m * 2 * 2 * 2 * 2 * 2 * 2 * 2),
        bit_and_double (a / 2) (m * 2 * 2 * 2 * 2 * 2 * 2),
        bit_and_double (a / 2 / 2) (m * 2 * 2 * 2 * 2 * 2),
        bit_and_double (a / 2 / 2 / 2) (m * 2 * 2 * 2 * 2),
        bit_and_double (a / 2 / 2 / 2 / 2) (m * 2 * 2 * 2),
        bit_and_double (a / 2 / 2 / 2 / 2 / 2) (m * 2 * 2),
        bit_and_double (a / 2 / 2 / 2 / 2 / 2 / 2) (m * 2),
        bit_and_double (a / 2 / 2 / 2 / 2 / 2 / 2 / 2) m,
      ))

pub bit_and_32768 : (a : ℕ) → bit_and a 32768 ≡ a / 32768 % 2 * 32768
bit_and_32768 a = omega (arith, bit_and_high a 128, bit_and_128 (a / 256))

bit_xor_comm_fuel : (n a b : ℕ) → a ≤ n → b ≤ n → bit_xor a b ≡ bit_xor b a
bit_xor_comm_fuel zero zero zero p q = refl
bit_xor_comm_fuel zero zero (suc b) p q = absurd (omega arith)
bit_xor_comm_fuel zero (suc a) b p q = absurd (omega arith)
bit_xor_comm_fuel (suc n) a b p q = omega (
  arith,
  bit_xor_step a b,
  bit_xor_step b a,
  bit_xor_comm_fuel n (a / 2) (b / 2) (omega arith) (omega arith),
)

pub bit_xor_comm : (a b : ℕ) → bit_xor a b ≡ bit_xor b a
bit_xor_comm a b = bit_xor_comm_fuel (a + b) a b (omega arith) (omega arith)

-- The inner two of four operands change places.
pub bit_xor_swap :
    (a b c d : ℕ) → bit_xor (bit_xor a b) (bit_xor c d) ≡ bit_xor (bit_xor a c) (bit_xor b d)
bit_xor_swap a b c d = rw (
  bit_xor_assoc a b (bit_xor c d),
  ← bit_xor_assoc b c d,
  bit_xor_comm b c,
  bit_xor_assoc c b d,
  ← bit_xor_assoc a c (bit_xor b d),
)

bit_xor-half : (a b : ℕ) → bit_xor a b / 2 ≡ bit_xor (a / 2) (b / 2)
bit_xor-half a b = omega (arith, bit_xor_step a b)

div-one : (a : ℕ) → a / 1 ≡ a
div-one a = omega arith

mod-one : (a : ℕ) → a % 1 ≡ 0
mod-one a = omega arith

div-pow-suc : (a k : ℕ) → a / 2 ^ suc k ≡ a / 2 / 2 ^ k
div-pow-suc a k = rw (pow-suc 2 k, div-div-eq-div-mul, mul_comm (2 ^ k) 2)

pub bit_xor-div : (k a b : ℕ) → bit_xor a b / 2 ^ k ≡ bit_xor (a / 2 ^ k) (b / 2 ^ k)
bit_xor-div zero a b = omega (arith, ap₂ bit_xor (div-one a) (div-one b))
bit_xor-div (suc k) a b =
    rw (div-pow-suc (bit_xor a b) k, div-pow-suc a k, div-pow-suc b k, bit_xor-half a b)
      (bit_xor-div k (a / 2) (b / 2))

pub bit_xor-double : (a b : ℕ) → bit_xor (a * 2) (b * 2) ≡ bit_xor a b * 2
bit_xor-double a b =
    let ha : a * 2 / 2 ≡ a = omega arith in
    let hb : b * 2 / 2 ≡ b = omega arith in bit_xor_step (a * 2) (b * 2) ∙ rw (ha, hb) (omega arith)

bit_xor-digits :
    (x y d e : ℕ) → d < 2 → e < 2 → bit_xor (x * 2 + d) (y * 2 + e) ≡ bit_xor x y * 2 + (d + e) % 2
bit_xor-digits x y d e p q =
    let hx : (x * 2 + d) / 2 ≡ x = omega arith in
    let hy : (y * 2 + e) / 2 ≡ y = omega arith in
    bit_xor_step (x * 2 + d) (y * 2 + e) ∙ rw (hx, hy) (omega arith)

mod-pow-suc : (x k : ℕ) → x % 2 ^ suc k ≡ x / 2 % 2 ^ k * 2 + x % 2
mod-pow-suc x k =
    let p = 2 ^ k in
    let low = x / 2 % p * 2 + x % 2 in
    let split : x ≡ low + p * 2 * (x / 2 / p) = omega (arith, div-add-mod (x / 2) p) in
    let small : low < p * 2 =
      omega (arith, mod-lt (x / 2) {m = p} (one-le-pow k 2 (omega arith))) in
    rw (pow-suc 2 k) (
      ap (λ t. t % (p * 2)) split
      ∙ add-mul-mod_self_left low (p * 2) (x / 2 / p)
      ∙ mod-eq_of_lt small)

pub bit_xor-mod : (k a b : ℕ) → bit_xor a b % 2 ^ k ≡ bit_xor (a % 2 ^ k) (b % 2 ^ k)
bit_xor-mod zero a b = omega (arith, ap₂ bit_xor (mod-one a) (mod-one b))
bit_xor-mod (suc k) a b =
    rw (mod-pow-suc (bit_xor a b) k, mod-pow-suc a k, mod-pow-suc b k, bit_xor-half a b)
      (omega (
        arith,
        bit_xor-mod k (a / 2) (b / 2),
        bit_xor_step a b,
        bit_xor-digits (a / 2 % 2 ^ k) (b / 2 % 2 ^ k) (a % 2) (b % 2) (omega arith) (omega arith),
      ))
