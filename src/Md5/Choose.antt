-- ===== src/Md5/Choose.antt =====
-- The first two auxiliary functions of MD5: the code's form with two exclusive ors, and that of the definition.
use Prim.Native.Nat.{bit_and, bit_or, bit_xor, bit_or-bitwise, bit_and-bitwise, digits, min, max}
use cvos.Prelude.{ℕ, zero, suc, ◌+◌, ◌-◌, ◌*◌, ◌/◌, ◌%◌, ◌^◌, ◌<◌, ◌≡◌, refl, sym, ◌∙◌, ap, arith}
use native.Mathlib.Nat.{pow-suc}
use cvos.Prelude.Digits.{digits_agree}
use cvos.Prelude.Bits.{bit_xor_step}
use cvos.Prelude.Masks.{bit_and_step}

bit_or_step : (a b : ℕ) → bit_or a b ≡ bit_or (a / 2) (b / 2) * 2 + max (a % 2) (b % 2)
bit_or_step zero b = omega (arith, bit_or-bitwise 0 b, bit_or-bitwise 0 (b / 2))
bit_or_step (suc a) b =
    let h = suc a / 2 in
    let above : digits (λ t. t) max a h (b / 2) ≡ digits (λ t. t) max h h (b / 2) =
      digits_agree (λ t. t) max a h h (b / 2) (omega arith) (omega arith) in
    bit_or-bitwise (suc a) b
    ∙ ap (λ t. t * 2 + max (suc a % 2) (b % 2)) (above ∙ sym (bit_or-bitwise h (b / 2)))

-- one digit of each operand
choose_digit :
    (x y z : ℕ)
    → x < 2
    → y < 2
    → z < 2
    → (z + min x ((y + z) % 2)) % 2 ≡ max (min x y) (min (1 - x) z)
choose_digit zero y z hx hy hz = omega arith
choose_digit (suc zero) zero zero hx hy hz = refl
choose_digit (suc zero) zero (suc zero) hx hy hz = refl
choose_digit (suc zero) (suc zero) zero hx hy hz = refl
choose_digit (suc zero) (suc zero) (suc zero) hx hy hz = refl
choose_digit (suc zero) (suc (suc y)) z hx hy hz = absurd (omega arith)
choose_digit (suc zero) y (suc (suc z)) hx hy hz = absurd (omega arith)
choose_digit (suc (suc x)) y z hx hy hz = absurd (omega arith)

-- On words of `k` bits: `z ^ (x & (y ^ z))` is `(x & y) | (~x & z)`.
pub choose_lem :
    (k x y z : ℕ)
    → x < 2 ^ k
    → z < 2 ^ k
    → bit_xor z (bit_and x (bit_xor y z)) ≡ bit_or (bit_and x y) (bit_and (2 ^ k - 1 - x) z)
choose_lem zero zero y zero hx hz =
    let left : bit_and 0 (bit_xor y 0) ≡ 0 = bit_and-bitwise 0 (bit_xor y 0) in
    let right : bit_and 0 y ≡ 0 = bit_and-bitwise 0 y in rw (left, right) refl
choose_lem zero (suc x) y z hx hz = absurd (omega arith)
choose_lem zero zero y (suc z) hx hz = absurd (omega arith)
choose_lem (suc k) x y z hx hz =
    let v = bit_xor y z in
    let w = bit_and x v in
    let n = 2 ^ suc k - 1 - x in
    let p = pow-suc 2 k in
    let half_n : n / 2 ≡ 2 ^ k - 1 - x / 2 = omega (arith, p) in
    let low_n : n % 2 ≡ 1 - x % 2 = omega (arith, p) in
    let half_v : v / 2 ≡ bit_xor (y / 2) (z / 2) = omega (arith, bit_xor_step y z) in
    let low_v : v % 2 ≡ (y + z) % 2 = omega (arith, bit_xor_step y z) in
    let half_w : w / 2 ≡ bit_and (x / 2) (v / 2) = omega (arith, bit_and_step x v) in
    let low_w : w % 2 ≡ min (x % 2) (v % 2) = omega (arith, bit_and_step x v) in
    let half_a : bit_and x y / 2 ≡ bit_and (x / 2) (y / 2) = omega (arith, bit_and_step x y) in
    let low_a : bit_and x y % 2 ≡ min (x % 2) (y % 2) = omega (arith, bit_and_step x y) in
    let half_b : bit_and n z / 2 ≡ bit_and (n / 2) (z / 2) = omega (arith, bit_and_step n z) in
    let low_b : bit_and n z % 2 ≡ min (n % 2) (z % 2) = omega (arith, bit_and_step n z) in
    let above : bit_xor (z / 2) (w / 2) ≡ bit_or (bit_and x y / 2) (bit_and n z / 2) =
      ap (λ t. bit_xor (z / 2) t) (half_w ∙ ap (bit_and (x / 2)) half_v)
      ∙ choose_lem k (x / 2) (y / 2) (z / 2) (omega (arith, p)) (omega (arith, p))
      ∙ ap (λ t. bit_or t (bit_and (2 ^ k - 1 - x / 2) (z / 2))) (sym half_a)
      ∙ ap (λ t. bit_or (bit_and x y / 2) (bit_and t (z / 2))) (sym half_n)
      ∙ ap (bit_or (bit_and x y / 2)) (sym half_b) in
    let digit = choose_digit (x % 2) (y % 2) (z % 2) (omega arith) (omega arith) (omega arith) in
    omega (
      arith,
      bit_xor_step z w,
      bit_or_step (bit_and x y) (bit_and n z),
      above,
      digit,
      low_n,
      low_v,
      low_w,
      low_a,
      low_b,
    )
