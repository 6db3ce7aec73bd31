-- ===== src/Crc/Register.antt =====
-- The register that the loops of `_SumCRC16` step, as a shift register over exclusive or: one step
-- is linear, and is undone by its result.
use Prim.Native.Nat.{bit_and, bit_xor}
use cvos.Prelude.{ℕ, zero, suc, ◌+◌, ◌*◌, ◌/◌, ◌%◌, ◌^◌, ◌<◌, ◌≡◌, refl, sym, ◌∙◌, ap, arith}
use cvos.Prelude.{◌==◌, if◌then◌else◌}
use cvos.Prelude.Bits.{bit_xor-zero, bit_xor_step, bit_xor-lt}
use cvos.Prelude.Masks.{
  bit_and_128, bit_and_32768, bit_xor-div, bit_xor-double, bit_xor-mod, bit_xor_swap,
}
use cvos.Crc.{crc_bit}

-- One step on register `c` with data bit `d`.
abbrev pub lfsr : ℕ → ℕ → ℕ
lfsr c d = bit_xor (c * 2 % 65536) ((c / 32768 + d) % 2 * 0x1021)

xor_digit : (d e : ℕ) → d < 2 → e < 2 → (bit_xor (d * 128) (e * 128) == 0) ≡ ((d + e) % 2 == 0)
xor_digit zero zero p q = refl
xor_digit zero (suc zero) p q = refl
xor_digit (suc zero) zero p q = refl
xor_digit (suc zero) (suc zero) p q = refl
xor_digit zero (suc (suc e)) p q = absurd (omega arith)
xor_digit (suc zero) (suc (suc e)) p q = absurd (omega arith)
xor_digit (suc (suc d)) e p q = absurd (omega arith)

choose : (x d : ℕ) → d < 2 → (if d == 0 then x else bit_xor x 0x1021) ≡ bit_xor x (d * 0x1021)
choose x zero h = sym (bit_xor-zero x)
choose x (suc zero) h = refl
choose x (suc (suc d)) h = absurd (omega arith)

-- The code's step takes bit `7 - j` of the byte.
pub crc_bit_lem : (c b j : ℕ) → c < 2 ^ 16 → crc_bit c b j ≡ lfsr c (b * 2 ^ j / 128 % 2)
unfolding crc_bit
crc_bit_lem c b j h =
    let x = b * 2 ^ j / 128 % 2 in
    let t = c / 32768 in
    let high : bit_and c 32768 / 256 ≡ t * 128 = omega (arith, bit_and_32768 c) in
    rw (bit_and_128 (b * 2 ^ j), high, xor_digit x t (omega arith) (omega arith))
      (choose (c * 2 % 65536) ((x + t) % 2) (omega arith)
        ∙ ap (λ s. bit_xor (c * 2 % 65536) (s % 2 * 4129)) (omega arith))

pub lfsr-lt : (c d : ℕ) → lfsr c d < 2 ^ 16
lfsr-lt c d =
    bit_xor-lt 16 (c * 2 % 65536) ((c / 32768 + d) % 2 * 0x1021) (omega arith) (omega arith)

scale_xor : (s t : ℕ) → s < 2 → t < 2 → bit_xor (s * 0x1021) (t * 0x1021) ≡ (s + t) % 2 * 0x1021
scale_xor zero zero p q = refl
scale_xor zero (suc zero) p q = refl
scale_xor (suc zero) zero p q = refl
scale_xor (suc zero) (suc zero) p q = refl
scale_xor zero (suc (suc e)) p q = absurd (omega arith)
scale_xor (suc zero) (suc (suc e)) p q = absurd (omega arith)
scale_xor (suc (suc d)) e p q = absurd (omega arith)

xor_small : (d e : ℕ) → d < 2 → e < 2 → bit_xor d e ≡ (d + e) % 2
xor_small zero zero p q = refl
xor_small zero (suc zero) p q = refl
xor_small (suc zero) zero p q = refl
xor_small (suc zero) (suc zero) p q = refl
xor_small zero (suc (suc e)) p q = absurd (omega arith)
xor_small (suc zero) (suc (suc e)) p q = absurd (omega arith)
xor_small (suc (suc d)) e p q = absurd (omega arith)

-- Two runs that step side by side keep their exclusive or in step.
pub lfsr-xor :
    (a b d e : ℕ)
    → a < 2 ^ 16
    → b < 2 ^ 16
    → d < 2
    → e < 2
    → lfsr (bit_xor a b) (bit_xor d e) ≡ bit_xor (lfsr a d) (lfsr b e)
lfsr-xor a b d e ha hb hd he =
    let s = (a / 32768 + d) % 2 in
    let t = (b / 32768 + e) % 2 in
    let top : (bit_xor a b / 32768 + bit_xor d e) % 2 ≡ (s + t) % 2 = omega (
      arith,
      bit_xor-div 15 a b,
      xor_small (a / 32768) (b / 32768) (omega arith) (omega arith),
      xor_small d e hd he,
    ) in
    rw
      (
        bit_xor_swap (a * 2 % 65536) (s * 0x1021) (b * 2 % 65536) (t * 0x1021),
        scale_xor s t (omega arith) (omega arith),
        ← bit_xor-mod 16 (a * 2) (b * 2),
        bit_xor-double a b,
      )
      (ap (λ u. bit_xor (bit_xor a b * 2 % 65536) (u * 0x1021)) top)

-- Only the register 0 steps to 0 on data bit 0.
pub lfsr-eq-zero : (c : ℕ) → c < 2 ^ 16 → lfsr c 0 ≡ 0 → c ≡ 0
lfsr-eq-zero c h e =
    let t = (c / 32768 + 0) % 2 in
    let clear : t ≡ 0 = omega (arith, bit_xor_step (c * 2 % 65536) (t * 0x1021), e) in
    let shifted : c * 2 % 65536 ≡ 0 =
      sym (bit_xor-zero (c * 2 % 65536))
      ∙ ap (λ s. bit_xor (c * 2 % 65536) (s * 0x1021)) (sym clear)
      ∙ e in
    omega (arith, clear, shifted)
