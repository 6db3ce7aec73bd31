-- ===== src/Crc/Bytes.antt =====
-- A byte and a message under the CRC: linearity over exclusive or, injectivity, and the tables that
-- these rest on.
use Prim.Native.Nat.{bit_xor}
use cvos.Prelude.{ℕ, zero, suc, ◌+◌, ◌*◌, ◌/◌, ◌%◌, ◌^◌, ◌<◌, ◌≡◌, refl, sym, ◌∙◌, ap, arith}
use mathlib.Core.Path.{ap₂}
use native.Mathlib.Nat.{pow-suc}
use cvos.Prelude.{◌==◌, true, all_below, not, ◌||◌}
use cvos.Prelude.{List, [], ◌∷◌}
use cvos.Prelude.Bits.{bit_xor_self, bit_xor-eq-zero, bit_xor-lt}
use cvos.Prelude.Masks.{bit_xor-div, bit_xor-double, bit_xor-mod}
use cvos.Crc.{crc_bit, crc_bits}
use cvos.Crc.Register.{lfsr, crc_bit_lem, lfsr-lt, lfsr-xor, lfsr-eq-zero}

-- The register after one byte, and after a message.
abbrev pub crc_byte : ℕ → ℕ → ℕ
crc_byte c b = crc_bits 8 0 c b

unfoldable pub crc_fold : ℕ → List ℕ → ℕ
crc_fold c [] = c
crc_fold c (b ∷ bs) = crc_fold (crc_byte c b) bs

crc_bit-lt : (c b j : ℕ) → c < 2 ^ 16 → crc_bit c b j < 2 ^ 16
crc_bit-lt c b j h = rw (crc_bit_lem c b j h) (lfsr-lt c (b * 2 ^ j / 128 % 2))

crc_bits-lt : (n j c b : ℕ) → c < 2 ^ 16 → crc_bits n j c b < 2 ^ 16
unfolding crc_bits
crc_bits-lt zero j c b h = h
crc_bits-lt (suc n) j c b h = crc_bits-lt n (j + 1) (crc_bit c b j) b (crc_bit-lt c b j h)

pub crc_byte-lt : (c b : ℕ) → c < 2 ^ 16 → crc_byte c b < 2 ^ 16
crc_byte-lt c b h = crc_bits-lt 8 0 c b h

pub crc_fold-lt : (c : ℕ) (bs : List ℕ) → c < 2 ^ 16 → crc_fold c bs < 2 ^ 16
unfolding crc_fold
crc_fold-lt c [] h = h
crc_fold-lt c (b ∷ bs) h = crc_fold-lt (crc_byte c b) bs (crc_byte-lt c b h)

mul_one : (x : ℕ) → x * 1 ≡ x
mul_one x = omega arith

mul-pow-suc : (x j : ℕ) → x * 2 ^ suc j ≡ x * 2 ^ j * 2
mul-pow-suc x j = omega (arith, ap (λ (t : ℕ). x * t) (pow-suc 2 j))

bit_xor-shift : (j x y : ℕ) → bit_xor x y * 2 ^ j ≡ bit_xor (x * 2 ^ j) (y * 2 ^ j)
bit_xor-shift zero x y = omega (arith, ap₂ bit_xor (mul_one x) (mul_one y))
bit_xor-shift (suc j) x y =
    rw (mul-pow-suc (bit_xor x y) j, mul-pow-suc x j, mul-pow-suc y j)
      (ap (λ t. t * 2) (bit_xor-shift j x y) ∙ sym (bit_xor-double (x * 2 ^ j) (y * 2 ^ j)))

data_bit-xor :
    (j x y : ℕ)
    → bit_xor x y * 2 ^ j / 128 % 2 ≡ bit_xor (x * 2 ^ j / 128 % 2) (y * 2 ^ j / 128 % 2)
data_bit-xor j x y = rw (bit_xor-shift j x y) (
    ap (λ t. t % 2) (bit_xor-div 7 (x * 2 ^ j) (y * 2 ^ j))
    ∙ bit_xor-mod 1 (x * 2 ^ j / 128) (y * 2 ^ j / 128))

crc_bits-xor :
    (n j a b x y : ℕ)
    → a < 2 ^ 16
    → b < 2 ^ 16
    → crc_bits n j (bit_xor a b) (bit_xor x y) ≡ bit_xor (crc_bits n j a x) (crc_bits n j b y)
unfolding crc_bits
crc_bits-xor zero j a b x y ha hb = refl
crc_bits-xor (suc n) j a b x y ha hb =
    let step : crc_bit (bit_xor a b) (bit_xor x y) j ≡ bit_xor (crc_bit a x j) (crc_bit b y j) =
      rw
        (
          crc_bit_lem (bit_xor a b) (bit_xor x y) j (bit_xor-lt 16 a b ha hb),
          crc_bit_lem a x j ha,
          crc_bit_lem b y j hb,
          data_bit-xor j x y,
        )
        (lfsr-xor a b (x * 2 ^ j / 128 % 2) (y * 2 ^ j / 128 % 2) ha hb (omega arith)
          (omega arith)) in
    rw step (
      crc_bits-xor n (j + 1) (crc_bit a x j) (crc_bit b y j) x y (crc_bit-lt a x j ha)
        (crc_bit-lt b y j hb))

-- Exclusive or passes through a byte's turns.
pub crc_byte-xor :
    (a b x y : ℕ)
    → a < 2 ^ 16
    → b < 2 ^ 16
    → crc_byte (bit_xor a b) (bit_xor x y) ≡ bit_xor (crc_byte a x) (crc_byte b y)
crc_byte-xor a b x y ha hb = crc_bits-xor 8 0 a b x y ha hb

pub crc_bits-eq-zero : (n j c : ℕ) → c < 2 ^ 16 → crc_bits n j c 0 ≡ 0 → c ≡ 0
unfolding crc_bits
crc_bits-eq-zero zero j c h e = e
crc_bits-eq-zero (suc n) j c h e = lfsr-eq-zero c h (
    (ap (λ d. lfsr c d) (omega arith) ∙ sym (crc_bit_lem c 0 j h))
    ∙ crc_bits-eq-zero n (j + 1) (crc_bit c 0 j) (crc_bit-lt c 0 j h) e)

-- On one byte the register after it tells the register before it.
pub crc_byte_register : (a b x : ℕ) → a < 2 ^ 16 → b < 2 ^ 16 → crc_byte a x ≡ crc_byte b x → a ≡ b
crc_byte_register a b x ha hb e =
    let both : crc_byte (bit_xor a b) 0 ≡ 0 =
      ap (crc_byte (bit_xor a b)) (sym (bit_xor_self x))
      ∙ crc_byte-xor a b x x ha hb
      ∙ ap (λ t. bit_xor t (crc_byte b x)) e
      ∙ bit_xor_self (crc_byte b x) in
    bit_xor-eq-zero a b (crc_bits-eq-zero 8 0 (bit_xor a b) (bit_xor-lt 16 a b ha hb) both)

-- The tables: a byte from register 0 acts as if it stood in the register's high half; the low half
-- of what it leaves is 0 for the byte 0 alone; a register below 256 moves to the high half.
pub high_table : all_below 256 (λ v. crc_byte 0 v == crc_byte (v * 256) 0) ≡ true
unfolding all_below crc_bits crc_bit
high_table = refl

pub low_table : all_below 256 (λ v. v == 0 || not (crc_byte 0 v % 256 == 0)) ≡ true
unfolding all_below crc_bits crc_bit
low_table = refl

pub move_table : all_below 256 (λ v. crc_byte v 0 == v * 256) ≡ true
unfolding all_below crc_bits crc_bit
move_table = refl
