-- ===== src/Crc/Modbus.antt =====
-- `utl_CalcCRC16` of utils.c, on two bytes, against a register of 16 bits.
use Prim.Native.Nat.{bit_and, bit_or, bit_xor}
use cvos.Prelude.{ℕ, zero, suc, ◌+◌, ◌/◌, ◌%◌, ◌^◌, ◌<◌, ◌≡◌, refl, sym, ◌∙◌, ap, arith, inl, inr}
use cvos.Prelude.{List, [], ◌∷◌, ◌++◌, some, true, Bool-cases, if◌then◌else◌, ◌==◌}
use cvos.Prelude.{all_below, all_below_sound, ==_iff, length, length-append, get-mid, pos}
use mathlib.Core.Path.{ap₂}
use mathlib.Core.List.{append_assoc}
use cvos.Prelude.Bits.{bit_xor-zero, bit_xor-lt}
use cvos.Prelude.Masks.{bit_and-one, bit_xor-div, bit_xor-mod}
use cvos.Crc.{calc_bit, calc_bits, calc_loop, calc_crc16}

-- one bit of CRC-16/MODBUS: the register moves down, and the polynomial comes in if a one falls out
unfoldable pub reg_bit : ℕ → ℕ
reg_bit r = if r % 2 == 1 then bit_xor (r / 2) 0xa001 else r / 2

unfoldable pub reg_bits : ℕ → ℕ → ℕ
reg_bits zero r = r
reg_bits (suc n) r = reg_bits n (reg_bit r)

-- the register after some bytes
unfoldable pub modbus : ℕ → List ℕ → ℕ
modbus r [] = r
modbus r (b ∷ bytes) = modbus (reg_bits 8 (bit_xor r b)) bytes

abbrev pub AllBytes : List ℕ → Type 0
AllBytes [] = Unit
AllBytes (b ∷ bytes) = (b < 256) × AllBytes bytes

-- CRC16Lo and CRC16Hi
abbrev pub halves : ℕ → ℕ × ℕ
halves r = (r % 256, r / 256)

or_table : all_below 128 (λ x. bit_or x 0x80 == x + 0x80) ≡ true
unfolding all_below
or_table = refl

reg_bit-lt : (r : ℕ) → r < 2 ^ 16 → reg_bit r < 2 ^ 16
unfolding reg_bit
reg_bit-lt r h = elim (Bool-cases (r % 2 == 1)) [
  | inl odd ↦ rw (reg_bit, odd) (bit_xor-lt 16 (r / 2) 0xa001 (omega arith) (omega arith))
  | inr even ↦ rw (reg_bit, even) (omega arith)
]

low_half :
    (r : ℕ)
    → r < 2 ^ 16
    → (if bit_and (r / 256) 1 == 1 then bit_or (r % 256 / 2) 0x80 else r % 256 / 2) ≡ r / 2 % 256
low_half r h =
    let mask = bit_and-one (r / 256) in
    elim (Bool-cases (r / 256 % 2 == 1)) [
      | inl one ↦
          let sum : bit_or (r % 256 / 2) 0x80 ≡ r % 256 / 2 + 0x80 =
            (==_iff _ _).0 (all_below_sound 128 _ (r % 256 / 2) or_table (omega arith)) in
          let bit : r / 256 % 2 ≡ 1 = (==_iff _ _).0 one in rw (mask, one, sum) (omega arith)
      | inr nought ↦
          let bit : r / 256 % 2 ≡ 0 = ground (arith, nought) in rw (mask, nought) (omega arith)
    ]

calc_bit-halves : (r : ℕ) → r < 2 ^ 16 → calc_bit (halves r) ≡ halves (reg_bit r)
unfolding calc_bit reg_bit
calc_bit-halves r h =
    let low = low_half r h in
    let high : r / 256 / 2 ≡ r / 2 / 256 = omega arith in
    let mask : bit_and (r % 256) 1 ≡ r % 2 = bit_and-one (r % 256) ∙ omega arith in
    elim (Bool-cases (r % 2 == 1)) [
      | inl odd ↦
          rw (calc_bit, low, high, mask, reg_bit, odd)
            (ap₂ (λ x y. (x, y)) (sym (bit_xor-mod 8 (r / 2) 0xa001))
              (sym (bit_xor-div 8 (r / 2) 0xa001)))
      | inr even ↦ rw (calc_bit, low, high, mask, reg_bit, even)
    ]

reg_bits-lt : (n r : ℕ) → r < 2 ^ 16 → reg_bits n r < 2 ^ 16
unfolding reg_bits
reg_bits-lt zero r h = h
reg_bits-lt (suc n) r h = reg_bits-lt n (reg_bit r) (reg_bit-lt r h)

calc_bits-halves : (n r : ℕ) → r < 2 ^ 16 → calc_bits n (halves r) ≡ halves (reg_bits n r)
unfolding calc_bits reg_bits
calc_bits-halves zero r h = refl
calc_bits-halves (suc n) r h =
    ap (calc_bits n) (calc_bit-halves r h) ∙ calc_bits-halves n (reg_bit r) (reg_bit-lt r h)

halves-xor : (r b : ℕ) → b < 256 → (bit_xor (r % 256) b, r / 256) ≡ halves (bit_xor r b)
halves-xor r b h =
    let small : b % 256 ≡ b = omega arith in
    let nought : b / 256 ≡ 0 = omega arith in
    ap₂ (λ x y. (x, y)) (ap (bit_xor (r % 256)) (sym small) ∙ sym (bit_xor-mod 8 r b))
      (sym (bit_xor-zero (r / 256)) ∙ ap (bit_xor (r / 256)) (sym nought) ∙ sym (bit_xor-div 8 r b))

calc_loop-modbus :
    (xs bytes : List ℕ) (r i : ℕ)
    → i ≡ length xs
    → r < 2 ^ 16
    → AllBytes bytes
    → calc_loop (length bytes) i (halves r) (xs ++ bytes) ≡ some (halves (modbus r bytes))
unfolding calc_loop modbus
calc_loop-modbus xs [] r i at h all = refl
calc_loop-modbus xs (b ∷ bytes) r i at h (small, all) =
    let r' = reg_bits 8 (bit_xor r b) in
    let mixed : bit_xor r b < 2 ^ 16 = bit_xor-lt 16 r b h (omega arith) in
    let one : calc_bits 8 (bit_xor (r % 256) b, r / 256) ≡ halves r' =
      ap (calc_bits 8) (halves-xor r b small) ∙ calc_bits-halves 8 (bit_xor r b) mixed in
    rw (calc_loop, get-mid xs bytes b i at)
      (ap (λ t. calc_loop (length bytes) (i + 1) t (xs ++ (b ∷ bytes))) one
        ∙ ap (calc_loop (length bytes) (i + 1) (halves r')) (sym (append_assoc xs (b ∷ []) bytes))
        ∙ calc_loop-modbus (xs ++ (b ∷ [])) bytes r' (i + 1)
            (omega (arith, length-append xs (b ∷ []), at)) (reg_bits-lt 8 (bit_xor r b) mixed) all)

-- On bytes, `utl_CalcCRC16` reads nothing out of range and gives the low and the high half of the 16-bit
-- register that starts at 0xffff and takes the bytes one after the other, the lowest bit first.
pub calc_crc16-modbus :
    (bytes : List ℕ)
    → AllBytes bytes
    → calc_crc16 bytes (pos (length bytes))
      ≡ some (modbus 0xffff bytes % 256, modbus 0xffff bytes / 256)
unfolding calc_crc16
calc_crc16-modbus bytes all = calc_loop-modbus [] bytes 0xffff 0 refl (omega arith) all
