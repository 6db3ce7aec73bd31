-- ===== src/Crc.antt =====
-- The checksums: `CRC16_CRCCCITT` of vos.c, `_SumCRC16` of msg.c and `utl_CalcCRC16` of utils.c.
-- A byte is a number below 256; a `char` stands for its bit pattern, of which the loops use no more
-- than the low eight bits. `none` is a read behind the end of the data, which C leaves undefined.
pub mod Register
pub mod Bytes
pub mod Detect
pub mod Division
pub mod Modbus
mod Tests
use Prim.Native.Nat.{bit_and, bit_or, bit_xor}
use cvos.Prelude.{ℕ, zero, suc, ◌+◌, ◌*◌, ◌/◌, ◌%◌, ◌^◌, List, Option, none, some, ℤ, pos, negsuc}
use cvos.Prelude.{get_elem?, not, if◌then◌else◌, ◌==◌}

-- One turn of the inner loop of `_SumCRC16`, on the register, the byte and the bit number `j`.
unfoldable pub crc_bit : ℕ → ℕ → ℕ → ℕ
crc_bit crc byte j =
    let temp = bit_xor (bit_and (byte * 2 ^ j) 0x80) (bit_and crc 0x8000 / 2 ^ 8) in
    let shifted = crc * 2 % 2 ^ 16 in if temp == 0 then shifted else bit_xor shifted 0x1021

-- The inner loop with `left` turns to go, from bit `j` on.
unfoldable pub crc_bits : ℕ → ℕ → ℕ → ℕ → ℕ
crc_bits zero j crc byte = crc
crc_bits (suc left) j crc byte = crc_bits left (j + 1) (crc_bit crc byte j) byte

-- The outer loop with `left` bytes to go, from index `i` on.
pub crc_loop : ℕ → ℕ → ℕ → List ℕ → Option ℕ
crc_loop zero i crc bytes = some crc
crc_loop (suc left) i crc bytes = elim (get_elem? bytes i) [
  | none ↦ none
  | some b ↦ crc_loop left (i + 1) (crc_bits 8 0 crc b) bytes
]

pub sum_crc16 : List ℕ → ℕ → Option ℕ
sum_crc16 bytes len = crc_loop len 0 0xffff bytes

-- One turn of the inner loop of `CRC16_CRCCCITT`; a `char` enters with its bit pattern.
unfoldable pub ccitt_bit : ℕ → ℕ → ℕ → ℕ
ccitt_bit crc byte j =
    let temp = bit_xor (bit_and (byte * 2 ^ j) 0x80) (bit_and crc 0x8000 / 2 ^ 8) in
    let shifted = crc * 2 % 2 ^ 16 in if not (temp == 0) then bit_xor shifted 0x1021 else shifted

-- The inner loop of `CRC16_CRCCCITT` with `left` turns to go, from bit `j` on.
unfoldable pub ccitt_bits : ℕ → ℕ → ℕ → ℕ → ℕ
ccitt_bits zero j crc byte = crc
ccitt_bits (suc left) j crc byte = ccitt_bits left (j + 1) (ccitt_bit crc byte j) byte

-- The outer loop of `CRC16_CRCCCITT` with `left` bytes to go, from index `i` on.
unfoldable pub ccitt_loop : ℕ → ℕ → ℕ → List ℕ → Option ℕ
ccitt_loop zero i crc bytes = some crc
ccitt_loop (suc left) i crc bytes = elim (get_elem? bytes i) [
  | none ↦ none
  | some b ↦ ccitt_loop left (i + 1) (ccitt_bits 8 0 crc b) bytes
]

-- `CRC16_CRCCCITT` takes its length as a signed `int`, so a negative length reads nothing.
pub crc_ccitt : List ℕ → ℤ → Option ℕ
crc_ccitt bytes (pos len) = ccitt_loop len 0 0xffff bytes
crc_ccitt bytes (negsuc n) = some 0xffff

-- One turn of the inner loop of `utl_CalcCRC16`, on the pair of CRC16Lo and CRC16Hi.
pub calc_bit : ℕ × ℕ → ℕ × ℕ
calc_bit (lo, hi) =
    let hi' = hi / 2 in
    let lo' = if bit_and hi 1 == 1 then bit_or (lo / 2) 0x80 else lo / 2 in
    if bit_and lo 1 == 1 then (bit_xor lo' 0x01, bit_xor hi' 0xa0) else (lo', hi')

pub calc_bits : ℕ → ℕ × ℕ → ℕ × ℕ
calc_bits zero r = r
calc_bits (suc left) r = calc_bits left (calc_bit r)

pub calc_loop : ℕ → ℕ → ℕ × ℕ → List ℕ → Option (ℕ × ℕ)
calc_loop zero i r bytes = some r
calc_loop (suc left) i (lo, hi) bytes = elim (get_elem? bytes i) [
  | none ↦ none
  | some b ↦ calc_loop left (i + 1) (calc_bits 8 (bit_xor lo b, hi)) bytes
]

-- `*LByte` and `*HByte`; a negative `len` runs no turn.
pub calc_crc16 : List ℕ → ℤ → Option (ℕ × ℕ)
calc_crc16 bytes (pos len) = calc_loop len 0 (0xff, 0xff) bytes
calc_crc16 bytes (negsuc n) = some (0xff, 0xff)
