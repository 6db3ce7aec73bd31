-- ===== src/Crc/Tests.antt =====
-- Runs of the checksums of msg.c, vos.c and utils.c, and their theorems at concrete inputs.
use cvos.Prelude.{ℕ, ◌/◌, ◌%◌, ◌≡◌, refl, arith, some, none, List, [], ◌∷◌, pos}
use cvos.Prelude.{take}
use cvos.Crc.{
  crc_bit, crc_bits, crc_loop, sum_crc16, crc_ccitt, calc_bit, calc_bits, calc_loop, calc_crc16,
}
use cvos.Crc.{ccitt_loop, ccitt_bits, ccitt_bit}
use cvos.Crc.Division.{divide, message_bits, crc16_division}
use cvos.Crc.Modbus.{modbus, calc_crc16-modbus}
use cvos.Crc.Detect.{sum_crc16-detects}

-- the digits 1 to 9, in ASCII
abbrev digits : List ℕ
digits = 0x31 ∷ 0x32 ∷ 0x33 ∷ 0x34 ∷ 0x35 ∷ 0x36 ∷ 0x37 ∷ 0x38 ∷ 0x39 ∷ []

-- the check value of CRC-16/CCITT-FALSE
check_value : sum_crc16 digits 9 ≡ some 0x29b1
unfolding sum_crc16 crc_loop crc_bits crc_bit
check_value = refl

-- the check value of CRC-16/MODBUS, its low byte first
modbus_value : calc_crc16 digits (pos 9) ≡ some (0x37, 0x4b)
unfolding calc_crc16 calc_loop calc_bits calc_bit
modbus_value = refl

outside : sum_crc16 digits 10 ≡ none
unfolding sum_crc16 crc_loop crc_bits crc_bit
outside = refl

ccitt_value : crc_ccitt digits (pos 9) ≡ some 0x29b1
unfolding crc_ccitt ccitt_loop ccitt_bits ccitt_bit
ccitt_value = refl

crc16_division_example :
    (sum_crc16 digits 4 ≡ some (divide 0xffff (message_bits (take 4 digits))))
    × (crc_ccitt digits (pos 4) ≡ some (divide 0xffff (message_bits (take 4 digits))))
crc16_division_example = crc16_division digits 4 (omega arith) (omega arith)

sum_crc16-detects_example : (◌≡◌ {A = ℕ} 2 2) × (◌≡◌ {A = ℕ} 3 3)
sum_crc16-detects_example =
    sum_crc16-detects (1 ∷ []) (4 ∷ 5 ∷ []) 2 3 2 3 (omega arith) (omega arith) (omega arith)
      (omega arith) refl

calc_crc16-modbus_example :
    calc_crc16 (0x31 ∷ 0x32 ∷ []) (pos 2)
    ≡ some (modbus 0xffff (0x31 ∷ 0x32 ∷ []) % 256, modbus 0xffff (0x31 ∷ 0x32 ∷ []) / 256)
calc_crc16-modbus_example = calc_crc16-modbus (0x31 ∷ 0x32 ∷ []) (omega arith, (omega arith, tt))
