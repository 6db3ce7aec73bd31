-- ===== src/Crc/Division.antt =====
-- `_SumCRC16` and `CRC16_CRCCCITT` against the definition of the checksum: the bits of the message, the high bit
-- of a byte first, shifted one by one through a register that is divided by x^16 + x^12 + x^5 + 1.
use Prim.Native.Nat.{bit_and, bit_xor}
use cvos.Prelude.{ℕ, zero, suc, ◌+◌, ◌*◌, ◌/◌, ◌%◌, ◌^◌, ◌≤◌, ◌<◌, ◌≡◌, refl, sym, ◌∙◌, ap, arith}
use cvos.Prelude.{List, [], ◌∷◌, ◌++◌, some, pos, take, length, get_elem?}
use cvos.Prelude.{◌==◌, Bool-cases, Option-cases, inl, inr}
use cvos.Crc.{crc_bit, crc_bits, crc_loop, sum_crc16, ccitt_bit, ccitt_bits, ccitt_loop, crc_ccitt}
use cvos.Crc.Register.{crc_bit_lem, lfsr-lt}
use cvos.Crc.Bytes.{crc_byte, crc_fold, crc_byte-lt}
use cvos.Crc.Detect.{sum_crc16-fold}

-- The register of 16 bits doubled, with the polynomial taken off where the bit that leaves it and the bit of
-- the message differ
abbrev pub divide_bit : ℕ → ℕ → ℕ
divide_bit c d = bit_xor (c * 2 % 2 ^ 16) ((c / 2 ^ 15 + d) % 2 * 0x1021)

unfoldable pub divide : ℕ → List ℕ → ℕ
divide c [] = c
divide c (d ∷ ds) = divide (divide_bit c d) ds

-- The bits of a byte, the high one first
abbrev pub bits_of : ℕ → List ℕ
bits_of b =
    b / 128 % 2
    ∷ b / 64 % 2
    ∷ b / 32 % 2
    ∷ b / 16 % 2
    ∷ b / 8 % 2
    ∷ b / 4 % 2
    ∷ b / 2 % 2
    ∷ b % 2
    ∷ []

unfoldable pub message_bits : List ℕ → List ℕ
message_bits [] = []
message_bits (b ∷ bs) = bits_of b ++ message_bits bs

divide-append : (c : ℕ) (xs ys : List ℕ) → divide c (xs ++ ys) ≡ divide (divide c xs) ys
unfolding divide
divide-append c [] ys = refl
divide-append c (x ∷ xs) ys = divide-append (divide_bit c x) xs ys

-- the bits in the order in which the inner loop takes them
turn_bits : ℕ → ℕ → ℕ → List ℕ
turn_bits zero j b = []
turn_bits (suc n) j b = b * 2 ^ j / 128 % 2 ∷ turn_bits n (j + 1) b

crc_bits-divide : (n j c b : ℕ) → c < 2 ^ 16 → crc_bits n j c b ≡ divide c (turn_bits n j b)
unfolding crc_bits divide turn_bits
crc_bits-divide zero j c b h = refl
crc_bits-divide (suc n) j c b h =
    let d = b * 2 ^ j / 128 % 2 in
    ap (λ t. crc_bits n (j + 1) t b) (crc_bit_lem c b j h)
    ∙ crc_bits-divide n (j + 1) (divide_bit c d) b (lfsr-lt c d)

turn_bits-eight : (b : ℕ) → turn_bits 8 0 b ≡ bits_of b
unfolding turn_bits
turn_bits-eight b =
    let e0 : b * 1 / 128 % 2 ≡ b / 128 % 2 = omega arith in
    let e1 : b * 2 / 128 % 2 ≡ b / 64 % 2 = omega arith in
    let e2 : b * 4 / 128 % 2 ≡ b / 32 % 2 = omega arith in
    let e3 : b * 8 / 128 % 2 ≡ b / 16 % 2 = omega arith in
    let e4 : b * 16 / 128 % 2 ≡ b / 8 % 2 = omega arith in
    let e5 : b * 32 / 128 % 2 ≡ b / 4 % 2 = omega arith in
    let e6 : b * 64 / 128 % 2 ≡ b / 2 % 2 = omega arith in
    let e7 : b * 128 / 128 % 2 ≡ b % 2 = omega arith in rw (e0, e1, e2, e3, e4, e5, e6, e7) refl

crc_byte-divide : (c b : ℕ) → c < 2 ^ 16 → crc_byte c b ≡ divide c (bits_of b)
crc_byte-divide c b h = crc_bits-divide 8 0 c b h ∙ ap (divide c) (turn_bits-eight b)

crc_fold-divide : (c : ℕ) (bs : List ℕ) → c < 2 ^ 16 → crc_fold c bs ≡ divide c (message_bits bs)
unfolding crc_fold message_bits divide
crc_fold-divide c [] h = refl
crc_fold-divide c (b ∷ bs) h =
    crc_fold-divide (crc_byte c b) bs (crc_byte-lt c b h)
    ∙ ap (λ t. divide t (message_bits bs)) (crc_byte-divide c b h)
    ∙ sym (divide-append c (bits_of b) (message_bits bs))

ccitt_bit-crc_bit : (c b j : ℕ) → ccitt_bit c b j ≡ crc_bit c b j
unfolding ccitt_bit crc_bit
ccitt_bit-crc_bit c b j =
    elim (Bool-cases (bit_xor (bit_and (b * 2 ^ j) 0x80) (bit_and c 0x8000 / 2 ^ 8) == 0)) [
      | inl e ↦ rw e refl
      | inr e ↦ rw e refl
    ]

ccitt_bits-crc_bits : (n j c b : ℕ) → ccitt_bits n j c b ≡ crc_bits n j c b
unfolding ccitt_bits crc_bits
ccitt_bits-crc_bits zero j c b = refl
ccitt_bits-crc_bits (suc n) j c b =
    ap (λ t. ccitt_bits n (j + 1) t b) (ccitt_bit-crc_bit c b j)
    ∙ ccitt_bits-crc_bits n (j + 1) (crc_bit c b j) b

ccitt_loop-crc_loop : (n i c : ℕ) (bytes : List ℕ) → ccitt_loop n i c bytes ≡ crc_loop n i c bytes
unfolding ccitt_loop crc_loop
ccitt_loop-crc_loop zero i c bytes = refl
ccitt_loop-crc_loop (suc n) i c bytes = elim (Option-cases (get_elem? bytes i)) [
  | inl end ↦ rw (ccitt_loop, crc_loop, end) refl
  | inr (b, e) ↦
      rw (ccitt_loop, crc_loop, e)
        (ap (λ t. ccitt_loop n (i + 1) t bytes) (ccitt_bits-crc_bits 8 0 c b)
          ∙ ccitt_loop-crc_loop n (i + 1) (crc_byte c b) bytes)
]

-- On the first `len` bytes of the data, fewer than 2 ^ 31, `_SumCRC16` of msg.c and `CRC16_CRCCCITT` of vos.c
-- read nothing out of range, and both give the remainder that the bits of these bytes, the high bit of each
-- first, leave in a register of 16 bits that starts at 0xffff and is divided by the polynomial 0x1021.
pub crc16_division :
    (bytes : List ℕ) (len : ℕ)
    → len ≤ length bytes
    → len < 2 ^ 31
    → (sum_crc16 bytes len ≡ some (divide 0xffff (message_bits (take len bytes))))
      × (crc_ccitt bytes (pos len) ≡ some (divide 0xffff (message_bits (take len bytes))))
unfolding sum_crc16 crc_ccitt
crc16_division bytes len inside in_range =
    let value =
      sum_crc16-fold bytes len inside
      ∙ ap some (crc_fold-divide 0xffff (take len bytes) (omega arith)) in
    (value, ccitt_loop-crc_loop len 0 0xffff bytes ∙ value)
