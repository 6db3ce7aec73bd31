-- ===== src/Crc/Detect.antt =====
-- What `_SumCRC16` detects.
use Prim.Native.Nat.{bit_xor}
use cvos.Prelude.{ℕ, zero, suc, ◌+◌, ◌*◌, ◌/◌, ◌%◌, ◌^◌, ◌≤◌, ◌<◌, ◌≡◌, refl, sym, ◌∙◌, ap}
use cvos.Prelude.{arith, all_below_sound, ==_iff}
use cvos.Prelude.{List, [], ◌∷◌, ◌++◌, some, some_inj}
use cvos.Prelude.{length, get_elem?, take, drop, take_all, length-append}
use mathlib.Core.Path.{ap₂}
use cvos.Prelude.Bits.{zero-bit_xor, bit_xor-zero, bit_xor_self, bit_xor-eq-zero, bit_xor-lt}
use cvos.Prelude.Masks.{bit_xor-div, bit_xor-mod}
use cvos.Crc.{crc_loop, sum_crc16, crc_bits, crc_bit}
use cvos.Crc.Bytes.{crc_byte, crc_fold, crc_byte-lt, crc_fold-lt, crc_byte-xor, crc_byte_register}
use cvos.Crc.Bytes.{crc_bits-eq-zero, high_table, low_table, move_table}

crc_fold-append : (c : ℕ) (xs ys : List ℕ) → crc_fold c (xs ++ ys) ≡ crc_fold (crc_fold c xs) ys
unfolding crc_fold
crc_fold-append c [] ys = refl
crc_fold-append c (x ∷ xs) ys = crc_fold-append (crc_byte c x) xs ys

drop-elem :
    (xs : List ℕ) (i n : ℕ)
    → i < length xs
    → (b : ℕ) × (get_elem? xs i ≡ some b)
      × (take (suc n) (drop i xs) ≡ b ∷ take n (drop (i + 1) xs))
drop-elem [] i n h = elim h [ ]
drop-elem (x ∷ xs) zero n h = (x, refl, refl)
drop-elem (x ∷ xs) (suc i) n h =
    let (b, e, t) = drop-elem xs i n (omega arith) in
    let next : suc i + 1 ≡ suc (i + 1) = omega arith in (b, e, rw next t)

crc_loop-fold :
    (n i c : ℕ) (xs : List ℕ)
    → i + n ≤ length xs
    → crc_loop n i c xs ≡ some (crc_fold c (take n (drop i xs)))
unfolding crc_loop crc_fold
crc_loop-fold zero i c xs h = refl
crc_loop-fold (suc n) i c xs h =
    let (b, e, t) = drop-elem xs i n (omega arith) in
    rw (e, crc_loop) (rw t (crc_loop-fold n (i + 1) (crc_byte c b) xs (omega arith)))

-- Within the data `_SumCRC16` reads nothing out of range: the first `len` bytes go into the register 0xffff one
-- after the other.
pub sum_crc16-fold :
    (bytes : List ℕ) (len : ℕ)
    → len ≤ length bytes
    → sum_crc16 bytes len ≡ some (crc_fold 0xffff (take len bytes))
unfolding sum_crc16
sum_crc16-fold bytes len h = crc_loop-fold len 0 0xffff bytes (omega arith)

pub sum_whole : (bytes : List ℕ) → sum_crc16 bytes (length bytes) ≡ some (crc_fold 0xffff bytes)
sum_whole bytes =
    sum_crc16-fold bytes (length bytes) (omega arith)
    ∙ ap (λ t. some (crc_fold 0xffff t)) (take_all (length bytes) bytes refl)

fold_register :
    (a b : ℕ) (xs : List ℕ) → a < 2 ^ 16 → b < 2 ^ 16 → crc_fold a xs ≡ crc_fold b xs → a ≡ b
unfolding crc_fold
fold_register a b [] ha hb e = e
fold_register a b (x ∷ xs) ha hb e =
    crc_byte_register a b x ha hb
      (fold_register (crc_byte a x) (crc_byte b x) xs (crc_byte-lt a x ha) (crc_byte-lt b x hb) e)

high_byte : (v : ℕ) → v < 256 → crc_byte 0 v ≡ crc_byte (v * 256) 0
high_byte v h = (==_iff _ _).0 (all_below_sound 256 _ v high_table h)

-- A byte acts as if it stood in the register's high half.
byte_high : (c v : ℕ) → c < 2 ^ 16 → v < 256 → crc_byte c v ≡ crc_byte (bit_xor c (v * 256)) 0
byte_high c v hc hv =
    ap₂ crc_byte (sym (bit_xor-zero c)) (sym (zero-bit_xor v))
    ∙ crc_byte-xor c 0 0 v hc (omega arith)
    ∙ ap (bit_xor (crc_byte c 0)) (high_byte v hv)
    ∙ sym (crc_byte-xor c (v * 256) 0 0 hc (omega arith))

zero_byte : crc_byte 0 0 ≡ 0
unfolding crc_bits crc_bit
zero_byte = refl

fold_two :
    (c x y x' y' : ℕ) (ys : List ℕ)
    → c < 2 ^ 16
    → crc_fold c (x ∷ y ∷ ys) ≡ crc_fold c (x' ∷ y' ∷ ys)
    → crc_byte (crc_byte c x) y ≡ crc_byte (crc_byte c x') y'
unfolding crc_fold
fold_two c x y x' y' ys h e =
    fold_register (crc_byte (crc_byte c x) y) (crc_byte (crc_byte c x') y') ys
      (crc_byte-lt (crc_byte c x) y (crc_byte-lt c x h))
      (crc_byte-lt (crc_byte c x') y' (crc_byte-lt c x' h)) e

-- Two bytes that lead from register 0 to register 0 are both 0.
two_bytes_zero : (u v : ℕ) → u < 256 → v < 256 → crc_byte (crc_byte 0 u) v ≡ 0 → (u ≡ 0) × (v ≡ 0)
two_bytes_zero u v hu hv e =
    let r = crc_byte 0 u in
    let hr : r < 2 ^ 16 = crc_byte-lt 0 u (omega arith) in
    let same : r ≡ v * 256 = bit_xor-eq-zero r (v * 256) (
      crc_bits-eq-zero 8 0 (bit_xor r (v * 256)) (bit_xor-lt 16 r (v * 256) hr (omega arith))
        (sym (byte_high r v hr hv) ∙ e)) in
    let low = all_below_sound 256 _ u low_table hu in
    let clear : u ≡ 0 = ground (arith, same, low) in
    (clear, omega (arith, same, ap (crc_byte 0) clear, zero_byte))

byte_differ :
    (c x y : ℕ) → c < 2 ^ 16 → bit_xor (crc_byte c x) (crc_byte c y) ≡ crc_byte 0 (bit_xor x y)
byte_differ c x y h =
    sym (crc_byte-xor c c x y h h) ∙ ap (λ t. crc_byte t (bit_xor x y)) (bit_xor_self c)

two_bytes_differ :
    (c x y x' y' : ℕ)
    → c < 2 ^ 16
    → bit_xor (crc_byte (crc_byte c x) y) (crc_byte (crc_byte c x') y')
      ≡ crc_byte (crc_byte 0 (bit_xor x x')) (bit_xor y y')
two_bytes_differ c x y x' y' h =
    sym (crc_byte-xor (crc_byte c x) (crc_byte c x') y y' (crc_byte-lt c x h) (crc_byte-lt c x' h))
    ∙ ap (λ t. crc_byte t (bit_xor y y')) (byte_differ c x x' h)

-- A change that is confined to two neighbouring bytes of a message, at any place, changes the value
-- of `_SumCRC16`: messages that agree in all else and have one value agree in those bytes too.
pub sum_crc16-detects :
    (xs ys : List ℕ) (x y x' y' : ℕ)
    → x < 256
    → y < 256
    → x' < 256
    → y' < 256
    → sum_crc16 (xs ++ (x ∷ y ∷ ys)) (length (xs ++ (x ∷ y ∷ ys)))
      ≡ sum_crc16 (xs ++ (x' ∷ y' ∷ ys)) (length (xs ++ (x' ∷ y' ∷ ys)))
    → (x ≡ x') × (y ≡ y')
sum_crc16-detects xs ys x y x' y' hx hy hx' hy' e =
    let c = crc_fold 0xffff xs in
    let hc : c < 2 ^ 16 = crc_fold-lt 0xffff xs (omega arith) in
    let same : crc_byte (crc_byte c x) y ≡ crc_byte (crc_byte c x') y' =
      fold_two c x y x' y' ys hc (
        sym (crc_fold-append 0xffff xs (x ∷ y ∷ ys))
        ∙ some_inj (sym (sum_whole (xs ++ (x ∷ y ∷ ys))) ∙ e ∙ sum_whole (xs ++ (x' ∷ y' ∷ ys)))
        ∙ crc_fold-append 0xffff xs (x' ∷ y' ∷ ys)) in
    let zeros =
      two_bytes_zero (bit_xor x x') (bit_xor y y') (bit_xor-lt 8 x x' hx hx')
        (bit_xor-lt 8 y y' hy hy')
        (sym (two_bytes_differ c x y x' y' hc)
          ∙ ap (λ t. bit_xor t (crc_byte (crc_byte c x') y')) same
          ∙ bit_xor_self (crc_byte (crc_byte c x') y')) in
    (bit_xor-eq-zero x x' zeros.0, bit_xor-eq-zero y y' zeros.1)

clear_high : (c : ℕ) → bit_xor c (c / 256 * 256) ≡ c % 256
clear_high c =
    let h = c / 256 in
    let up : h * 256 / 256 ≡ h = omega arith in
    let down : h * 256 % 256 ≡ 0 = omega arith in
    let high : bit_xor c (h * 256) / 256 ≡ 0 =
      bit_xor-div 8 c (h * 256) ∙ ap (bit_xor h) up ∙ bit_xor_self h in
    let low : bit_xor c (h * 256) % 256 ≡ c % 256 =
      bit_xor-mod 8 c (h * 256) ∙ ap (bit_xor (c % 256)) down ∙ bit_xor-zero (c % 256) in
    omega (arith, high, low)

-- A register that takes its own high byte moves its low byte up.
own_byte : (c : ℕ) → c < 2 ^ 16 → crc_byte c (c / 256) ≡ c % 256 * 256
own_byte c h =
    byte_high c (c / 256) h (omega arith)
    ∙ ap (λ t. crc_byte t 0) (clear_high c)
    ∙ (==_iff _ _).0 (all_below_sound 256 _ (c % 256) move_table (omega arith))

own_bytes : (c : ℕ) → c < 2 ^ 16 → crc_fold c (c / 256 ∷ c % 256 ∷ []) ≡ 0
unfolding crc_fold
own_bytes c h =
    let l = c % 256 in
    let up : l * 256 / 256 ≡ l = omega arith in
    ap (λ t. crc_byte t l) (own_byte c h)
    ∙ ap (crc_byte (l * 256)) (sym up)
    ∙ own_byte (l * 256) (omega arith)
    ∙ omega arith

-- A message followed by its own checksum, the high byte first, has the checksum 0.
pub sum_crc16_residue :
    (bytes : List ℕ) {crc : ℕ}
    → sum_crc16 bytes (length bytes) ≡ some crc
    → sum_crc16 (bytes ++ (crc / 256 ∷ crc % 256 ∷ [])) (length bytes + 2) ≡ some 0
sum_crc16_residue bytes {crc} e =
    let k = crc_fold 0xffff bytes in
    let value : k ≡ crc = some_inj (sym (sum_whole bytes) ∙ e) in
    let hk : k < 2 ^ 16 = crc_fold-lt 0xffff bytes (omega arith) in
    let tail = crc / 256 ∷ crc % 256 ∷ [] in
    let size : length bytes + 2 ≡ length (bytes ++ tail) = sym (length-append bytes tail) in
    rw (size, sum_whole (bytes ++ tail), crc_fold-append 0xffff bytes tail, ← value)
      (ap some (own_bytes k hk))
