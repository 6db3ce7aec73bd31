-- ===== src/Msg/Delivery.antt =====
-- A binary frame from `MSG_PackHex` to `MSG_UnPackHex`, over a line that may garble it.
use cvos.Prelude.{ℕ, ◌≤◌, ◌<◌, ◌≡◌, ◌≢◌, sym, ◌∙◌, ap, arith, List, ◌∷◌, ◌++◌, some}
use cvos.Prelude.{pos, neg, ◌==◌, length, length-append, false}
use cvos.Crc.Bytes.{crc_fold-lt}
use cvos.Crc.Detect.{sum_whole, sum_crc16-detects}
use cvos.Msg.{pack_hex, unpack_hex, high, low, join}
use cvos.Msg.Hex.{frame, crc_of, pack_hex-frame, unpack-pack_hex, check_raw, unpack_raw}

-- Whatever stands in the message block, if it has room for the frame, which is two bytes longer for version
-- 2, and in the caller's block, if it has room for the body: `MSG_UnPackHex` on what `MSG_PackHex` wrote returns the body's length, the version,
-- the serial number and the body, for every body of at most 255 bytes and every version.
pub hex_round_trip :
    (v0 s0 ver sn : ℕ) (bytes rest p old ys : List ℕ)
    → length bytes ≤ 255
    → length (frame ver sn bytes) ≤ length p
    → length old ≡ length bytes
    → (p' : List ℕ) × (pack_hex ver sn (some (bytes ++ rest)) (length bytes) (some p)
        ≡ some (length (frame ver sn bytes), some p'))
      × (unpack_hex (some v0) (some s0) (some (old ++ ys)) (some p')
          ≡ some (record {
            ret = pos (length bytes);
            ver = some ver;
            sn = some sn;
            body = some (bytes ++ ys);
          }))
hex_round_trip v0 s0 ver sn bytes rest p old ys small room l =
    let (after, packed) = pack_hex-frame ver sn bytes rest p small room in
    (frame ver sn bytes ++ after, packed, unpack-pack_hex v0 s0 ver sn bytes after old ys small l)

length-mid :
    (xs ys : List ℕ) (x y x' y' : ℕ) → length (xs ++ (x ∷ y ∷ ys)) ≡ length (xs ++ (x' ∷ y' ∷ ys))
length-mid xs ys x y x' y' = length-append xs (x ∷ y ∷ ys) ∙ sym (length-append xs (x' ∷ y' ∷ ys))

-- the value of the test at the receiver, where two bytes of the body came through changed
garbled_test :
    (xs ys : List ℕ) (x y x' y' : ℕ)
    → x < 256
    → y < 256
    → x' < 256
    → y' < 256
    → ¬ ((x ≡ x') × (y ≡ y'))
    → (crc_of (xs ++ (x' ∷ y' ∷ ys))
        == join (high (crc_of (xs ++ (x ∷ y ∷ ys)))) (low (crc_of (xs ++ (x ∷ y ∷ ys)))))
      ≡ false
garbled_test xs ys x y x' y' hx hy hx' hy' ne =
    let sent = xs ++ (x ∷ y ∷ ys) in
    let got = xs ++ (x' ∷ y' ∷ ys) in
    let differ : crc_of sent ≢ crc_of got = λ e. ne (
      sum_crc16-detects xs ys x y x' y' hx hy hx' hy'
        (sum_whole sent ∙ ap some e ∙ sym (sum_whole got))) in
    ground (arith, crc_fold-lt 0xffff sent (omega arith))

-- A frame of version 2 in whose body two neighbouring bytes, one of them at least changed, come through
-- wrong is turned down, where the caller's block has room for the body: `MSG_UnPackHex` returns -3 and leaves the caller's block as it was.
pub unpack_hex-detects :
    (v0 s0 sn : ℕ) (xs ys : List ℕ) (x y x' y' : ℕ) (after old rest : List ℕ)
    → x < 256
    → y < 256
    → x' < 256
    → y' < 256
    → ¬ ((x ≡ x') × (y ≡ y'))
    → length (xs ++ (x ∷ y ∷ ys)) ≤ 255
    → length old ≡ length (xs ++ (x ∷ y ∷ ys))
    → let v = crc_of (xs ++ (x ∷ y ∷ ys)) in
      unpack_hex (some v0) (some s0) (some (old ++ rest)) (
        some (
          0xaa
          ∷ 2
          ∷ sn
          ∷ length (xs ++ (x ∷ y ∷ ys))
          ∷ ((xs ++ (x' ∷ y' ∷ ys)) ++ (high v ∷ low v ∷ after))))
      ≡ some (record { ret = neg 3; ver = some 2; sn = some sn; body = some (old ++ rest) })
unpack_hex-detects v0 s0 sn xs ys x y x' y' after old rest hx hy hx' hy' ne small l =
    let v = crc_of (xs ++ (x ∷ y ∷ ys)) in
    let got = xs ++ (x' ∷ y' ∷ ys) in
    let same = length-mid xs ys x y x' y' in
    let test = garbled_test xs ys x y x' y' hx hy hx' hy' ne in
    rw same (
      unpack_raw v0 s0 2 sn got (high v ∷ low v ∷ after) old rest false (sym (l ∙ same))
        (check_raw sn (high v) (low v) got after (omega (arith, same)) ∙ ap some test))
