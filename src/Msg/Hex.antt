-- ===== src/Msg/Hex.antt =====
-- The binary frames: what `MSG_PackHex` lays out, and that `MSG_UnPackHex` takes it back.
use cvos.Prelude.{ℕ, zero, suc, ◌+◌, ◌%◌, ◌≤◌, ◌≡◌, refl, sym, ◌∙◌, ap, arith}
use cvos.Prelude.{List, [], ◌∷◌, ◌++◌, Option, some, Bool, true, false, Bool-cases, inl, inr}
use cvos.Prelude.{pos, neg, ◌==◌, if◌then◌else◌, length, get_elem?}
use cvos.Prelude.{write, split_at, write-mid, copy-mid, read_n-mid, get-mid}
use cvos.Prelude.{take-append, length-append}
use mathlib.Core.List.{append_assoc, append-nil}
use cvos.Crc.{sum_crc16}
use cvos.Crc.Bytes.{crc_fold, crc_fold-lt}
use cvos.Crc.Detect.{sum_crc16-fold}
use cvos.Msg.{pack_hex, pack_hex_crc, high, low, join, add32, check_hex}
use cvos.Msg.{unpack_fields, unpack_frame, unpack_hex}

-- the value of `_SumCRC16` on a whole list
abbrev pub crc_of : List ℕ → ℕ
crc_of bytes = crc_fold 0xffff bytes

-- the bytes behind the body
abbrev pub trailer : ℕ → List ℕ → List ℕ
trailer ver bytes = if ver == 2 then high (crc_of bytes) ∷ low (crc_of bytes) ∷ [] else []

-- a frame: the head byte, the version, the serial number, the length, the body, the checksum
abbrev pub frame : ℕ → ℕ → List ℕ → List ℕ
frame ver sn bytes = 0xaa ∷ ver ∷ sn ∷ length bytes ∷ (bytes ++ trailer ver bytes)

pub sum_prefix :
    (bytes rest : List ℕ) → sum_crc16 (bytes ++ rest) (length bytes) ≡ some (crc_of bytes)
sum_prefix bytes rest =
    sum_crc16-fold (bytes ++ rest) (length bytes) (omega (arith, length-append bytes rest))
    ∙ ap (λ t. some (crc_of t)) (take-append bytes rest)

pack_header :
    (ver sn a c d e : ℕ) (bytes rest old ys : List ℕ)
    → length bytes ≤ 255
    → length bytes ≡ length old
    → pack_hex ver sn (some (bytes ++ rest)) (length bytes) (some (a ∷ c ∷ d ∷ e ∷ (old ++ ys)))
      ≡ pack_hex_crc ver
          (bytes ++ rest)
          (length bytes)
          (length bytes + 4)
          (0xaa ∷ ver ∷ sn ∷ length bytes ∷ (bytes ++ ys))
unfolding pack_hex
pack_header ver sn a c d e bytes rest old ys small l =
    let n = length bytes in
    let q = old ++ ys in
    let cut : n % 256 ≡ n = omega arith in
    let sum : add32 n 4 ≡ n + 4 = omega arith in
    rw (
      write-mid [] (c ∷ d ∷ e ∷ q) 0 0xaa a refl,
      write-mid (0xaa ∷ []) (d ∷ e ∷ q) 1 ver c refl,
      write-mid (0xaa ∷ ver ∷ []) (e ∷ q) 2 sn d refl,
      write-mid (0xaa ∷ ver ∷ sn ∷ []) q 3 (n % 256) e refl,
      read_n-mid [] bytes rest 0 refl,
      copy-mid (0xaa ∷ ver ∷ sn ∷ (n % 256) ∷ []) old ys bytes 4 refl l,
      cut,
      sum,
    )

pack_trailer :
    (ver sn t0 t1 : ℕ) (bytes rest ts : List ℕ)
    → length bytes ≤ 255
    → pack_hex_crc ver
        (bytes ++ rest)
        (length bytes)
        (length bytes + 4)
        (0xaa ∷ ver ∷ sn ∷ length bytes ∷ (bytes ++ (t0 ∷ t1 ∷ ts)))
      ≡ some (
        length (frame ver sn bytes),
        some (frame ver sn bytes ++ (if ver == 2 then ts else t0 ∷ t1 ∷ ts)),
      )
unfolding pack_hex_crc
pack_trailer ver sn t0 t1 bytes rest ts small = elim (Bool-cases (ver == 2)) [
  | inl two ↦
      let n = length bytes in
      let v = crc_of bytes in
      let head = 0xaa ∷ ver ∷ sn ∷ n ∷ bytes in
      let at4 : add32 n 4 ≡ length head = omega arith in
      let at5 : add32 n 5 ≡ length (head ++ (high v ∷ [])) =
        omega (arith, length-append head (high v ∷ [])) in
      let total : add32 (n + 4) 2 ≡ length (head ++ (high v ∷ low v ∷ [])) =
        omega (arith, length-append head (high v ∷ low v ∷ [])) in
      let second : write (head ++ (high v ∷ t1 ∷ ts)) (add32 n 5) (low v)
          ≡ some ((head ++ (high v ∷ low v ∷ [])) ++ ts) =
        ap (λ t. write t (add32 n 5) (low v)) (sym (append_assoc head (high v ∷ []) (t1 ∷ ts)))
        ∙ write-mid (head ++ (high v ∷ [])) ts (add32 n 5) (low v) t1 at5
        ∙ ap some (
            append_assoc head (high v ∷ []) (low v ∷ ts)
            ∙ sym (append_assoc head (high v ∷ low v ∷ []) ts)) in
      rw (
        two,
        sum_prefix bytes rest,
        write-mid head (t1 ∷ ts) (add32 n 4) (high v) t0 at4,
        second,
        total,
      )
  | inr other ↦
      let p = 0xaa ∷ ver ∷ sn ∷ length bytes ∷ (bytes ++ (t0 ∷ t1 ∷ ts)) in
      rw (other, append-nil bytes) (ap (λ k. some (k, some p)) (omega arith))
]

split_slots :
    (n : ℕ) (q : List ℕ)
    → n + 2 ≤ length q
    → (old : List ℕ) × (t0 : ℕ) × (t1 : ℕ) × (ts : List ℕ) × (q ≡ old ++ (t0 ∷ t1 ∷ ts))
      × (length old ≡ n)
split_slots n [] h = absurd (omega arith)
split_slots n (t ∷ []) h = absurd (omega arith)
split_slots zero (t0 ∷ t1 ∷ ts) h = ([], t0, t1, ts, refl, refl)
split_slots (suc n) (x ∷ y ∷ q) h =
    let (old, t0, t1, ts, e, l) = split_slots n (y ∷ q) (omega arith) in
    (x ∷ old, t0, t1, ts, ap (λ u. x ∷ u) e, ap suc l)

-- A frame of another version has no bytes behind the body.
pack_plain :
    (ver sn : ℕ) (bytes rest ys : List ℕ)
    → length bytes ≤ 255
    → (ver == 2) ≡ false
    → pack_hex_crc ver
        (bytes ++ rest)
        (length bytes)
        (length bytes + 4)
        (0xaa ∷ ver ∷ sn ∷ length bytes ∷ (bytes ++ ys))
      ≡ some (length (frame ver sn bytes), some (frame ver sn bytes ++ ys))
unfolding pack_hex_crc
pack_plain ver sn bytes rest ys small other =
    let p = 0xaa ∷ ver ∷ sn ∷ length bytes ∷ (bytes ++ ys) in
    rw (other, append-nil bytes) (ap (λ k. some (k, some p)) (omega arith))

frame_size :
    (ver sn : ℕ) (bytes : List ℕ)
    → length (frame ver sn bytes) ≡ length bytes + 4 + length (trailer ver bytes)
frame_size ver sn bytes = omega (arith, length-append bytes (trailer ver bytes))

-- On a body of at most 255 bytes and a message block with room for the frame, `MSG_PackHex` leaves the
-- frame at the start of the block and returns the frame's length.
pub pack_hex-frame :
    (ver sn : ℕ) (bytes rest p : List ℕ)
    → length bytes ≤ 255
    → length (frame ver sn bytes) ≤ length p
    → (after : List ℕ) × (pack_hex ver sn (some (bytes ++ rest)) (length bytes) (some p)
        ≡ some (length (frame ver sn bytes), some (frame ver sn bytes ++ after)))
pack_hex-frame ver sn bytes rest (a ∷ c ∷ d ∷ e ∷ q) small room =
    let size = frame_size ver sn bytes in
    let onto : List ℕ → Option (ℕ × Option (List ℕ)) =
      λ u. pack_hex ver sn (some (bytes ++ rest)) (length bytes) (some (a ∷ c ∷ d ∷ e ∷ u)) in
    elim (Bool-cases (ver == 2)) [
      | inl two ↦
          let both : length (trailer ver bytes) ≡ 2 = rw two refl in
          let (old, t0, t1, ts, eq, l) =
            split_slots (length bytes) q (omega (arith, room, size, both)) in
          (
            if ver == 2 then ts else t0 ∷ t1 ∷ ts,
            ap onto eq
                ∙ pack_header ver sn a c d e bytes rest old (t0 ∷ t1 ∷ ts) small (sym l)
                ∙ pack_trailer ver sn t0 t1 bytes rest ts small,
          )
      | inr other ↦
          let (old, ys, eq, l) = split_at (length bytes) q (omega (arith, room, size)) in
          (
            ys,
            ap onto eq
                ∙ pack_header ver sn a c d e bytes rest old ys small (sym l)
                ∙ pack_plain ver sn bytes rest ys small other,
          )
    ]
pack_hex-frame ver sn bytes rest [] small room = absurd (omega arith)
pack_hex-frame ver sn bytes rest (a ∷ []) small room = absurd (omega arith)
pack_hex-frame ver sn bytes rest (a ∷ c ∷ []) small room = absurd (omega arith)
pack_hex-frame ver sn bytes rest (a ∷ c ∷ d ∷ []) small room = absurd (omega arith)

-- The checksum test on a frame of version 2 with checksum bytes `h` and `l`.
pub check_raw :
    (sn h l : ℕ) (bytes after : List ℕ)
    → length bytes ≤ 255
    → check_hex 2 (0xaa ∷ 2 ∷ sn ∷ length bytes ∷ (bytes ++ (h ∷ l ∷ after))) (length bytes)
      ≡ some (crc_of bytes == join h l)
unfolding check_hex
check_raw sn h l bytes after small =
    let n = length bytes in
    let head = 0xaa ∷ 2 ∷ sn ∷ n ∷ bytes in
    let at5 : add32 n 5 ≡ length (head ++ (h ∷ [])) = omega (arith, length-append head (h ∷ [])) in
    let second : get_elem? (head ++ (h ∷ l ∷ after)) (add32 n 5) ≡ some l =
      ap (λ t. get_elem? t (add32 n 5)) (sym (append_assoc head (h ∷ []) (l ∷ after)))
      ∙ get-mid (head ++ (h ∷ [])) after l (add32 n 5) at5 in
    rw (
      sum_prefix bytes (h ∷ l ∷ after),
      get-mid head (l ∷ after) h (add32 n 4) (omega arith),
      second,
    )

check_other : (ver n : ℕ) (p : List ℕ) → (ver == 2) ≡ false → check_hex ver p n ≡ some true
unfolding check_hex
check_other ver n p e = rw e

frame_checks :
    (ver sn : ℕ) (bytes after : List ℕ)
    → length bytes ≤ 255
    → check_hex ver
        (0xaa ∷ ver ∷ sn ∷ length bytes ∷ (bytes ++ (trailer ver bytes ++ after)))
        (length bytes)
      ≡ some true
frame_checks ver sn bytes after small = elim (Bool-cases (ver == 2)) [
  | inl two ↦
      let v = crc_of bytes in
      let is_two : ver ≡ 2 = ground (arith, two) in
      let whole : (v == join (high v) (low v)) ≡ true =
        ground (arith, crc_fold-lt 0xffff bytes (omega arith)) in
      rw (two, is_two) (check_raw sn (high v) (low v) bytes after small ∙ ap some whole)
  | inr other ↦ check_other ver (length bytes) _ other
]

-- `MSG_UnPackHex` on a frame whose test gives `good`.
pub unpack_raw :
    (v0 s0 ver sn : ℕ) (bytes rest old ys : List ℕ) (good : Bool)
    → length bytes ≡ length old
    → check_hex ver (0xaa ∷ ver ∷ sn ∷ length bytes ∷ (bytes ++ rest)) (length bytes) ≡ some good
    → unpack_hex
        (some v0)
        (some s0)
        (some (old ++ ys))
        (some (0xaa ∷ ver ∷ sn ∷ length bytes ∷ (bytes ++ rest)))
      ≡ some (
          if good
          then record {
            ret = pos (length bytes);
            ver = some ver;
            sn = some sn;
            body = some (bytes ++ ys);
          }
          else record { ret = neg 3; ver = some ver; sn = some sn; body = some (old ++ ys) })
unfolding unpack_hex unpack_frame unpack_fields
unpack_raw v0 s0 ver sn bytes rest old ys true l e = rw (
  e,
  read_n-mid (0xaa ∷ ver ∷ sn ∷ length bytes ∷ []) bytes rest 4 refl,
  copy-mid [] old ys bytes 0 refl l,
)
unpack_raw v0 s0 ver sn bytes rest old ys false l e = rw e

-- What `MSG_PackHex` wrote, with anything behind it, `MSG_UnPackHex` takes back: it returns the length of
-- the body, the version and the serial number, and puts the body at the start of the caller's block, which
-- has room for it and is otherwise left alone.
pub unpack-pack_hex :
    (v0 s0 ver sn : ℕ) (bytes after old ys : List ℕ)
    → length bytes ≤ 255
    → length old ≡ length bytes
    → unpack_hex (some v0) (some s0) (some (old ++ ys)) (some (frame ver sn bytes ++ after))
      ≡ some (record {
        ret = pos (length bytes);
        ver = some ver;
        sn = some sn;
        body = some (bytes ++ ys);
      })
unpack-pack_hex v0 s0 ver sn bytes after old ys small l =
    let test : check_hex ver
          (0xaa ∷ ver ∷ sn ∷ length bytes ∷ (bytes ++ (trailer ver bytes ++ after))) (length bytes)
        ≡ some true =
      frame_checks ver sn bytes after small in
    ap
      (λ t.
        unpack_hex (some v0) (some s0) (some (old ++ ys))
          (some (0xaa ∷ ver ∷ sn ∷ length bytes ∷ t)))
      (append_assoc bytes (trailer ver bytes) after)
    ∙ unpack_raw v0 s0 ver sn bytes (trailer ver bytes ++ after) old ys true (sym l) test
