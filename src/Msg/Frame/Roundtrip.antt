-- ===== src/Msg/Frame/Roundtrip.antt =====
-- The text frames: that `MSG_UnPackMsg` takes back what `MSG_PackMsg` laid out.
use cvos.Prelude.{ℕ, ◌+◌, ◌-◌, ◌≡◌, refl, sym, ◌∙◌, ap, arith, inl, inr}
use cvos.Prelude.{List, [], ◌∷◌, ◌++◌, some, true, false, Bool-cases, pos, sub_ℕ}
use cvos.Prelude.{◌==◌, if◌then◌else◌, ltb, length, length-append, get_elem?, get-mid}
use cvos.Prelude.{copy-mid, strlen}
use cvos.Prelude.{no_nul, no_nul-cases, strlen-nul, string_of-prefix}
use mathlib.Core.List.{append_assoc, append-nil}
use cvos.Crc.Bytes.{crc_fold-lt}
use cvos.Msg.{high, low, join}
use cvos.Msg.Hex.{crc_of, sum_prefix}
use cvos.Msg.Frame.{pack_msg, check_msg, strncpy, unpack_body, unpack_text, unpack_msg}
use cvos.Msg.Frame.Text.{ending, text_frame, pack_msg-frame}

no_nul-prefix : (xs ys : List ℕ) → no_nul (xs ++ ys) ≡ true → no_nul xs ≡ true
no_nul-prefix [] ys h = refl
no_nul-prefix (x ∷ xs) ys h =
    let (other, rest) = no_nul-cases x (xs ++ ys) h in rw other (no_nul-prefix xs ys rest)

frame-body : (ver : ℕ) (bytes : List ℕ) → no_nul (text_frame ver bytes) ≡ true → no_nul bytes ≡ true
frame-body ver bytes h =
    no_nul-prefix bytes (ending ver bytes) (no_nul-cases ver (bytes ++ ending ver bytes) h).1

-- `strncpy` of a string's own length
strncpy-whole :
    (bytes more old ys : List ℕ)
    → no_nul bytes ≡ true
    → length old ≡ length bytes
    → strncpy (old ++ ys) (bytes ++ more) (length bytes) ≡ some (bytes ++ ys)
unfolding strncpy
strncpy-whole bytes more old ys clean l =
    let n = length bytes in
    let room : ltb (length (old ++ ys)) n ≡ false = ground (arith, l, length-append old ys) in
    let left : n - n ≡ 0 = omega arith in
    rw (string_of-prefix bytes more clean, room, left, append-nil bytes)
      (copy-mid [] old ys bytes 0 refl (sym l))

crc-join :
    (bytes : List ℕ) → (crc_of bytes == join (high (crc_of bytes)) (low (crc_of bytes))) ≡ true
crc-join bytes = ground (arith, crc_fold-lt 0xffff bytes (omega arith))

check_msg-frame :
    (ver : ℕ) (bytes more : List ℕ)
    → check_msg
        (b'@' ∷ b'@' ∷ ver ∷ (bytes ++ (high (crc_of bytes) ∷ low (crc_of bytes) ∷ more)))
        (pos (length bytes))
      ≡ some true
unfolding check_msg
check_msg-frame ver bytes more =
    let h = high (crc_of bytes) in
    let l = low (crc_of bytes) in
    let head = b'@' ∷ b'@' ∷ ver ∷ bytes in
    let n = length bytes in
    let second : get_elem? (head ++ (h ∷ l ∷ more)) (n + 4) ≡ some l =
      ap (λ t. get_elem? t (n + 4)) (sym (append_assoc head (h ∷ []) (l ∷ more)))
      ∙ get-mid (head ++ (h ∷ [])) more l (n + 4) (omega (arith, length-append head (h ∷ []))) in
    rw (
      sum_prefix bytes (h ∷ l ∷ more),
      get-mid head (l ∷ more) h (n + 3) (omega arith),
      second,
      crc-join bytes,
    )

sub_add : (n k : ℕ) → sub_ℕ (n + k) k ≡ pos n
sub_add n k = ground arith

-- what the length of the string gives, less the bytes around the body
body_length :
    (ver : ℕ) (bytes : List ℕ) (total : ℕ)
    → total ≡ length (text_frame ver bytes)
    → (if ver == b'2' then sub_ℕ total 7 else sub_ℕ total 5) ≡ pos (length bytes)
body_length ver bytes total e =
    let sum = length-append bytes (ending ver bytes) in
    let n = length bytes in
    elim (Bool-cases (ver == b'2')) [
      | inl checked ↦
          let four : length (ending ver bytes) ≡ 4 = rw checked refl in
          let t : total ≡ n + 7 = omega (arith, e, sum, four) in
          rw checked (ap (λ k. sub_ℕ k 7) t ∙ sub_add n 7)
      | inr plain ↦
          let two : length (ending ver bytes) ≡ 2 = rw plain refl in
          let t : total ≡ n + 5 = omega (arith, e, sum, two) in
          rw plain (ap (λ k. sub_ℕ k 5) t ∙ sub_add n 5)
    ]

check-frame :
    (ver : ℕ) (bytes after : List ℕ)
    → (if ver == b'2'
        then check_msg (text_frame ver bytes ++ after) (pos (length bytes))
        else some true)
      ≡ some true
check-frame ver bytes after = elim (Bool-cases (ver == b'2')) [
  | inl checked ↦
      let h = high (crc_of bytes) in
      let l = low (crc_of bytes) in
      let whole = append_assoc bytes (h ∷ l ∷ b'#' ∷ b'#' ∷ []) after in
      rw checked (
        ap (λ t. check_msg (b'@' ∷ b'@' ∷ ver ∷ t) (pos (length bytes))) whole
        ∙ check_msg-frame ver bytes (b'#' ∷ b'#' ∷ after))
  | inr plain ↦ rw plain refl
]

unpack_at :
    (v0 ver : ℕ) (bytes more out ys : List ℕ) (total : ℕ)
    → strlen (b'@' ∷ b'@' ∷ ver ∷ (bytes ++ more)) ≡ some total
    → (if ver == b'2' then sub_ℕ total 7 else sub_ℕ total 5) ≡ pos (length bytes)
    → (if ver == b'2'
        then check_msg (b'@' ∷ b'@' ∷ ver ∷ (bytes ++ more)) (pos (length bytes))
        else some true)
      ≡ some true
    → strncpy (out ++ ys) (bytes ++ more) (length bytes) ≡ some (bytes ++ ys)
    → unpack_msg (some v0) (some (out ++ ys)) (some (b'@' ∷ b'@' ∷ ver ∷ (bytes ++ more)))
      ≡ some (record { ret = pos (length bytes); ver = some ver; body = some (bytes ++ ys) })
unfolding unpack_msg unpack_text unpack_body
unpack_at v0 ver bytes more out ys total e len good copied = rw (e, len, good, copied)

unpack_msg-frame :
    (v0 ver : ℕ) (bytes after old ys : List ℕ)
    → no_nul (text_frame ver bytes) ≡ true
    → length old ≡ length bytes
    → unpack_msg (some v0) (some (old ++ ys)) (some (text_frame ver bytes ++ (0 ∷ after)))
      ≡ some (record { ret = pos (length bytes); ver = some ver; body = some (bytes ++ ys) })
unpack_msg-frame v0 ver bytes after old ys clean l =
    let whole = append_assoc bytes (ending ver bytes) (0 ∷ after) in
    let p = b'@' ∷ b'@' ∷ ver ∷ [] in
    let more = ending ver bytes ++ (0 ∷ after) in
    ap (λ t. unpack_msg (some v0) (some (old ++ ys)) (some (p ++ t))) whole
    ∙ unpack_at v0 ver bytes more old ys (length (text_frame ver bytes))
        (ap (λ t. strlen (p ++ t)) (sym whole) ∙ strlen-nul (text_frame ver bytes) after clean)
        (body_length ver bytes (length (text_frame ver bytes)) refl)
        (ap (λ t. if ver == b'2' then check_msg (p ++ t) (pos (length bytes)) else some true)
            (sym whole)
          ∙ check-frame ver bytes (0 ∷ after))
        (strncpy-whole bytes more old ys (frame-body ver bytes clean) l)

-- On a body without a NUL whose frame has none either, that is, whose version character and, for version
-- '2', whose two checksum bytes are not 0: where the part of the message block that the frame takes is
-- followed by a NUL, and the caller's block has room for the body, `MSG_PackMsg` writes the frame and returns
-- its length, and `MSG_UnPackMsg` on it returns the body's length, the version and the body.
pub text_round_trip :
    (v0 ver : ℕ) (bytes rest room after old ys : List ℕ)
    → no_nul (text_frame ver bytes) ≡ true
    → length room ≡ length (text_frame ver bytes)
    → length old ≡ length bytes
    → (p' : List ℕ) × (pack_msg ver (some (bytes ++ (0 ∷ rest))) (some (room ++ (0 ∷ after)))
        ≡ some (pos (length (text_frame ver bytes)), some p'))
      × (unpack_msg (some v0) (some (old ++ ys)) (some p')
          ≡ some (record { ret = pos (length bytes); ver = some ver; body = some (bytes ++ ys) }))
text_round_trip v0 ver bytes rest room after old ys clean l l' = (
  text_frame ver bytes ++ (0 ∷ after),
  pack_msg-frame ver bytes rest room (0 ∷ after) (frame-body ver bytes clean) l,
  unpack_msg-frame v0 ver bytes after old ys clean l',
)
