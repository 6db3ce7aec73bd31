-- ===== src/Msg/Frame/Text.antt =====
-- The text frames: what `MSG_PackMsg` lays out.
use cvos.Prelude.{ℕ, ◌+◌, ◌≡◌, refl, sym, ◌∙◌, ap, arith, inl, inr}
use cvos.Prelude.{List, [], ◌∷◌, ◌++◌, Option, some, true, false, Bool-cases, ℤ, pos}
use cvos.Prelude.{◌==◌, if◌then◌else◌, length, length-append}
use cvos.Prelude.{write, write-mid, copy, copy-mid, read_n, read_n-mid, split_at}
use cvos.Prelude.{no_nul, strlen-nul}
use mathlib.Core.List.{append_assoc}
use cvos.Msg.{high, low}
use cvos.Msg.Hex.{crc_of, sum_prefix}
use cvos.Msg.Frame.{pack_msg, pack_msg_tail}

-- the bytes behind the body
abbrev pub ending : ℕ → List ℕ → List ℕ
ending ver bytes =
    if ver == b'2'
    then high (crc_of bytes) ∷ low (crc_of bytes) ∷ b'#' ∷ b'#' ∷ []
    else b'#' ∷ b'#' ∷ []

abbrev pub text_frame : ℕ → List ℕ → List ℕ
text_frame ver bytes = b'@' ∷ b'@' ∷ ver ∷ (bytes ++ ending ver bytes)

-- one more byte behind those written
write_next :
    (xs ys : List ℕ) (i v w : ℕ)
    → i ≡ length xs
    → write (xs ++ (w ∷ ys)) i v ≡ some ((xs ++ (v ∷ [])) ++ ys)
write_next xs ys i v w e = write-mid xs ys i v w e ∙ ap some (sym (append_assoc xs (v ∷ []) ys))

pack_start :
    (ver a c d t : ℕ) (bytes rest old ys : List ℕ)
    → no_nul bytes ≡ true
    → length old ≡ length bytes
    → pack_msg ver (some (bytes ++ (0 ∷ rest))) (some (a ∷ c ∷ d ∷ (old ++ (t ∷ ys))))
      ≡ pack_msg_tail ver
          (bytes ++ (0 ∷ rest))
          (length bytes)
          (b'@' ∷ b'@' ∷ ver ∷ (bytes ++ (0 ∷ ys)))
unfolding pack_msg
pack_start ver a c d t bytes rest old ys clean l =
    let n = length bytes in
    let q = old ++ (t ∷ ys) in
    let head = b'@' ∷ b'@' ∷ ver ∷ [] in
    let size : length (bytes ++ (0 ∷ [])) ≡ n + 1 = omega (arith, length-append bytes (0 ∷ [])) in
    let taken : read_n (bytes ++ (0 ∷ rest)) 0 (n + 1) ≡ some (bytes ++ (0 ∷ [])) =
      ap (λ k. read_n (bytes ++ (0 ∷ rest)) 0 k) (sym size)
      ∙ ap (λ b. read_n b 0 (length (bytes ++ (0 ∷ [])))) (sym (append_assoc bytes (0 ∷ []) rest))
      ∙ read_n-mid [] (bytes ++ (0 ∷ [])) rest 0 refl in
    let put : copy (head ++ q) 3 (bytes ++ (0 ∷ [])) ≡ some (head ++ (bytes ++ (0 ∷ ys))) =
      ap (λ b. copy (head ++ b) 3 (bytes ++ (0 ∷ []))) (sym (append_assoc old (t ∷ []) ys))
      ∙ copy-mid head (old ++ (t ∷ [])) ys (bytes ++ (0 ∷ [])) 3 refl
          (omega (arith, size, length-append old (t ∷ [])))
      ∙ ap (λ b. some (head ++ b)) (append_assoc bytes (0 ∷ []) ys) in
    rw (
      write-mid [] (c ∷ d ∷ q) 0 b'@' a refl,
      write-mid (b'@' ∷ []) (d ∷ q) 1 b'@' c refl,
      write-mid (b'@' ∷ b'@' ∷ []) q 2 ver d refl,
      strlen-nul bytes rest clean,
      taken,
      put,
    )

module _ (ver : ℕ) (bytes rest : List ℕ) where
  abbrev start : List ℕ
  start = b'@' ∷ b'@' ∷ ver ∷ bytes

  pack_plain :
      (t : ℕ) (ts : List ℕ)
      → (ver == b'2') ≡ false
      → pack_msg_tail ver (bytes ++ (0 ∷ rest)) (length bytes) (start ++ (0 ∷ t ∷ ts))
        ≡ some (pos (length bytes + 5), some ((start ++ (b'#' ∷ b'#' ∷ [])) ++ ts))
  unfolding pack_msg_tail
  pack_plain t ts plain =
      let mark = start ++ (b'#' ∷ []) in
      rw
        (
          plain,
          write_next start (t ∷ ts) (length bytes + 3) b'#' 0 (omega arith),
          write_next mark ts (length bytes + 4) b'#' t
              (omega (arith, length-append start (b'#' ∷ []))),
        )
        (ap (λ t. some (pos (length bytes + 5), some (t ++ ts)))
          (append_assoc start (b'#' ∷ []) (b'#' ∷ [])))

  pack_checked :
      (t1 t2 t3 : ℕ) (ts : List ℕ)
      → (ver == b'2') ≡ true
      → pack_msg_tail ver (bytes ++ (0 ∷ rest)) (length bytes) (start ++ (0 ∷ t1 ∷ t2 ∷ t3 ∷ ts))
        ≡ some (
          pos (length bytes + 7),
          some ((start ++ (high (crc_of bytes) ∷ low (crc_of bytes) ∷ b'#' ∷ b'#' ∷ [])) ++ ts),
        )
  unfolding pack_msg_tail
  pack_checked t1 t2 t3 ts checked =
      let h = high (crc_of bytes) in
      let l = low (crc_of bytes) in
      let n = length bytes in
      let s1 = start ++ (h ∷ []) in
      let s2 = s1 ++ (l ∷ []) in
      let s3 = s2 ++ (b'#' ∷ []) in
      let l1 = length-append start (h ∷ []) in
      let l2 = length-append s1 (l ∷ []) in
      rw
        (
          checked,
          sum_prefix bytes (0 ∷ rest),
          write_next start (t1 ∷ t2 ∷ t3 ∷ ts) (n + 3) h 0 (omega arith),
          write_next s1 (t2 ∷ t3 ∷ ts) (n + 4) l t1 (omega (arith, l1)),
          write_next s2 (t3 ∷ ts) (n + 5) b'#' t2 (omega (arith, l1, l2)),
          write_next s3 ts (n + 6) b'#' t3 (omega (arith, l1, l2, length-append s2 (b'#' ∷ []))),
        )
        (ap (λ t. some (pos (n + 7), some (t ++ ts)))
          (append_assoc s2 (b'#' ∷ []) (b'#' ∷ [])
            ∙ append_assoc s1 (l ∷ []) (b'#' ∷ b'#' ∷ [])
            ∙ append_assoc start (h ∷ []) (l ∷ b'#' ∷ b'#' ∷ [])))

-- a length and the block
abbrev result : ℕ → List ℕ → Option (ℤ × Option (List ℕ))
result n p = some (pos n, some p)

two_slots : (xs : List ℕ) → length xs ≡ 2 → (a : ℕ) × (b : ℕ) × (xs ≡ a ∷ b ∷ [])
two_slots [] l = absurd (omega arith)
two_slots (a ∷ []) l = absurd (omega arith)
two_slots (a ∷ b ∷ []) l = (a, b, refl)
two_slots (a ∷ b ∷ c ∷ xs) l = absurd (omega arith)

module _ (ver : ℕ) (bytes rest : List ℕ) (a c d : ℕ) (old after : List ℕ)
    (clean : no_nul bytes ≡ true) (size : length old ≡ length bytes) where
  pack_into :
      (t : ℕ) (slots : List ℕ)
      → pack_msg ver
          (some (bytes ++ (0 ∷ rest)))
          (some (a ∷ c ∷ d ∷ ((old ++ (t ∷ slots)) ++ after)))
        ≡ pack_msg_tail ver
            (bytes ++ (0 ∷ rest))
            (length bytes)
            (start ver bytes rest ++ (0 ∷ (slots ++ after)))
  pack_into t slots =
      ap (λ q. pack_msg ver (some (bytes ++ (0 ∷ rest))) (some (a ∷ c ∷ d ∷ q)))
        (append_assoc old (t ∷ slots) after)
      ∙ pack_start ver a c d t bytes rest old (slots ++ after) clean size

  framed :
      (end : List ℕ) (k : ℕ)
      → ending ver bytes ≡ end
      → length bytes + 3 + length end ≡ k
      → result k ((start ver bytes rest ++ end) ++ after)
        ≡ result (length (text_frame ver bytes)) (text_frame ver bytes ++ after)
  framed end k e l =
      ap (λ t. result k ((start ver bytes rest ++ t) ++ after)) (sym e)
      ∙ ap (λ j. result j (text_frame ver bytes ++ after))
          (omega (arith, l, ap length e, length-append bytes (ending ver bytes)))

  packed_plain :
      (slots : List ℕ)
      → (ver == b'2') ≡ false
      → length slots ≡ 2
      → pack_msg ver (some (bytes ++ (0 ∷ rest))) (some (a ∷ c ∷ d ∷ ((old ++ slots) ++ after)))
        ≡ some (pos (length (text_frame ver bytes)), some (text_frame ver bytes ++ after))
  packed_plain slots plain l =
      let (t0, t1, e) = two_slots slots l in
      let end : ending ver bytes ≡ b'#' ∷ b'#' ∷ [] = rw plain refl in
      ap (λ q. pack_msg ver (some (bytes ++ (0 ∷ rest))) (some (a ∷ c ∷ d ∷ ((old ++ q) ++ after))))
        e
      ∙ pack_into t0 (t1 ∷ [])
      ∙ pack_plain ver bytes rest t1 after plain
      ∙ framed (b'#' ∷ b'#' ∷ []) (length bytes + 5) end (omega arith)

  packed_checked :
      (t0 t1 : ℕ) (slots : List ℕ)
      → (ver == b'2') ≡ true
      → length slots ≡ 2
      → pack_msg ver
          (some (bytes ++ (0 ∷ rest)))
          (some (a ∷ c ∷ d ∷ ((old ++ (t0 ∷ t1 ∷ slots)) ++ after)))
        ≡ some (pos (length (text_frame ver bytes)), some (text_frame ver bytes ++ after))
  packed_checked t0 t1 slots checked l =
      let (t2, t3, e) = two_slots slots l in
      let h = high (crc_of bytes) in
      let w = low (crc_of bytes) in
      let end : ending ver bytes ≡ h ∷ w ∷ b'#' ∷ b'#' ∷ [] = rw checked refl in
      ap
        (λ q.
          pack_msg ver (some (bytes ++ (0 ∷ rest)))
            (some (a ∷ c ∷ d ∷ ((old ++ (t0 ∷ t1 ∷ q)) ++ after))))
        e
      ∙ pack_into t0 (t1 ∷ t2 ∷ t3 ∷ [])
      ∙ pack_checked ver bytes rest t1 t2 t3 after checked
      ∙ framed (h ∷ w ∷ b'#' ∷ b'#' ∷ []) (length bytes + 7) end (omega arith)

packed_into :
    (ver : ℕ) (bytes rest : List ℕ) (a c d : ℕ) (old slots after : List ℕ)
    → no_nul bytes ≡ true
    → length old ≡ length bytes
    → length slots ≡ length (ending ver bytes)
    → pack_msg ver (some (bytes ++ (0 ∷ rest))) (some (a ∷ c ∷ d ∷ ((old ++ slots) ++ after)))
      ≡ some (pos (length (text_frame ver bytes)), some (text_frame ver bytes ++ after))
packed_into ver bytes rest a c d old slots after clean lo ls = elim (Bool-cases (ver == b'2')) [
  | inl checked ↦
      let four : length (ending ver bytes) ≡ 4 = rw checked refl in
      let (front, back, e, l) = split_at 2 slots (omega (arith, ls, four)) in
      let (t0, t1, e') = two_slots front l in
      let all : slots ≡ t0 ∷ t1 ∷ back = e ∙ ap (λ q. q ++ back) e' in
      ap (λ q. pack_msg ver (some (bytes ++ (0 ∷ rest))) (some (a ∷ c ∷ d ∷ ((old ++ q) ++ after))))
        all
      ∙ packed_checked ver bytes rest a c d old after clean lo t0 t1 back checked
          (omega (arith, ap length all, ls, four))
  | inr plain ↦
      let two : length (ending ver bytes) ≡ 2 = rw plain refl in
      packed_plain ver bytes rest a c d old after clean lo slots plain (ls ∙ two)
]

-- `MSG_PackMsg` on a block whose first part is as long as the frame: it leaves the frame there.
pub pack_msg-frame :
    (ver : ℕ) (bytes rest room after : List ℕ)
    → no_nul bytes ≡ true
    → length room ≡ length (text_frame ver bytes)
    → pack_msg ver (some (bytes ++ (0 ∷ rest))) (some (room ++ after))
      ≡ some (pos (length (text_frame ver bytes)), some (text_frame ver bytes ++ after))
pack_msg-frame ver bytes rest (a ∷ c ∷ d ∷ room) after clean l =
    let sum = length-append bytes (ending ver bytes) in
    let (old, slots, e, lo) = split_at (length bytes) room (omega (arith, l, sum)) in
    ap (λ q. pack_msg ver (some (bytes ++ (0 ∷ rest))) (some (a ∷ c ∷ d ∷ (q ++ after)))) e
    ∙ packed_into ver bytes rest a c d old slots after clean lo
        (omega (arith, l, sum, lo, ap length e, length-append old slots))
pack_msg-frame ver bytes rest [] after clean l = absurd (omega arith)
pack_msg-frame ver bytes rest (a ∷ []) after clean l = absurd (omega arith)
pack_msg-frame ver bytes rest (a ∷ c ∷ []) after clean l = absurd (omega arith)
