-- ===== src/Msg/Tests.antt =====
-- Runs of the frames of msg.c, and their theorems at concrete inputs.
use cvos.Prelude.{write, read_n, copy, strlen, replicate}
use cvos.Prelude.{ℕ, ◌≡◌, refl, arith, some, List, [], ◌∷◌, ◌++◌, pos, neg}
use cvos.Prelude.{length}
use cvos.Prelude.{true}
use cvos.Msg.{pack_hex, pack_hex_crc, unpack_hex, high, low}
use cvos.Msg.Hex.{frame, crc_of}
use cvos.Prelude.{no_nul}
use cvos.Crc.{crc_bits, crc_bit}
use cvos.Crc.Bytes.{crc_fold}
use cvos.Msg.Frame.{pack_msg, unpack_msg}
use cvos.Msg.Frame.Text.{text_frame}
use cvos.Msg.Frame.Roundtrip.{text_round_trip}
use cvos.Msg.Keeper.{keeper_text, copy_field}
use cvos.Msg.Delivery.{hex_round_trip, unpack_hex-detects}

abbrev block : List ℕ
block = 0 ∷ 0 ∷ 0 ∷ 0 ∷ 0 ∷ 0 ∷ 0 ∷ 0 ∷ 0 ∷ []

-- a frame of version 1, without a checksum
run-pack_hex :
    pack_hex 1 7 (some (1 ∷ 2 ∷ [])) 2 (some block)
    ≡ some (6, some (0xaa ∷ 1 ∷ 7 ∷ 2 ∷ 1 ∷ 2 ∷ 0 ∷ 0 ∷ 0 ∷ []))
unfolding pack_hex pack_hex_crc write read_n copy
run-pack_hex = refl

hex_round_trip_example :
    (p' : List ℕ) × (pack_hex 2 7 (some ((1 ∷ 2 ∷ []) ++ [])) 2 (some block)
      ≡ some (length (frame 2 7 (1 ∷ 2 ∷ [])), some p'))
    × (unpack_hex (some 0) (some 0) (some ((9 ∷ 9 ∷ []) ++ (9 ∷ []))) (some p')
        ≡ some (record {
          ret = pos 2;
          ver = some 2;
          sn = some 7;
          body = some ((1 ∷ 2 ∷ []) ++ (9 ∷ []));
        }))
hex_round_trip_example =
    hex_round_trip 0 0 2 7 (1 ∷ 2 ∷ []) [] block (9 ∷ 9 ∷ []) (9 ∷ []) (omega arith) (omega arith)
      refl

unpack_hex-detects_example :
    unpack_hex (some 0) (some 0) (some ((9 ∷ 9 ∷ []) ++ [])) (
      some (
        0xaa
        ∷ 2
        ∷ 7
        ∷ 2
        ∷ (([] ++ (1 ∷ 3 ∷ [])) ++ (high (crc_of (1 ∷ 2 ∷ [])) ∷ low (crc_of (1 ∷ 2 ∷ [])) ∷ []))))
    ≡ some (record { ret = neg 3; ver = some 2; sn = some 7; body = some ((9 ∷ 9 ∷ []) ++ []) })
unpack_hex-detects_example =
    unpack_hex-detects 0 0 7 [] [] 1 2 1 3 [] (9 ∷ 9 ∷ []) [] (omega arith) (omega arith)
      (omega arith) (omega arith) (λ e. absurd (omega (arith, e.1))) (omega arith) refl

-- a frame of version '2' without a NUL
clean_frame : no_nul (text_frame b'2' (b'a' ∷ b'b' ∷ [])) ≡ true
unfolding crc_fold crc_bits crc_bit
clean_frame = refl

text_round_trip_example :
    (p' : List ℕ) × (pack_msg b'2'
        (some ((b'a' ∷ b'b' ∷ []) ++ (0 ∷ [])))
        (some (block ++ (0 ∷ [])))
      ≡ some (pos (length (text_frame b'2' (b'a' ∷ b'b' ∷ []))), some p'))
    × (unpack_msg (some 0) (some ((9 ∷ 9 ∷ []) ++ (9 ∷ []))) (some p')
        ≡ some
            (record { ret = pos 2; ver = some b'2'; body = some ((b'a' ∷ b'b' ∷ []) ++ (9 ∷ [])) }))
text_round_trip_example =
    text_round_trip 0 b'2' (b'a' ∷ b'b' ∷ []) [] block [] (9 ∷ 9 ∷ []) (9 ∷ []) clean_frame
      (omega arith) (omega arith)

-- a name of one byte with leftovers behind its NUL, and a script of one
run-keeper_text :
    keeper_text
      (9 ∷ 0 ∷ 0 ∷ 0 ∷ b'a' ∷ 0 ∷ 5 ∷ replicate 13 7 ++ (b's' ∷ 0 ∷ replicate 62 7))
      (3 ∷ [])
    ≡ some (9 ∷ 0 ∷ 0 ∷ 0 ∷ b'a' ∷ replicate 15 0 ++ (b's' ∷ replicate 63 0))
unfolding keeper_text copy_field copy read_n strlen write
run-keeper_text = refl
