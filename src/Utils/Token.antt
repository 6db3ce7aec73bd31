-- ===== src/Utils/Token.antt =====
-- `utl_TokenCreate` of utils.c: the MD5 of a string and the time. The block of its context holds anything;
-- `seconds` has the eight bytes of the time. What is pointed to by `md5` and `ssum` is a block, or NULL.
use cvos.Prelude.{ℕ, ◌*◌, ◌^◌, ◌<◌, ◌≡◌, refl, sym, ◌∙◌, ap, arith, List, [], ◌∷◌, ◌++◌}
use cvos.Prelude.{Option, none, some, true, ℤ, pos, replicate, ◌>>=◌, copy, strlen, copy-mid}
use cvos.Prelude.{length, length-append, no_nul, strlen-nul}
use cvos.Timer.{to_int, to_int-small}
use cvos.Mac.{mac_text, hex_byte}
use cvos.Md5.{Ctx, md5_init, md5_update, md5_final}
use cvos.Md5.Final.{cleared}
use cvos.Md5.Digest.{md5, md5_parts, md5_size}

-- `sum`, and the context after the three calls of MD5
token_hash : List ℕ → List ℕ → List ℕ → Option (List ℕ × Ctx)
token_hash block str seconds = do
  len ← strlen str
  m ← md5_update (md5_init block) str (to_int (pos len))
  m ← md5_update m seconds (pos 8)
  md5_final m (replicate 16 0)

-- bytes stored at a pointer that is not NULL
store : Option (List ℕ) → List ℕ → Option (Option (List ℕ))
store none bytes = some none
store (some p) bytes = do p ← copy p 0 bytes; some (some p)

-- `utl_TokenCreate(str, md5, ssum)`: its result, and both blocks after it
pub token_create :
    List ℕ
    → List ℕ
    → List ℕ
    → Option (List ℕ)
    → Option (List ℕ)
    → Option (ℤ × Option (List ℕ) × Option (List ℕ))
token_create block str seconds md5 ssum = do
  hashed ← token_hash block str seconds
  md5 ← store md5 hashed.0
  ssum ← store ssum (mac_text [] hashed.0 ++ (0 ∷ []))
  some (pos 0, md5, ssum)

token_hash_lem :
    (block str rest seconds : List ℕ)
    → length block ≡ 64
    → no_nul str ≡ true
    → length str < 2 ^ 31
    → length seconds ≡ 8
    → token_hash block (str ++ (0 ∷ rest)) seconds ≡ some (md5 (str ++ seconds), cleared)
unfolding token_hash
token_hash_lem block str rest seconds size clean short eight =
    let text = str ++ (0 ∷ rest) in
    let behind : ℤ → ℤ → Option (List ℕ × Ctx) = λ len n.
      md5_update (md5_init block) text len >>= λ m.
      md5_update m seconds n >>= λ m'. md5_final m' (replicate 16 0) in
    rw (strlen-nul str rest clean) (
      ap (λ t. behind t (pos 8)) (to_int-small (length str) short)
      ∙ ap (λ t. behind (pos (length str)) (pos t)) (sym eight)
      ∙ md5_parts block str seconds (0 ∷ rest) (replicate 16 0) size refl
          (omega (arith, length-append str seconds)))

text_size : (bytes : List ℕ) → length (mac_text [] bytes) ≡ length bytes * 2
unfolding mac_text hex_byte
text_size [] = refl
text_size (b ∷ []) = refl
text_size (b ∷ c ∷ bytes) = omega (arith, text_size (c ∷ bytes))

store_front :
    (old rest bytes : List ℕ)
    → length old ≡ length bytes
    → store (some (old ++ rest)) bytes ≡ some (some (bytes ++ rest))
unfolding store
store_front old rest bytes e = rw (copy-mid [] old rest bytes 0 refl (sym e)) refl

-- On a string of fewer than 2 ^ 31 bytes and a block for the context that holds anything, with room for 16
-- bytes at `md5` and 33 at `ssum`: `utl_TokenCreate` returns 0, stores the MD5 of the string and the eight
-- bytes of the time behind it at `md5`, and its two hexadecimal digits for each byte, with a NUL, at `ssum`;
-- what stands behind these in both blocks is kept.
pub token_create_lem :
    (block str rest seconds old1 rest1 old2 rest2 : List ℕ)
    → length block ≡ 64
    → no_nul str ≡ true
    → length str < 2 ^ 31
    → length seconds ≡ 8
    → length old1 ≡ 16
    → length old2 ≡ 33
    → token_create block (str ++ (0 ∷ rest)) seconds (some (old1 ++ rest1)) (some (old2 ++ rest2))
      ≡ some (
        pos 0,
        some (md5 (str ++ seconds) ++ rest1),
        some ((mac_text [] (md5 (str ++ seconds)) ++ (0 ∷ [])) ++ rest2),
      )
unfolding token_create
token_create_lem block str rest seconds old1 rest1 old2 rest2 size clean short eight l1 l2 =
    let sum = md5 (str ++ seconds) in
    let text = mac_text [] sum ++ (0 ∷ []) in
    let size16 = md5_size (str ++ seconds) in
    rw
      (
        token_hash_lem block str rest seconds size clean short eight,
        store_front old1 rest1 sum (l1 ∙ sym size16),
        store_front old2 rest2 text
            (omega (arith, l2, length-append (mac_text [] sum) (0 ∷ []), text_size sum, size16)),
      )
      refl
