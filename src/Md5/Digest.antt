-- ===== src/Md5/Digest.antt =====
-- The code's MD5 against the definition of MD5: the padded message in blocks of 64 bytes, each compressed in
-- 64 turns, one after another.
use cvos.Prelude.{ℕ, zero, suc, ◌+◌, ◌*◌, ◌/◌, ◌%◌, ◌^◌, ◌<◌, ◌≡◌, refl, sym, ◌∙◌, ap, arith}
use cvos.Prelude.{List, [], ◌∷◌, ◌++◌, some, pos, take, drop, ◌>>=◌}
use cvos.Prelude.{length, length-append, take-append, drop-append, split_at}
use mathlib.Core.List.{append-nil}
use cvos.Md5.{Words, transform, transform_helper, md5_init, md5_update, md5_final, digest}
use cvos.Md5.Compress.{compress}
use cvos.Md5.Compress.Rounds.{Below, transform-compress, transform-Below}
use cvos.Md5.Feed.{ctx, feed, feed-append, feed-full, feed-count, feed-Fits, Fits}
use cvos.Md5.Stream.{md5_update_lem}
use cvos.Md5.Padding.{padding}
use cvos.Md5.Final.{digest_size, padding_size, cleared, md5_final_lem}

-- The hash after `k` blocks of 64 bytes, each compressed as the definition says
pub hash_blocks : ℕ → Words → List ℕ → Words
hash_blocks zero h bs = h
hash_blocks (suc k) h bs = hash_blocks k (compress (take 64 bs) h) (drop 64 bs)

-- MD5 of a message: from the four initial words, over the message and its padding
pub md5 : List ℕ → List ℕ
md5 msg =
    let whole = msg ++ padding (length msg) in
    digest (
      hash_blocks (length whole / 64)
        (record { a = 0x67452301; b = 0xefcdab89; c = 0x98badcfe; d = 0x10325476 }) whole)

-- One block fed to an empty one
feed-chunk :
    (h : Words) (p c : List ℕ) (n : ℕ)
    → length p ≡ 64
    → length c ≡ 64
    → n % 64 ≡ 0
    → feed (ctx h p n) c ≡ ctx (transform c h) c ((n + 64) % 2 ^ 64)
unfolding transform_helper
feed-chunk h p [] n size l start = absurd (omega (arith, l))
feed-chunk h p (b ∷ bs) n size l start =
    feed-full h [] p b bs n start (size ∙ sym l) (omega (arith, size))
    ∙ ap (λ t. ctx (transform (b ∷ bs) h) (b ∷ bs) ((n + t) % 2 ^ 64)) l

feed-hash_blocks :
    (k : ℕ) (h : Words) (p bs : List ℕ) (n : ℕ)
    → length p ≡ 64
    → length bs ≡ k * 64
    → n % 64 ≡ 0
    → Below h
    → (feed (ctx h p n) bs).hash ≡ hash_blocks k h bs
unfolding feed hash_blocks
feed-hash_blocks zero h p [] n size l start small = refl
feed-hash_blocks zero h p (b ∷ bs) n size l start small = absurd (omega (arith, l))
feed-hash_blocks (suc k) h p bs n size l start small =
    let (c, r, e, l') = split_at 64 bs (omega (arith, l)) in
    let first : take 64 bs ≡ c =
      ap (λ t. take t bs) (sym l') ∙ ap (λ t. take (length c) t) e ∙ take-append c r in
    let rest : drop 64 bs ≡ r =
      ap (λ t. drop t bs) (sym l') ∙ ap (λ t. drop (length c) t) e ∙ drop-append c r in
    let n' = (n + 64) % 2 ^ 64 in
    ap (λ t. (feed (ctx h p n) t).hash) e
    ∙ ap (λ t. t.hash) (feed-append (ctx h p n) c r)
    ∙ ap (λ t. (feed t r).hash) (feed-chunk h p c n size l' start)
    ∙ feed-hash_blocks k (transform c h) c r n' l'
        (omega (arith, l, ap length e, length-append c r, l')) (omega (arith, start))
        (transform-Below c h)
    ∙ ap (λ t. hash_blocks k t r) (transform-compress c h small)
    ∙ ap (λ t. hash_blocks k (compress t h) r) (sym first)
    ∙ ap (hash_blocks k (compress (take 64 bs) h)) (sym rest)

-- What is fed to a new context, with its padding
feed-md5 :
    (block msg : List ℕ)
    → length block ≡ 64
    → digest (feed (md5_init block) (msg ++ padding (length msg))).hash ≡ md5 msg
unfolding md5_init md5
feed-md5 block msg size =
    let whole = msg ++ padding (length msg) in
    let total = length-append msg (padding (length msg)) in
    ap digest (
      feed-hash_blocks (length whole / 64)
        (record { a = 0x67452301; b = 0xefcdab89; c = 0x98badcfe; d = 0x10325476 }) block whole 0
        size (omega (arith, total, padding_size (length msg))) refl
        (record { a = omega arith; b = omega arith; c = omega arith; d = omega arith }))

init-Fits : (block : List ℕ) → length block ≡ 64 → Fits (md5_init block)
unfolding md5_init
init-Fits block size = record { size = size; small = omega arith }

init_count : (block : List ℕ) → (md5_init block).byte_count ≡ 0
unfolding md5_init
init_count block = refl

-- The three calls, where the bytes are counted without a wrap
update-final :
    (block msg post out : List ℕ)
    → length block ≡ 64
    → length out ≡ 16
    → length msg < 2 ^ 64
    → (md5_update (md5_init block) (msg ++ post) (pos (length msg)) >>= λ m. md5_final m out)
      ≡ some (md5 msg, cleared)
update-final block msg post out size room small =
    let m = md5_init block in
    let fits = init-Fits block size in
    let count : (feed m msg).byte_count ≡ length msg =
      feed-count m msg fits ∙ omega (arith, init_count block) in
    rw (md5_update_lem m msg post fits) (
      md5_final_lem (feed m msg) out (feed-Fits m msg fits) room
      ∙ ap (λ t. some (digest (feed (feed m msg) (padding t)).hash, cleared)) count
      ∙ ap (λ t. some (digest t.hash, cleared)) (sym (feed-append m msg (padding (length msg))))
      ∙ ap (λ t. some (t, cleared)) (feed-md5 block msg size))

-- On a block of 64 bytes that holds anything, for a message of fewer than 2 ^ 31 bytes, as an `int` counts them,
-- and a result of 16: `md5_init`, `md5_update` of the message and `md5_final` succeed, the result is the MD5 of
-- the message (padded, and compressed block by block in 64 turns), and the context is cleared.
pub md5_final-md5 :
    (block msg post out : List ℕ)
    → length block ≡ 64
    → length out ≡ 16
    → length msg < 2 ^ 31
    → (md5_update (md5_init block) (msg ++ post) (pos (length msg)) >>= λ m. md5_final m out)
      ≡ some (md5 msg, cleared)
md5_final-md5 block msg post out size room small =
    update-final block msg post out size room (omega arith)

-- The same for a message in two parts, the second of which is the whole memory it stands in
pub md5_parts :
    (block a b post out : List ℕ)
    → length block ≡ 64
    → length out ≡ 16
    → length (a ++ b) < 2 ^ 64
    → (do
      m ← md5_update (md5_init block) (a ++ post) (pos (length a))
      m ← md5_update m b (pos (length b))
      md5_final m out)
      ≡ some (md5 (a ++ b), cleared)
md5_parts block a b post out size room small =
    let m = md5_init block in
    let fits = init-Fits block size in
    let whole = update-final block (a ++ b) [] out size room small in
    let second : md5_update (feed m a) b (pos (length b)) ≡ some (feed (feed m a) b) =
      ap (λ t. md5_update (feed m a) t (pos (length b))) (sym (append-nil b))
      ∙ md5_update_lem (feed m a) b [] (feed-Fits m a fits) in
    rw (md5_update_lem m a post fits, second, ← feed-append m a b)
      (sym (rw (md5_update_lem m (a ++ b) [] fits) refl) ∙ whole)

pub md5_size : (msg : List ℕ) → length (md5 msg) ≡ 16
unfolding md5
md5_size msg =
    let whole = msg ++ padding (length msg) in
    digest_size (
      hash_blocks (length whole / 64)
        (record { a = 0x67452301; b = 0xefcdab89; c = 0x98badcfe; d = 0x10325476 }) whole)
