-- ===== src/Md5.antt =====
-- The MD5 of vos.c (`md5_init`, `md5_update`, `md5_final`), on a machine whose words are little-endian, where `le32_to_cpu_array` and `cpu_to_le32_array` do nothing. The block of
-- a context is the list of its 64 bytes, as the code fills it through a `char *`; a word is a number below
-- 2 ^ 32. The outer `none` is an access outside of a block.
pub mod Feed
pub mod Stream
pub mod Padding
pub mod Final
pub mod Choose
pub mod Compress
pub mod Digest
mod Tests
use Prim.Native.Nat.{bit_and, bit_or, bit_xor}
use cvos.Prelude.{
  ℕ, zero, suc, ◌+◌, ◌-◌, ◌*◌, ◌/◌, ◌%◌, ◌^◌, List, [], ◌∷◌, ◌++◌, Option, none, some, true, false,
}
use cvos.Prelude.{ℤ, pos, negsuc, ltb, leb, drop, replicate, ◌>>=◌, write, copy, read_n}

-- `hash[4]`
pub record Words : Type 0 where
  pub a : ℕ
  pub b : ℕ
  pub c : ℕ
  pub d : ℕ

-- MD5CTX_S
pub record Ctx : Type 0 where
  pub hash : Words
  pub block : List ℕ
  pub byte_count : ℕ

-- `~z`
abbrev not32 : ℕ → ℕ
not32 z = 2 ^ 32 - 1 - z

f1 : ℕ → ℕ → ℕ → ℕ
f1 x y z = bit_xor z (bit_and x (bit_xor y z))

f2 : ℕ → ℕ → ℕ → ℕ
f2 x y z = f1 z x y

f3 : ℕ → ℕ → ℕ → ℕ
f3 x y z = bit_xor (bit_xor x y) z

f4 : ℕ → ℕ → ℕ → ℕ
f4 x y z = bit_xor y (bit_or x (not32 z))

-- `w<<s | w>>(32-s)`
rotate : ℕ → ℕ → ℕ
rotate w s = bit_or (w * 2 ^ s % 2 ^ 32) (w / 2 ^ (32 - s))

-- `MD5STEP`: the new `w`
step : (ℕ → ℕ → ℕ → ℕ) → ℕ → ℕ → ℕ → ℕ → ℕ → ℕ → ℕ
step f w x y z inp s = (rotate ((w + (f x y z + inp)) % 2 ^ 32) s + x) % 2 ^ 32

-- Four lines of `md5_transform`, which give new values to a, d, c and b in this order.
group : (ℕ → ℕ → ℕ → ℕ) → ℕ → ℕ → ℕ → ℕ → ℕ → ℕ → ℕ → ℕ → Words → Words
group f s1 s2 s3 s4 i1 i2 i3 i4 h =
    let a = step f h.a h.b h.c h.d i1 s1 in
    let d = step f h.d a h.b h.c i2 s2 in
    let c = step f h.c d a h.b i3 s3 in
    let b = step f h.b c d a i4 s4 in record { a = a; b = b; c = c; d = d }

-- `in[i]`
le32 : List ℕ → ℕ
le32 (x ∷ y ∷ z ∷ w ∷ rest) = x + y * 2 ^ 8 + z * 2 ^ 16 + w * 2 ^ 24
le32 xs = 0

word : List ℕ → ℕ → ℕ
word p i = le32 (drop (i * 4) p)

-- lines of F1 in `md5_transform`
abbrev round1 : List ℕ → Words → Words
round1 p h =
    let h1 =
      group f1 7 12 17 22 (word p 0 + 0xd76aa478) (word p 1 + 0xe8c7b756) (word p 2 + 0x242070db)
        (word p 3 + 0xc1bdceee) h in
    let h2 =
      group f1 7 12 17 22 (word p 4 + 0xf57c0faf) (word p 5 + 0x4787c62a) (word p 6 + 0xa8304613)
        (word p 7 + 0xfd469501) h1 in
    let h3 =
      group f1 7 12 17 22 (word p 8 + 0x698098d8) (word p 9 + 0x8b44f7af) (word p 10 + 0xffff5bb1)
        (word p 11 + 0x895cd7be) h2 in
    let h4 =
      group f1 7 12 17 22 (word p 12 + 0x6b901122) (word p 13 + 0xfd987193) (word p 14 + 0xa679438e)
        (word p 15 + 0x49b40821) h3 in
    h4

-- lines of F2 in `md5_transform`
abbrev round2 : List ℕ → Words → Words
round2 p h =
    let h1 =
      group f2 5 9 14 20 (word p 1 + 0xf61e2562) (word p 6 + 0xc040b340) (word p 11 + 0x265e5a51)
        (word p 0 + 0xe9b6c7aa) h in
    let h2 =
      group f2 5 9 14 20 (word p 5 + 0xd62f105d) (word p 10 + 0x02441453) (word p 15 + 0xd8a1e681)
        (word p 4 + 0xe7d3fbc8) h1 in
    let h3 =
      group f2 5 9 14 20 (word p 9 + 0x21e1cde6) (word p 14 + 0xc33707d6) (word p 3 + 0xf4d50d87)
        (word p 8 + 0x455a14ed) h2 in
    let h4 =
      group f2 5 9 14 20 (word p 13 + 0xa9e3e905) (word p 2 + 0xfcefa3f8) (word p 7 + 0x676f02d9)
        (word p 12 + 0x8d2a4c8a) h3 in
    h4

-- lines of F3 in `md5_transform`
abbrev round3 : List ℕ → Words → Words
round3 p h =
    let h1 =
      group f3 4 11 16 23 (word p 5 + 0xfffa3942) (word p 8 + 0x8771f681) (word p 11 + 0x6d9d6122)
        (word p 14 + 0xfde5380c) h in
    let h2 =
      group f3 4 11 16 23 (word p 1 + 0xa4beea44) (word p 4 + 0x4bdecfa9) (word p 7 + 0xf6bb4b60)
        (word p 10 + 0xbebfbc70) h1 in
    let h3 =
      group f3 4 11 16 23 (word p 13 + 0x289b7ec6) (word p 0 + 0xeaa127fa) (word p 3 + 0xd4ef3085)
        (word p 6 + 0x04881d05) h2 in
    let h4 =
      group f3 4 11 16 23 (word p 9 + 0xd9d4d039) (word p 12 + 0xe6db99e5) (word p 15 + 0x1fa27cf8)
        (word p 2 + 0xc4ac5665) h3 in
    h4

-- lines of F4 in `md5_transform`
abbrev round4 : List ℕ → Words → Words
round4 p h =
    let h1 =
      group f4 6 10 15 21 (word p 0 + 0xf4292244) (word p 7 + 0x432aff97) (word p 14 + 0xab9423a7)
        (word p 5 + 0xfc93a039) h in
    let h2 =
      group f4 6 10 15 21 (word p 12 + 0x655b59c3) (word p 3 + 0x8f0ccc92) (word p 10 + 0xffeff47d)
        (word p 1 + 0x85845dd1) h1 in
    let h3 =
      group f4 6 10 15 21 (word p 8 + 0x6fa87e4f) (word p 15 + 0xfe2ce6e0) (word p 6 + 0xa3014314)
        (word p 13 + 0x4e0811a1) h2 in
    let h4 =
      group f4 6 10 15 21 (word p 4 + 0xf7537e82) (word p 11 + 0xbd3af235) (word p 2 + 0x2ad7d2bb)
        (word p 9 + 0xeb86d391) h3 in
    h4

-- `md5_transform` of the words of a block
pub transform : List ℕ → Words → Words
transform p h =
    let r = round4 p (round3 p (round2 p (round1 p h))) in
    record {
      a = (h.a + r.a) % 2 ^ 32;
      b = (h.b + r.b) % 2 ^ 32;
      c = (h.c + r.c) % 2 ^ 32;
      d = (h.d + r.d) % 2 ^ 32;
    }

-- `md5_transform_helper`
unfoldable pub transform_helper : Ctx → Ctx
transform_helper m = record {
  hash = transform m.block m.hash;
  block = m.block;
  byte_count = m.byte_count;
}

-- `md5_init` on a context whose block holds anything
unfoldable pub md5_init : List ℕ → Ctx
md5_init block = record {
  hash = record { a = 0x67452301; b = 0xefcdab89; c = 0x98badcfe; d = 0x10325476 };
  block = block;
  byte_count = 0;
}

-- `memcpy((char *)mctx->block + at, &data[i], n)`
unfoldable pub put : Ctx → ℕ → List ℕ → ℕ → ℕ → Option Ctx
put m at data' i n = do
  bytes ← read_n data' i n
  p ← copy m.block at bytes
  some (record { hash = m.hash; block = p; byte_count = m.byte_count })

-- `md5_update` from the loop on, with `fuel` turns: `len` bytes are left from `data[i]` on.
unfoldable pub update_blocks : ℕ → Ctx → List ℕ → ℕ → ℕ → Option Ctx
update_blocks zero m data' i len = none
update_blocks (suc fuel) m data' i len = elim (leb 64 len) [
  | true ↦ (do
    m ← put m 0 data' i 64
    update_blocks fuel (transform_helper m) data' (i + 64) (len - 64))
  | false ↦ put m 0 data' i len
]

-- `md5_update` where `avail` bytes of the block are free, with the bytes counted; the loop has at most
-- len / 64 turns and one that leaves it.
unfoldable pub update_at : Ctx → List ℕ → ℕ → ℕ → Option Ctx
update_at m data' len avail = elim (ltb len avail) [
  | true ↦ put m (64 - avail) data' 0 len
  | false ↦ (do
    m ← put m (64 - avail) data' 0 avail
    update_blocks (suc len) (transform_helper m) data' avail (len - avail))
]

-- the context with `byte_count` raised
abbrev pub counted : Ctx → ℕ → Ctx
counted m n = record { hash = m.hash; block = m.block; byte_count = (m.byte_count + n) % 2 ^ 64 }

-- `md5_update`, whose length is an `int`: a negative one is sign-extended where it is counted, and read as
-- the unsigned number with its 32 bits where it is compared and counted down.
unfoldable pub md5_update : Ctx → List ℕ → ℤ → Option Ctx
md5_update m data' (pos len) = update_at (counted m len) data' len (64 - bit_and m.byte_count 0x3f)
md5_update m data' (negsuc n) =
    update_at (counted m (2 ^ 64 - suc n)) data' (2 ^ 32 - suc n) (64 - bit_and m.byte_count 0x3f)

-- the four bytes of a word
unfoldable pub le_bytes : ℕ → List ℕ
le_bytes w = w % 2 ^ 8 ∷ w / 2 ^ 8 % 2 ^ 8 ∷ w / 2 ^ 16 % 2 ^ 8 ∷ w / 2 ^ 24 % 2 ^ 8 ∷ []

-- the sixteen bytes of `hash`
unfoldable pub digest : Words → List ℕ
digest h = le_bytes h.a ++ (le_bytes h.b ++ (le_bytes h.c ++ le_bytes h.d))

-- `md5_final` up to its second `memset`: a block that has no room for the length is hashed first.
unfoldable pub pad_block : Ctx → ℕ → Option Ctx
pad_block m offset = do
  p ← write m.block offset 0x80
  elim (ltb 56 (offset + 1)) [
    | true ↦ (do
      p ← copy p (offset + 1) (replicate (64 - (offset + 1)) 0)
      let m' = transform_helper (record { hash = m.hash; block = p; byte_count = m.byte_count })
      p ← copy (m'.block) 0 (replicate 56 0)
      some (record { hash = m'.hash; block = p; byte_count = m.byte_count }))
    | false ↦ (do
      p ← copy p (offset + 1) (replicate (56 - (offset + 1)) 0)
      some (record { hash = m.hash; block = p; byte_count = m.byte_count }))
  ]

-- `md5_final`: `out` after it, and the context, which is zeroed
unfoldable pub md5_final : Ctx → List ℕ → Option (List ℕ × Ctx)
md5_final m out = do
  m ← pad_block m (bit_and m.byte_count 0x3f)
  p ← copy m.block 56 (le_bytes (m.byte_count * 2 ^ 3 % 2 ^ 32))
  p ← copy p 60 (le_bytes (m.byte_count / 2 ^ 29 % 2 ^ 32))
  out ← copy out 0 (digest (transform p m.hash))
  some (
    out,
    record { hash = record { a = 0; b = 0; c = 0; d = 0 }; block = replicate 64 0; byte_count = 0 },
  )
