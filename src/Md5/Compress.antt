-- ===== src/Md5/Compress.antt =====
-- The compression of one block as MD5 is defined: 64 turns, each with its constant, its word of the block and its
-- rotation, over four registers that move up by one place.
pub mod Rounds
use Prim.Native.Nat.{bit_and, bit_or, bit_xor}
use cvos.Prelude.{ℕ, zero, suc, ◌+◌, ◌-◌, ◌*◌, ◌/◌, ◌%◌, ◌^◌, List, [], ◌∷◌}
use cvos.Md5.{Words, word}

-- F, G, H and I
truth : ℕ → ℕ → ℕ → ℕ → ℕ
truth zero x y z = bit_or (bit_and x y) (bit_and (2 ^ 32 - 1 - x) z)
truth (suc zero) x y z = bit_or (bit_and z x) (bit_and (2 ^ 32 - 1 - z) y)
truth (suc (suc zero)) x y z = bit_xor (bit_xor x y) z
truth (suc (suc (suc r))) x y z = bit_xor y (bit_or x (2 ^ 32 - 1 - z))

-- the word that turn `i` of a round takes
index : ℕ → ℕ → ℕ
index zero i = i % 16
index (suc zero) i = (5 * i + 1) % 16
index (suc (suc zero)) i = (3 * i + 5) % 16
index (suc (suc (suc r))) i = 7 * i % 16

one_of : ℕ → ℕ → ℕ → ℕ → ℕ → ℕ
one_of a b c d zero = a
one_of a b c d (suc zero) = b
one_of a b c d (suc (suc zero)) = c
one_of a b c d (suc (suc (suc i))) = d

-- the places by which turn `i` of a round rotates
places : ℕ → ℕ → ℕ
places zero i = one_of 7 12 17 22 (i % 4)
places (suc zero) i = one_of 5 9 14 20 (i % 4)
places (suc (suc zero)) i = one_of 4 11 16 23 (i % 4)
places (suc (suc (suc r))) i = one_of 6 10 15 21 (i % 4)

-- `floor (2 ^ 32 * abs (sin n))` for `n` from 1 to 64
constants : ℕ → List ℕ
constants zero =
    0xd76aa478 ∷ 0xe8c7b756 ∷ 0x242070db ∷ 0xc1bdceee ∷ 0xf57c0faf ∷ 0x4787c62a ∷ 0xa8304613
    ∷ 0xfd469501 ∷ 0x698098d8 ∷ 0x8b44f7af ∷ 0xffff5bb1 ∷ 0x895cd7be ∷ 0x6b901122 ∷ 0xfd987193
    ∷ 0xa679438e ∷ 0x49b40821 ∷ []
constants (suc zero) =
    0xf61e2562 ∷ 0xc040b340 ∷ 0x265e5a51 ∷ 0xe9b6c7aa ∷ 0xd62f105d ∷ 0x02441453 ∷ 0xd8a1e681
    ∷ 0xe7d3fbc8 ∷ 0x21e1cde6 ∷ 0xc33707d6 ∷ 0xf4d50d87 ∷ 0x455a14ed ∷ 0xa9e3e905 ∷ 0xfcefa3f8
    ∷ 0x676f02d9 ∷ 0x8d2a4c8a ∷ []
constants (suc (suc zero)) =
    0xfffa3942 ∷ 0x8771f681 ∷ 0x6d9d6122 ∷ 0xfde5380c ∷ 0xa4beea44 ∷ 0x4bdecfa9 ∷ 0xf6bb4b60
    ∷ 0xbebfbc70 ∷ 0x289b7ec6 ∷ 0xeaa127fa ∷ 0xd4ef3085 ∷ 0x04881d05 ∷ 0xd9d4d039 ∷ 0xe6db99e5
    ∷ 0x1fa27cf8 ∷ 0xc4ac5665 ∷ []
constants (suc (suc (suc r))) =
    0xf4292244 ∷ 0x432aff97 ∷ 0xab9423a7 ∷ 0xfc93a039 ∷ 0x655b59c3 ∷ 0x8f0ccc92 ∷ 0xffeff47d
    ∷ 0x85845dd1 ∷ 0x6fa87e4f ∷ 0xfe2ce6e0 ∷ 0xa3014314 ∷ 0x4e0811a1 ∷ 0xf7537e82 ∷ 0xbd3af235
    ∷ 0x2ad7d2bb ∷ 0xeb86d391 ∷ []

rotate_left : ℕ → ℕ → ℕ
rotate_left w s = bit_or (w * 2 ^ s % 2 ^ 32) (w / 2 ^ (32 - s))

mix : ℕ → ℕ → ℕ → ℕ → ℕ → ℕ → ℕ → ℕ
mix r a b c d m s = (rotate_left ((a + (truth r b c d + m)) % 2 ^ 32) s + b) % 2 ^ 32

-- Turn `i` of round `r`
turn : ℕ → List ℕ → ℕ → ℕ → Words → Words
turn r p i k h = record {
  a = h.d;
  b = mix r h.a h.b h.c h.d (word p (index r i) + k) (places r i);
  c = h.b;
  d = h.c;
}

turns : ℕ → List ℕ → ℕ → List ℕ → Words → Words
turns r p i [] h = h
turns r p i (k ∷ ks) h = turns r p (suc i) ks (turn r p i k h)

round : ℕ → List ℕ → Words → Words
round r p h = turns r p 0 (constants r) h

pub compress : List ℕ → Words → Words
compress p h =
    let r = round 3 p (round 2 p (round 1 p (round 0 p h))) in
    record {
      a = (h.a + r.a) % 2 ^ 32;
      b = (h.b + r.b) % 2 ^ 32;
      c = (h.c + r.c) % 2 ^ 32;
      d = (h.d + r.d) % 2 ^ 32;
    }
