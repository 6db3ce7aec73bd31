-- ===== src/Md5/Compress/Rounds.antt =====
-- `md5_transform` computes the compression of MD5's definition.
use cvos.Prelude.{ℕ, suc, ◌+◌, ◌%◌, ◌^◌, ◌<◌, ◌≡◌, refl, ◌∙◌, ap, arith}
use cvos.Prelude.{List, [], ◌∷◌}
use cvos.Md5.{
  Words, word, f1, f2, f3, f4, rotate, step, group, round1, round2, round3, round4, transform,
}
use cvos.Md5.Choose.{choose_lem}
use cvos.Md5.Compress.{
  truth, index, one_of, places, constants, rotate_left, mix, turn, turns, round, compress,
}

-- every register is a word
pub record Below (h : Words) : Type 0 where
  pub a : h.a < 2 ^ 32
  pub b : h.b < 2 ^ 32
  pub c : h.c < 2 ^ 32
  pub d : h.d < 2 ^ 32

-- the code's registers are the definition's, and are words
record Same (h h' : Words) : Type 0 where
  below : Below h
  equal : h ≡ h'

-- the code's function is the one of round `r` on words
abbrev Agrees : (ℕ → ℕ → ℕ → ℕ) → ℕ → Type 0
Agrees f r = (x y z : ℕ) → x < 2 ^ 32 → y < 2 ^ 32 → z < 2 ^ 32 → f x y z ≡ truth r x y z

f1-truth : Agrees f1 0
unfolding f1 truth
f1-truth x y z hx hy hz = choose_lem 32 x y z hx hz

f2-truth : Agrees f2 1
unfolding f1 f2 truth
f2-truth x y z hx hy hz = choose_lem 32 z x y hz hy

f3-truth : Agrees f3 2
unfolding f3 truth
f3-truth x y z hx hy hz = refl

f4-truth : Agrees f4 3
unfolding f4 truth
f4-truth x y z hx hy hz = refl

step_small : (f : ℕ → ℕ → ℕ → ℕ) (w x y z m s : ℕ) → step f w x y z m s < 2 ^ 32
unfolding step
step_small f w x y z m s = omega arith

step-mix :
    (f : ℕ → ℕ → ℕ → ℕ) (r w x y z m s : ℕ)
    → Agrees f r
    → x < 2 ^ 32
    → y < 2 ^ 32
    → z < 2 ^ 32
    → step f w x y z m s ≡ mix r w x y z m s
unfolding step mix rotate rotate_left
step-mix f r w x y z m s agrees hx hy hz =
    ap (λ t. (rotate ((w + (t + m)) % 2 ^ 32) s + x) % 2 ^ 32) (agrees x y z hx hy hz)

abbrev words : ℕ → ℕ → ℕ → ℕ → Words
words a b c d = record { a = a; b = b; c = c; d = d }

words_eq :
    {a b c d a' b' c' d' : ℕ}
    → a ≡ a'
    → b ≡ b'
    → c ≡ c'
    → d ≡ d'
    → words a b c d ≡ words a' b' c' d'
words_eq {b = b} {c = c} {d = d} {a' = a'} {b' = b'} {c' = c'} ea eb ec ed =
    ap (λ t. words t b c d) ea
    ∙ ap (λ t. words a' t c d) eb
    ∙ ap (λ t. words a' b' t d) ec
    ∙ ap (words a' b' c') ed

-- Four lines of the code are four turns.
group-turns :
    (f : ℕ → ℕ → ℕ → ℕ) (r : ℕ) (p : List ℕ) (i k1 k2 k3 k4 : ℕ) (h : Words)
    → Agrees f r
    → Below h
    → group f
        (places r i)
        (places r (suc i))
        (places r (suc (suc i)))
        (places r (suc (suc (suc i))))
        (word p (index r i) + k1)
        (word p (index r (suc i)) + k2)
        (word p (index r (suc (suc i))) + k3)
        (word p (index r (suc (suc (suc i)))) + k4)
        h
      ≡ turns r p i (k1 ∷ k2 ∷ k3 ∷ k4 ∷ []) h
unfolding group turns turn
group-turns f r p i k1 k2 k3 k4 h agrees small =
    let s1 = places r i in
    let s2 = places r (suc i) in
    let s3 = places r (suc (suc i)) in
    let s4 = places r (suc (suc (suc i))) in
    let m1 = word p (index r i) + k1 in
    let m2 = word p (index r (suc i)) + k2 in
    let m3 = word p (index r (suc (suc i))) + k3 in
    let m4 = word p (index r (suc (suc (suc i)))) + k4 in
    let a = step f h.a h.b h.c h.d m1 s1 in
    let d = step f h.d a h.b h.c m2 s2 in
    let c = step f h.c d a h.b m3 s3 in
    let b = step f h.b c d a m4 s4 in
    let a' = mix r h.a h.b h.c h.d m1 s1 in
    let d' = mix r h.d a' h.b h.c m2 s2 in
    let c' = mix r h.c d' a' h.b m3 s3 in
    let small_a = step_small f h.a h.b h.c h.d m1 s1 in
    let small_d = step_small f h.d a h.b h.c m2 s2 in
    let small_c = step_small f h.c d a h.b m3 s3 in
    let equal_a : a ≡ a' = step-mix f r h.a h.b h.c h.d m1 s1 agrees small.b small.c small.d in
    let equal_d : d ≡ d' =
      step-mix f r h.d a h.b h.c m2 s2 agrees small_a small.b small.c
      ∙ ap (λ t. mix r h.d t h.b h.c m2 s2) equal_a in
    let equal_c : c ≡ c' =
      step-mix f r h.c d a h.b m3 s3 agrees small_d small_a small.b
      ∙ ap (λ t. mix r h.c t a h.b m3 s3) equal_d
      ∙ ap (λ t. mix r h.c d' t h.b m3 s3) equal_a in
    let equal_b : b ≡ mix r h.b c' d' a' m4 s4 =
      step-mix f r h.b c d a m4 s4 agrees small_c small_d small_a
      ∙ ap (λ t. mix r h.b t d a m4 s4) equal_c
      ∙ ap (λ t. mix r h.b c' t a m4 s4) equal_d
      ∙ ap (λ t. mix r h.b c' d' t m4 s4) equal_a in
    words_eq equal_a equal_b equal_c equal_d

group-Below :
    (f : ℕ → ℕ → ℕ → ℕ) (s1 s2 s3 s4 m1 m2 m3 m4 : ℕ) (h : Words)
    → Below (group f s1 s2 s3 s4 m1 m2 m3 m4 h)
unfolding group step
group-Below f s1 s2 s3 s4 m1 m2 m3 m4 h = record {
  a = omega arith;
  b = omega arith;
  c = omega arith;
  d = omega arith;
}

quarter :
    (f : ℕ → ℕ → ℕ → ℕ) (r : ℕ) (p : List ℕ) (i k1 k2 k3 k4 : ℕ) {h h' : Words}
    → Agrees f r
    → Same h h'
    → Same
        (group f
          (places r i)
          (places r (suc i))
          (places r (suc (suc i)))
          (places r (suc (suc (suc i))))
          (word p (index r i) + k1)
          (word p (index r (suc i)) + k2)
          (word p (index r (suc (suc i))) + k3)
          (word p (index r (suc (suc (suc i)))) + k4)
          h)
        (turns r p i (k1 ∷ k2 ∷ k3 ∷ k4 ∷ []) h')
quarter f r p i k1 k2 k3 k4 {h} agrees same =
    let ks = k1 ∷ k2 ∷ k3 ∷ k4 ∷ [] in
    record {
      below =
          group-Below f (places r i) (places r (suc i)) (places r (suc (suc i)))
            (places r (suc (suc (suc i)))) (word p (index r i) + k1) (word p (index r (suc i)) + k2)
            (word p (index r (suc (suc i))) + k3) (word p (index r (suc (suc (suc i)))) + k4) h;
      equal = group-turns f r p i k1 k2 k3 k4 h agrees same.below ∙ ap (turns r p i ks) same.equal;
    }

round1-round : (p : List ℕ) {h h' : Words} → Same h h' → Same (round1 p h) (round 0 p h')
unfolding round turns constants index places one_of
round1-round p same = quarter f1 0 p 12 0x6b901122 0xfd987193 0xa679438e 0x49b40821 f1-truth (
    quarter f1 0 p 8 0x698098d8 0x8b44f7af 0xffff5bb1 0x895cd7be f1-truth (
      quarter f1 0 p 4 0xf57c0faf 0x4787c62a 0xa8304613 0xfd469501 f1-truth
        (quarter f1 0 p 0 0xd76aa478 0xe8c7b756 0x242070db 0xc1bdceee f1-truth (same))))

round2-round : (p : List ℕ) {h h' : Words} → Same h h' → Same (round2 p h) (round 1 p h')
unfolding round turns constants index places one_of
round2-round p same = quarter f2 1 p 12 0xa9e3e905 0xfcefa3f8 0x676f02d9 0x8d2a4c8a f2-truth (
    quarter f2 1 p 8 0x21e1cde6 0xc33707d6 0xf4d50d87 0x455a14ed f2-truth (
      quarter f2 1 p 4 0xd62f105d 0x02441453 0xd8a1e681 0xe7d3fbc8 f2-truth
        (quarter f2 1 p 0 0xf61e2562 0xc040b340 0x265e5a51 0xe9b6c7aa f2-truth (same))))

round3-round : (p : List ℕ) {h h' : Words} → Same h h' → Same (round3 p h) (round 2 p h')
unfolding round turns constants index places one_of
round3-round p same = quarter f3 2 p 12 0xd9d4d039 0xe6db99e5 0x1fa27cf8 0xc4ac5665 f3-truth (
    quarter f3 2 p 8 0x289b7ec6 0xeaa127fa 0xd4ef3085 0x04881d05 f3-truth (
      quarter f3 2 p 4 0xa4beea44 0x4bdecfa9 0xf6bb4b60 0xbebfbc70 f3-truth
        (quarter f3 2 p 0 0xfffa3942 0x8771f681 0x6d9d6122 0xfde5380c f3-truth (same))))

round4-round : (p : List ℕ) {h h' : Words} → Same h h' → Same (round4 p h) (round 3 p h')
unfolding round turns constants index places one_of
round4-round p same = quarter f4 3 p 12 0xf7537e82 0xbd3af235 0x2ad7d2bb 0xeb86d391 f4-truth (
    quarter f4 3 p 8 0x6fa87e4f 0xfe2ce6e0 0xa3014314 0x4e0811a1 f4-truth (
      quarter f4 3 p 4 0x655b59c3 0x8f0ccc92 0xffeff47d 0x85845dd1 f4-truth
        (quarter f4 3 p 0 0xf4292244 0x432aff97 0xab9423a7 0xfc93a039 f4-truth (same))))

pub transform-compress : (p : List ℕ) (h : Words) → Below h → transform p h ≡ compress p h
unfolding transform compress
transform-compress p h small =
    ap
      (λ t.
        words ((h.a + t.a) % 2 ^ 32) ((h.b + t.b) % 2 ^ 32) ((h.c + t.c) % 2 ^ 32)
          ((h.d + t.d) % 2 ^ 32))
      (round4-round p (
        round3-round p
          (round2-round p (round1-round p (record { below = small; equal = refl }))))).equal

pub transform-Below : (p : List ℕ) (h : Words) → Below (transform p h)
unfolding transform
transform-Below p h = record { a = omega arith; b = omega arith; c = omega arith; d = omega arith }
