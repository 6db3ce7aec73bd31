-- ===== src/Md5/Padding.antt =====
-- What `md5_final` puts behind a message, against the padding that the definition of MD5 gives.
use cvos.Prelude.{
  ℕ, zero, suc, ◌+◌, ◌-◌, ◌*◌, ◌/◌, ◌%◌, ◌^◌, ◌≤◌, ◌<◌, ◌≡◌, refl, sym, subst, ◌∙◌, ap, arith,
}
use cvos.Prelude.{List, [], ◌∷◌, ◌++◌, true, false, some, inl, inr, Bool-cases, ltb}
use cvos.Prelude.{replicate, length, length-append, length-replicate, replicate-split}
use cvos.Prelude.{split_at, write, copy, write-mid, copy-mid}
use Prim.Native.Nat.{bit_and}
use cvos.Prelude.Masks.{bit_and_63}
use mathlib.Core.List.{append_assoc, append-nil}
use cvos.Md5.{Words, Ctx, transform, transform_helper, pad_block, le_bytes}
use cvos.Md5.Feed.{ctx, feed, feed-append, feed-full, Fits}

-- The number of zeros after the byte 0x80, on a message of `n` bytes
abbrev pub zeros : ℕ → ℕ
zeros n = (119 - n % 64) % 64

-- The padding of a message of `n` bytes: 0x80, zeros, and the message's length in bits, low bytes first
abbrev pub padding : ℕ → List ℕ
padding n =
    0x80
    ∷ (replicate (zeros n) 0 ++ (le_bytes (n * 2 ^ 3 % 2 ^ 32) ++ le_bytes (n / 2 ^ 29 % 2 ^ 32)))

-- What `pad_block` leaves: `q` and eight bytes where the length goes.
pub record Padded (m : Ctx) (offset : ℕ) (h : Words) (q tail : List ℕ) : Type 0 where
  pub out : pad_block m offset ≡ some (ctx h (q ++ tail) m.byte_count)
  pub front : length q ≡ 56
  pub back : length tail ≡ 8
  pub hashed :
      (w : List ℕ)
      → length w ≡ 8
      → (feed m (0x80 ∷ (replicate (zeros m.byte_count) 0 ++ w))).hash ≡ transform (q ++ w) h

-- Zeros behind a first part and one more byte
zeros_after :
    (xs z ys : List ℕ) (v at k : ℕ)
    → at ≡ length xs + 1
    → length z ≡ k
    → copy (xs ++ (v ∷ (z ++ ys))) at (replicate k 0) ≡ some (xs ++ (v ∷ (replicate k 0 ++ ys)))
zeros_after xs z ys v at k e l =
    let front = xs ++ (v ∷ []) in
    ap (λ t. copy t at (replicate k 0)) (sym (append_assoc xs (v ∷ []) (z ++ ys)))
    ∙ copy-mid front z ys (replicate k 0) at (omega (arith, length-append xs (v ∷ [])))
        (length-replicate k 0 ∙ sym l)
    ∙ ap some (append_assoc xs (v ∷ []) (replicate k 0 ++ ys))

split_byte :
    (n : ℕ) (p : List ℕ)
    → n < length p
    → (xs : List ℕ) × (o : ℕ) × (ys : List ℕ) × (p ≡ xs ++ (o ∷ ys)) × (length xs ≡ n)
split_byte n [] h = absurd (omega arith)
split_byte zero (o ∷ p) h = ([], o, p, refl, refl)
split_byte (suc n) (x ∷ p) h =
    let (xs, o, ys, e, l) = split_byte n p (omega arith) in
    (x ∷ xs, o, ys, ap (λ t. x ∷ t) e, ap suc l)

pad_room :
    (h : Words) (p p1 p2 : List ℕ) (n offset : ℕ)
    → ltb 56 (offset + 1) ≡ false
    → write p offset 0x80 ≡ some p1
    → copy p1 (offset + 1) (replicate (56 - (offset + 1)) 0) ≡ some p2
    → pad_block (ctx h p n) offset ≡ some (ctx h p2 n)
unfolding pad_block
pad_room h p p1 p2 n offset room w c = rw (w, room, c) refl

-- The block has room for the length: eight bytes behind `k` bytes and the byte at `offset`.
room_at :
    (h : Words) (xs z tail : List ℕ) (o n offset k : ℕ)
    → length xs ≡ offset
    → length z ≡ k
    → length tail ≡ 8
    → offset ≡ n % 64
    → k + offset ≡ 55
    → ltb 56 (offset + 1) ≡ false
    → Padded (ctx h (xs ++ (o ∷ (z ++ tail))) n) offset h (xs ++ (0x80 ∷ replicate k 0)) tail
unfolding transform_helper
room_at h xs z tail o n offset k l l' last at sum room =
    let p = xs ++ (o ∷ (z ++ tail)) in
    let fill : List ℕ = replicate k 0 in
    let filled = length-replicate k 0 in
    let left : 56 - (offset + 1) ≡ k = omega arith in
    let zero_count : zeros n ≡ k = omega arith in
    record {
      out =
          pad_room h p (xs ++ (0x80 ∷ (z ++ tail))) (xs ++ (0x80 ∷ (fill ++ tail))) n offset room
            (write-mid xs (z ++ tail) offset 0x80 o (sym l))
            (ap (λ t. copy (xs ++ (0x80 ∷ (z ++ tail))) (offset + 1) (replicate t 0)) left
              ∙ zeros_after xs z tail 0x80 (offset + 1) k (omega (arith, l)) l')
          ∙ ap (λ t. some (ctx h t n)) (sym (append_assoc xs (0x80 ∷ fill) tail));
      front = omega (arith, length-append xs (0x80 ∷ fill), filled, l);
      back = last;
      hashed = λ w lw.
          ap (λ t. (feed (ctx h p n) (0x80 ∷ (replicate t 0 ++ w))).hash) zero_count
          ∙ ap (λ t. t.hash)
              (feed-full h xs (o ∷ (z ++ tail)) 0x80 (fill ++ w) n (sym at ∙ sym l)
                (omega (arith, length-append z tail, length-append fill w, filled, l', last, lw))
                (omega (arith, length-append z tail, l, l', last)))
          ∙ ap (λ t. transform t h) (sym (append_assoc xs (0x80 ∷ fill) w));
    }

split_room :
    (p : List ℕ) (offset : ℕ)
    → length p ≡ 64
    → offset ≤ 55
    → (xs : List ℕ) × (o : ℕ) × (z : List ℕ) × (tail : List ℕ) × (p ≡ xs ++ (o ∷ (z ++ tail)))
      × (length xs ≡ offset)
      × (length z ≡ 55 - offset)
      × (length tail ≡ 8)
split_room p offset size small =
    let (xs, o, ys, e, l) = split_byte offset p (omega arith) in
    let count : length ys ≡ 63 - offset =
      omega (arith, size, ap length e, length-append xs (o ∷ ys)) in
    let (z, tail, e', l') = split_at (55 - offset) ys (omega (arith, count)) in
    (
      xs,
      o,
      z,
      tail,
      e ∙ ap (λ t. xs ++ (o ∷ t)) e',
      l,
      l',
      omega (arith, count, ap length e', length-append z tail, l'),
    )

room-Padded :
    (h : Words) (p : List ℕ) (n offset : ℕ)
    → length p ≡ 64
    → offset ≡ n % 64
    → ltb 56 (offset + 1) ≡ false
    → (h' : Words) × (q : List ℕ) × (tail : List ℕ) × Padded (ctx h p n) offset h' q tail
room-Padded h p n offset size at room =
    let small : offset ≤ 55 = ground arith in
    let k = 55 - offset in
    let (xs, o, z, tail, parts, l, l', last) = split_room p offset size small in
    (
      h,
      xs ++ (0x80 ∷ replicate k 0),
      tail,
      subst (λ t. Padded (ctx h t n) offset h (xs ++ (0x80 ∷ replicate k 0)) tail) (sym parts)
          (room_at h xs z tail o n offset k l l' last at (omega arith) room),
    )

two_fills :
    (n k : ℕ) → zeros n ≡ k + 56 → replicate {A = ℕ} (zeros n) 0 ≡ replicate k 0 ++ replicate 56 0
two_fills n k e =
    let back : k + 56 - k ≡ 56 = omega arith in
    ap (λ t. replicate t 0) e
    ∙ replicate-split k (k + 56) 0 (omega arith)
    ∙ ap (λ t. replicate k 0 ++ replicate t 0) back

pad_full :
    (h : Words) (p p1 p2 p3 : List ℕ) (n offset : ℕ)
    → ltb 56 (offset + 1) ≡ true
    → write p offset 0x80 ≡ some p1
    → copy p1 (offset + 1) (replicate (64 - (offset + 1)) 0) ≡ some p2
    → copy p2 0 (replicate 56 0) ≡ some p3
    → pad_block (ctx h p n) offset ≡ some (ctx (transform p2 h) p3 n)
unfolding pad_block transform_helper
pad_full h p p1 p2 p3 n offset room w c c' = rw (w, room, c, c') refl

-- The block has no room for the length and is hashed, filled with `k` zeros; `c` and `tail` are its parts.
hashed_at :
    (h : Words) (xs z c tail : List ℕ) (o n offset k : ℕ)
    → length xs ≡ offset
    → length z ≡ k
    → offset ≡ n % 64
    → k + offset ≡ 63
    → xs ++ (0x80 ∷ replicate k 0) ≡ c ++ tail
    → length c ≡ 56
    → ltb 56 (offset + 1) ≡ true
    → Padded
        (ctx h (xs ++ (o ∷ z)) n)
        offset
        (transform (xs ++ (0x80 ∷ replicate k 0)) h)
        (replicate 56 0)
        tail
unfolding transform_helper
hashed_at h xs z c tail o n offset k l l' at sum e lc room =
    let large : 56 ≤ offset = ground arith in
    let p = xs ++ (o ∷ z) in
    let fill : List ℕ = replicate k 0 in
    let filled = length-replicate k 0 in
    let p1 = xs ++ (0x80 ∷ fill) in
    let size1 : length p1 ≡ 64 = omega (arith, length-append xs (0x80 ∷ fill), filled, l) in
    let n' = (n + length (0x80 ∷ fill)) % 2 ^ 64 in
    let left : 64 - (offset + 1) ≡ k = omega arith in
    record {
      out =
          pad_full h p (xs ++ (0x80 ∷ z)) p1 (replicate 56 0 ++ tail) n offset room
            (write-mid xs z offset 0x80 o (sym l))
            (ap (λ t. copy (xs ++ (0x80 ∷ z)) (offset + 1) (replicate t 0)) left
              ∙ ap (λ t. copy (xs ++ (0x80 ∷ t)) (offset + 1) fill) (sym (append-nil z))
              ∙ zeros_after xs z [] 0x80 (offset + 1) k (omega (arith, l)) l'
              ∙ ap (λ t. some (xs ++ (0x80 ∷ t))) (append-nil fill))
            (ap (λ t. copy t 0 (replicate 56 0)) e
              ∙ copy-mid [] c tail (replicate 56 0) 0 refl (sym lc));
      front = refl;
      back = omega (arith, size1, ap length e, length-append c tail, lc);
      hashed = λ w lw.
          ap (λ t. (feed (ctx h p n) (0x80 ∷ (t ++ w))).hash) (two_fills n k (omega arith))
          ∙ ap (λ t. (feed (ctx h p n) (0x80 ∷ t)).hash) (append_assoc fill (replicate 56 0) w)
          ∙ ap (λ t. t.hash) (feed-append (ctx h p n) (0x80 ∷ fill) (replicate 56 0 ++ w))
          ∙ ap (λ t. (feed t (replicate 56 0 ++ w)).hash)
              (feed-full h xs (o ∷ z) 0x80 fill n (sym at ∙ sym l) (omega (arith, l', filled))
                (omega (arith, l, l')))
          ∙ ap (λ t. t.hash)
              (feed-full (transform p1 h) [] p1 0 (replicate 55 0 ++ w) n' (omega (arith, filled))
                (omega (arith, size1, lw)) (omega (arith, size1)));
    }

hashed-Padded :
    (h : Words) (p : List ℕ) (n offset : ℕ)
    → length p ≡ 64
    → offset ≡ n % 64
    → ltb 56 (offset + 1) ≡ true
    → (h' : Words) × (q : List ℕ) × (tail : List ℕ) × Padded (ctx h p n) offset h' q tail
hashed-Padded h p n offset size at room =
    let k = 63 - offset in
    let (xs, o, z, parts, l) = split_byte offset p (omega arith) in
    let l' : length z ≡ k = omega (arith, size, ap length parts, length-append xs (o ∷ z)) in
    let p1 = xs ++ (0x80 ∷ replicate k 0) in
    let (c, tail, e, lc) =
      split_at 56 p1
        (omega (arith, length-append xs (0x80 ∷ replicate k 0), length-replicate k 0, l)) in
    (
      transform p1 h,
      replicate 56 0,
      tail,
      subst (λ t. Padded (ctx h t n) offset (transform p1 h) (replicate 56 0) tail) (sym parts)
          (hashed_at h xs z c tail o n offset k l l' at (omega arith) e lc room),
    )

pub pad_block-Padded :
    (m : Ctx)
    → Fits m
    → (h : Words) × (q : List ℕ) × (tail : List ℕ) × Padded m (bit_and m.byte_count 0x3f) h q tail
pad_block-Padded m fits =
    let offset = bit_and m.byte_count 0x3f in
    let at = bit_and_63 m.byte_count in
    elim (Bool-cases (ltb 56 (offset + 1))) [
      | inl e ↦ hashed-Padded m.hash m.block m.byte_count offset fits.size at e
      | inr e ↦ room-Padded m.hash m.block m.byte_count offset fits.size at e
    ]
