-- ===== src/Md5/Feed.antt =====
-- MD5 a byte at a time, as a reference for the blocks of `md5_update`.
use cvos.Prelude.{ℕ, ◌+◌, ◌%◌, ◌^◌, ◌≤◌, ◌<◌, ◌≡◌, refl, sym, ◌∙◌, ap, arith, List, [], ◌∷◌, ◌++◌}
use cvos.Prelude.{
  some, true, false, inl, inr, Bool-cases, length-set, if◌then◌else◌, ◌==◌, set, length,
  length-append,
}
use cvos.Prelude.{split_at, set-mid, copy, read_n, copy-mid, read_n-mid}
use mathlib.Core.List.{append_assoc, append-nil}
use cvos.Md5.{Words, Ctx, transform_helper, put}

-- A context with the fields in their order
abbrev pub ctx : Words → List ℕ → ℕ → Ctx
ctx h p n = record { hash = h; block = p; byte_count = n }

-- A full block is hashed.
pub settle : Ctx → Ctx
settle m = if m.byte_count % 64 == 0 then transform_helper m else m

-- The reference: a byte goes to its place in the block and is counted.
unfoldable pub feed : Ctx → List ℕ → Ctx
feed m [] = m
feed m (b ∷ bs) =
    feed (settle (ctx m.hash (set m.block (m.byte_count % 64) b) ((m.byte_count + 1) % 2 ^ 64))) bs

pub feed-append : (m : Ctx) (bs cs : List ℕ) → feed m (bs ++ cs) ≡ feed (feed m bs) cs
unfolding feed
feed-append m [] cs = refl
feed-append m (b ∷ bs) cs =
    feed-append
      (settle (ctx m.hash (set m.block (m.byte_count % 64) b) ((m.byte_count + 1) % 2 ^ 64))) bs cs

full :
    (h : Words) (p : List ℕ) (n : ℕ)
    → n % 64 ≡ 0
    → settle (ctx h p n) ≡ transform_helper (ctx h p n)
unfolding settle
full h p n e = let yes : (n % 64 == 0) ≡ true = ground arith in rw yes refl

partial : (h : Words) (p : List ℕ) (n : ℕ) → 1 ≤ n % 64 → settle (ctx h p n) ≡ ctx h p n
unfolding settle
partial h p n e = let no : (n % 64 == 0) ≡ false = ground arith in rw no refl

-- Bytes that stay within the block are put there; it is hashed at most after the last.
feed-mid :
    (h : Words) (xs old ys : List ℕ) (b : ℕ) (bs : List ℕ) (n : ℕ)
    → n % 64 ≡ length xs
    → length old ≡ length (b ∷ bs)
    → length xs + length old ≤ 64
    → feed (ctx h (xs ++ (old ++ ys)) n) (b ∷ bs)
      ≡ settle (ctx h (xs ++ ((b ∷ bs) ++ ys)) ((n + length (b ∷ bs)) % 2 ^ 64))
unfolding feed
feed-mid h xs [] ys b bs n at l fits = absurd (omega (arith, l))
feed-mid h xs (o ∷ []) ys b [] n at l fits =
    ap (λ t. settle (ctx h t ((n + 1) % 2 ^ 64))) (set-mid xs ys (n % 64) b o at)
feed-mid h xs (o ∷ o' ∷ old) ys b [] n at l fits = absurd (omega (arith, l))
feed-mid h xs (o ∷ old) ys b (b' ∷ bs) n at l fits =
    let n' = (n + 1) % 2 ^ 64 in
    let xs' = xs ++ (b ∷ []) in
    let here : settle (ctx h (set (xs ++ (o ∷ (old ++ ys))) (n % 64) b) n')
        ≡ ctx h (xs' ++ (old ++ ys)) n' =
      ap (λ t. settle (ctx h t n')) (set-mid xs (old ++ ys) (n % 64) b o at)
      ∙ partial h (xs ++ (b ∷ (old ++ ys))) n' (omega arith)
      ∙ ap (λ t. ctx h t n') (sym (append_assoc xs (b ∷ []) (old ++ ys))) in
    let rest =
      feed-mid h xs' old ys b' bs n' (omega (arith, length-append xs (b ∷ []))) (omega arith)
        (omega (arith, length-append xs (b ∷ []))) in
    let count : (n' + length (b' ∷ bs)) % 2 ^ 64 ≡ (n + length (b ∷ b' ∷ bs)) % 2 ^ 64 =
      omega arith in
    ap (λ t. feed t (b' ∷ bs)) here
    ∙ rest
    ∙ ap (λ t. settle (ctx h (xs' ++ ((b' ∷ bs) ++ ys)) t)) count
    ∙ ap (λ t. settle (ctx h t ((n + length (b ∷ b' ∷ bs)) % 2 ^ 64)))
        (append_assoc xs (b ∷ []) ((b' ∷ bs) ++ ys))

-- Bytes that fill the block
pub feed-full :
    (h : Words) (xs old : List ℕ) (b : ℕ) (bs : List ℕ) (n : ℕ)
    → n % 64 ≡ length xs
    → length old ≡ length (b ∷ bs)
    → length xs + length old ≡ 64
    → feed (ctx h (xs ++ old) n) (b ∷ bs)
      ≡ transform_helper (ctx h (xs ++ (b ∷ bs)) ((n + length (b ∷ bs)) % 2 ^ 64))
feed-full h xs old b bs n at l all =
    let n' = (n + length (b ∷ bs)) % 2 ^ 64 in
    ap (λ t. feed (ctx h (xs ++ t) n) (b ∷ bs)) (sym (append-nil old))
    ∙ feed-mid h xs old [] b bs n at l (omega arith)
    ∙ ap (λ t. settle (ctx h (xs ++ t) n')) (append-nil (b ∷ bs))
    ∙ full h (xs ++ (b ∷ bs)) n' (omega (arith, l))

-- A context as the code keeps it: a block of 64 bytes, a count of 64 bits
pub record Fits (m : Ctx) : Type 0 where
  pub size : length m.block ≡ 64
  pub small : m.byte_count < 2 ^ 64

settle-Fits : (m : Ctx) → Fits m → Fits (settle m)
unfolding settle transform_helper
settle-Fits m fits = elim (Bool-cases (m.byte_count % 64 == 0)) [
  | inl e ↦ rw e (record { size = fits.size; small = fits.small })
  | inr e ↦ rw e fits
]

settle_count : (m : Ctx) → (settle m).byte_count ≡ m.byte_count
unfolding settle transform_helper
settle_count m = elim (Bool-cases (m.byte_count % 64 == 0)) [
  | inl e ↦ rw e refl
  | inr e ↦ rw e refl
]

-- The bytes are counted.
pub feed-count :
    (m : Ctx) (bs : List ℕ) → Fits m → (feed m bs).byte_count ≡ (m.byte_count + length bs) % 2 ^ 64
unfolding feed
feed-count m [] fits = omega (arith, fits.small)
feed-count m (b ∷ bs) fits =
    let at = m.byte_count % 64 in
    let one = ctx m.hash (set m.block at b) ((m.byte_count + 1) % 2 ^ 64) in
    let fits' =
      settle-Fits one
        (record { size = length-set m.block at b ∙ fits.size; small = omega arith }) in
    feed-count (settle one) bs fits'
    ∙ ap (λ t. (t + length bs) % 2 ^ 64) (settle_count one)
    ∙ omega arith

pub feed-Fits : (m : Ctx) (bs : List ℕ) → Fits m → Fits (feed m bs)
unfolding feed
feed-Fits m [] fits = fits
feed-Fits m (b ∷ bs) fits =
    let at = m.byte_count % 64 in
    let one = ctx m.hash (set m.block at b) ((m.byte_count + 1) % 2 ^ 64) in
    feed-Fits (settle one) bs
      (settle-Fits one (record { size = length-set m.block at b ∙ fits.size; small = omega arith }))

-- What `put` does with the next bytes of a message, on a context where `n` bytes are counted in the
-- reference: `q` is the new block.
pub record Lands (h : Words) (p pre bs post : List ℕ) (n count : ℕ) (q : List ℕ) : Type 0 where
  pub size : length q ≡ 64
  pub out :
      (mem : List ℕ) (at i k : ℕ)
      → mem ≡ pre ++ (bs ++ post)
      → at ≡ n % 64
      → i ≡ length pre
      → k ≡ length bs
      → put (ctx h p count) at mem i k ≡ some (ctx h q count)
  pub inside : n % 64 + length bs < 64 → feed (ctx h p n) bs ≡ ctx h q ((n + length bs) % 2 ^ 64)
  pub whole :
      n % 64 + length bs ≡ 64
      → feed (ctx h p n) bs ≡ transform_helper (ctx h q ((n + length bs) % 2 ^ 64))

put-mid :
    (h : Words) (mem p q bs : List ℕ) (count at i k : ℕ)
    → read_n mem i k ≡ some bs
    → copy p at bs ≡ some q
    → put (ctx h p count) at mem i k ≡ some (ctx h q count)
unfolding put
put-mid h mem p q bs count at i k got given' = rw (got, given') refl

copy_none : (p : List ℕ) (at : ℕ) → copy p at [] ≡ some p
unfolding copy
copy_none p at = refl

pub put-Lands :
    (h : Words) (p pre bs post : List ℕ) (n count : ℕ)
    → length p ≡ 64
    → n < 2 ^ 64
    → n % 64 + length bs ≤ 64
    → (q : List ℕ) × Lands h p pre bs post n count q
unfolding feed
put-Lands h p pre [] post n count size small fits = (
  p,
  record {
    size = size;
    out = λ mem at i k em ea ei ek.
        put-mid h mem p p [] count at i k (rw (ek, em) (read_n-mid pre [] post i ei))
          (copy_none p at);
    inside = λ less. ap (λ t. ctx h p t) (omega arith);
    whole = λ all. absurd (omega arith);
  },
)
put-Lands h p pre (b ∷ bs) post n count size small fits =
    let (xs, rest, e, l) = split_at (n % 64) p (omega arith) in
    let (old, ys, e', l') =
      split_at (length (b ∷ bs)) rest (omega (arith, size, ap length e, length-append xs rest)) in
    let parts : p ≡ xs ++ (old ++ ys) = e ∙ ap (λ t. xs ++ t) e' in
    let n' = (n + length (b ∷ bs)) % 2 ^ 64 in
    let q = xs ++ ((b ∷ bs) ++ ys) in
    let fed : feed (ctx h p n) (b ∷ bs) ≡ settle (ctx h q n') =
      ap (λ t. feed (ctx h t n) (b ∷ bs)) parts
      ∙ feed-mid h xs old ys b bs n (sym l) l' (omega arith) in
    (
      q,
      record {
        size = omega (
          arith,
          size,
          ap length parts,
          length-append xs (old ++ ys),
          length-append old ys,
          length-append xs ((b ∷ bs) ++ ys),
          length-append (b ∷ bs) ys,
        );
        out = λ mem at i k em ea ei ek.
            put-mid h mem p q (b ∷ bs) count at i k
              (rw (ek, em) (read_n-mid pre (b ∷ bs) post i ei))
              (ap (λ t. copy t at (b ∷ bs)) parts
                ∙ copy-mid xs old ys (b ∷ bs) at (ea ∙ sym l) (sym l'));
        inside = λ less. fed ∙ partial h q n' (omega arith);
        whole = λ all. fed ∙ full h q n' (omega arith);
      },
    )
