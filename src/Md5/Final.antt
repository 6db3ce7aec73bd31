-- ===== src/Md5/Final.antt =====
-- `md5_final` against the reference: it hashes the message's padding.
use cvos.Prelude.{ℕ, ◌+◌, ◌*◌, ◌/◌, ◌%◌, ◌^◌, ◌≡◌, refl, sym, ◌∙◌, ap, arith}
use cvos.Prelude.{List, [], ◌++◌, some}
use cvos.Prelude.{replicate, length, length-append, length-replicate}
use cvos.Prelude.{split_at, copy, copy-mid}
use mathlib.Core.List.{append_assoc, append-nil}
use cvos.Md5.{Words, Ctx, transform, md5_final, le_bytes, digest}
use cvos.Md5.Feed.{feed, Fits}
use cvos.Md5.Padding.{zeros, padding, pad_block-Padded}

pub digest_size : (h : Words) → length (digest h) ≡ 16
unfolding digest le_bytes
digest_size h = refl

bytes_size : (w : ℕ) → length (le_bytes w) ≡ 4
unfolding le_bytes
bytes_size w = refl

-- A padded message has whole blocks.
pub padding_size : (n : ℕ) → length (padding n) ≡ zeros n + 9
padding_size n = omega (
  arith,
  length-append (replicate (zeros n) 0)
      (le_bytes (n * 2 ^ 3 % 2 ^ 32) ++ le_bytes (n / 2 ^ 29 % 2 ^ 32)),
  length-append (le_bytes (n * 2 ^ 3 % 2 ^ 32)) (le_bytes (n / 2 ^ 29 % 2 ^ 32)),
  bytes_size (n * 2 ^ 3 % 2 ^ 32),
  bytes_size (n / 2 ^ 29 % 2 ^ 32),
  length-replicate (zeros n) 0,
)

-- The context that `md5_final` leaves
abbrev pub cleared : Ctx
cleared = record {
  hash = record { a = 0; b = 0; c = 0; d = 0 };
  block = replicate 64 0;
  byte_count = 0;
}

-- `md5_final` writes the hash of what was fed and its padding, and clears the context.
pub md5_final_lem :
    (m : Ctx) (out : List ℕ)
    → Fits m
    → length out ≡ 16
    → md5_final m out ≡ some (digest (feed m (padding m.byte_count)).hash, cleared)
unfolding md5_final
md5_final_lem m out fits size =
    let n = m.byte_count in
    let w1 = le_bytes (n * 2 ^ 3 % 2 ^ 32) in
    let w2 = le_bytes (n / 2 ^ 29 % 2 ^ 32) in
    let (h, q, tail, law) = pad_block-Padded m fits in
    let (t1, t2, e, l) = split_at 4 tail (omega (arith, law.back)) in
    let l2 : length t2 ≡ 4 = omega (arith, law.back, ap length e, length-append t1 t2, l) in
    let low : copy (q ++ tail) 56 w1 ≡ some (q ++ (w1 ++ t2)) =
      ap (λ t. copy (q ++ t) 56 w1) e
      ∙ copy-mid q t1 t2 w1 56 (sym law.front) (bytes_size (n * 2 ^ 3 % 2 ^ 32) ∙ sym l) in
    let high : copy (q ++ (w1 ++ t2)) 60 w2 ≡ some (q ++ (w1 ++ w2)) =
      ap (λ t. copy t 60 w2)
        (sym (append_assoc q w1 t2) ∙ ap (λ t. (q ++ w1) ++ t) (sym (append-nil t2)))
      ∙ copy-mid (q ++ w1) t2 [] w2 60
          (omega (arith, length-append q w1, law.front, bytes_size (n * 2 ^ 3 % 2 ^ 32)))
          (bytes_size (n / 2 ^ 29 % 2 ^ 32) ∙ sym l2)
      ∙ ap (λ t. some ((q ++ w1) ++ t)) (append-nil w2)
      ∙ ap some (append_assoc q w1 w2) in
    let hash = law.hashed (w1 ++ w2) (
      omega (
        arith,
        length-append w1 w2,
        bytes_size (n * 2 ^ 3 % 2 ^ 32),
        bytes_size (n / 2 ^ 29 % 2 ^ 32),
      )) in
    let sum = digest (transform (q ++ (w1 ++ w2)) h) in
    let written : copy out 0 sum ≡ some sum =
      ap (λ t. copy t 0 sum) (sym (append-nil out))
      ∙ copy-mid [] out [] sum 0 refl (digest_size (transform (q ++ (w1 ++ w2)) h) ∙ sym size)
      ∙ ap some (append-nil sum) in
    rw (law.out, low, high, written) (ap (λ t. some (digest t, cleared)) (sym hash))
