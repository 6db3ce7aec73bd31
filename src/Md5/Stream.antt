-- ===== src/Md5/Stream.antt =====
-- `md5_update` against the reference, and a message that is given in two parts.
use cvos.Prelude.{
  ℕ, zero, suc, ◌+◌, ◌-◌, ◌%◌, ◌^◌, ◌≤◌, ◌<◌, ◌≡◌, refl, sym, ◌∙◌, ap, arith, List, [], ◌++◌,
}
use cvos.Prelude.{some, inl, inr, Bool-cases, ltb, leb, ◌>>=◌, length, length-append, split_at}
use Prim.Native.Nat.{bit_and}
use cvos.Prelude.Masks.{bit_and_63}
use mathlib.Core.List.{append_assoc}
use cvos.Prelude.{pos}
use cvos.Md5.{Words, Ctx, transform, transform_helper, update_blocks, update_at, md5_update}
use cvos.Md5.Feed.{ctx, feed, feed-append, feed-Fits, Fits, put-Lands}

-- The loop, where `count` is what the reference will have counted at the end.
update_blocks_lem :
    (fuel : ℕ) (h : Words) (p pre bs post : List ℕ) (n count : ℕ) (mem : List ℕ) (i len : ℕ)
    → length p ≡ 64
    → n < 2 ^ 64
    → n % 64 ≡ 0
    → count ≡ (n + length bs) % 2 ^ 64
    → len < fuel
    → mem ≡ pre ++ (bs ++ post)
    → i ≡ length pre
    → len ≡ length bs
    → update_blocks fuel (ctx h p count) mem i len ≡ some (feed (ctx h p n) bs)
unfolding update_blocks transform_helper
update_blocks_lem zero h p pre bs post n count mem i len size small start e f em ei el =
    absurd (omega arith)
update_blocks_lem (suc fuel) h p pre bs post n count mem i len size small start e f em ei el =
    elim (Bool-cases (leb 64 len)) [
      | inl more ↦
          let (c, r, parts, l) = split_at 64 bs (ground arith) in
          let n' = (n + length c) % 2 ^ 64 in
          let total : length bs ≡ length c + length r = ap length parts ∙ length-append c r in
          let (q, law) = put-Lands h p pre c (r ++ post) n count size small (omega arith) in
          let memory : mem ≡ pre ++ (c ++ (r ++ post)) =
            em ∙ ap (λ t. pre ++ (t ++ post)) parts ∙ ap (λ t. pre ++ t) (append_assoc c r post) in
          let rest =
            update_blocks_lem fuel (transform q h) q (pre ++ c) r post n' count mem (i + 64)
              (len - 64) law.size (omega arith) (omega (arith, l)) (omega (arith, e, total))
              (omega (arith, f)) (memory ∙ sym (append_assoc pre c (r ++ post)))
              (omega (arith, length-append pre c, l)) (omega (arith, total, l)) in
          rw (update_blocks, more, law.out mem 0 i 64 memory (sym start) ei (sym l))
            (rest
              ∙ ap (λ t. some (feed t r)) (sym (law.whole (omega (arith, l, start))))
              ∙ ap some (sym (feed-append (ctx h p n) c r))
              ∙ ap (λ t. some (feed (ctx h p n) t)) (sym parts))
      | inr less ↦
          let short : len < 64 = ground arith in
          let (q, law) = put-Lands h p pre bs post n count size small (omega arith) in
          rw (update_blocks, less)
            (law.out mem 0 i len em (sym start) ei el
              ∙ ap (λ t. some (ctx h q t)) e
              ∙ ap some (sym (law.inside (omega arith))))
    ]

-- The whole call, where `avail` bytes of the block are free
update_at_lem :
    (m : Ctx) (bs post : List ℕ) (count avail : ℕ)
    → Fits m
    → count ≡ (m.byte_count + length bs) % 2 ^ 64
    → avail ≡ 64 - m.byte_count % 64
    → update_at (ctx m.hash m.block count) (bs ++ post) (length bs) avail ≡ some (feed m bs)
unfolding transform_helper update_at feed
update_at_lem m bs post count avail fits e ea =
    let n = m.byte_count in
    elim (Bool-cases (ltb (length bs) avail)) [
      | inl less ↦
          let short : length bs < avail = ground arith in
          let (q, law) =
            put-Lands m.hash m.block [] bs post n count fits.size fits.small (omega arith) in
          rw (update_at, less)
            (law.out (bs ++ post) (64 - avail) 0 (length bs) refl (omega arith) refl refl
              ∙ ap (λ t. some (ctx m.hash q t)) e
              ∙ ap some (sym (law.inside (omega arith))))
      | inr more ↦
          let long : avail ≤ length bs = ground arith in
          let (c, r, parts, l) = split_at avail bs long in
          let total : length bs ≡ length c + length r = ap length parts ∙ length-append c r in
          let (q, law) =
            put-Lands m.hash m.block [] c (r ++ post) n count fits.size fits.small
              (omega (arith, l)) in
          let memory : bs ++ post ≡ c ++ (r ++ post) =
            ap (λ t. t ++ post) parts ∙ append_assoc c r post in
          let first = law.out (bs ++ post) (64 - avail) 0 avail memory (omega arith) refl (sym l) in
          let rest =
            update_blocks_lem (suc (length bs)) (transform q m.hash) q c r post
              ((n + length c) % 2 ^ 64) count (bs ++ post) avail (length bs - avail) law.size
              (omega arith) (omega (arith, l)) (omega (arith, e, total)) (omega arith) memory
              (sym l) (omega (arith, total, l)) in
          rw (update_at, more, first)
            (rest
              ∙ ap (λ t. some (feed t r)) (sym (law.whole (omega (arith, l))))
              ∙ ap some (sym (feed-append m c r))
              ∙ ap (λ t. some (feed m t)) (sym parts))
    ]

-- `md5_update` is the reference on the bytes it is given.
pub md5_update_lem :
    (m : Ctx) (bs post : List ℕ)
    → Fits m
    → md5_update m (bs ++ post) (pos (length bs)) ≡ some (feed m bs)
unfolding md5_update
md5_update_lem m bs post fits =
    update_at_lem m bs post ((m.byte_count + length bs) % 2 ^ 64) (64 - bit_and m.byte_count 63)
      fits refl (ap (λ t. 64 - t) (bit_and_63 m.byte_count))

-- Where a context has a block of 64 bytes and a count of 64 bits: `md5_update` of a message in two parts,
-- wherever they are cut and whatever stands behind them, leaves the context that `md5_update` of the whole
-- message leaves; both succeed.
pub md5_update-append :
    (m : Ctx) (a b post1 post2 post3 : List ℕ)
    → Fits m
    → ((md5_update m (a ++ post1) (pos (length a)) >>= λ m'.
          md5_update m' (b ++ post2) (pos (length b)))
        ≡ some (feed m (a ++ b)))
      × (md5_update m ((a ++ b) ++ post3) (pos (length (a ++ b))) ≡ some (feed m (a ++ b)))
md5_update-append m a b post1 post2 post3 fits = (
  rw (md5_update_lem m a post1 fits)
      (md5_update_lem (feed m a) b post2 (feed-Fits m a fits) ∙ ap some (sym (feed-append m a b))),
  md5_update_lem m (a ++ b) post3 fits,
)
