-- ===== src/Md5/Tests.antt =====
-- MD5 of "abc", in one part and in two, and the theorems at this input.
use cvos.Prelude.{ℕ, pos, ◌≡◌, refl, arith, List, [], ◌∷◌, some, replicate, ◌>>=◌}
use cvos.Prelude.{copy, read_n, write}
use cvos.Md5.{md5_init, md5_update, md5_final, update_at, update_blocks, put, transform_helper}
use cvos.Md5.{
  transform, group, step, rotate, f1, f2, f3, f4, le32, word, digest, le_bytes, pad_block,
}
use cvos.Md5.Feed.{feed, Fits}
use cvos.Md5.Stream.{md5_update-append}
use cvos.Md5.Final.{cleared}
use cvos.Md5.Digest.{md5, md5_final-md5}

-- a block that holds sevens
abbrev sevens : List ℕ
sevens = replicate 64 7

abbrev abc : List ℕ
abc = 97 ∷ 98 ∷ 99 ∷ []

run-abc :
    (md5_update (md5_init sevens) abc (pos 3) >>= λ m. md5_final m (replicate 16 0))
    ≡ some (
      0x90 ∷ 0x01 ∷ 0x50 ∷ 0x98 ∷ 0x3c ∷ 0xd2 ∷ 0x4f ∷ 0xb0 ∷ 0xd6 ∷ 0x96 ∷ 0x3f ∷ 0x7d ∷ 0x28
          ∷ 0xe1 ∷ 0x7f ∷ 0x72 ∷ [],
      cleared,
    )
unfolding md5_init md5_update md5_final update_at update_blocks put transform_helper transform group
    step rotate f1 f2 f3 f4 le32 word digest le_bytes pad_block copy read_n write
run-abc = refl

sevens-Fits : Fits (md5_init sevens)
unfolding md5_init
sevens-Fits = record { size = refl; small = omega arith }

md5_update-append_example :
    ((md5_update (md5_init sevens) (97 ∷ 98 ∷ 5 ∷ []) (pos 2) >>= λ m.
    md5_update m (99 ∷ []) (pos 1))
      ≡ some (feed (md5_init sevens) abc))
    × (md5_update (md5_init sevens) (97 ∷ 98 ∷ 99 ∷ 6 ∷ []) (pos 3)
        ≡ some (feed (md5_init sevens) abc))
md5_update-append_example =
    md5_update-append (md5_init sevens) (97 ∷ 98 ∷ []) (99 ∷ []) (5 ∷ []) [] (6 ∷ []) sevens-Fits

md5_final-md5_example :
    (md5_update (md5_init sevens) (97 ∷ 98 ∷ 99 ∷ 0 ∷ []) (pos 3) >>= λ m.
    md5_final m (replicate 16 0))
    ≡ some (md5 abc, cleared)
md5_final-md5_example = md5_final-md5 sevens abc (0 ∷ []) (replicate 16 0) refl refl (omega arith)
