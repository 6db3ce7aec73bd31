-- ===== src/Ringbuf/Queue.antt =====
-- What the ring stands for: a queue of at most `cap` items, oldest first, that throws its oldest
-- item away when one more is put in.
use cvos.Prelude.{ℕ, ◌-◌, Option, none, some, List, [], ◌∷◌, ◌++◌}
use cvos.Prelude.{leb, ◌==◌, if◌then◌else◌, length, ℤ, pos, neg}

-- One slot stays free to tell a full ring from an empty one, unless it has only one.
abbrev pub capacity : ℕ → ℕ
capacity size = if leb size 1 then 1 else size - 1

module _ {ℓ} {A : Type ℓ} where
  abbrev pub tail : List A → List A
  tail [] = []
  tail (x ∷ q) = q

  unfoldable pub enqueue : ℕ → List A → A → ℤ × List A
  enqueue cap q x = if length q == cap then (neg 1, tail q ++ (x ∷ [])) else (pos 0, q ++ (x ∷ []))

  unfoldable pub dequeue : List A → ℤ × Option A × List A
  dequeue [] = (neg 1, none, [])
  dequeue (x ∷ q) = (pos 0, some x, q)
