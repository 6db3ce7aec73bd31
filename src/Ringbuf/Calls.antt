-- ===== src/Ringbuf/Calls.antt =====
-- Whole calls of `ringbuf_enqueue` and `ringbuf_dequeue`, with the results of the mutex functions.
use cvos.Prelude.{ℕ, suc, ◌<◌, ◌≤◌, ◌^◌, ◌≡◌, refl, false, Option, none, some, arith}
use cvos.Prelude.{List, [], ◌∷◌, length, ℤ, pos, neg, is_neg}
use cvos.Ringbuf.{Ring, Sync, init, enqueue_locked, enqueue, dequeue_at, dequeue}
use cvos.Ringbuf.Queue
use cvos.Ringbuf.Queue.{capacity}
use cvos.Prelude.{ap, subst, Bool-cases, inl, inr, ◌∙◌, ◌==◌}
use cvos.Ringbuf.{is_full, skip_oldest, incr, decr}
use cvos.Ringbuf.Refine.{store_frame, skip_frame, take_frame}
use cvos.Ringbuf.Refine.{IsRing, init-IsRing, enqueue_locked_refines, dequeue_refines}

-- The mutex was taken and given back.
abbrev pub Synced : Sync → Type 0
Synced s = (s.lock ≡ pos 0) × (is_neg s.unlock ≡ false)

-- A call of a client, with what the mutex functions return in it.
pub data Op {ℓ} (A : Type ℓ) : Type ℓ where
  put : Sync → A → Op A
  get : Sync → Op A

abbrev pub sync {ℓ} : {A : Type ℓ} → Op A → Sync
sync (put s x) = s
sync (get s) = s

abbrev pub AllSynced {ℓ} : {A : Type ℓ} → List (Op A) → Type 0
AllSynced [] = Unit
AllSynced (o ∷ ops) = Synced (sync o) × AllSynced ops

module _ {ℓ} {A : Type ℓ} where
  -- a client's calls in order, with the result of each and the item that each gives out
  unfoldable pub run : Ring A → List (Op A) → List (ℤ × Option A)
  run r [] = []
  run r (put s x ∷ ops) = let (ret, r') = enqueue s r x in (ret, none) ∷ run r' ops
  run r (get s ∷ ops) = let (ret, out, r') = dequeue s r in (ret, out) ∷ run r' ops

  unfoldable pub run_queue : ℕ → List A → List (Op A) → List (ℤ × Option A)
  run_queue cap q [] = []
  run_queue cap q (put s x ∷ ops) =
      let (ret, q') = Queue.enqueue cap q x in (ret, none) ∷ run_queue cap q' ops
  run_queue cap q (get s ∷ ops) =
      let (ret, out, q') = Queue.dequeue q in (ret, out) ∷ run_queue cap q' ops

  enqueue-Synced : (s : Sync) (r : Ring A) (x : A) → Synced s → enqueue s r x ≡ enqueue_locked r x
  unfolding enqueue
  enqueue-Synced s r x (l, u) = rw (l, u)

  dequeue-Synced : (s : Sync) (r : Ring A) → Synced s → dequeue s r ≡ dequeue_at r r.readpos
  unfolding dequeue
  dequeue-Synced s r (l, u) = rw (l, u)

  size-enqueue : (r : Ring A) (x : A) → (enqueue_locked r x).1.size ≡ r.size
  unfolding enqueue_locked
  size-enqueue r x = elim (Bool-cases (is_full r)) [
    | inl full ↦ rw full ((store_frame (skip_oldest r r.readpos) x).1 ∙ (skip_frame r r.readpos).1)
    | inr room ↦ rw room ((store_frame (record r { num = incr r.num }) x).1)
  ]

  size-dequeue : (r : Ring A) (o : Option ℕ) → (dequeue_at r o).2.size ≡ r.size
  unfolding dequeue_at
  size-dequeue r none = refl
  size-dequeue r (some p) = (take_frame (record r { num = decr r.num }) p).1

  run_refines :
      (ops : List (Op A)) (r : Ring A) (q : List A)
      → AllSynced ops
      → IsRing r q
      → run r ops ≡ run_queue (capacity r.size) q ops
  unfolding run run_queue
  run_refines [] r q s h = refl
  run_refines (put s x ∷ ops) r q (ok, rest) h =
      let step = enqueue_locked_refines r q x h in
      let cap = capacity r.size in
      let q' = (Queue.enqueue cap q x).1 in
      let later : run (enqueue_locked r x).1 ops ≡ run_queue cap q' ops =
        subst (λ n. run (enqueue_locked r x).1 ops ≡ run_queue (capacity n) q' ops)
          (size-enqueue r x) (run_refines ops (enqueue_locked r x).1 q' rest step.1) in
      rw (enqueue-Synced s r x ok, step.0) (ap (λ t. ((Queue.enqueue cap q x).0, none) ∷ t) later)
  run_refines (get s ∷ ops) r q (ok, rest) h =
      let step = dequeue_refines r q h in
      let cap = capacity r.size in
      let q' = (Queue.dequeue q).2 in
      let later : run (dequeue_at r r.readpos).2 ops ≡ run_queue cap q' ops =
        subst (λ n. run (dequeue_at r r.readpos).2 ops ≡ run_queue (capacity n) q' ops)
          (size-dequeue r r.readpos) (run_refines ops (dequeue_at r r.readpos).2 q' rest step.2) in
      rw (dequeue-Synced s r ok, step.0, step.1)
        (ap (λ t. ((Queue.dequeue q).0, (Queue.dequeue q).1) ∷ t) later)

  -- From a ring set up over `size` slots or more, any sequence of calls in which the mutex is taken
  -- and given back returns what the same calls return on an empty queue of the ring's capacity, item
  -- for item; the capacity is `size - 1`, or 1 where the size is 1.
  pub run-init :
      (size : ℕ) (arr : List A) (ops : List (Op A))
      → 0 < size
      → size < 2 ^ 64
      → size ≤ length arr
      → AllSynced ops
      → run (init size arr) ops ≡ run_queue (capacity size) [] ops
  unfolding init
  run-init size arr ops h k e s = run_refines ops (init size arr) [] s (init-IsRing size arr h k e)

  -- When the lock reports an error as a positive number, `ringbuf_enqueue` returns -2 and leaves the
  -- ring alone, but `ringbuf_dequeue` runs on as if it held the mutex.
  lock_error :
      (e : ℕ) (u : ℤ) (r : Ring A) (x : A)
      → (enqueue (record { lock = pos (suc e); unlock = u }) r x ≡ (neg 2, r))
        × (dequeue (record { lock = pos (suc e); unlock = u }) r
            ≡ dequeue (record { lock = pos 0; unlock = u }) r)
  unfolding enqueue dequeue
  lock_error e u r x = let failed : (suc e == 0) ≡ false = ground arith in (rw failed, refl)
