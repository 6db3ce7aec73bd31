-- ===== src/Ringbuf/Threads/Count.antt =====
-- The counter under the threads of `Threads`: `r->num --` stands behind the unlock in
-- `ringbuf_dequeue_blocking`.
use cvos.Prelude.{ℕ, ◌+◌, ◌≡◌, ◌≢◌, ◌↔◌, refl, ap, arith}
use cvos.Prelude.{Option, none, some, List, [], ◌∷◌, ◌++◌, length}
use cvos.Ringbuf.{Ring, decr, take_oldest, try_enqueue_blocking, try_dequeue_blocking}
use cvos.Ringbuf.Queue.{capacity}
use cvos.Ringbuf.Holds.{Holds, Shape, capacity-le}
use cvos.Ringbuf.Refine.{IsRing, is_full_lem, take_oldest_lem, recount, take_frame}
use cvos.Ringbuf.Threads.{State, Pc, idle, unlocked, loaded, update, taken, Reach}
use cvos.Ringbuf.Threads.{get_blocking, load, save, here, next}

pc_ne : (f : ℕ → Pc) (i j : ℕ) (p : Pc) → i ≢ j → f j ≡ idle → update f i p j ≡ idle
pc_ne f i j p ne e = ground arith

module _ {ℓ} {A : Type ℓ} where
  -- `ringbuf_enqueue_blocking` waits exactly when the queue is at its capacity.
  put_waits :
      (r : Ring A) (q : List A) (x : A)
      → Holds r q
      → (try_enqueue_blocking r x ≡ none) ↔ (length q ≡ capacity r.size)
  unfolding try_enqueue_blocking
  put_waits r q x h = rw (is_full_lem q h) (ground arith)

  -- `ringbuf_dequeue_blocking` waits exactly when the queue is empty.
  get_waits :
      (r : Ring A) (o : Option ℕ) (q : List A)
      → Shape r.arr r.size o r.writepos q
      → (try_dequeue_blocking r o ≡ none) ↔ (q ≡ [])
  unfolding try_dequeue_blocking
  get_waits r none q s = (λ _. s, λ _. refl)
  get_waits r (some p) q s = (λ e. cc, λ e. absurd (s.0 e))

  -- On a ring that holds a queue, a blocking enqueue waits exactly when the queue is at its capacity
  -- and a blocking dequeue exactly when it is empty, so they never both wait.
  pub waits_lem :
      (r : Ring A) (q : List A) (x : A)
      → Holds r q
      → ((try_enqueue_blocking r x ≡ none) ↔ (length q ≡ capacity r.size))
        × ((try_dequeue_blocking r r.readpos ≡ none) ↔ (q ≡ []))
        × ¬ ((try_enqueue_blocking r x ≡ none) × (try_dequeue_blocking r r.readpos ≡ none))
  waits_lem r q x h =
      let put = put_waits r q x h in
      let get = get_waits r r.readpos q h.shape in
      (put, get, λ both. absurd (ground (arith, put.0 both.0, ap length (get.0 both.1))))

  -- A blocking dequeue is possible on a ring with an item, and leaves the counter as it is.
  get_ready :
      (r : Ring A) (o : Option ℕ) (x : A) (q : List A)
      → Shape r.arr r.size o r.writepos (x ∷ q)
      → Holds r (x ∷ q)
      → (r' : Ring A) × (try_dequeue_blocking r o ≡ some (some x, r'))
        × Holds r' q
        × (r'.num ≡ r.num)
  unfolding try_dequeue_blocking
  get_ready r none x q s h = cc
  get_ready r (some p) x q s h =
      let done = take_oldest_lem r p x q h s.1 in
      (
        (take_oldest r p).1,
        ap (λ t. some (t, (take_oldest r p).1)) done.0,
        done.1,
        (take_frame r p).0,
      )

  -- the state after threads `i` and `j` took `x` and `y` and left the mutex
  abbrev both_took : State A → ℕ → ℕ → A → A → Ring A → Ring A → State A
  both_took s i j x y r1 r2 = record s {
    ring = r2;
    pc = update (update s.pc i unlocked) j unlocked;
    left = (s.left ++ (taken x ∷ [])) ++ (taken y ∷ []);
  }

  -- Two idle threads on a ring with two items or more can take one item each, after which both are
  -- idle again and the counter is one more than the number of items that the ring holds.
  pub count_lost :
      (s : State A) (i j : ℕ) (x y : A) (q : List A)
      → i ≢ j
      → s.pc i ≡ idle
      → s.pc j ≡ idle
      → IsRing s.ring (x ∷ y ∷ q)
      → (t : State A) × Reach s t
        × (t.pc i ≡ idle)
        × (t.pc j ≡ idle)
        × Holds t.ring q
        × (t.ring.num ≡ length q + 1)
  count_lost s i j x y q ne ei ej h =
      let (r1, e1, h1, n1) = get_ready s.ring s.ring.readpos x (y ∷ q) h.held.shape h.held in
      let (r2, e2, h2, n2) = get_ready r1 r1.readpos y q h1.shape h1 in
      let s2 = both_took s i j x y r1 r2 in
      let path : Reach s s2 =
        next (next here (get_blocking i x ei e1))
          (get_blocking j y (pc_ne s.pc i j unlocked ne ej) e2) in
      let n = r2.num in
      let f3 = update s2.pc i (loaded n) in
      let f4 = update f3 j (loaded n) in
      let f5 = update f4 i idle in
      (
        record s2 { ring = record r2 { num = decr n }; pc = update f5 j idle },
        next
            (next (next (next path (load i (ground arith))) (load j (ground arith)))
              (save i n (ground arith)))
            (save j n (ground arith)),
        ground arith,
        ground arith,
        recount (decr n) h2,
        omega (
          arith,
          n1,
          n2,
          h.counted,
          h.small,
          h.held.fits,
          capacity-le s.ring.size (omega (arith, h.held.write_in)),
        ),
      )
