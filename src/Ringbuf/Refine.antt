-- ===== src/Ringbuf/Refine.antt =====
-- The functions of ringbuf.c against the queue of `Queue`.
use cvos.Prelude.{ℕ, ◌+◌, ◌≤◌, ◌<◌, ◌^◌, ◌≡◌, ◌≢◌, refl, ◌∙◌, ap, arith}
use cvos.Prelude.{true, Option, none, some, List, [], ◌∷◌, ◌++◌, inl, inr}
use cvos.Prelude.{Bool-cases, ◌==◌, length, length-append, length-set}
use cvos.Ringbuf.{Ring, init, is_full, store, skip_oldest, enqueue_locked, incr, decr}
use cvos.Ringbuf.{take_oldest, dequeue_at}
use cvos.Ringbuf.Queue
use cvos.Ringbuf.Queue.{capacity, tail}
use cvos.Ringbuf.Holds.{
  IsSpan, Shape-take, Holds, Shape, slot_lt, capacity-le, points_at-full, Shape-store,
  Shape-skip_store,
}

module _ {ℓ} {A : Type ℓ} where
  -- The ring holds `q`, its counter is the length of `q`, and its size is a `size_t`.
  pub record IsRing (r : Ring A) (q : List A) : Type ℓ where
    pub held : Holds r q
    pub counted : r.num ≡ length q
    pub small : r.size < 2 ^ 64

  -- A ring set up over an array of at least `size` slots is empty.
  pub init-IsRing :
      (size : ℕ) (arr : List A)
      → 0 < size
      → size < 2 ^ 64
      → size ≤ length arr
      → IsRing (init size arr) []
  unfolding init
  init-IsRing size arr h k e = record {
    held = record { storage = e; write_in = h; fits = omega arith; shape = refl };
    counted = refl;
    small = k;
  }

  -- A ring that holds a queue is found full exactly when the queue is at its capacity.
  pub is_full_lem :
      {r : Ring A} (q : List A) → Holds r q → is_full r ≡ (length q == capacity r.size)
  is_full_lem {r} q h = points_at-full r.arr r.size r.readpos r.writepos q h.write_in h.fits h.shape

  le_size : (r : Ring A) (q : List A) → Holds r q → length q ≤ r.size
  le_size r q h = omega (arith, h.fits, capacity-le r.size (omega (arith, h.write_in)))

  lt_size : (r : Ring A) (q : List A) → Holds r q → length q < capacity r.size → length q < r.size
  lt_size r q h room = omega (arith, capacity-le r.size (omega (arith, h.write_in)))

  length-tail : (q : List A) → q ≢ [] → length (tail q) + 1 ≡ length q
  length-tail [] ne = absurd (ne refl)
  length-tail (x ∷ q) ne = omega arith

  -- What a queue is held by leaves the counter out.
  pub recount : {r : Ring A} {q : List A} (n : ℕ) → Holds r q → Holds (record r { num = n }) q
  recount n h = record {
    storage = h.storage;
    write_in = h.write_in;
    fits = h.fits;
    shape = h.shape;
  }

  -- Neither the stores nor the step past the oldest item touch the counter or the size.
  pub store_frame : (r : Ring A) (x : A) → ((store r x).num ≡ r.num) × ((store r x).size ≡ r.size)
  unfolding store
  store_frame r x = (refl, refl)

  pub skip_frame :
      (r : Ring A) (o : Option ℕ)
      → ((skip_oldest r o).num ≡ r.num) × ((skip_oldest r o).size ≡ r.size)
  skip_frame r none = (refl, refl)
  skip_frame r (some p) = (refl, refl)

  pub full_ne :
      (r : Ring A) (q : List A) → Holds r q → (length q == capacity r.size) ≡ true → q ≢ []
  full_ne r q h full e = ground (arith, ap length e)

  pub Holds-store :
      (r : Ring A) (q : List A) (x : A)
      → Holds r q
      → length q < capacity r.size
      → Holds (store r x) (q ++ (x ∷ []))
  unfolding store
  Holds-store r q x h room = record {
    storage = rw (length-set r.arr r.writepos x) h.storage;
    write_in = slot_lt r.size r.writepos 1 h.write_in (omega (arith, h.write_in));
    fits = omega (arith, length-append q (x ∷ []));
    shape =
        Shape-store r.arr r.size r.readpos r.writepos q x h.storage h.write_in (lt_size r q h room)
          h.shape;
  }

  pub Holds-skip_store :
      (r : Ring A) (o : Option ℕ) (q : List A) (x : A)
      → Shape r.arr r.size o r.writepos q
      → Holds r q
      → q ≢ []
      → Holds (store (skip_oldest r o) x) (tail q ++ (x ∷ []))
  unfolding store
  Holds-skip_store r none q x s h ne = absurd (ne s)
  Holds-skip_store r (some p) q x s h ne = record {
    storage = rw (length-set r.arr r.writepos x) h.storage;
    write_in = slot_lt r.size r.writepos 1 h.write_in (omega (arith, h.write_in));
    fits = omega (arith, length-tail q ne, length-append (tail q) (x ∷ []), h.fits);
    shape = Shape-skip_store r.arr r.size p r.writepos q x h.storage (le_size r q h) ne s.1;
  }

  -- Whether the ring is full or not, storing an item does to the ring what `Queue.enqueue` does to
  -- its queue: the results agree, and the ring is left holding the queue that is left.
  pub enqueue_locked_refines :
      (r : Ring A) (q : List A) (x : A)
      → IsRing r q
      → let (s, r') = enqueue_locked r x in
        let (s', q') = Queue.enqueue (capacity r.size) q x in (s ≡ s') × IsRing r' q'
  unfolding enqueue_locked Queue.enqueue
  enqueue_locked_refines r q x h = elim (Bool-cases (length q == capacity r.size)) [
    | inl full ↦
        let ne = full_ne r q h.held full in
        let kept = skip_frame r r.readpos in
        let frame = store_frame (skip_oldest r r.readpos) x in
        rw (is_full_lem q h.held ∙ full, full)
          (
            refl,
            record {
              held = Holds-skip_store r r.readpos q x h.held.shape h.held ne;
              counted = omega (
                arith,
                frame,
                kept,
                h.counted,
                length-tail q ne,
                length-append (tail q) (x ∷ []),
              );
              small = omega (arith, frame, kept, h.small);
            },
          )
    | inr room ↦
        let below : length q < capacity r.size = ground (arith, h.held.fits) in
        let r' = record r { num = incr r.num } in
        let frame = store_frame r' x in
        let counted : (store r' x).num ≡ length (q ++ (x ∷ [])) =
          omega (
            arith,
            frame,
            h.counted,
            h.small,
            length-append q (x ∷ []),
            lt_size r q h.held below,
          ) in
        rw (is_full_lem q h.held ∙ room, room)
          (
            refl,
            record {
              held = Holds-store r' q x (recount (incr r.num) h.held) below;
              counted = counted;
              small = omega (arith, frame, h.small);
            },
          )
  ]

  pub take_frame :
      (r : Ring A) (p : ℕ) → ((take_oldest r p).1.num ≡ r.num) × ((take_oldest r p).1.size ≡ r.size)
  unfolding take_oldest
  take_frame r p = (refl, refl)

  -- A read does to the ring what taking the oldest item does to its queue.
  pub take_oldest_lem :
      (r : Ring A) (p : ℕ) (x : A) (q : List A)
      → Holds r (x ∷ q)
      → IsSpan r.arr r.size p r.writepos (x ∷ q)
      → let (out, r') = take_oldest r p in (out ≡ some x) × Holds r' q
  unfolding take_oldest
  take_oldest_lem r p x q h s = (
    s.window.0,
    record {
      storage = h.storage;
      write_in = h.write_in;
      fits = omega (arith, h.fits);
      shape = Shape-take r.arr r.size p r.writepos x q h.fits s;
    },
  )

  pub dequeue_at_refines :
      (r : Ring A) (o : Option ℕ) (q : List A)
      → Shape r.arr r.size o r.writepos q
      → IsRing r q
      → let (s, out, r') = dequeue_at r o in
        let (s', out', q') = Queue.dequeue q in (s ≡ s') × (out ≡ out') × IsRing r' q'
  unfolding dequeue_at Queue.dequeue
  dequeue_at_refines r none q s h = rw s (refl, refl, rw s at h)
  dequeue_at_refines r (some p) [] s h = absurd (s.0 refl)
  dequeue_at_refines r (some p) (x ∷ q) s h =
      let done = take_oldest_lem (record r { num = decr r.num }) p x q (recount _ h.held) s.1 in
      let frame = take_frame (record r { num = decr r.num }) p in
      (
        refl,
        done.0,
        record {
          held = done.1;
          counted = omega (arith, frame, h.counted, h.small, le_size r (x ∷ q) h.held);
          small = omega (arith, frame, h.small);
        },
      )

  -- `ringbuf_dequeue`, under the mutex, does to the ring what `Queue.dequeue` does to its queue: the
  -- results and the items given out agree, and the ring is left holding the queue that is left.
  pub dequeue_refines :
      (r : Ring A) (q : List A)
      → IsRing r q
      → let (s, out, r') = dequeue_at r r.readpos in
        let (s', out', q') = Queue.dequeue q in (s ≡ s') × (out ≡ out') × IsRing r' q'
  dequeue_refines r q h = dequeue_at_refines r r.readpos q h.held.shape h
