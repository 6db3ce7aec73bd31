-- ===== src/Ringbuf/Threads/Fifo.antt =====
-- Whatever the threads do, the ring is a first-in first-out queue.
use cvos.Prelude.{ℕ, ◌≡◌, refl, sym, ◌∙◌, ap, true, false, Option, none, some, arith}
use cvos.Prelude.{subst, some_inj, ◌<◌}
use cvos.Prelude.{List, [], ◌∷◌, ◌++◌, map, ◌==◌, length, get_elem?, inl, inr, Bool-cases}
use mathlib.Core.List.{append_assoc, map-append}
use cvos.Ringbuf.{Ring, is_full, store, incr, decr, enqueue_locked, dequeue_at, take_oldest}
use cvos.Ringbuf.{try_enqueue_blocking, try_dequeue_blocking}
use cvos.Ringbuf.Queue.{capacity, tail}
use cvos.Ringbuf.Holds.{Holds, Shape}
use cvos.Ringbuf.Refine.{
  Holds-store, Holds-skip_store, is_full_lem, recount, take_oldest_lem, full_ne,
}
use cvos.Ringbuf.Threads.{State, Gone, taken, dropped, Step, Reach, put_blocking, put, put_over}
use cvos.Ringbuf.Threads.{get, get_blocking, load, save, here, next}

abbrev pub item {ℓ} : {A : Type ℓ} → Gone A → A
item (taken x) = x
item (dropped x) = x

module _ {ℓ} {A : Type ℓ} where
  -- The ring holds a queue, and the items that left it followed by that queue are the items put
  -- in, in their order.
  pub record IsFifo (s : State A) : Type ℓ where
    pub queue : List A
    pub held : Holds s.ring queue
    pub order : map item s.left ++ queue ≡ s.sent

  order-put : (l q s : List A) (x : A) → l ++ q ≡ s → l ++ (q ++ (x ∷ [])) ≡ s ++ (x ∷ [])
  order-put l q s x e = sym (append_assoc l q (x ∷ [])) ∙ ap (λ t. t ++ (x ∷ [])) e

  order-get :
      (l : List (Gone A)) (g : Gone A) (q s : List A)
      → map item l ++ (item g ∷ q) ≡ s
      → map item (l ++ (g ∷ [])) ++ q ≡ s
  order-get l g q s e = rw (map-append, append_assoc (map item l) (item g ∷ []) q) e

  below : (r : Ring A) (q : List A) → Holds r q → is_full r ≡ false → length q < capacity r.size
  below r q h room =
      let test : (length q == capacity r.size) ≡ false = sym (is_full_lem q h) ∙ room in
      ground (arith, h.fits)

  put_blocking-Holds :
      (r : Ring A) (q : List A) (x : A) {r' : Ring A}
      → Holds r q
      → try_enqueue_blocking r x ≡ some r'
      → Holds r' (q ++ (x ∷ []))
  unfolding try_enqueue_blocking
  put_blocking-Holds r q x h e = elim (Bool-cases (is_full r)) [
    | inl full ↦ let stuck = rw full at e in cc stuck
    | inr room ↦
        subst (λ t. Holds t (q ++ (x ∷ []))) (some_inj (rw room at e))
          (recount (incr (store r x).num) (Holds-store r q x h (below r q h room)))
  ]

  put-Holds :
      (r : Ring A) (q : List A) (x : A)
      → Holds r q
      → is_full r ≡ false
      → Holds (enqueue_locked r x).1 (q ++ (x ∷ []))
  unfolding enqueue_locked
  put-Holds r q x h room =
      rw room (
        Holds-store (record r { num = incr r.num }) q x (recount (incr r.num) h) (below r q h room))

  put_over-Holds :
      (r : Ring A) (q : List A) (x : A)
      → Holds r q
      → is_full r ≡ true
      → Holds (enqueue_locked r x).1 (tail q ++ (x ∷ []))
  unfolding enqueue_locked
  put_over-Holds r q x h full =
      rw full
        (Holds-skip_store r r.readpos q x h.shape h (full_ne r q h (sym (is_full_lem q h) ∙ full)))

  -- The slot read at `readpos` has the first item of the queue.
  head_lem :
      (r : Ring A) (o : Option ℕ) (q : List A) (p : ℕ) (y : A)
      → o ≡ some p
      → Shape r.arr r.size o r.writepos q
      → get_elem? r.arr p ≡ some y
      → y ∷ tail q ≡ q
  head_lem r none q p y e s g = cc
  head_lem r (some k) [] p y e s g = absurd (s.0 refl)
  head_lem r (some k) (z ∷ q) p y e s g =
      let same : k ≡ p = some_inj e in ap (λ t. t ∷ q) (some_inj (sym g ∙ rw (← same) s.1.window.0))

  get-Holds :
      (r : Ring A) (o : Option ℕ) (q : List A) (x : A)
      → Shape r.arr r.size o r.writepos q
      → Holds r q
      → (dequeue_at r o).1 ≡ some x
      → (x ∷ tail q ≡ q) × Holds (dequeue_at r o).2 (tail q)
  unfolding dequeue_at
  get-Holds r none q x s h e = cc
  get-Holds r (some p) [] x s h e = absurd (s.0 refl)
  get-Holds r (some p) (y ∷ q) x s h e =
      let done =
        take_oldest_lem (record r { num = decr r.num }) p y q (recount (decr r.num) h) s.1 in
      (ap (λ t. t ∷ q) (some_inj (sym e ∙ done.0)), done.1)

  get_blocking-Holds :
      (r : Ring A) (o : Option ℕ) (q : List A) (x : A) {r' : Ring A}
      → Shape r.arr r.size o r.writepos q
      → Holds r q
      → try_dequeue_blocking r o ≡ some (some x, r')
      → (x ∷ tail q ≡ q) × Holds r' (tail q)
  unfolding try_dequeue_blocking
  get_blocking-Holds r none q x s h e = cc
  get_blocking-Holds r (some p) [] x s h e = absurd (s.0 refl)
  get_blocking-Holds r (some p) (y ∷ q) x {r'} s h e =
      let done = take_oldest_lem r p y q h s.1 in
      let out : (take_oldest r p).0 ≡ some x = ap (λ t. t.0) (some_inj e) in
      let kept : (take_oldest r p).1 ≡ r' = ap (λ t. t.1) (some_inj e) in
      (ap (λ t. t ∷ q) (some_inj (sym out ∙ done.0)), subst (λ t. Holds t q) kept done.1)

  -- No step of any thread, whichever comes next, breaks the queue.
  pub Step-IsFifo : {s t : State A} → Step s t → IsFifo s → IsFifo t
  Step-IsFifo {s} (put_blocking i x _ e) h = record {
    queue = h.queue ++ (x ∷ []);
    held = put_blocking-Holds s.ring h.queue x h.held e;
    order = order-put (map item s.left) h.queue s.sent x h.order;
  }
  Step-IsFifo {s} (put i x _ room) h = record {
    queue = h.queue ++ (x ∷ []);
    held = put-Holds s.ring h.queue x h.held room;
    order = order-put (map item s.left) h.queue s.sent x h.order;
  }
  Step-IsFifo {s} (put_over i x y p _ full e g) h =
      let first = head_lem s.ring s.ring.readpos h.queue p y e h.held.shape g in
      record {
        queue = tail h.queue ++ (x ∷ []);
        held = put_over-Holds s.ring h.queue x h.held full;
        order =
            order-put (map item (s.left ++ (dropped y ∷ []))) (tail h.queue) s.sent x
              (order-get s.left (dropped y) (tail h.queue) s.sent (rw first h.order));
      }
  Step-IsFifo {s} (get i x _ e kept) h =
      let done = get-Holds s.ring s.ring.readpos h.queue x h.held.shape h.held e in
      record {
        queue = tail h.queue;
        held = subst (λ r. Holds r (tail h.queue)) kept done.1;
        order = order-get s.left (taken x) (tail h.queue) s.sent (rw (done.0) h.order);
      }
  Step-IsFifo {s} (get_blocking i x _ e) h =
      let done = get_blocking-Holds s.ring s.ring.readpos h.queue x h.held.shape h.held e in
      record {
        queue = tail h.queue;
        held = done.1;
        order = order-get s.left (taken x) (tail h.queue) s.sent (rw (done.0) h.order);
      }
  Step-IsFifo (load i _) h = record { queue = h.queue; held = h.held; order = h.order }
  Step-IsFifo (save i n _) h = record {
    queue = h.queue;
    held = recount (decr n) h.held;
    order = h.order;
  }

  -- From a state in which the items that left the ring, followed by those that it holds, are the items put
  -- in, in their order, every interleaving of the threads' calls reaches only such states: no item is lost,
  -- doubled or reordered, and the ring holds at most its capacity.
  pub Reach-IsFifo : {s t : State A} → IsFifo s → Reach s t → IsFifo t
  Reach-IsFifo h here = h
  Reach-IsFifo h (next r st) = Step-IsFifo st (Reach-IsFifo h r)
