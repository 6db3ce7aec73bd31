-- ===== src/Ringbuf/Threads.antt =====
-- Threads that share one ring. What a call does under the mutex is one step; a blocked call waits
-- until its step is possible (a woken thread tests again, so a spurious wake-up is no step). The
-- counter of `ringbuf_dequeue_blocking` is stepped down behind the unlock, by a load and a store
-- that other threads may come between.
pub mod Fifo
pub mod Count
use cvos.Prelude.{ℕ, ◌≡◌, Bool, true, false, Option, none, some, List, [], ◌∷◌, ◌++◌}
use cvos.Prelude.{◌==◌, if◌then◌else◌, get_elem?}
use cvos.Ringbuf.{Ring, decr, is_full, enqueue_locked, dequeue_at, take_oldest}
use cvos.Ringbuf.{try_enqueue_blocking, try_dequeue_blocking}

-- Where a thread stands: between calls, behind the unlock of `ringbuf_dequeue_blocking`, or with
-- the counter loaded there.
pub data Pc : Type 0 where
  idle : Pc
  unlocked : Pc
  loaded : ℕ → Pc

-- How an item left the ring.
pub data Gone {ℓ} (A : Type ℓ) : Type ℓ where
  taken : A → Gone A
  dropped : A → Gone A

abbrev pub update : (ℕ → Pc) → ℕ → Pc → ℕ → Pc
update f i p j = if i == j then p else f j

-- The ring and the threads, with all items that were put in and all that left, in order.
pub record State {ℓ} (A : Type ℓ) : Type ℓ where
  pub ring : Ring A
  pub pc : ℕ → Pc
  pub sent : List A
  pub left : List (Gone A)

module _ {ℓ} {A : Type ℓ} where
  pub data Step (s : State A) : State A → Type ℓ where
    put_blocking :
        (i : ℕ) (x : A) {r : Ring A}
        → s.pc i ≡ idle
        → try_enqueue_blocking s.ring x ≡ some r
        → Step s (record s { ring = r; sent = s.sent ++ (x ∷ []) })
    put :
        (i : ℕ) (x : A)
        → s.pc i ≡ idle
        → is_full s.ring ≡ false
        → Step s (record s { ring = (enqueue_locked s.ring x).1; sent = s.sent ++ (x ∷ []) })
    put_over :
        (i : ℕ) (x y : A) (p : ℕ)
        → s.pc i ≡ idle
        → is_full s.ring ≡ true
        → s.ring.readpos ≡ some p
        → get_elem? s.ring.arr p ≡ some y
        → Step s (record s {
          ring = (enqueue_locked s.ring x).1;
          sent = s.sent ++ (x ∷ []);
          left = s.left ++ (dropped y ∷ []);
        })
    get :
        (i : ℕ) (x : A) {r : Ring A}
        → s.pc i ≡ idle
        → (dequeue_at s.ring s.ring.readpos).1 ≡ some x
        → (dequeue_at s.ring s.ring.readpos).2 ≡ r
        → Step s (record s { ring = r; left = s.left ++ (taken x ∷ []) })
    get_blocking :
        (i : ℕ) (x : A) {r : Ring A}
        → s.pc i ≡ idle
        → try_dequeue_blocking s.ring s.ring.readpos ≡ some (some x, r)
        → Step s
            (record s { ring = r; pc = update s.pc i unlocked; left = s.left ++ (taken x ∷ []) })
    load :
        (i : ℕ) → s.pc i ≡ unlocked → Step s (record s { pc = update s.pc i (loaded s.ring.num) })
    save :
        (i n : ℕ)
        → s.pc i ≡ loaded n
        → Step s (record s { ring = record (s.ring) { num = decr n }; pc = update s.pc i idle })

  pub data Reach (s : State A) : State A → Type ℓ where
    here : Reach s s
    next : {t u : State A} → Reach s t → Step t u → Reach s u
