-- ===== src/Ringbuf/Tests.antt =====
-- Runs of the ring at small sizes, and its theorems at concrete inputs.
use cvos.Prelude.{ℕ, ◌≡◌, refl, ◌↔◌, none, some, List, [], ◌∷◌, ◌++◌, arith}
use cvos.Prelude.{pos, neg}
use cvos.Ringbuf.{
  Ring, Sync, init, enqueue_locked, enqueue, dequeue_at, dequeue, store, take_oldest,
}
use cvos.Ringbuf.{try_enqueue_blocking, try_dequeue_blocking}
use cvos.Ringbuf.Holds.{Holds}
use cvos.Ringbuf.Refine.{IsRing}
use cvos.Ringbuf.Calls.{AllSynced, Op, put, get, run, run_queue, run-init}
use cvos.Ringbuf.Threads.{State, update, taken, Pc, idle, Reach, here, next, get_blocking}
use cvos.Ringbuf.Threads.Fifo.{IsFifo, Reach-IsFifo}
use cvos.Ringbuf.Threads.Count.{count_lost, waits_lem}

abbrev synced : Sync
synced = record { lock = pos 0; unlock = pos 0 }

abbrev slots : List ℕ
slots = 0 ∷ 0 ∷ 0 ∷ []

-- 8, then 9, round the end of the array
abbrev wrapped : Ring ℕ
wrapped = record { writepos = 1; size = 3; num = 2; readpos = some 2; arr = 9 ∷ 7 ∷ 8 ∷ [] }

abbrev script : List (Op ℕ)
script = put synced 1 ∷ put synced 2 ∷ put synced 3 ∷ get synced ∷ get synced ∷ get synced ∷ []

-- The third item overwrites the first.
run-script :
    run (init 3 slots) script
    ≡ (pos 0, none)
      ∷ (pos 0, none)
      ∷ (neg 1, none)
      ∷ (pos 0, some 2)
      ∷ (pos 0, some 3)
      ∷ (neg 1, none)
      ∷ []
unfolding run init enqueue enqueue_locked store dequeue dequeue_at take_oldest
run-script = refl

one_slot :
    run (init 1 slots) (put synced 1 ∷ put synced 2 ∷ get synced ∷ get synced ∷ [])
    ≡ (pos 0, none) ∷ (neg 1, none) ∷ (pos 0, some 2) ∷ (neg 1, none) ∷ []
unfolding run init enqueue enqueue_locked store dequeue dequeue_at take_oldest
one_slot = refl

wrapped-Holds : Holds wrapped (8 ∷ 9 ∷ [])
wrapped-Holds = record {
  storage = omega arith;
  write_in = omega arith;
  fits = omega arith;
  shape = (λ e. cc, record { read_in = omega arith; next = refl; window = (refl, (refl, tt)) });
}

wrapped-IsRing : IsRing wrapped (8 ∷ 9 ∷ [])
wrapped-IsRing = record { held = wrapped-Holds; counted = refl; small = omega arith }

abbrev two_threads : State ℕ
two_threads = record { ring = wrapped; pc = λ _. idle; sent = 8 ∷ 9 ∷ []; left = [] }

abbrev left_one : Ring ℕ
left_one = record wrapped { readpos = some 0 }

abbrev took_one : State ℕ → State ℕ
took_one s = record s {
  ring = left_one;
  pc = update s.pc 0 Pc.unlocked;
  left = s.left ++ (taken 8 ∷ []);
}

two_threads-IsFifo : IsFifo two_threads
two_threads-IsFifo = record { queue = 8 ∷ 9 ∷ []; held = wrapped-Holds; order = refl }

script-AllSynced : AllSynced script
script-AllSynced = (
  (refl, refl),
  ((refl, refl), ((refl, refl), ((refl, refl), ((refl, refl), ((refl, refl), tt))))),
)

run-init_example : run (init 3 slots) script ≡ run_queue 2 [] script
run-init_example =
    run-init 3 slots script (omega arith) (omega arith) (omega arith) script-AllSynced

-- one thread takes an item out
Reach-IsFifo_example : IsFifo (took_one two_threads)
unfolding try_dequeue_blocking take_oldest
Reach-IsFifo_example =
    Reach-IsFifo two_threads-IsFifo (next here (get_blocking 0 8 {r = left_one} refl refl))

waits_lem_example :
    ((try_enqueue_blocking wrapped 5 ≡ none) ↔ (◌≡◌ {A = ℕ} 2 2))
    × ((try_dequeue_blocking wrapped (some 2) ≡ none) ↔ (◌≡◌ {A = List ℕ} (8 ∷ 9 ∷ []) []))
    × ¬ ((try_enqueue_blocking wrapped 5 ≡ none) × (try_dequeue_blocking wrapped (some 2) ≡ none))
waits_lem_example = waits_lem wrapped (8 ∷ 9 ∷ []) 5 wrapped-Holds

count_lost_example :
    (t : State ℕ) × Reach two_threads t
    × (t.pc 0 ≡ idle)
    × (t.pc 1 ≡ idle)
    × Holds t.ring []
    × (t.ring.num ≡ 1)
count_lost_example = count_lost two_threads 0 1 8 9 [] (omega arith) refl refl wrapped-IsRing
