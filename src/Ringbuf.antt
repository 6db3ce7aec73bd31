-- ===== src/Ringbuf.antt =====
-- ringbuf.c, the circular buffer of message slots (vos.h passes it on to programs). A pointer into
-- `arr` is the index that it points at, `NULL` is `none`. A function that changes `*r` returns the
-- new ring beside its result; what goes out through `datum *d` is an option, `none` where nothing
-- is written. The build has RINGBUF_MUTEX, RINGBUF_BLOCKING and RINGBUF_ASSIGN_DATA set.
pub mod Queue
pub mod Holds
pub mod Refine
pub mod Calls
pub mod Threads
mod Tests
use cvos.Prelude.{ℕ, ◌+◌, ◌-◌, ◌%◌, ◌^◌, Bool, true, false, List, Option, none, some}
use cvos.Prelude.{leb, ◌==◌, if◌then◌else◌, set, get_elem?, ℤ, pos, neg, is_neg, is_zero}

-- `struct ringbuf`, less the mutex and the two conditions.
pub record Ring {ℓ} (A : Type ℓ) : Type ℓ where
  pub writepos : ℕ
  pub size : ℕ
  pub num : ℕ
  pub readpos : Option ℕ
  pub arr : List A

-- What `pthread_mutex_lock` and `pthread_mutex_unlock` return in one call of a function below.
pub record Sync : Type 0 where
  pub lock : ℤ
  pub unlock : ℤ

-- `p == q` for a pointer `q` that may be NULL
abbrev pub points_at : Option ℕ → ℕ → Bool
points_at none p = false
points_at (some q) p = p == q

-- `if (NULL == r->readpos) r->readpos = r->writepos`
abbrev pub or_else : Option ℕ → ℕ → Option ℕ
or_else none w = some w
or_else (some p) w = some p

-- `size_t` counters
abbrev pub incr : ℕ → ℕ
incr n = (n + 1) % 2 ^ 64

abbrev pub decr : ℕ → ℕ
decr n = (n + (2 ^ 64 - 1)) % 2 ^ 64

module _ {ℓ} {A : Type ℓ} where
  -- A failure to set up the mutex or a condition is only printed.
  pub init : ℕ → List A → Ring A
  init size arr = record { writepos = 0; size = size; num = 0; readpos = none; arr = arr }

  abbrev pub wrap_ptr : Ring A → ℕ → ℕ
  wrap_ptr r d = if leb r.size d then d - r.size else d

  -- the test that both `enqueue` functions make before they store
  abbrev pub is_full : Ring A → Bool
  is_full r = points_at r.readpos (wrap_ptr r (r.writepos + 1))

  -- the stores of both `enqueue` functions, from `*(r->writepos) = *d` on
  pub store : Ring A → A → Ring A
  store r d = record r {
    arr = set r.arr r.writepos d;
    readpos = or_else r.readpos r.writepos;
    writepos = wrap_ptr r (r.writepos + 1);
  }

  -- `r->readpos = wrap_ptr(r, r->readpos + 1)`
  abbrev pub skip_oldest : Ring A → Option ℕ → Ring A
  skip_oldest r none = r
  skip_oldest r (some p) = record r { readpos = some (wrap_ptr r (p + 1)) }

  -- the part of `ringbuf_enqueue` that runs under the mutex
  pub enqueue_locked : Ring A → A → ℤ × Ring A
  enqueue_locked r d =
      if is_full r
      then (neg 1, store (skip_oldest r r.readpos) d)
      else (pos 0, store (record r { num = incr r.num }) d)

  -- Any result of the lock but 0 is a failure here.
  pub enqueue : Sync → Ring A → A → ℤ × Ring A
  enqueue s r d =
      let (overflow, r') = enqueue_locked r d in
      if is_zero s.lock
      then (if is_neg s.unlock then (neg 2, r') else (overflow, r'))
      else (neg 2, r)

  -- the reads of both `dequeue` functions, from `*d = *(r->readpos)` on, with `r->readpos` at `p`
  pub take_oldest : Ring A → ℕ → Option A × Ring A
  take_oldest r p =
      let new_readpos = wrap_ptr r (p + 1) in
      (
        get_elem? r.arr p,
        record r { readpos = if new_readpos == r.writepos then none else some new_readpos },
      )

  -- the part of `ringbuf_dequeue` that runs under the mutex
  pub dequeue_at : Ring A → Option ℕ → ℤ × Option A × Ring A
  dequeue_at r none = (neg 1, none, r)
  dequeue_at r (some p) =
      let (out, r') = take_oldest (record r { num = decr r.num }) p in (pos 0, out, r')

  -- Only a negative result of the lock is a failure here.
  pub dequeue : Sync → Ring A → ℤ × Option A × Ring A
  dequeue s r =
      let (underflow, out, r') = dequeue_at r r.readpos in
      if is_neg s.lock
      then (neg 2, none, r)
      else (if is_neg s.unlock then (neg 2, out, r') else (underflow, out, r'))

  -- One turn of the loop of `ringbuf_enqueue_blocking`: `none` is the wait for `cond_notfull`
  -- (after which the loop tests again), else what is left of the call runs.
  pub try_enqueue_blocking : Ring A → A → Option (Ring A)
  try_enqueue_blocking r d =
      if is_full r then none else (let r' = store r d in some (record r' { num = incr r'.num }))

  -- One turn of the loop of `ringbuf_dequeue_blocking`, up to the unlock. The `r->num --` stands
  -- behind the unlock: see `Threads`.
  pub try_dequeue_blocking : Ring A → Option ℕ → Option (Option A × Ring A)
  try_dequeue_blocking r none = none
  try_dequeue_blocking r (some p) = some (take_oldest r p)
