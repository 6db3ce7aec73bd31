-- ===== src/Os.antt =====
-- vos.c: threads, semaphores, the timers that go off once, and the blocks of memory that these take. The calls
-- of the system are a parameter, with a state that the model does not look into; NULL is `none`, and the outer
-- `none` of a result is a fault.
pub mod Leaks
mod Tests
use cvos.Prelude.{ℕ, zero, suc, ◌+◌, ◌*◌, List, Option, none, some, Bool, true, false}
use cvos.Prelude.{ℤ, pos, neg, is_neg, if◌then◌else◌, length}
use cvos.Timer.{to_int}

-- `malloc` and `free`; `pthread_create` on the block of the thread, and its attributes; `pthread_join` on what
-- the block holds; the semaphore calls on the block of the semaphore; the timer calls, where `timer_t` is an
-- integer, as in Timer, the time is in seconds and microseconds, and -1 as a result is `false`.
pub record System {ℓ} (S : Type ℓ) : Type ℓ where
  pub malloc : ℕ → S → Option ℕ × S
  pub free : ℕ → S → S
  pub attr : Bool → S → S
  pub pthread_create : ℕ → S → Bool × S
  pub pthread_join : ℕ → S → S
  pub sem_init : ℕ → ℤ → S → S
  pub sem_trywait : ℕ → S → ℤ × S
  pub sem_wait : ℕ → S → ℤ × S
  pub sem_post : ℕ → S → ℤ × S
  pub sem_destroy : ℕ → S → S
  pub timer_create : ℤ → S → Bool × ℤ × S
  pub timer_settime : ℤ → ℤ → ℤ → S → Bool × S
  pub timer_delete : ℤ → S → ℤ × S

-- the sizes of `pthread_t` and `sem_t`
abbrev pub pthread_size : ℕ
pthread_size = 8

abbrev pub sem_size : ℕ
sem_size = 32

module _ {ℓ} {S : Type ℓ} (sys : System S) where
  -- `osCreateThread`
  unfoldable pub os_create_thread : S → Option ℕ × S
  os_create_thread s =
      let (block, s1) = sys.malloc pthread_size s in
      elim block [
        | none ↦ (none, s1)
        | some p ↦
            let (started, s2) = sys.pthread_create p s1 in
            if started then (some p, s2) else (none, s2)
      ]

  -- `osCreateThreadJoinable`, whose attributes are set up before and destroyed on both branches
  unfoldable pub os_create_thread_joinable : S → Option ℕ × S
  os_create_thread_joinable s =
      let (block, s1) = sys.malloc pthread_size s in
      elim block [
        | none ↦ (none, s1)
        | some p ↦
            let (started, s2) = sys.pthread_create p (sys.attr true s1) in
            if started then (some p, sys.attr false s2) else (none, sys.attr false s2)
      ]

  -- `osJoinThread`
  unfoldable pub os_join_thread : Option ℕ → S → ℤ × S
  os_join_thread none s = (pos 0, s)
  os_join_thread (some p) s = (pos 0, sys.free p (sys.pthread_join p s))

  -- `osCreateSemaphore`, where `strlen` of NULL is a fault
  unfoldable pub os_create_semaphore : Option (List ℕ) → ℤ → S → Option (Option ℕ × S)
  os_create_semaphore none level s = none
  os_create_semaphore (some name) level s =
      let (block, s1) = sys.malloc (sem_size + length name) s in
      elim block [ none ↦ some (none, s1) | some p ↦ some (some p, sys.sem_init p level s1) ]

  -- `osTryWaitSemaphore`
  unfoldable pub os_try_wait_semaphore : Option ℕ → S → ℤ × S
  os_try_wait_semaphore none s = (pos 0, s)
  os_try_wait_semaphore (some p) s = sys.sem_trywait p s

  -- `osWaitSemaphore`
  unfoldable pub os_wait_semaphore : Option ℕ → S → ℤ × S
  os_wait_semaphore none s = (pos 0, s)
  os_wait_semaphore (some p) s = sys.sem_wait p s

  -- `osPostSemaphore`
  unfoldable pub os_post_semaphore : Option ℕ → S → ℤ × S
  os_post_semaphore none s = (pos 0, s)
  os_post_semaphore (some p) s = sys.sem_post p s

  -- `osDestroySemaphore`
  unfoldable pub os_destroy_semaphore : Option ℕ → S → ℤ × S
  os_destroy_semaphore none s = (pos 0, s)
  os_destroy_semaphore (some p) s = (pos 0, sys.free p (sys.sem_destroy p s))

  -- `osFree`
  unfoldable pub os_free : Option ℕ → S → S
  os_free none s = s
  os_free (some p) s = sys.free p s

  -- `osTimerCreate` with seconds, microseconds and the value for the function
  unfoldable pub os_timer_create : ℤ → ℤ → ℤ → S → ℤ × S
  os_timer_create sec usec sival s =
      let (created, id, s1) = sys.timer_create sival s in
      let (set, s2) = sys.timer_settime id sec usec s1 in
      if created
      then (if is_neg id then (neg 3, s1) else (if set then (to_int id, s2) else (neg 4, s2)))
      else (neg 2, s1)

  -- `osTimerDelete`
  unfoldable pub os_timer_delete : ℤ → S → ℤ × S
  os_timer_delete id s = sys.timer_delete id s

  -- `osTimerSettime`
  unfoldable pub os_timer_settime : ℤ → ℤ → ℤ → S → ℤ × S
  os_timer_settime id sec usec s =
      let (set, s') = sys.timer_settime id sec usec s in (if set then pos 0 else neg 1, s')
