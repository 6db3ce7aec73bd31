-- ===== src/Os/Tests.antt =====
-- Runs of the functions on threads, semaphores and timers, on a system that has blocks and starts no
-- thread, and on one that starts them.
use cvos.Prelude.{
  List, ◌∷◌, ap, arith, length, ◌==◌, if◌then◌else◌, ◌∙◌, ℕ, ◌+◌, ◌-◌, ◌≡◌, refl, [], none, some,
  true, false, pos, neg, ◌>>=◌,
}
use cvos.Os.{System, os_create_thread, os_create_thread_joinable, os_join_thread}
use cvos.Os.{os_create_semaphore, os_destroy_semaphore, os_wait_semaphore, os_timer_create}
use cvos.Os.Leaks.{Blocks, left, blocks_freed}

-- The state counts the blocks that are not freed.
abbrev no_threads : System ℕ
no_threads = record {
  malloc = λ n s. (some 9, s + 1);
  free = λ p s. s - 1;
  attr = λ set s. s;
  pthread_create = λ p s. (false, s);
  pthread_join = λ p s. s;
  sem_init = λ p level s. s;
  sem_trywait = λ p s. (neg 1, s);
  sem_wait = λ p s. (pos 0, s);
  sem_post = λ p s. (pos 0, s);
  sem_destroy = λ p s. s;
  timer_create = λ sival s. (true, pos 5, s);
  timer_settime = λ id sec usec s. (false, s);
  timer_delete = λ id s. (pos 0, s);
}

-- A wait on no semaphore is a success.
run-os_wait_semaphore : os_wait_semaphore no_threads none 3 ≡ (pos 0, 3)
unfolding os_wait_semaphore
run-os_wait_semaphore = refl

run-os_timer_create : os_timer_create no_threads (pos 1) (pos 0) (pos 0) 3 ≡ (neg 4, 3)
unfolding os_timer_create
run-os_timer_create = refl

-- The state is the list of the blocks that are not freed; a new one is the number of those before it.
abbrev without : ℕ → List ℕ → List ℕ
without p [] = []
without p (q ∷ blocks) = let rest = without p blocks in if p == q then blocks else q ∷ rest

abbrev threads : System (List ℕ)
threads = record {
  malloc = λ n s. (some (length s), length s ∷ s);
  free = λ p s. without p s;
  attr = λ set s. s;
  pthread_create = λ p s. (p == 1, s);
  pthread_join = λ p s. s;
  sem_init = λ p level s. s;
  sem_trywait = λ p s. (neg 1, s);
  sem_wait = λ p s. (pos 0, s);
  sem_post = λ p s. (pos 0, s);
  sem_destroy = λ p s. s;
  timer_create = λ sival s. (true, pos 5, s);
  timer_settime = λ id sec usec s. (false, s);
  timer_delete = λ id s. (pos 0, s);
}

threads-Blocks : Blocks threads (λ s. s)
threads-Blocks = record {
  malloc = λ n s. refl;
  free = λ p rest s e. ap (without p) e ∙ taken p rest;
  attr = λ set s. refl;
  create = λ p s. refl;
  join = λ p s. refl;
  init = λ p level s. refl;
  destroy = λ p s. refl;
}
  where
    taken : (p : ℕ) (rest : List ℕ) → without p (p ∷ rest) ≡ rest
    taken p rest = ground arith

blocks_freed_example :
    (left (λ s. s) (os_join_thread threads) (os_create_thread threads (7 ∷ [])) ≡ 7 ∷ [])
    × (left (λ s. s) (os_join_thread threads) (os_create_thread_joinable threads (7 ∷ [])) ≡ 7 ∷ [])
    × ((os_create_semaphore threads (some []) (pos 1) (7 ∷ []) >>= λ out.
          some (left (λ s. s) (os_destroy_semaphore threads) out))
        ≡ some (7 ∷ []))
blocks_freed_example = blocks_freed threads (λ s. s) threads-Blocks [] (pos 1) (7 ∷ [])
