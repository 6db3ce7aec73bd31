-- ===== src/Os/Leaks.antt =====
-- The blocks and timers of vos.c that nothing frees.
use cvos.Prelude.{ℕ, ◌+◌, ◌≡◌, ◌∙◌, ap, inl, inr}
use cvos.Prelude.{List, ◌∷◌, Option, none, some, Option-cases, Bool, true, false, Bool-cases, ℤ}
use cvos.Prelude.{if◌then◌else◌, length, ◌>>=◌}
use cvos.Os.{System, pthread_size, sem_size, os_create_thread, os_create_thread_joinable}
use cvos.Os.{os_join_thread, os_create_semaphore, os_destroy_semaphore}

-- a block in front of those that there are, if there is one
abbrev pub held : Option ℕ → List ℕ → List ℕ
held none blocks = blocks
held (some p) blocks = p ∷ blocks

-- Only `malloc` and `free` change the blocks that are not freed, which `live` lists, the last taken first:
-- `malloc` takes the block that it gives, and `free` frees the block that it is given, here the one taken
-- last.
pub record Blocks {ℓ} {S : Type ℓ} (sys : System S) (live : S → List ℕ) : Type ℓ where
  pub malloc : (n : ℕ) (s : S) → live (sys.malloc n s).1 ≡ held (sys.malloc n s).0 (live s)
  pub free : (p : ℕ) (rest : List ℕ) (s : S) → live s ≡ p ∷ rest → live (sys.free p s) ≡ rest
  pub attr : (set : Bool) (s : S) → live (sys.attr set s) ≡ live s
  pub create : (p : ℕ) (s : S) → live (sys.pthread_create p s).1 ≡ live s
  pub join : (p : ℕ) (s : S) → live (sys.pthread_join p s) ≡ live s
  pub init : (p : ℕ) (level : ℤ) (s : S) → live (sys.sem_init p level s) ≡ live s
  pub destroy : (p : ℕ) (s : S) → live (sys.sem_destroy p s) ≡ live s

-- the blocks that are left once what was created is handed to the function that ends it
abbrev pub left {ℓ} : {S : Type ℓ} → (S → List ℕ) → (Option ℕ → S → ℤ × S) → Option ℕ × S → List ℕ
left live end (made, s) = live (end made s).1

-- the block that is lost where there was one and the thread was not started on it
abbrev pub lost : Option ℕ → (ℕ → Bool) → Option ℕ
lost none started = none
lost (some p) started = if started p then none else some p

module _ {ℓ} {S : Type ℓ} (sys : System S) (live : S → List ℕ) (blocks : Blocks sys live) where
  joined :
      (s : S) (p : ℕ)
      → (sys.malloc pthread_size s).0 ≡ some p
      → left live (os_join_thread sys) (os_create_thread sys s)
        ≡ held
            (if (sys.pthread_create p (sys.malloc pthread_size s).1).0 then none else some p)
            (live s)
  unfolding os_create_thread os_join_thread
  joined s p got =
      let s1 = (sys.malloc pthread_size s).1 in
      let (started, s2) = sys.pthread_create p s1 in
      let block = blocks.malloc pthread_size s ∙ ap (λ o. held o (live s)) got in
      let before = blocks.create p s1 ∙ block in
      let after = blocks.free p (live s) (sys.pthread_join p s2) (blocks.join p s2 ∙ before) in
      elim (Bool-cases started) [
        | inl yes_started ↦ rw (os_create_thread, got, yes_started) after
        | inr not_started ↦ rw (os_create_thread, got, not_started) before
      ]

  joined_joinable :
      (s : S) (p : ℕ)
      → (sys.malloc pthread_size s).0 ≡ some p
      → left live (os_join_thread sys) (os_create_thread_joinable sys s)
        ≡ held
            (if (sys.pthread_create p (sys.attr true (sys.malloc pthread_size s).1)).0
              then none
              else some p)
            (live s)
  unfolding os_create_thread_joinable os_join_thread
  joined_joinable s p got =
      let s1 = sys.attr true (sys.malloc pthread_size s).1 in
      let (started, s2) = sys.pthread_create p s1 in
      let s3 = sys.attr false s2 in
      let block = blocks.malloc pthread_size s ∙ ap (λ o. held o (live s)) got in
      let made = blocks.attr true (sys.malloc pthread_size s).1 ∙ block in
      let before = blocks.attr false s2 ∙ blocks.create p s1 ∙ made in
      let after = blocks.free p (live s) (sys.pthread_join p s3) (blocks.join p s3 ∙ before) in
      elim (Bool-cases started) [
        | inl is_started ↦ rw (os_create_thread_joinable, got, is_started) after
        | inr not_started ↦ rw (os_create_thread_joinable, got, not_started) before
      ]

  nothing_made :
      (s : S)
      → (sys.malloc pthread_size s).0 ≡ none
      → (left live (os_join_thread sys) (os_create_thread sys s) ≡ live s)
        × (left live (os_join_thread sys) (os_create_thread_joinable sys s) ≡ live s)
  unfolding os_create_thread os_create_thread_joinable os_join_thread
  nothing_made s got =
      let block = blocks.malloc pthread_size s ∙ ap (λ o. held o (live s)) got in
      (rw (os_create_thread, got) block, rw (os_create_thread_joinable, got) block)

  destroyed :
      (name : List ℕ) (level : ℤ) (s : S)
      → (os_create_semaphore sys (some name) level s >>= λ out.
          some (left live (os_destroy_semaphore sys) out))
        ≡ some (live s)
  unfolding os_create_semaphore os_destroy_semaphore
  destroyed name level s =
      let (got, s1) = sys.malloc (sem_size + length name) s in
      elim (Option-cases got) [
        | inl nothing ↦
            let block =
              blocks.malloc (sem_size + length name) s ∙ ap (λ o. held o (live s)) nothing in
            rw (os_create_semaphore, nothing) (ap some block)
        | inr (p, some_block) ↦
            let block =
              blocks.malloc (sem_size + length name) s ∙ ap (λ o. held o (live s)) some_block in
            let s2 = sys.sem_init p level s1 in
            rw (os_create_semaphore, some_block)
              (ap some (
                blocks.free p (live s) (sys.sem_destroy p s2)
                  (blocks.destroy p s2 ∙ blocks.init p level s1 ∙ block)))
      ]

  -- On a system whose `free` frees the block that it is given: `osJoinThread` on what `osCreateThread` or
  -- `osCreateThreadJoinable` gave leaves exactly the blocks that there were before, and besides these the
  -- block of the thread where there was one and the thread could not be started; and `osDestroySemaphore` on
  -- what `osCreateSemaphore` gave leaves exactly the blocks that there were before.
  pub blocks_freed :
      (name : List ℕ) (level : ℤ) (s : S)
      → let (got, s1) = sys.malloc pthread_size s in
        (left live (os_join_thread sys) (os_create_thread sys s)
          ≡ held (lost got (λ p. (sys.pthread_create p s1).0)) (live s))
        × (left live (os_join_thread sys) (os_create_thread_joinable sys s)
            ≡ held (lost got (λ p. (sys.pthread_create p (sys.attr true s1)).0)) (live s))
        × ((os_create_semaphore sys (some name) level s >>= λ out.
              some (left live (os_destroy_semaphore sys) out))
            ≡ some (live s))
  blocks_freed name level s =
      let (got, s1) = sys.malloc pthread_size s in
      elim (Option-cases got) [
        | inl nothing ↦
            let (plain, joinable) = nothing_made s nothing in
            (rw nothing plain, rw nothing joinable, destroyed name level s)
        | inr (p, some_block) ↦ (
          rw some_block (joined s p some_block),
          rw some_block (joined_joinable s p some_block),
          destroyed name level s,
        )
      ]
