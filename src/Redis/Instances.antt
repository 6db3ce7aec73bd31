-- ===== src/Redis/Instances.antt =====
-- The instances of the Redis connection: `REDIS_Init` counts them up, `REDIS_UnInit` down.
use cvos.Prelude.{ℕ, zero, suc, ◌+◌, ◌≡◌, refl, ◌∙◌, ap, arith, List, none, some}
use cvos.Prelude.{
  ℤ, pos, ◌+ℤ◌, ◌-ℤ◌, is_zero, ◌==◌, true, false, if◌then◌else◌, Bool-cases, inl, inr,
}
use cvos.Redis.{Server, Conn, init, un_init, give_up}

-- one more `REDIS_Init`, and one `REDIS_UnInit`, with what they leave
abbrev pub one_more {ℓ} : {S : Type ℓ} → Server S → (List ℕ → ℤ) → List ℕ → ℤ → Conn × S → Conn × S
one_more server atoi pass db (conn, s) =
    let (_, conn', s') = init server atoi pass db conn s in (conn', s')

abbrev pub one_less {ℓ} : {S : Type ℓ} → Server S → (List ℕ → ℤ) → Conn × S → Conn × S
one_less server atoi (conn, s) = let (_, conn', s') = un_init server atoi conn s in (conn', s')

abbrev pub times {ℓ} : {A : Type ℓ} → ℕ → (A → A) → A → A
times zero f a = a
times (suc n) f a = times n f (f a)

up : (m : ℕ) → pos m +ℤ pos 1 ≡ pos (m + 1)
up m = ground arith

down : (m : ℕ) → pos (suc m) -ℤ pos 1 ≡ pos m
down m = ground arith

module _ {ℓ} {S : Type ℓ} (server : Server S) (atoi : List ℕ → ℤ) (pass : List ℕ) (db : ℤ)
    (hdl : ℕ) where
  abbrev pub counted_conn : ℤ → Conn
  counted_conn n = record { hdl = some hdl; ins_cnt = n }

  times-one_more :
      (n m : ℕ) (s : S)
      → times n (one_more server atoi pass db) (counted_conn (pos m), s)
        ≡ (counted_conn (pos (m + n)), s)
  unfolding init
  times-one_more zero m s = ap (λ k. (counted_conn (pos k), s)) (omega arith)
  times-one_more (suc n) m s =
      ap (λ k. times n (one_more server atoi pass db) (counted_conn k, s)) (up m)
      ∙ times-one_more n (m + 1) s
      ∙ ap (λ k. (counted_conn (pos k), s)) (omega arith)

  -- a `REDIS_UnInit` with the count that it leaves
  counted_down : S → ℤ → Conn × S
  counted_down s k =
      if is_zero k
      then (record { hdl = none; ins_cnt = k }, server.free hdl s)
      else (counted_conn k, s)

  one_less-counted :
      (k : ℤ) (s : S) → one_less server atoi (counted_conn k, s) ≡ counted_down s (k -ℤ pos 1)
  unfolding un_init counted_down
  one_less-counted k s = elim (Bool-cases (is_zero (k -ℤ pos 1))) [
    | inl last ↦ rw (un_init, last) refl
    | inr more ↦ rw (un_init, more) refl
  ]

  times-one_less :
      (n : ℕ) (s : S)
      → times (suc n) (one_less server atoi) (counted_conn (pos (suc n)), s)
        ≡ (record { hdl = none; ins_cnt = pos 0 }, server.free hdl s)
  unfolding counted_down
  times-one_less zero s = one_less-counted (pos 1) s ∙ ap (counted_down s) (down 0)
  times-one_less (suc n) s =
      let more : (suc n == 0) ≡ false = ground arith in
      let stays : counted_down s (pos (suc n)) ≡ (counted_conn (pos (suc n)), s) =
        rw (counted_down, more) refl in
      ap (times (suc n) (one_less server atoi))
        (one_less-counted (pos (suc (suc n))) s ∙ ap (counted_down s) (down (suc n)) ∙ stays)
      ∙ times-one_less n s

  -- However often an instance is opened on a connection that one instance has, closing them all frees the
  -- connection at the last `REDIS_UnInit`, once, and nothing else is asked of the server.
  pub one_less-one_more :
      (n : ℕ) (s : S)
      → times
          (suc n)
          (one_less server atoi)
          (times n (one_more server atoi pass db) (counted_conn (pos 1), s))
        ≡ (record { hdl = none; ins_cnt = pos 0 }, server.free hdl s)
  one_less-one_more n s =
      ap (times (suc n) (one_less server atoi))
        (times-one_more n 1 s ∙ ap (λ k. (counted_conn (pos k), s)) (omega arith))
      ∙ times-one_less n s

-- Where there is no connection and the new one gives an error, `REDIS_Init` does not free it, and forgets
-- it: the call of `REDIS_UnInit` counts 0 down.
init_leaks {ℓ} :
    {S : Type ℓ} (server : Server S) (atoi : List ℕ → ℤ) (pass : List ℕ) (db : ℤ) (hdl : ℕ)
    (s s' : S)
    → server.connect s ≡ (some (hdl, true), s')
    → init server atoi pass db (record { hdl = none; ins_cnt = pos 0 }) s
      ≡ (none, record { hdl = none; ins_cnt = pos 0 }, s')
unfolding init give_up un_init
init_leaks server atoi pass db hdl s s' fails = rw (init, fails, fails) refl
