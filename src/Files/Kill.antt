-- ===== src/Files/Kill.antt =====
-- What `utl_KillForced` of utils.c leaves of a process.
use cvos.Prelude.{ℕ, zero, suc, ◌<◌, ◌≡◌, refl, ◌⊎◌, inl, inr, arith, none, some}
use cvos.Prelude.{true, false, Bool-cases, ℤ, pos, neg, is_neg, is_zero}
use cvos.Files.{Calls, less_one, wait_quit, wait_killed, kill_forced}

-- What is documented of `kill` and `waitpid` on a child. A number that a call of `waitpid` returns, if it is
-- neither negative nor, without waiting, 0, says that the process has ended. SIGKILL, once it is sent, cannot be
-- caught, so that a call that waits for the process afterwards fails, by a signal, only so often. Nothing is
-- said of such a call where SIGKILL was not sent.
pub record Reaps (q : Calls) (pid : ℤ) (ended doomed : q.State → Type 0) (signals : q.State → ℕ)
    : Type 0 where
  pub polled :
      (k : q.State)
      → is_neg (q.wait pid true k).0 ≡ false
      → is_zero (q.wait pid true k).0 ≡ false
      → ended (q.wait pid true k).1
  pub killed : (k : q.State) → is_neg (q.kill pid true k).0 ≡ false → doomed (q.kill pid true k).1
  pub waited :
      (k : q.State)
      → doomed k
      → is_neg (q.wait pid false k).0 ≡ false
      → ended (q.wait pid false k).1
  pub signalled :
      (k : q.State)
      → doomed k
      → is_neg (q.wait pid false k).0 ≡ true
      → doomed (q.wait pid false k).1 × (signals (q.wait pid false k).1 < signals k)

module _ (q : Calls) (pid : ℤ) (ended doomed : q.State → Type 0) (signals : q.State → ℕ)
    (law : Reaps q pid ended doomed signals) where
  wait_quit_lem :
      (left : ℕ) (k : q.State)
      → ((wait_quit q left pid k).0 ≡ none)
        ⊎ (((wait_quit q left pid k).0 ≡ some (neg 3))
            ⊎ (((wait_quit q left pid k).0 ≡ some (pos 0)) × ended (wait_quit q left pid k).1))
  unfolding wait_quit
  wait_quit_lem zero k = inl refl
  wait_quit_lem (suc left) k =
      let (qpid, k1) = q.wait pid true k in
      elim (Bool-cases (is_neg qpid)) [
        | inl bad ↦ inr (inl (rw (wait_quit, bad) refl))
        | inr good ↦ elim (Bool-cases (is_zero qpid)) [
          | inl alive ↦ rw (wait_quit, good, alive) (wait_quit_lem left k1)
          | inr over ↦ inr (inr (rw (wait_quit, good, over) (refl, law.polled k good over)))
        ]
      ]

  wait_killed_lem :
      (fuel : ℕ) (k : q.State)
      → doomed k
      → signals k < fuel
      → (k' : q.State) × (wait_killed q fuel pid k ≡ some k') × ended k'
  unfolding wait_killed
  wait_killed_lem zero k sure h = absurd (omega arith)
  wait_killed_lem (suc fuel) k sure h =
      let (qpid, k1) = q.wait pid false k in
      elim (Bool-cases (is_neg qpid)) [
        | inl bad ↦
            let (still, less) = law.signalled k sure bad in
            let (k', e, over) = wait_killed_lem fuel k1 still (omega (arith, less)) in
            (k', rw (wait_killed, bad) e, over)
        | inr good ↦ (k1, rw (wait_killed, good) refl, law.waited k sure good)
      ]

  -- Where `waitpid` tells the end of the process, SIGKILL cannot be caught, and fewer signals than `fuel` break
  -- the wait after it: for a process number above 0 `utl_KillForced` comes to an end, and the process has
  -- ended unless the result is negative.
  pub kill_forced_lem :
      (fuel : ℕ) (k : q.State)
      → less_one pid ≡ false
      → ((k1 : q.State) → doomed k1 → signals k1 < fuel)
      → (ret : ℤ) × (k' : q.State) × (kill_forced q fuel pid k ≡ some (ret, k'))
        × ((is_neg ret ≡ true) ⊎ ended k')
  unfolding kill_forced
  kill_forced_lem fuel k valid bound =
      let (term, k1) = q.kill pid false k in
      let k2 = (wait_quit q 100 pid k1).1 in
      elim (Bool-cases (is_neg term)) [
        | inl bad ↦ (neg 2, k1, rw (kill_forced, valid, bad) refl, inl refl)
        | inr sent ↦ elim (wait_quit_lem 100 k1) [
          | inr (inl e) ↦ (neg 3, k2, rw (kill_forced, valid, sent, e) refl, inl refl)
          | inr (inr (e, over)) ↦ (pos 0, k2, rw (kill_forced, valid, sent, e) refl, inr over)
          | inl e ↦
              let (killed, k3) = q.kill pid true k2 in
              elim (Bool-cases (is_neg killed)) [
                | inl bad ↦ (neg 5, k3, rw (kill_forced, valid, sent, e, bad) refl, inl refl)
                | inr done ↦
                    let sure = law.killed k2 done in
                    let (k4, last, over) = wait_killed_lem fuel k3 sure (bound k3 sure) in
                    (pos 1, k4, rw (kill_forced, valid, sent, e, done, last) refl, inr over)
              ]
        ]
      ]
