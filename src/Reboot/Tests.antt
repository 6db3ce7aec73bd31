-- ===== src/Reboot/Tests.antt =====
-- Runs of reboot.c, on a machine whose state counts what it was told.
use cvos.Prelude.{ℕ, ◌+◌, ◌≤◌, ◌≡◌, refl, arith, [], ◌∷◌, some, true, false, pos, neg, length}
use cvos.Prelude.{codes}
use cvos.Reboot.{Machine, Outcome, wdt_reboot, open_watchdog, reset, reset_log_size}
use cvos.Reboot.Log.{add_lines, add_lines_lem}

abbrev no_watchdog : Machine ℕ
no_watchdog = record {
  add_line = λ line n. n + 1;
  open_device = λ name n. (neg 1, n);
  set_timeout = λ fd n. n + 1;
  close = λ fd n. n + 1;
  shell = λ cmd n. n + 1;
}

run-wdt_reboot :
    wdt_reboot no_watchdog (codes "51") (codes "2020-01-31 10:00:00") 0
    ≡ some (Outcome.returned (pos 0) 3)
unfolding wdt_reboot open_watchdog reset
run-wdt_reboot = refl

add_lines_lem_example :
    (length (add_lines ((true, 1 ∷ 2 ∷ []) ∷ (false, 3 ∷ []) ∷ []) (7 ∷ [])) ≤ reset_log_size + 2)
    × (3 ≤ reset_log_size
        → add_lines ((true, 1 ∷ 2 ∷ []) ∷ (false, 3 ∷ []) ∷ []) (7 ∷ []) ≡ 7 ∷ 1 ∷ 2 ∷ [])
add_lines_lem_example =
    add_lines_lem 2 ((true, 1 ∷ 2 ∷ []) ∷ (false, 3 ∷ []) ∷ []) (7 ∷ [])
      (omega arith, (omega arith, tt)) (omega arith)
