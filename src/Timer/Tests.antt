-- ===== src/Timer/Tests.antt =====
-- Runs of the table of timers, and its theorems at concrete inputs.
use cvos.Prelude.{◌≡◌, ◌≢◌, refl, arith, List, [], ◌∷◌, some, pos, neg, get_elem?, ◌++◌, replicate}
use cvos.Prelude.{strlen, read_n, copy, write}
use cvos.Clock.{digit2time, rec_get_time, fields, in_range, digit, two_digits, month_fix_at}
use cvos.Timer.{
  Slot, Para, System, Call, Outcome, empty_slot, new_delta_timer, new_delta_at, start, find_free,
}
use cvos.Timer.{new_abs_timer, new_abs_found, new_abs_timed, time_left, new_abs_at, strcpy}
use cvos.Timer.Slots.{new_delta_timer_keeps}

-- a system whose calls are done
abbrev works : System
works = record {
  create = pos 0;
  timerid = pos 7;
  settime = pos 0;
  delete = pos 0;
  now = pos 100;
  mktime = λ _. pos 160;
}

abbrev used : Slot
used = record empty_slot { flag = 1; timer_id = pos 3 }

-- free, and used by an interval timer before
abbrev old : Slot
old = record empty_slot { timer_mode = pos 1 }

abbrev table : List Slot
table = used ∷ old ∷ []

run-new_delta_timer :
    new_delta_timer works (pos 1) (pos 5) 9 (pos 4) (used ∷ []) ≡ (neg 1, used ∷ [], [])
unfolding new_delta_timer find_free
run-new_delta_timer = refl

-- the timer is left behind where it cannot be set
run-new_delta_timer_unset :
    new_delta_timer (record works { settime = neg 1 }) (pos 1) (pos 5) 9 (pos 4) (old ∷ [])
    ≡ (neg 4, old ∷ [], Call.create 9 (pos 4) ∷ Call.settime (pos 7) (pos 5) (pos 5) ∷ [])
unfolding new_delta_timer find_free new_delta_at start
run-new_delta_timer_unset = refl

new_delta_timer_keeps_example :
    let out = new_delta_timer works (pos 0) (pos 5) 9 (pos 4) table in
    (get_elem? out.1 0 ≡ some used) × (out.0 ≢ pos 0)
new_delta_timer_keeps_example =
    new_delta_timer_keeps works (pos 0) (pos 5) 9 (pos 4) table 0 used refl
      (λ e. absurd (omega (arith, e)))

abbrev para : Para
para = record {
  timer_mode = pos 0;
  chk_time_str = rec_get_time 2017 2 9 17 14 11;
  timeout_func = 9;
  args = pos 4;
}

abbrev started : Slot
started = record {
  flag = 1;
  timer_id = pos 7;
  timer_mode = pos 0;
  chk_time_str = rec_get_time 2017 2 9 17 14 11 ++ replicate 17 0;
  timeout_sec = pos 60;
  timeout_func = 9;
  args = pos 4;
}

abbrev outcome : Outcome
outcome =
    (pos 1, used ∷ started ∷ [], Call.create 9 (pos 4) ∷ Call.settime (pos 7) (pos 60) (pos 0) ∷ [])

run-new_abs_timer : new_abs_timer works para table ≡ some outcome
unfolding new_abs_timer find_free new_abs_found new_abs_timed time_left new_abs_at start strcpy
    strlen read_n copy write digit2time rec_get_time fields in_range digit two_digits month_fix_at
run-new_abs_timer = refl
