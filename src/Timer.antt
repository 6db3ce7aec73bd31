-- ===== src/Timer.antt =====
-- timer.c: the table of timers. The calls of the POSIX timers are a parameter: their results are given
-- to each operation, and the operation gives back the calls that it made, in their order. A `timer_t` is
-- an integer, so that the test `timerid<0` stands as it is written.
pub mod Slots
pub mod Reuse
mod Tests
use cvos.Prelude.{ℕ, zero, suc, ◌+◌, ◌-◌, ◌*◌, ◌%◌, ◌^◌, List, [], ◌∷◌, ◌++◌, Option, none, some}
use cvos.Prelude.{Bool, true, false, not, ◌&&◌, ◌||◌, ℤ, pos, negsuc, neg, ◌-ℤ◌, is_neg, is_zero}
use cvos.Prelude.{
  if◌then◌else◌, ◌==◌, ltb, length, get_elem?, set, replicate, strlen, read_n, copy, ◌>>=◌,
}
use cvos.Prelude.{◌<◌, ◌≡◌, arith}
use cvos.Clock.{Tm, zero_tm, digit2time}

abbrev pub max_timer_num : ℕ
max_timer_num = 100

-- `TIMER_S`; a function is the number that stands for its address.
pub record Slot : Type 0 where
  pub flag : ℕ
  pub timer_id : ℤ
  pub timer_mode : ℤ
  pub chk_time_str : List ℕ
  pub timeout_sec : ℤ
  pub timeout_func : ℕ
  pub args : ℤ

-- `gTimerCtrlTable`, static and so all 0 at the start
abbrev pub empty_slot : Slot
empty_slot = record {
  flag = 0;
  timer_id = pos 0;
  timer_mode = pos 0;
  chk_time_str = replicate 32 0;
  timeout_sec = pos 0;
  timeout_func = 0;
  args = pos 0;
}

abbrev pub empty_table : List Slot
empty_table = replicate max_timer_num empty_slot

-- `TIMER_USER_S`
pub record Para : Type 0 where
  pub timer_mode : ℤ
  pub chk_time_str : List ℕ
  pub timeout_func : ℕ
  pub args : ℤ

-- What the system answers: the result of `timer_create` and the identifier that it stores, the results
-- of `timer_settime` and `timer_delete`, and what `time` and `mktime` give.
pub record System : Type 0 where
  pub create : ℤ
  pub timerid : ℤ
  pub settime : ℤ
  pub delete : ℤ
  pub now : ℤ
  pub mktime : Tm → ℤ

-- The calls: a new timer with its function and argument, a timer set to a value and an interval in
-- seconds, and a timer deleted.
pub data Call : Type 0 where
  create : ℕ → ℤ → Call
  settime : ℤ → ℤ → ℤ → Call
  delete : ℤ → Call

-- an `int` from the bits of a wider integer
abbrev pub to_int : ℤ → ℤ
to_int (pos n) = let m = n % 2 ^ 32 in if ltb m (2 ^ 31) then pos m else negsuc (2 ^ 32 - 1 - m)
to_int (negsuc n) = let m = n % 2 ^ 32 in if ltb m (2 ^ 31) then negsuc m else pos (2 ^ 32 - 1 - m)

-- A small number is its own `int`.
pub to_int-small : (n : ℕ) → n < 2 ^ 31 → to_int (pos n) ≡ pos n
to_int-small n h = ground arith

-- `x == -1`
abbrev pub is_minus_one : ℤ → Bool
is_minus_one (pos n) = false
is_minus_one (negsuc n) = n == 0

-- `mode==TIMER_INTERVAL`, and `mode==TIMER_ONCE`
abbrev pub is_interval : ℤ → Bool
is_interval mode = is_zero (mode -ℤ pos 1)

abbrev pub is_once : ℤ → Bool
is_once mode = is_zero mode

-- The search for a free slot, from `i` on: its index, or `none` where the table has no free slot left.
unfoldable pub find_free : ℕ → List Slot → Option ℕ
find_free i [] = none
find_free i (s ∷ table) = if s.flag == 0 then some i else find_free (i + 1) table

-- The result of an operation, the table after it and the calls that it made
abbrev pub Outcome : Type 0
Outcome = ℤ × List Slot × List Call

-- `timer_create` up to the stores into the slot, with the codes of the three errors
unfoldable pub start : System → (e1 e2 e3 : ℕ) → ℕ → ℤ → ℤ → ℤ → List Slot → (ℤ → Outcome) → Outcome
start sys e1 e2 e3 func sival value interval table done =
    if is_minus_one sys.create
    then (neg e1, table, Call.create func sival ∷ [])
    else (if is_neg sys.timerid
        then (neg e2, table, Call.create func sival ∷ [])
        else (if is_minus_one sys.settime
            then (
              neg e3,
              table,
              Call.create func sival ∷ Call.settime sys.timerid value interval ∷ [],
            )
            else done sys.timerid))

-- what is left of `TM_NewDeltaTimer` once the slot is found
unfoldable pub new_delta_at : System → ℤ → ℤ → ℕ → ℤ → ℕ → Slot → List Slot → Outcome
new_delta_at sys mode timeout func sival id s table =
    let interval = if is_interval mode then timeout else pos 0 in
    start sys 2 3 4 func sival timeout interval table (λ timerid.
      let s' = record s {
        timer_id = to_int timerid;
        timeout_sec = timeout;
        timeout_func = func;
        args = sival;
        flag = 1;
      } in
      (
        pos id,
        set table id s',
        Call.create func sival ∷ Call.settime timerid timeout interval ∷ [],
      ))

-- `TM_NewDeltaTimer`
unfoldable pub new_delta_timer : System → ℤ → ℤ → ℕ → ℤ → List Slot → Outcome
new_delta_timer sys mode timeout func sival table = elim (find_free 0 table) [
  | none ↦ (neg 1, table, [])
  | some id ↦ elim (get_elem? table id) [
    | none ↦ (neg 1, table, [])
    | some s ↦ new_delta_at sys mode timeout func sival id s table
  ]
]

-- what is left of `TM_NewAbsTimer` once the slot and the time to wait are found; `strcpy` takes the
-- string with its NUL.
unfoldable pub new_abs_at : System → Para → ℤ → List ℕ → ℕ → Slot → List Slot → Outcome
new_abs_at sys para diff str idx s table =
    let interval = if is_interval para.timer_mode then pos 3600 else pos 0 in
    start sys 4 5 6 para.timeout_func para.args diff interval table (λ timerid.
      let s' = record s {
        timer_mode = para.timer_mode;
        chk_time_str = str;
        timeout_func = para.timeout_func;
        args = para.args;
        timeout_sec = diff;
        timer_id = to_int timerid;
        flag = 1;
      } in
      (
        pos idx,
        set table idx s',
        Call.create para.timeout_func para.args ∷ Call.settime timerid diff interval ∷ [],
      ))

-- The time to wait: `none` is a fault, and the error code of the string or of a time that is over
unfoldable pub time_left : System → List ℕ → Option (ℤ × ℤ)
time_left sys str = do
  len ← strlen str
  (ret, tm) ← digit2time (some str) (pos len) (some zero_tm)
  let diff = to_int (sys.mktime tm -ℤ sys.now)
  some (
      if not (is_zero ret)
      then (neg 2, pos 0)
      else (if is_neg diff || is_zero diff then (neg 3, diff) else (pos 0, diff)))

-- `strcpy(dst, src)`
unfoldable pub strcpy : List ℕ → List ℕ → Option (List ℕ)
strcpy dst src = do len ← strlen src; bytes ← read_n src 0 (len + 1); copy dst 0 bytes

-- `TM_NewAbsTimer` behind the search for a slot, in two steps
unfoldable pub new_abs_timed : System → Para → ℕ → List Slot → ℤ → ℤ → Option Outcome
new_abs_timed sys para idx table ret diff = if is_neg ret then some (ret, table, []) else (do
  s ← get_elem? table idx
  str ← strcpy s.chk_time_str para.chk_time_str
  some (new_abs_at sys para diff str idx s table))

unfoldable pub new_abs_found : System → Para → ℕ → List Slot → Option Outcome
new_abs_found sys para idx table = do
  (ret, diff) ← time_left sys para.chk_time_str
  new_abs_timed sys para idx table ret diff

-- `TM_NewAbsTimer`
unfoldable pub new_abs_timer : System → Para → List Slot → Option Outcome
new_abs_timer sys para table = elim (find_free 0 table) [
  | none ↦ some (neg 1, table, [])
  | some idx ↦ new_abs_found sys para idx table
]

-- the slot that `idx` names, past the test of its range
unfoldable pub slot_of : ℤ → List Slot → Option (ℕ × Slot)
slot_of (pos idx) table = do s ← get_elem? table idx; some (idx, s)
slot_of (negsuc n) table = none

-- `TM_Delete`
unfoldable pub delete_timer : System → ℤ → List Slot → Outcome
delete_timer sys idx table = elim (slot_of idx table) [
  | none ↦ (neg 1, table, [])
  | some (i, s) ↦ (sys.delete, set table i (record s { flag = 0 }), Call.delete s.timer_id ∷ [])
]

-- `TM_Reset`
unfoldable pub reset_timer : System → ℤ → List Slot → Outcome
reset_timer sys idx table = elim (slot_of idx table) [
  | none ↦ (neg 1, table, [])
  | some (i, s) ↦
      if is_once s.timer_mode
      then (sys.settime, table, Call.settime s.timer_id s.timeout_sec (pos 0) ∷ [])
      else (pos 0, table, [])
]
