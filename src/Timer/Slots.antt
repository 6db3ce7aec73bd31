-- ===== src/Timer/Slots.antt =====
-- What the operations of timer.c do to the table.
use cvos.Prelude.{
  ℕ, zero, suc, ◌+◌, ◌-◌, ◌≤◌, ◌<◌, ◌≡◌, ◌≢◌, refl, sym, ◌∙◌, ap, arith, ◌⊎◌, inl, inr,
}
use cvos.Prelude.{
  List, [], ◌∷◌, Option, none, some, some_inj, Option-cases, Bool, true, false, Bool-cases,
}
use cvos.Prelude.{ℤ, pos, pos_part, is_neg, if◌then◌else◌, ◌==◌, get_elem?, set, length}
use cvos.Prelude.{get_elem?-set_self, get_elem?-set_ne, ==_iff, ◌>>=◌, subst}
use mathlib.Core.Option.{none-ne-some}
use mathlib.Core.Bool.{true≢false}
use cvos.Timer.{Slot, Para, System, Call, Outcome, to_int, is_minus_one, is_once, find_free}
use cvos.Timer.{start, new_delta_at, new_delta_timer, new_abs_at, new_abs_timer, time_left, slot_of}
use cvos.Timer.{new_abs_found, new_abs_timed, strcpy, reset_timer}

pub find_free_lem :
    (i j : ℕ) (table : List Slot)
    → find_free i table ≡ some j
    → (i ≤ j) × (s : Slot) × (get_elem? table (j - i) ≡ some s) × (s.flag ≡ 0)
unfolding find_free
find_free_lem i j [] e = cc
find_free_lem i j (s ∷ table) e = elim (Bool-cases (s.flag == 0)) [
  | inl free ↦
      let found : i ≡ j =
        some_inj (sym (ap (λ b. if b then some i else find_free (i + 1) table) free) ∙ e) in
      let first : j - i ≡ 0 = omega arith in (omega arith, s, rw first, (==_iff _ _).0 free)
  | inr used ↦
      let later = sym (ap (λ b. if b then some i else find_free (i + 1) table) used) ∙ e in
      let (l, s', g, f) = find_free_lem (i + 1) j table later in
      let next : j - i ≡ suc (j - (i + 1)) = omega arith in (omega arith, s', rw next g, f)
]

free_slot :
    (j : ℕ) (table : List Slot)
    → find_free 0 table ≡ some j
    → (s : Slot) × (get_elem? table j ≡ some s) × (s.flag ≡ 0)
free_slot j table e =
    let (l, s, g, f) = find_free_lem 0 j table e in
    let same : j - 0 ≡ j = omega arith in (s, ap (get_elem? table) (sym same) ∙ g, f)

-- An operation that starts a timer either fails, and leaves the table alone, or takes a free slot.
abbrev pub Starts : List Slot → Outcome → Type 0
Starts table (ret, table', calls) =
    ((is_neg ret ≡ true) × (table' ≡ table))
    ⊎ ((id : ℕ) × (s s' : Slot) × (ret ≡ pos id)
        × (get_elem? table id ≡ some s)
        × (s.flag ≡ 0)
        × (s'.flag ≡ 1)
        × (table' ≡ set table id s'))

if-Starts :
    (table : List Slot) (b : Bool) (x y : Outcome)
    → Starts table x
    → Starts table y
    → Starts table (if b then x else y)
if-Starts table true x y hx hy = hx
if-Starts table false x y hx hy = hy

start-Starts :
    (sys : System) (e1 e2 e3 func : ℕ) (sival value interval : ℤ) (table : List Slot)
    (done : ℤ → Outcome)
    → Starts table (done sys.timerid)
    → Starts table (start sys (suc e1) (suc e2) (suc e3) func sival value interval table done)
unfolding start
start-Starts sys e1 e2 e3 func sival value interval table done h =
    if-Starts table (is_minus_one sys.create) _ _ (inl (refl, refl)) (
      if-Starts table (is_neg sys.timerid) _ _ (inl (refl, refl))
        (if-Starts table (is_minus_one sys.settime) _ _ (inl (refl, refl)) h))

new_delta_timer-Starts :
    (sys : System) (mode timeout : ℤ) (func : ℕ) (sival : ℤ) (table : List Slot)
    → Starts table (new_delta_timer sys mode timeout func sival table)
unfolding new_delta_timer new_delta_at
new_delta_timer-Starts sys mode timeout func sival table = elim (Option-cases (find_free 0 table)) [
  | inl full ↦ rw (new_delta_timer, full) (inl (refl, refl))
  | inr (id, found) ↦
      let (s, g, f) = free_slot id table found in
      rw (new_delta_timer, found, g)
        (start-Starts sys 1 2 3 func sival timeout _ table _
          (inr (id, s, _, refl, g, f, refl, refl)))
]

-- What a chain of fallible steps gives has a property that the result of its last step has.
after_bind {ℓ κ μ} :
    {A : Type ℓ} {B : Type κ} (P : B → Type μ) (o : Option A) (f : A → Option B) (out : B)
    → ((a : A) → o ≡ some a → f a ≡ some out → P out)
    → (o >>= f) ≡ some out
    → P out
after_bind P none f out h e = absurd (none-ne-some _ e)
after_bind P (some a) f out h e = h a refl e

set_up :
    (sys : System) (para : Para) (diff : ℤ) (str : List ℕ) (idx : ℕ) (s : Slot) (table : List Slot)
    → get_elem? table idx ≡ some s
    → s.flag ≡ 0
    → Starts table (new_abs_at sys para diff str idx s table)
unfolding new_abs_at
set_up sys para diff str idx s table g f =
    start-Starts sys 3 4 5 para.timeout_func para.args diff _ table _
      (inr (idx, s, _, refl, g, f, refl, refl))

copied-Starts :
    (sys : System) (para : Para) (diff : ℤ) (idx : ℕ) (s : Slot) (table : List Slot) (out : Outcome)
    → get_elem? table idx ≡ some s
    → s.flag ≡ 0
    → (strcpy s.chk_time_str para.chk_time_str >>= λ str.
        some (new_abs_at sys para diff str idx s table))
      ≡ some out
    → Starts table out
copied-Starts sys para diff idx s table out g f =
    after_bind (Starts table) (strcpy s.chk_time_str para.chk_time_str)
      (λ str. some (new_abs_at sys para diff str idx s table)) out
      (λ str hs e. subst (Starts table) (some_inj e) (set_up sys para diff str idx s table g f))

new_abs_timed-Starts :
    (sys : System) (para : Para) (idx : ℕ) (table : List Slot) (out : Outcome) (s : Slot)
    (ret diff : ℤ)
    → get_elem? table idx ≡ some s
    → s.flag ≡ 0
    → new_abs_timed sys para idx table ret diff ≡ some out
    → Starts table out
unfolding new_abs_timed
new_abs_timed-Starts sys para idx table out s ret diff g f = elim (Bool-cases (is_neg ret)) [
  | inl bad ↦ rw bad (λ e. subst (Starts table) (some_inj e) (inl (bad, refl)))
  | inr good ↦ rw (good, g) (copied-Starts sys para diff idx s table out g f)
]

new_abs_found-Starts :
    (sys : System) (para : Para) (idx : ℕ) (table : List Slot) (out : Outcome) (s : Slot)
    → get_elem? table idx ≡ some s
    → s.flag ≡ 0
    → new_abs_found sys para idx table ≡ some out
    → Starts table out
unfolding new_abs_found
new_abs_found-Starts sys para idx table out s g f =
    after_bind (Starts table) (time_left sys para.chk_time_str)
      (λ (ret, diff). new_abs_timed sys para idx table ret diff) out
      (λ (ret, diff) t. new_abs_timed-Starts sys para idx table out s ret diff g f)

new_abs_timer-Starts :
    (sys : System) (para : Para) (table : List Slot) (out : Outcome)
    → new_abs_timer sys para table ≡ some out
    → Starts table out
unfolding new_abs_timer
new_abs_timer-Starts sys para table out = elim (Option-cases (find_free 0 table)) [
  | inl full ↦ rw (new_abs_timer, full) (λ e. subst (Starts table) (some_inj e) (inl (refl, refl)))
  | inr (idx, found) ↦
      let (s, g, f) = free_slot idx table found in
      rw (new_abs_timer, found) (new_abs_found-Starts sys para idx table out s g f)
]

pos_inj : {a b : ℕ} → pos a ≡ pos b → a ≡ b
pos_inj e = ap pos_part e

pub get_elem?-range :
    (table : List Slot) (i : ℕ) {s : Slot} → get_elem? table i ≡ some s → i < length table
get_elem?-range [] i e = absurd (none-ne-some _ e)
get_elem?-range (x ∷ table) zero e = omega arith
get_elem?-range (x ∷ table) (suc i) e = omega (arith, get_elem?-range table i e)

-- An operation that starts a timer leaves each slot in use alone, and what it returns is not its index.
Starts-keeps :
    (table : List Slot) (out : Outcome) (j : ℕ) (s : Slot)
    → Starts table out
    → get_elem? table j ≡ some s
    → s.flag ≢ 0
    → (get_elem? out.1 j ≡ some s) × (out.0 ≢ pos j)
Starts-keeps table (ret, table', calls) j s (inl (bad, same)) g used =
    (ap (λ t. get_elem? t j) same ∙ g, λ e. true≢false (sym bad ∙ ap is_neg e))
Starts-keeps table (ret, table', calls) j s (inr (id, s0, s1, r, g0, f0, f1, t)) g used =
    let other : id ≢ j =
      λ e. used (ap Slot.flag (some_inj (sym g ∙ ap (get_elem? table) (sym e) ∙ g0)) ∙ f0) in
    (
      ap (λ u. get_elem? u j) t ∙ get_elem?-set_ne table id j s1 other ∙ g,
      λ e. other (pos_inj (sym r ∙ e)),
    )

-- `TM_NewDeltaTimer` does not change a slot that is in use and does not return its index, whatever it is
-- given and whatever the system answers.
pub new_delta_timer_keeps :
    (sys : System) (mode timeout : ℤ) (func : ℕ) (sival : ℤ) (table : List Slot) (j : ℕ) (s : Slot)
    → get_elem? table j ≡ some s
    → s.flag ≢ 0
    → let out = new_delta_timer sys mode timeout func sival table in
      (get_elem? out.1 j ≡ some s) × (out.0 ≢ pos j)
new_delta_timer_keeps sys mode timeout func sival table j s =
    Starts-keeps table (new_delta_timer sys mode timeout func sival table) j s
      (new_delta_timer-Starts sys mode timeout func sival table)

-- Where `TM_NewAbsTimer` ends without a fault it has not changed a slot that is in use and does not return
-- its index, whatever it is given and whatever the system answers.
new_abs_timer_keeps :
    (sys : System) (para : Para) (table : List Slot) (out : Outcome) (j : ℕ) (s : Slot)
    → new_abs_timer sys para table ≡ some out
    → get_elem? table j ≡ some s
    → s.flag ≢ 0
    → (get_elem? out.1 j ≡ some s) × (out.0 ≢ pos j)
new_abs_timer_keeps sys para table out j s e =
    Starts-keeps table out j s (new_abs_timer-Starts sys para table out e)

-- `TM_NewDeltaTimer` does not store its mode: with the table's slot `id` the first one free and the
-- system's calls done, it returns `id`, and `TM_Reset` of it then sets the timer anew if the mode left in
-- the slot by an earlier timer is TIMER_ONCE and does nothing if it is not, whatever mode was asked for.
new_delta_timer_stale :
    (sys : System) (mode timeout : ℤ) (func : ℕ) (sival : ℤ) (table : List Slot) (id : ℕ) (s : Slot)
    → find_free 0 table ≡ some id
    → get_elem? table id ≡ some s
    → sys.create ≡ pos 0
    → is_neg sys.timerid ≡ false
    → sys.settime ≡ pos 0
    → let (ret, table', calls) = new_delta_timer sys mode timeout func sival table in
      (ret ≡ pos id)
      × (reset_timer sys (pos id) table' ≡ (
        pos 0,
        table',
        if is_once s.timer_mode then Call.settime (to_int sys.timerid) timeout (pos 0) ∷ [] else [],
      ))
unfolding new_delta_timer new_delta_at start reset_timer slot_of
new_delta_timer_stale sys mode timeout func sival table id s found g c n t =
    let s' : Slot = record s {
      timer_id = to_int sys.timerid;
      timeout_sec = timeout;
      timeout_func = func;
      args = sival;
      flag = 1;
    } in
    let there : get_elem? (set table id s') id ≡ some s' =
      get_elem?-set_self table id s' (get_elem?-range table id g) in
    elim (Bool-cases (is_once s.timer_mode)) [
      | inl once ↦ rw (new_delta_timer, found, g, c, n, t) (refl, rw (reset_timer, there, once))
      | inr often ↦ rw (new_delta_timer, found, g, c, n, t) (refl, rw (reset_timer, there, often))
    ]
