-- ===== src/Timer/Reuse.antt =====
-- A slot of timer.c from `TM_NewDeltaTimer` to `TM_Delete`.
use cvos.Prelude.{ℕ, zero, suc, ◌+◌, ◌-◌, ◌≡◌, refl, sym, ◌∙◌, ap, arith, inl, inr}
use cvos.Prelude.{List, [], ◌∷◌, some, some_inj, false, Bool-cases}
use cvos.Prelude.{ℤ, pos, is_neg, if◌then◌else◌, ◌==◌, get_elem?, set, get_elem?-set_self}
use mathlib.Core.Option.{none-ne-some}
use cvos.Timer.{
  Slot, System, Call, to_int, find_free, start, new_delta_at, new_delta_timer, slot_of,
  delete_timer,
}
use cvos.Timer.Slots.{find_free_lem, get_elem?-range}

set-set : (table : List Slot) (i : ℕ) (s t : Slot) → set (set table i s) i t ≡ set table i t
set-set [] i s t = refl
set-set (x ∷ table) zero s t = refl
set-set (x ∷ table) (suc i) s t = ap (λ u. x ∷ u) (set-set table i s t)

-- The slot that the search found is found again once it is free again.
find_free-set :
    (i j : ℕ) (table : List Slot) (t : Slot)
    → find_free i table ≡ some j
    → t.flag ≡ 0
    → find_free i (set table (j - i) t) ≡ some j
unfolding find_free
find_free-set i j [] t e free = absurd (none-ne-some j e)
find_free-set i j (s ∷ table) t e free = elim (Bool-cases (s.flag == 0)) [
  | inl is_free ↦
      let found : i ≡ j =
        some_inj (sym (ap (λ b. if b then some i else find_free (i + 1) table) is_free) ∙ e) in
      let first : j - i ≡ 0 = omega arith in rw (first, free) (ap some found)
  | inr used ↦
      let later = sym (ap (λ b. if b then some i else find_free (i + 1) table) used) ∙ e in
      let (l, s0, g0, f0) = find_free_lem (i + 1) j table later in
      let next : j - i ≡ suc (j - (i + 1)) = omega arith in
      rw (next, find_free, used) (find_free-set (i + 1) j table t later free)
]

-- Where `TM_NewDeltaTimer` starts a timer in the first free slot, `TM_Delete` of what it returned deletes
-- that timer, by the `int` that the slot holds for it, and leaves a table in which the same slot is the
-- first free one again.
delete_timer-new_delta_timer :
    (sys : System) (mode timeout : ℤ) (func : ℕ) (sival : ℤ) (table : List Slot) (id : ℕ) (s : Slot)
    → find_free 0 table ≡ some id
    → get_elem? table id ≡ some s
    → sys.create ≡ pos 0
    → is_neg sys.timerid ≡ false
    → sys.settime ≡ pos 0
    → let (ret, table1, calls1) = new_delta_timer sys mode timeout func sival table in
      let (ret2, table2, calls2) = delete_timer sys ret table1 in
      (calls2 ≡ Call.delete (to_int sys.timerid) ∷ []) × (find_free 0 table2 ≡ some id)
unfolding new_delta_timer new_delta_at start delete_timer slot_of
delete_timer-new_delta_timer sys mode timeout func sival table id s found g c n t =
    let s1 : Slot = record s {
      timer_id = to_int sys.timerid;
      timeout_sec = timeout;
      timeout_func = func;
      args = sival;
      flag = 1;
    } in
    let s2 : Slot = record s1 { flag = 0 } in
    let there : get_elem? (set table id s1) id ≡ some s1 =
      get_elem?-set_self table id s1 (get_elem?-range table id g) in
    let same : id - 0 ≡ id = omega arith in
    let again : find_free 0 (set (set table id s1) id s2) ≡ some id = rw (set-set table id s1 s2) (
      ap (λ i. find_free 0 (set table i s2)) (sym same) ∙ find_free-set 0 id table s2 found refl) in
    rw (new_delta_timer, found, g, c, n, t)
      (rw (delete_timer, there), rw (delete_timer, there) again)
