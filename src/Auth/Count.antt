-- ===== src/Auth/Count.antt =====
-- What the count of days of auth.c forgets.
use cvos.Prelude.{ℕ, ◌+◌, ◌-◌, ◌≤◌, ◌<◌, ◌≡◌, arith, none, some}
use cvos.Prelude.{true, false, ℤ, pos, neg, ◌+ℤ◌, ◌-ℤ◌, is_neg, ◌==◌, ltb, if◌then◌else◌}
use cvos.Auth.{Days, verify_date}

-- Once `gBaseDays` is set, a call on a later day than any before writes the days since then alone: the
-- number that the status file held is not in the sum, and the result is -1 if they exceed `expireDays` by
-- themselves. A second call on that day returns 0 and writes nothing, whatever the first returned.
verify_date_again :
    (stored : ℤ) (now : ℕ) (expire : ℤ) (s : Days)
    → 1 ≤ s.base
    → s.base + s.lost < now
    → let s' : Days = record { base = s.base; lost = now - s.base } in
      let due = if is_neg (expire -ℤ (pos (now - s.base) +ℤ pos 0)) then neg 1 else pos 0 in
      (verify_date stored now expire s ≡ (due, s', some (pos (now - s.base) +ℤ pos 0)))
      × (verify_date stored now expire s' ≡ (pos 0, s', none))
unfolding verify_date
verify_date_again stored now expire s set later =
    let known : (s.base == 0) ≡ false = ground arith in
    let order : ltb now s.base ≡ false = ground arith in
    let more : ltb s.lost (now - s.base) ≡ true = ground arith in
    let same : ltb (now - s.base) (now - s.base) ≡ false = ground arith in
    (rw (verify_date, known, order, more), rw (verify_date, known, order, same))
