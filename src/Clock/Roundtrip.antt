-- ===== src/Clock/Roundtrip.antt =====
-- What `osRecGetTime` prints, `osdigit2time` and `_digit2time` read.
use cvos.Prelude.{ℕ, zero, suc, ◌+◌, ◌-◌, ◌*◌, ◌/◌, ◌%◌, ◌≤◌, ◌<◌, ◌≡◌, refl, ◌∙◌, ap, arith}
use cvos.Prelude.{List, [], ◌∷◌, none, some, true, false, pos}
use cvos.Prelude.{all_below, all_below_sound, length}
use cvos.Prelude.{◌+ℤ◌, ◌-ℤ◌, is_neg, get_elem?, get_or, ltb, leb, sub_ℕ}
use cvos.Clock.{Tm, char, scale, less, month_fix, month_fix_at, digit, two_digits, fields, in_range}
use cvos.Clock.{os_digit2time, digit2time, digit_char, rec_get_time}

sub_ℕ-le : (a b : ℕ) → b ≤ a → sub_ℕ a b ≡ pos (a - b)
sub_ℕ-le a b h = let t : leb b a ≡ true = ground arith in rw t

sub_ℕ-lt : (a b : ℕ) → a < b → is_neg (sub_ℕ a b) ≡ true
sub_ℕ-lt a b h = let t : leb b a ≡ false = ground arith in rw t

pos-sub : (a b : ℕ) → b ≤ a → pos a -ℤ pos b ≡ pos (a - b)
pos-sub a b h = sub_ℕ-le (a + 0) (0 + b) (omega arith) ∙ ap pos (omega arith)

pos-add : (a b : ℕ) → pos a +ℤ pos b ≡ pos (a + b)
pos-add a b = sub_ℕ-le (a + b) (0 + 0) (omega arith) ∙ ap pos (omega arith)

less-pos : (a b : ℕ) → a < b → less (pos a) (pos b) ≡ true
less-pos a b h = sub_ℕ-lt (a + 0) (0 + b) (omega arith)

less-not : (a b : ℕ) → b ≤ a → less (pos a) (pos b) ≡ false
less-not a b h = ap is_neg (pos-sub a b h)

char-digit : (d : ℕ) → d < 10 → char (b'0' + d) -ℤ pos b'0' ≡ pos d
char-digit d h =
    let t : ltb (b'0' + d) 128 ≡ true = ground arith in
    rw t (pos-sub (b'0' + d) b'0' (omega arith) ∙ ap pos (omega arith))

digit_lem :
    (p : List ℕ) (i d : ℕ) → get_elem? p i ≡ some (digit_char d) → digit p i ≡ some (pos (d % 10))
unfolding digit
digit_lem p i d e = rw e (ap some (char-digit (d % 10) (omega arith)))

two_digits_lem :
    (p : List ℕ) (i d : ℕ)
    → d < 100
    → get_elem? p i ≡ some (digit_char (d / 10))
    → get_elem? p (i + 1) ≡ some (digit_char d)
    → two_digits p i ≡ some (pos d)
unfolding two_digits
two_digits_lem p i d h e f =
    rw (digit_lem p i (d / 10) e, digit_lem p (i + 1) d f)
      (ap some (pos-add (d / 10 % 10 * 10) (d % 10) ∙ ap pos (omega arith)))

fields-rec_get_time :
    (year mon mday hour min sec : ℕ)
    → year < 10000
    → mon < 100
    → mday < 100
    → hour < 100
    → min < 100
    → sec < 100
    → fields (rec_get_time year mon mday hour min sec)
      ≡ some (record {
        year = pos year;
        mon = pos mon;
        mday = pos mday;
        hour = pos hour;
        min = pos min;
        sec = pos sec;
      })
unfolding fields rec_get_time
fields-rec_get_time year mon mday hour min sec y m d h n s =
    let p = rec_get_time year mon mday hour min sec in
    let whole : scale 1000 (pos (year / 1000 % 10))
          +ℤ scale 100 (pos (year / 100 % 10))
          +ℤ scale 10 (pos (year / 10 % 10))
          +ℤ pos (year % 10)
        ≡ pos year =
      rw
        (
          pos-add (year / 1000 % 10 * 1000) (year / 100 % 10 * 100),
          pos-add (year / 1000 % 10 * 1000 + year / 100 % 10 * 100) (year / 10 % 10 * 10),
          pos-add (year / 1000 % 10 * 1000 + year / 100 % 10 * 100 + year / 10 % 10 * 10)
              (year % 10),
        )
        (ap pos (omega arith)) in
    rw (
      digit_lem p 0 (year / 1000) refl,
      digit_lem p 1 (year / 100) refl,
      digit_lem p 2 (year / 10) refl,
      digit_lem p 3 year refl,
      two_digits_lem p 4 mon m refl refl,
      two_digits_lem p 6 mday d refl refl,
      two_digits_lem p 8 hour h refl refl,
      two_digits_lem p 10 min n refl refl,
      two_digits_lem p 12 sec s refl refl,
      whole,
    )

get_elem?-get_or : (xs : List ℕ) (i : ℕ) → i < length xs → get_elem? xs i ≡ some (get_or xs i 0)
get_elem?-get_or [] i h = elim h [ ]
get_elem?-get_or (x ∷ xs) zero h = refl
get_elem?-get_or (x ∷ xs) (suc i) h = get_elem?-get_or xs i (omega arith)

-- the last day of month `mon`, from 1 on, that the conversions accept
abbrev pub last_day : ℕ → ℕ
last_day mon = 29 + get_or month_fix (mon - 1) 0

month_fix_at_lem :
    (mon : ℕ)
    → 1 ≤ mon
    → mon ≤ 12
    → month_fix_at (pos mon -ℤ pos 1) ≡ some (get_or month_fix (mon - 1) 0)
unfolding month_fix_at
month_fix_at_lem mon l h = rw (pos-sub mon 1 l) (get_elem?-get_or month_fix (mon - 1) (omega arith))

in_range_lem :
    (year mon mday hour min sec : ℕ)
    → 1900 ≤ year
    → year < 2036
    → 1 ≤ mon
    → mon ≤ 12
    → mday ≤ last_day mon
    → hour < 24
    → min < 60
    → sec < 60
    → in_range (record {
      year = pos year;
      mon = pos mon;
      mday = pos mday;
      hour = pos hour;
      min = pos min;
      sec = pos sec;
    })
      ≡ some true
unfolding in_range
in_range_lem year mon mday hour min sec y0 y1 m0 m1 d h n s = rw (
  less-not year 1900 y0,
  less-pos year 2036 y1,
  less-pos mon 13 (omega arith),
  month_fix_at_lem mon m0 m1,
  less-not (last_day mon) mday d,
  less-pos hour 24 h,
  less-pos min 60 n,
  less-pos sec 60 s,
)

last_days : all_below 13 (λ m. ltb (last_day m) 100) ≡ true
unfolding all_below
last_days = refl

last_day_small : (mon : ℕ) → mon < 13 → last_day mon < 100
last_day_small mon h =
    let t = all_below_sound 13 (λ m. ltb (last_day m) 100) mon last_days h in ground (arith, t)

-- A moment from 1900 to 2035 whose day does not lie behind the last day the tables give its month: the
-- string that `osRecGetTime` prints for it is accepted by both conversions. `osdigit2time` returns 0 and
-- the year, month, day, hour, minute and second as printed, `_digit2time` returns 0 and the same with the
-- year counted from 1900 and the month from 0.
pub digit2time-rec_get_time :
    (year mon mday hour min sec : ℕ) (t : Tm)
    → 1900 ≤ year
    → year < 2036
    → 1 ≤ mon
    → mon ≤ 12
    → mday ≤ last_day mon
    → hour < 24
    → min < 60
    → sec < 60
    → let s = rec_get_time year mon mday hour min sec in
      let read : Tm = record {
        year = pos year;
        mon = pos mon;
        mday = pos mday;
        hour = pos hour;
        min = pos min;
        sec = pos sec;
      } in
      (os_digit2time (some s) (pos 14) (some t) ≡ some (pos 0, read))
      × (digit2time (some s) (pos 14) (some t)
          ≡ some (pos 0, record read { year = pos (year - 1900); mon = pos (mon - 1) }))
unfolding os_digit2time digit2time
digit2time-rec_get_time year mon mday hour min sec t y0 y1 m0 m1 d h n s =
    let small = last_day_small mon (omega arith) in
    let f =
      fields-rec_get_time year mon mday hour min sec (omega arith) (omega arith) (omega arith)
        (omega arith) (omega arith) (omega arith) in
    let good = in_range_lem year mon mday hour min sec y0 y1 m0 m1 d h n s in
    (rw (f, good), rw (f, good, pos-sub year 1900 y0, pos-sub mon 1 m0))

-- A string of 14 digits for a moment of month 00 of a year from 1900 to 2035 makes both conversions read
-- `s_iMonthFix[-1]`, outside of the array.
digit2time_month_zero :
    (year mday hour min sec : ℕ) (t : Tm)
    → 1900 ≤ year
    → year < 2036
    → mday < 100
    → hour < 100
    → min < 100
    → sec < 100
    → (os_digit2time (some (rec_get_time year 0 mday hour min sec)) (pos 14) (some t) ≡ none)
      × (digit2time (some (rec_get_time year 0 mday hour min sec)) (pos 14) (some t) ≡ none)
unfolding os_digit2time digit2time in_range month_fix_at
digit2time_month_zero year mday hour min sec t y0 y1 d h n s =
    let f = fields-rec_get_time year 0 mday hour min sec (omega arith) (omega arith) d h n s in
    (
      rw (f, less-not year 1900 y0, less-pos year 2036 y1),
      rw (f, less-not year 1900 y0, less-pos year 2036 y1),
    )
