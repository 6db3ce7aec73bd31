-- ===== src/Clock.antt =====
-- Dates as strings: `osdigit2time`, `osRecGetTime` and `osSYS_GetTime` of vos.c, `_digit2time` of timer.c and
-- `utl_TimeGetStamp` of utils.c. The outer
-- `none` is a fault, a read outside of an array.
pub mod Roundtrip
mod Tests
use cvos.Prelude.{
  ℕ, ◌+◌, ◌-◌, ◌*◌, ◌/◌, ◌%◌, List, [], ◌∷◌, ◌++◌, Option, none, some, get_elem?, ◌>>=◌,
}
use cvos.Prelude.{Bool, true, false, ◌&&◌, ◌||◌, not, ℤ, pos, negsuc, neg, ◌+ℤ◌, ◌-ℤ◌, is_neg}
use cvos.Prelude.{if◌then◌else◌, ◌==◌, ltb}

-- `struct tm`, the fields that the code uses
pub record Tm : Type 0 where
  pub year : ℤ
  pub mon : ℤ
  pub mday : ℤ
  pub hour : ℤ
  pub min : ℤ
  pub sec : ℤ

-- `memset(ptTime, 0, sizeof(*ptTime))`
abbrev pub zero_tm : Tm
zero_tm = record { year = pos 0; mon = pos 0; mday = pos 0; hour = pos 0; min = pos 0; sec = pos 0 }

-- a `char` with the bit pattern given, where `char` is signed
abbrev pub char : ℕ → ℤ
char c = if ltb c 128 then pos c else negsuc (255 - c)

-- `x * k` for an `int` and a constant
abbrev pub scale : ℕ → ℤ → ℤ
scale k (pos n) = pos (n * k)
scale k (negsuc n) = neg ((n + 1) * k)

-- `x < y`
abbrev pub less : ℤ → ℤ → Bool
less x y = is_neg (x -ℤ y)

abbrev pub month_fix : List ℕ
month_fix = 2 ∷ 0 ∷ 2 ∷ 1 ∷ 2 ∷ 1 ∷ 2 ∷ 2 ∷ 1 ∷ 2 ∷ 1 ∷ 2 ∷ []

-- `s_iMonthFix[i]`
unfoldable pub month_fix_at : ℤ → Option ℕ
month_fix_at (pos i) = get_elem? month_fix i
month_fix_at (negsuc i) = none

-- `pChar[i] - '0'`
unfoldable pub digit : List ℕ → ℕ → Option ℤ
digit p i = do c ← get_elem? p i; some (char c -ℤ pos b'0')

-- `(pChar[i] - '0') * 10 + (pChar[i+1] - '0')`
unfoldable pub two_digits : List ℕ → ℕ → Option ℤ
two_digits p i = do a ← digit p i; b ← digit p (i + 1); some (scale 10 a +ℤ b)

-- the fields as they stand in the string
unfoldable pub fields : List ℕ → Option Tm
fields p = do
  a ← digit p 0
  b ← digit p 1
  c ← digit p 2
  d ← digit p 3
  mon ← two_digits p 4
  mday ← two_digits p 6
  hour ← two_digits p 8
  min ← two_digits p 10
  sec ← two_digits p 12
  let year = scale 1000 a +ℤ scale 100 b +ℤ scale 10 c +ℤ d
  some (record { year = year; mon = mon; mday = mday; hour = hour; min = min; sec = sec })

-- The test on the fields. `&&` reads `s_iMonthFix` only behind the tests on the year and the month.
unfoldable pub in_range : Tm → Option Bool
in_range t =
    if not (less t.year (pos 1900)) && less t.year (pos 2036) && less t.mon (pos 13)
    then (do
      fix ← month_fix_at (t.mon -ℤ pos 1)
      some (
          not (less (pos (29 + fix)) t.mday)
          && less t.hour (pos 24)
          && less t.min (pos 60)
          && less t.sec (pos 60)))
    else some false

-- `osdigit2time`: the result and `*ptTime` after it. `ptTime` is written before it is tested, so NULL
-- is a fault.
unfoldable pub os_digit2time : Option (List ℕ) → ℤ → Option Tm → Option (ℤ × Tm)
os_digit2time s len none = none
os_digit2time none len (some t) = some (neg 1, zero_tm)
os_digit2time (some p) (negsuc n) (some t) = some (neg 1, zero_tm)
os_digit2time (some p) (pos len) (some t) =
    if len == 14
    then (do f ← fields p; good ← in_range f; some (if good then (pos 0, f) else (neg 2, f)))
    else some (neg 1, zero_tm)

-- `_digit2time` of timer.c, which also turns the year and the month into those of `struct tm`.
unfoldable pub digit2time : Option (List ℕ) → ℤ → Option Tm → Option (ℤ × Tm)
digit2time s len none = none
digit2time none len (some t) = some (neg 1, zero_tm)
digit2time (some p) (negsuc n) (some t) = some (neg 1, zero_tm)
digit2time (some p) (pos len) (some t) =
    if len == 14
    then (do
      f ← fields p
      good ← in_range f
      some (
          if good
          then (pos 0, record f { year = f.year -ℤ pos 1900; mon = f.mon -ℤ pos 1 })
          else (neg 2, f)))
    else some (neg 1, zero_tm)

-- A decimal digit, and two of them
abbrev pub digit_char : ℕ → ℕ
digit_char d = b'0' + d % 10

-- `localTime` after `osRecGetTime`, its NUL included. The arguments are the year, the month from 1 on,
-- the day, the hour, the minute and the second of `localtime`, each of which fits the width given to
-- `sprintf`.
unfoldable pub rec_get_time : (year mon mday hour min sec : ℕ) → List ℕ
rec_get_time year mon mday hour min sec =
    digit_char (year / 1000)
    ∷ digit_char (year / 100)
    ∷ digit_char (year / 10)
    ∷ digit_char year
    ∷ digit_char (mon / 10)
    ∷ digit_char mon
    ∷ digit_char (mday / 10)
    ∷ digit_char mday
    ∷ digit_char (hour / 10)
    ∷ digit_char hour
    ∷ digit_char (min / 10)
    ∷ digit_char min
    ∷ digit_char (sec / 10)
    ∷ digit_char sec
    ∷ 0
    ∷ []

-- A moment in the form of `utl_TimeGetStamp`, its NUL included, with more characters behind the year
unfoldable pub stamp : List ℕ → (year mon mday hour min sec : ℕ) → List ℕ
stamp more year mon mday hour min sec =
    (digit_char (year / 1000)
      ∷ digit_char (year / 100)
      ∷ digit_char (year / 10)
      ∷ digit_char year
      ∷ more)
    ++ (b'-'
        ∷ digit_char (mon / 10)
        ∷ digit_char mon
        ∷ b'-'
        ∷ digit_char (mday / 10)
        ∷ digit_char mday
        ∷ b' '
        ∷ digit_char (hour / 10)
        ∷ digit_char hour
        ∷ b':'
        ∷ digit_char (min / 10)
        ∷ digit_char min
        ∷ b':'
        ∷ digit_char (sec / 10)
        ∷ digit_char sec
        ∷ 0
        ∷ [])

-- `TimeStamp` after `utl_TimeGetStamp`
unfoldable pub time_get_stamp : (year mon mday hour min sec : ℕ) → List ℕ
time_get_stamp = stamp []

-- `localTime` after `osSYS_GetTime`, whose format has a `d` behind that of the year
unfoldable pub sys_get_time : (year mon mday hour min sec : ℕ) → List ℕ
sys_get_time = stamp (b'd' ∷ [])
