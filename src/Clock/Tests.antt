-- ===== src/Clock/Tests.antt =====
-- Runs of the conversions of dates, and their theorems at concrete inputs.
use cvos.Prelude.{◌≡◌, refl, arith, some, pos, neg}
use cvos.Clock.{
  Tm, zero_tm, os_digit2time, digit2time, rec_get_time, fields, in_range, digit, two_digits,
}
use cvos.Clock.{month_fix_at}
use cvos.Clock.Roundtrip.{digit2time-rec_get_time}

abbrev moment : Tm
moment = record {
  year = pos 2017;
  mon = pos 2;
  mday = pos 9;
  hour = pos 17;
  min = pos 14;
  sec = pos 11;
}

-- no 31st of April
run-os_digit2time :
    os_digit2time (some (rec_get_time 2017 4 31 0 0 0)) (pos 14) (some zero_tm)
    ≡ some (
      neg 2,
      record {
        year = pos 2017;
        mon = pos 4;
        mday = pos 31;
        hour = pos 0;
        min = pos 0;
        sec = pos 0;
      },
    )
unfolding os_digit2time rec_get_time fields in_range digit two_digits month_fix_at
run-os_digit2time = refl

digit2time-rec_get_time_example :
    (os_digit2time (some (rec_get_time 2017 2 9 17 14 11)) (pos 14) (some zero_tm)
      ≡ some (pos 0, moment))
    × (digit2time (some (rec_get_time 2017 2 9 17 14 11)) (pos 14) (some zero_tm)
        ≡ some (pos 0, record moment { year = pos 117; mon = pos 1 }))
digit2time-rec_get_time_example =
    digit2time-rec_get_time 2017 2 9 17 14 11 zero_tm (omega arith) (omega arith) (omega arith)
      (omega arith) (omega arith) (omega arith) (omega arith) (omega arith)
