-- ===== src/Utils/Tests.antt =====
-- Runs of the helpers of utils.c, and their theorem at a concrete input.
use cvos.Prelude.{ℕ, ◌+◌, ◌*◌, ◌-◌, ◌≡◌, refl, arith, List, [], ◌∷◌, ◌++◌, none, some, ℤ, pos, neg}
use cvos.Prelude.{copy, write, strlen, bytes_eq, if◌then◌else◌, ◌>>=◌}
use cvos.Config.Text.{split_at_char}
use cvos.Utils.{is_in_duration, in_duration, parse_time, put_string, set_ftp_svr, find_index}
use cvos.Utils.{find_index_at, Dirs, setup_date_as_dir, month_dirs, new_dir}
use cvos.Prelude.{replicate, map, true, false, inl, pos_part}
use cvos.Config.Text.{output, scan_value, skip, trim}
use cvos.Config.Roundtrip.{define, entry_of, Clean}
use cvos.Config.File.{Answers, Disk}
use cvos.Utils.{log_my_pid, get_my_pid}
use cvos.Utils.Pid.{pid_round_trip}
use cvos.Utils.Token.{token_create, token_create_lem}
use cvos.Mac.{mac_text}
use cvos.Md5.Digest.{md5}
use cvos.Utils.Leftover.{set_ftp_svr_lem}

-- a number of one or two digits
abbrev two_digits : List ℕ → ℤ
two_digits [] = pos 0
two_digits (a ∷ []) = pos (a - b'0')
two_digits (a ∷ b ∷ s) = pos ((a - b'0') * 10 + (b - b'0'))

-- From 08:00 to 9:00 it is noon: the 8 of the first hour stays behind the 9 in `str`.
run-is_in_duration :
    is_in_duration two_digits
      (pos 12)
      (pos 0)
      (some (b'0' ∷ b'8' ∷ b':' ∷ b'0' ∷ b'0' ∷ []))
      (some (b'9' ∷ b':' ∷ b'0' ∷ b'0' ∷ []))
    ≡ some (pos 1)
unfolding is_in_duration in_duration parse_time put_string split_at_char copy write strlen
run-is_in_duration = refl

-- From 22:00 to 06:00 it is never.
run-over_midnight :
    is_in_duration two_digits
      (pos 23)
      (pos 0)
      (some (b'2' ∷ b'2' ∷ b':' ∷ b'0' ∷ b'0' ∷ []))
      (some (b'0' ∷ b'6' ∷ b':' ∷ b'0' ∷ b'0' ∷ []))
    ≡ some (pos 0)
unfolding is_in_duration in_duration parse_time put_string split_at_char copy write strlen
run-over_midnight = refl

-- a file system whose state is the directories made, of which none is there before
abbrev made : Dirs (List (List ℕ))
made = record {
  access = λ dir s. elim s [ [] ↦ neg 1 | last ∷ _ ↦ if bytes_eq dir last then pos 0 else neg 1 ];
  mkdir = λ dir s. dir ∷ s;
}

-- In December the last of the twelve months is 23, not 11 of the next year; a number is one byte here.
run-setup_date_as_dir :
    (setup_date_as_dir made (λ w n. n ∷ []) [] 24 11 [] >>= λ (ret, s). elim s [
      | [] ↦ none
      | last ∷ _ ↦ some last
    ])
    ≡ some (b'/' ∷ 24 ∷ b'/' ∷ 23 ∷ [])
unfolding setup_date_as_dir month_dirs new_dir
run-setup_date_as_dir = refl

run-find_index :
    find_index (b'b' ∷ []) (some (b'a' ∷ []) ∷ some (b'b' ∷ []) ∷ none ∷ []) ≡ some (pos 1)
unfolding find_index find_index_at
run-find_index = refl

-- `ftp://admin:ipc@h1:21`
set_ftp_svr_lem_example :
    set_ftp_svr two_digits (
      b'f' ∷ b't' ∷ b'p' ∷ b':' ∷ b'/' ∷ b'/' ∷ b'a' ∷ b'd' ∷ b'm' ∷ b'i' ∷ b'n' ∷ b':' ∷ b'i'
      ∷ b'p' ∷ b'c' ∷ b'@' ∷ b'h' ∷ b'1' ∷ b':' ∷ b'2' ∷ b'1' ∷ [])
    ≡ some record {
      user = b'a' ∷ b'd' ∷ b'm' ∷ b'i' ∷ b'n' ∷ [];
      passwd = b'i' ∷ b'p' ∷ b'c' ∷ b'i' ∷ b'n' ∷ [];
      server = b'h' ∷ b'1' ∷ b'c' ∷ b'i' ∷ b'n' ∷ [];
      port = pos 21;
    }
set_ftp_svr_lem_example =
    set_ftp_svr_lem two_digits (b'f' ∷ b't' ∷ b'p' ∷ b':' ∷ [])
      (b'a' ∷ b'd' ∷ b'm' ∷ b'i' ∷ b'n' ∷ []) (b'i' ∷ b'p' ∷ b'c' ∷ []) (b'h' ∷ b'1' ∷ [])
      (b'2' ∷ b'1' ∷ []) (omega arith) (omega arith) (omega arith) refl refl refl refl refl refl
      refl

-- an empty file and a system whose calls are done; numbers of one digit
abbrev works : Answers
works = record {
  creates = true;
  opens = true;
  locks = true;
  stats = true;
  reads = true;
  fopens = true;
  now = 9;
}

abbrev empty : Disk
empty = record { content = some []; mtime = 5 }

abbrev one_digit : ℤ → List ℕ
one_digit n = (b'0' + pos_part n) ∷ []

abbrev clean_digit : Clean (define b'p' (b'i' ∷ b'd' ∷ []) (one_digit (pos 7)))
unfolding scan_value skip trim
clean_digit = (refl, refl, refl, refl, refl, refl, refl, refl, (refl, refl))

empty-content : empty.content ≡ some (output false (map entry_of []))
unfolding output
empty-content = refl

pid_round_trip_example :
    (log_my_pid one_digit (pos 7) works empty >>= λ (ret, disk'). get_my_pid two_digits works disk')
    ≡ some (pos 7)
pid_round_trip_example =
    pid_round_trip one_digit two_digits (pos 7) [] works works empty refl (omega arith) clean_digit
      (refl, refl, refl, refl, refl) (refl, refl, refl, refl, refl) empty-content refl refl
      (inl refl)

-- the token of "a" at the time 5
abbrev at_five : List ℕ
at_five = 5 ∷ replicate 7 0

token_create_lem_example :
    token_create
      (replicate 64 7)
      (b'a' ∷ 0 ∷ [])
      at_five
      (some (replicate 16 0))
      (some (replicate 34 1))
    ≡ some (
      pos 0,
      some (md5 (b'a' ∷ at_five) ++ []),
      some ((mac_text [] (md5 (b'a' ∷ at_five)) ++ (0 ∷ [])) ++ (1 ∷ [])),
    )
token_create_lem_example =
    token_create_lem (replicate 64 7) (b'a' ∷ []) [] at_five (replicate 16 0) [] (replicate 33 1)
      (1 ∷ []) refl refl (omega arith) refl refl refl
