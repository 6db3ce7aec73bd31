-- ===== src/Utils.antt =====
-- utils.c: times of day, the address of an FTP server, directories, the process number kept in a file, and
-- the JSON helpers. A string that a function is given is the list of its bytes without its NUL; a block of
-- memory is the list of all its bytes. `none` is a fault.
pub mod Leftover
pub mod Pid
pub mod Token
mod Tests
use cvos.Prelude.{
  ℕ, zero, suc, ◌+◌, List, [], ◌∷◌, ◌++◌, Option, none, some, Bool, true, false, ◌&&◌, ◌||◌,
}
use cvos.Prelude.{
  ℤ, pos, neg, is_neg, is_zero, ◌-ℤ◌, if◌then◌else◌, leb, length, take, replicate, get_elem?,
}
use cvos.Prelude.{◌>>=◌, copy, strlen, bytes_eq}
use cvos.Config.Text.{split_at_char}
use cvos.Config.File.{Answers, Disk}
use cvos.Config.Api.{write_number, read_number}

-- `char str[32] = {0}`
abbrev pub buffer : List ℕ
buffer = replicate 32 0

-- `strncpy(str, p, n)` of the `n` bytes given, which puts no NUL behind them, and the string in `str` then
unfoldable pub put_string : List ℕ → List ℕ → Option (List ℕ × List ℕ)
put_string str bytes = do str' ← copy str 0 bytes; n ← strlen str'; some (take n str', str')

-- `SETTIME_S` of an `hh:mm`, and what is left in `str`; without a `:` the length given to `strncpy` is wild.
unfoldable pub parse_time : (atoi : List ℕ → ℤ) → List ℕ → List ℕ → Option (ℤ × ℤ × List ℕ)
parse_time atoi str time = do
  parts ← split_at_char b':' time
  put ← put_string str parts.0
  some (atoi put.0, atoi parts.1, put.1)

-- `a < b`
abbrev pub less : ℤ → ℤ → Bool
less a b = is_neg (a -ℤ b)

abbrev pub same : ℤ → ℤ → Bool
same a b = is_zero (a -ℤ b)

-- the condition of `utl_IsInDuration` on the hour and the minute
unfoldable pub in_duration : ℤ → ℤ → ℤ → ℤ → ℤ → ℤ → Bool
in_duration hour min bh bm eh em =
    ((same hour bh && (less bm min || same bm min)) || less bh hour)
    && ((same hour eh && less min em) || less hour eh)

-- `utl_IsInDuration` at the time of `localtime`
unfoldable pub is_in_duration :
    (atoi : List ℕ → ℤ) → ℤ → ℤ → Option (List ℕ) → Option (List ℕ) → Option ℤ
is_in_duration atoi hour min none end = some (neg 1)
is_in_duration atoi hour min (some begin) none = some (neg 1)
is_in_duration atoi hour min (some begin) (some end) = do
  b ← parse_time atoi buffer begin
  e ← parse_time atoi b.2 end
  some (if in_duration hour min b.0 b.1 e.0 e.1 then pos 1 else pos 0)

-- `FTPSVR_S`, whose strings have 32 bytes, as `str` has
pub record FtpSvr : Type 0 where
  pub user : List ℕ
  pub passwd : List ℕ
  pub server : List ℕ
  pub port : ℤ

-- `utl_NetSetFtpSvr` after the user, from the `:` on
unfoldable pub set_password : (atoi : List ℕ → ℤ) → List ℕ → List ℕ → List ℕ → Option FtpSvr
set_password atoi str user rest = do
  parts ← split_at_char b'@' rest
  passwd ← put_string str parts.0
  parts' ← split_at_char b':' parts.1
  server ← put_string passwd.1 parts'.0
  some record { user = user; passwd = passwd.0; server = server.0; port = atoi parts'.1 }

-- `utl_NetSetFtpSvr`: the user starts two bytes after the first `/`.
unfoldable pub set_ftp_svr : (atoi : List ℕ → ℤ) → List ℕ → Option FtpSvr
set_ftp_svr atoi url = do
  parts ← split_at_char b'/' url
  parts' ← split_at_char b':' parts.1
  (elim parts'.0 [
    | [] ↦ none
    | _ ∷ name ↦ do user ← put_string buffer name; set_password atoi user.1 user.0 parts'.1
  ])

-- the directories, through `access` and the shell's `mkdir`
pub record Dirs {ℓ} (S : Type ℓ) : Type ℓ where
  pub access : List ℕ → S → ℤ
  pub mkdir : List ℕ → S → S

-- the bytes of `sCmd` besides the directory: `mkdir `, ` 2>/dev/null` and the NUL
abbrev pub command_size : ℕ
command_size = 6 + 12 + 1

module _ {ℓ} {S : Type ℓ} (dirs : Dirs S) where
  -- `utl_NewDir`, whose `sCmd` has 128 bytes
  unfoldable pub new_dir : List ℕ → S → Option (ℤ × S)
  new_dir dir s =
      if is_zero (dirs.access dir s)
      then some (pos 0, s)
      else if leb (length dir + command_size) 128
      then some (dirs.access dir (dirs.mkdir dir s), dirs.mkdir dir s)
      else none

  -- The loop of `utl_SetupDateAsDir` over `count` months from `month` on, with the result so far
  unfoldable pub month_dirs : (dec : ℕ → ℕ → List ℕ) → List ℕ → ℕ → ℕ → ℤ → S → Option (ℤ × S)
  month_dirs dec year_dir zero month ret s = some (ret, s)
  month_dirs dec year_dir (suc count) month ret s = do
    made ← new_dir (year_dir ++ (b'/' ∷ dec 2 month)) s
    month_dirs dec year_dir count (month + 1) made.0 made.1

  -- `utl_SetupDateAsDir`, where `sprintf` writes a number of a width by `dec`, and `year` and `month` are
  -- those of `localtime`, `tm_year + 1900` and `tm_mon`
  unfoldable pub setup_date_as_dir : (dec : ℕ → ℕ → List ℕ) → List ℕ → ℕ → ℕ → S → Option (ℤ × S)
  setup_date_as_dir dec top year month s = do
    let year_dir = top ++ (b'/' ∷ dec 4 year)
    made ← new_dir year_dir s
    (if is_zero made.0 then month_dirs dec year_dir 12 (month + 1) made.0 made.1 else some made)

-- `pid`
abbrev pub pid_name : List ℕ
pid_name = b'p' ∷ b'i' ∷ b'd' ∷ []

-- `utl_LogMyPid`
unfoldable pub log_my_pid : (text : ℤ → List ℕ) → ℤ → Answers → Disk → Option (ℤ × Disk)
log_my_pid text pid a disk = write_number text (some pid_name) (some pid_name) pid a disk

-- `utl_GetMyPid`
unfoldable pub get_my_pid : (atoi : List ℕ → ℤ) → Answers → Disk → Option ℤ
get_my_pid atoi a disk = do
  got ← read_number atoi (λ n. n) (some (neg 1)) (some pid_name) (some pid_name) a disk
  some (elim got.1 [ none ↦ neg 1 | some n ↦ n ])

-- The loop of `JsonFindIndex` from the `i`-th of the names on, with `left` turns; a NULL ends the names.
unfoldable pub find_index_at : ℕ → ℕ → List ℕ → List (Option (List ℕ)) → Option ℤ
find_index_at zero i name names = some (neg 1)
find_index_at (suc left) i name [] = none
find_index_at (suc left) i name (none ∷ names) = some (neg 1)
find_index_at (suc left) i name (some n ∷ names) =
    let rest = find_index_at left (i + 1) name names in
    if bytes_eq name n then some (pos i) else rest

-- `JsonFindIndex`, over at most `MAX_JSON_TOKEN` names
unfoldable pub find_index : List ℕ → List (Option (List ℕ)) → Option ℤ
find_index name names = find_index_at 64 0 name names
