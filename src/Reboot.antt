-- ===== src/Reboot.antt =====
-- reboot.c: the log of the reasons for a reboot, and the reboot by the watchdog. The calls of the system are
-- a parameter; a string is the list of its bytes without its NUL, and `none` is a fault.
pub mod Log
mod Tests
use cvos.Prelude.{
  ℕ, zero, suc, ◌+◌, ◌*◌, List, [], ◌∷◌, ◌++◌, Option, none, some, Bool, true, false,
}
use cvos.Prelude.{ℤ, pos, neg, is_neg, if◌then◌else◌, ◌==◌, ltb, length, ◌>>=◌, ◌||◌, codes}

-- `IPC_RESET_LOG_SIZE`
abbrev pub reset_log_size : ℕ
reset_log_size = 100 * 1024

-- What the file holds, where a missing file holds nothing; `opens` tells if `fopen` succeeds. Mode "r+" keeps
-- the file, whose end is then sought, and "w+" empties it.
unfoldable pub add_one_reset_log : Bool → List ℕ → List ℕ → List ℕ
add_one_reset_log opens line file =
    if opens
    then (if ltb reset_log_size (length file) || length file == 0 then line else file ++ line)
    else file

-- What a reboot comes to: a result, or the loop that waits for the watchdog
pub data Outcome {ℓ} (S : Type ℓ) : Type ℓ where
  returned : ℤ → S → Outcome S
  waiting : S → Outcome S

-- the log file, `open` of a device, `ioctl` with WDIOC_SETTIMEOUT of one second, `close` and the shell
pub record Machine {ℓ} (S : Type ℓ) : Type ℓ where
  pub add_line : List ℕ → S → S
  pub open_device : List ℕ → S → ℤ × S
  pub set_timeout : ℤ → S → S
  pub close : ℤ → S → S
  pub shell : List ℕ → S → S

-- `line` of `WdtReboot`, of 128 bytes, with the code and the moment as they are printed
abbrev pub reset_line : List ℕ → List ℕ → List ℕ
reset_line code moment =
    codes "WdtReboot("
    ++ (code ++ (codes ") is called at " ++ (moment ++ (codes ". " ++ (10 ∷ [])))))

module _ {ℓ} {S : Type ℓ} (m : Machine S) where
  -- `open` of the one device, and of the other if that fails
  unfoldable pub open_watchdog : S → ℤ × S
  open_watchdog s =
      let (fd, s') = m.open_device (codes "/dev/watchdog") s in
      if is_neg fd then m.open_device (codes "/dev/wdt") s' else (fd, s')

  -- `WdtReboot` behind the line that is logged
  unfoldable pub reset : S → Outcome S
  reset s =
      let (fd, s') = open_watchdog s in
      if is_neg fd
      then returned (pos 0) (
          m.shell (codes "reboot")
            (m.shell (codes "ln -s /bin/busybox /tmp/reboot;/tmp/reboot") s'))
      else waiting (m.shell (codes "reboot") (m.close fd (m.set_timeout fd s')))

  -- `WdtReboot`
  unfoldable pub wdt_reboot : List ℕ → List ℕ → S → Option (Outcome S)
  wdt_reboot code moment s =
      if ltb (length (reset_line code moment)) 128
      then some (reset (m.add_line (reset_line code moment) s))
      else none
