-- ===== src/Files.antt =====
-- Files, pipes and processes: `FifoOpen` to `FifoSend` and `utl_KillForced` of utils.c, `kscale`,
-- `osGetStorageInfo`, `osFileNew`, `osFileCopy`, `osSystem` and `osMalloc` of vos.c. The system calls are a
-- parameter, with a state that the model does not look into; lines that only log are left out.
pub mod Pipe
pub mod Copy
pub mod Kill
mod Tests
use Prim.Native.Nat.{bit_and}
use cvos.Prelude.{
  ℕ, zero, suc, ◌+◌, ◌-◌, ◌*◌, ◌/◌, ◌%◌, ◌^◌, List, [], ◌∷◌, ◌++◌, Option, none, some,
}
use cvos.Prelude.{Bool, true, false, not, ◌&&◌, ◌||◌, ℤ, pos, negsuc, neg, ◌-ℤ◌, is_neg, is_zero}
use cvos.Prelude.{if◌then◌else◌, ◌==◌, ltb, leb, length, ◌>>=◌}
use cvos.Prelude.{read_n, pos_part}
use cvos.Stream.{send_loop}
use cvos.Timer.{to_int}

-- The modes of `open` that the code uses
pub data Mode : Type 0 where
  create_truncate : Mode
  create_write : Mode
  read_only : Mode
  write_only : Mode

-- The calls: a name is the list of its bytes. `status` of `system` is WIFEXITED and WEXITSTATUS.
pub record Calls : Type 1 where
  pub State : Type 0
  pub exists : List ℕ → State → Bool
  pub mkfifo : List ℕ → State → ℤ × State
  pub open_file : List ℕ → Mode → State → ℤ × State
  pub close : ℤ → State → ℤ × State
  pub read : ℤ → ℕ → State → ℤ × List ℕ × State
  pub write : ℤ → List ℕ → State → ℤ × State
  pub fstat : ℤ → State → ℤ × ℕ
  pub statfs : List ℕ → State → Option (ℕ × ℕ × ℕ)
  pub kill : ℤ → Bool → State → ℤ × State
  pub wait : ℤ → Bool → State → ℤ × State
  pub system : List ℕ → State → ℤ × Bool × ℕ × State

-- `x==-1`
abbrev pub minus_one : ℤ → Bool
minus_one (pos n) = false
minus_one (negsuc n) = n == 0

abbrev pub less_one : ℤ → Bool
less_one (pos n) = n == 0
less_one (negsuc n) = true

-- PIPE_BUF on Linux
abbrev pub pipe_buf : ℕ
pipe_buf = 4096

-- `(b * bs + 512) / 1024`, where the product is one of 64 bits
pub kscale : ℕ → ℕ → ℕ
kscale b bs = (b * bs % 2 ^ 64 + 512) % 2 ^ 64 / 1024

-- the size that `osMalloc` asks for, of a size that is not negative
pub malloc_size : ℕ → ℕ
malloc_size size = let rest = bit_and size 0xfff in if rest == 0 then size else size + (4096 - rest)

module _ (q : Calls) where
  open q use {
    State, exists, mkfifo, open_file, close, read, write, fstat, statfs, kill, wait, system,
  }

  -- the pipe made if it is not there, and opened: -2 and -3 are the errors.
  unfoldable pub fifo_get : List ℕ → Mode → State → ℤ × State
  fifo_get name mode k =
      let (made, k1) = mkfifo name k in
      let (fd, k2) = open_file name mode (if exists name k then k else k1) in
      if not (exists name k) && is_neg made
      then (neg 2, k1)
      else (if is_neg fd then (neg 3, k2) else (fd, k2))

  -- `FifoOpen`
  pub fifo_open : Option (List ℕ) → Mode → State → ℤ × State
  fifo_open none mode k = (neg 1, k)
  fifo_open (some name) mode k = fifo_get name mode k

  -- `FifoClose`
  pub fifo_close : ℤ → State → ℤ × State
  fifo_close fd k = if is_neg fd then (pos 0, k) else close fd k

  -- `FifoRevMsg` into the message, with the `int` of `MsgBodyLen`; a negative one passes the test and is a
  -- `size_t` for `read`.
  pub fifo_rev_msg : ℤ → ℕ → State → ℤ × List ℕ × State
  fifo_rev_msg fd body_len k =
      let len = to_int (pos body_len) in
      let (ret, bytes, k1) =
        read fd (if is_neg len then (body_len % 2 ^ 32 + (2 ^ 64 - 2 ^ 32)) else pos_part len) k in
      if not (is_neg (len -ℤ pos pipe_buf))
      then (neg 1, [], k)
      else (if less_one ret then (neg 4, [], k1) else (ret, bytes, k1))

  -- `FifoSend` behind the opening of the pipe, on the memory from the type of the message on; a length that is
  -- not above 0 ends the loop at once, and one past the end of the memory is a fault.
  unfoldable pub fifo_write : ℤ → List ℕ → ℤ → State → Option (ℤ × State)
  fifo_write fd mem (pos len) k = if leb pipe_buf len then some (neg 4, (close fd k).1) else (do
    msg ← read_n mem 0 len
    (ret, cnt, left, k') ← send_loop (write fd) len msg (pos 0) 0 k
    some (pos cnt, (close fd k').1))
  fifo_write fd mem (negsuc n) k = some (pos 0, (close fd k).1)

  -- `FifoSend`, with the name and the memory of the message, or NULL for either; `len` is the `int` of
  -- `MsgBodyLen+8`.
  unfoldable pub fifo_send : Option (List ℕ) → Option (List ℕ) → ℕ → State → Option (ℤ × State)
  fifo_send (some name) (some mem) body_len k =
      let (fd, k1) = fifo_get name Mode.write_only k in
      if is_neg fd
      then some (fd, k1)
      else fifo_write fd mem (to_int (pos ((body_len + 8) % 2 ^ 32))) k1
  fifo_send name mem body_len k = some (neg 1, k)

  -- The wait of `utl_KillForced` for a process that was asked to stop, with `left` turns to go: `none` if
  -- it does not.
  unfoldable pub wait_quit : ℕ → ℤ → State → Option ℤ × State
  wait_quit zero pid k = (none, k)
  wait_quit (suc left) pid k =
      let (qpid, k') = wait pid true k in
      let rest = wait_quit left pid k' in
      if is_neg qpid
      then (some (neg 3), k')
      else (if is_zero qpid then rest else (some (pos 0), k'))

  -- The wait for a process that was killed, with `fuel` turns; `none` is for too little fuel.
  unfoldable pub wait_killed : ℕ → ℤ → State → Option State
  wait_killed zero pid k = none
  wait_killed (suc fuel) pid k =
      let (qpid, k') = wait pid false k in
      let rest = wait_killed fuel pid k' in if is_neg qpid then rest else some k'

  -- `utl_KillForced`: SIGTERM first, SIGKILL if that does not help within a hundred turns
  unfoldable pub kill_forced : ℕ → ℤ → State → Option (ℤ × State)
  kill_forced fuel pid k =
      let (term, k1) = kill pid false k in
      let (quit, k2) = wait_quit 100 pid k1 in
      let (killed, k3) = kill pid true k2 in
      if less_one pid
      then some (neg 1, k)
      else (if is_neg term then some (neg 2, k1) else elim quit [
        | some ret ↦ some (ret, k2)
        | none ↦
            if is_neg killed
            then some (neg 5, k3)
            else (do k4 ← wait_killed fuel pid k3; some (pos 1, k4))
      ])

  -- `osGetStorageInfo`: the result and both sizes in kB, where they are stored
  pub get_storage_info : Option (List ℕ) → Bool → State → ℤ × Option (ℕ × ℕ)
  get_storage_info none given k = (neg 1, none)
  get_storage_info (some mount) given k =
      if not given then (neg 1, none) else elim (statfs mount k) [
        | none ↦ (neg 2, none)
        | some (blocks, free, bs) ↦ (pos 0, some (kscale blocks bs, kscale free bs))
      ]

  -- `osFileNew` of `data`, or NULL for the name or the data
  pub file_new : Option (List ℕ) → Option (List ℕ) → State → ℤ × State
  file_new (some name) (some data') k =
      let (wd, k1) = open_file name Mode.create_truncate k in
      let (ret, k2) = write wd data' k1 in
      let k3 = (close wd k2).1 in
      if is_neg wd
      then (neg 3, k1)
      else (if is_zero (pos (length data') -ℤ ret) then (ret, k3) else (neg 4, k3))
  file_new name data' k = (neg 1, k)

  -- the loop of `osFileCopy` with `fuel` turns: the bytes copied and the state; `none` is for too little fuel
  -- and for a `size` past the range of `int`, which C leaves undefined.
  unfoldable pub copy_loop : ℕ → ℤ → ℤ → ℕ → State → Option (ℕ × State)
  copy_loop zero rd wd size k = none
  copy_loop (suc fuel) rd wd size k =
      let (len, bytes, k1) = read rd 0x1000 k in
      let (ret, k2) = write wd bytes k1 in
      let rest = copy_loop fuel rd wd (size + length bytes) k2 in
      if less_one len
      then some (size, k1)
      else (if is_zero (len -ℤ ret)
          then (if leb (2 ^ 31) (size + length bytes) then none else rest)
          else some (size, k2))

  -- `osFileCopy` behind the opening of both files. The result of the loop is replaced by that of the test
  -- of the sizes.
  pub file_copy_at : ℕ → ℤ → ℤ → State → Option (ℤ × State)
  file_copy_at fuel rd wd k = do
    let (ret, st_size) = fstat rd k
    if is_neg ret then some (neg 4, k) else (do
      (size, k') ← copy_loop fuel rd wd 0 k
      some (if st_size == size then pos 0 else neg 5, k'))

  -- `osFileCopy`
  pub file_copy : ℕ → Option (List ℕ) → Option (List ℕ) → State → Option (ℤ × State)
  file_copy fuel (some infile) (some outfile) k =
      let (rd, k1) = open_file infile Mode.read_only k in
      let (wd, k2) = open_file outfile Mode.create_write k1 in
      if is_neg rd
      then some (neg 2, k1)
      else (if is_neg wd then some (neg 3, (close rd k2).1) else (do
        (ret, k3) ← file_copy_at fuel rd wd k2
        some (ret, (close wd (close rd k3).1).1)))
  file_copy fuel infile outfile k = some (neg 1, k)

  -- `osSystem`; an exit code is not negative.
  unfoldable pub os_system : List ℕ → State → ℤ × State
  os_system cmd k =
      let (status, exited, code, k') = system cmd k in
      (if minus_one status then neg 1 else (if exited then pos code else neg 3), k')
