-- ===== src/Shell.antt =====
-- What vos.c and utils.c have the shell do: `osRecCreateDir`, `osNetMountNAS`, `osNetIsMounted` and
-- `osFwNetUpdate` of vos.c, `utl_DoesExist` of utils.c, over the system calls of Files. A string is the list of
-- its bytes without its NUL; `none` is a fault, such as a command that does not fit in its buffer, or too
-- little fuel.
pub mod Count
pub mod Mount
mod Tests
use cvos.Prelude.{
  ℕ, zero, suc, ◌+◌, ◌-◌, List, [], ◌∷◌, ◌++◌, Option, none, some, Bool, true, false,
}
use cvos.Prelude.{ℤ, pos, neg, is_neg, is_zero, if◌then◌else◌, ◌==◌, ltb, leb, length, drop, not}
use cvos.Prelude.{take, replicate, strlen, codes, ◌>>=◌}
use cvos.Files.{Calls, Mode, less_one, os_system, kill_forced}

-- `sprintf` into a buffer of `size` bytes
abbrev pub print_into : ℕ → List ℕ → Option (List ℕ)
print_into size text = if ltb (length text) size then some text else none

-- `strcat` to what a buffer of `size` bytes holds
abbrev pub cat : ℕ → List ℕ → List ℕ → Option (List ℕ)
cat size text more = print_into size (text ++ more)

-- whether the string starts with the key, and what follows it
unfoldable pub behind : List ℕ → List ℕ → Option (List ℕ)
behind [] text = some text
behind (k ∷ key) [] = none
behind (k ∷ key) (c ∷ text) = let rest = behind key text in if k == c then rest else none

-- `strstr`, as what stands before the first key and what stands behind it
unfoldable pub strstr : List ℕ → List ℕ → Option (List ℕ × List ℕ)
strstr key [] = elim (behind key []) [ none ↦ none | some rest ↦ some ([], rest) ]
strstr key (c ∷ text) =
    let later = strstr key text in
    elim (behind key (c ∷ text)) [
      | some rest ↦ some ([], rest)
      | none ↦ elim later [ none ↦ none | some (before, rest) ↦ some (c ∷ before, rest) ]
    ]

-- the string in `buf`, of 256 bytes and zero at first, once these are read into it; 256 bytes of which none
-- is a NUL are no string.
unfoldable pub string_in : List ℕ → Option (List ℕ)
string_in bytes = do
  let buf = bytes ++ replicate (256 - length bytes) 0
  n ← strlen buf
  some (take n buf)

-- the loop of `utl_DoesExist` behind the first `strstr`: the keys in the text
unfoldable pub count_keys : ℕ → List ℕ → List ℕ → Option ℕ
count_keys zero key text = none
count_keys (suc fuel) key text = elim (strstr key text) [
  | none ↦ some 0
  | some (before, rest) ↦ elim (count_keys fuel key rest) [ none ↦ none | some n ↦ some (n + 1) ]
]

unfoldable pub count_text {ℓ} : {S : Type ℓ} → ℕ → List ℕ → List ℕ → S → Option (ℕ × S)
count_text fuel key text s = do n ← count_keys fuel key text; some (n, s)

-- `utl_DoesExist` once its file is read back, if it could be
unfoldable pub count_back {ℓ} : {S : Type ℓ} → ℕ → List ℕ → Option (List ℕ) × S → Option (ℕ × S)
count_back fuel key (none, s) = some (0, s)
count_back fuel key (some bytes, s) = do text ← string_in bytes; count_text fuel key text s

-- `osNetIsMounted` once its file is read back, if it could be
unfoldable pub seek_back {ℓ} : {S : Type ℓ} → List ℕ → Option (List ℕ) × S → Option (ℤ × S)
seek_back mount (none, s) = some (pos 0, s)
seek_back mount (some bytes, s) = do
  text ← string_in bytes
  some (elim (strstr mount text) [ none ↦ pos 0 | some _ ↦ pos 1 ], s)

-- the command that `osNetMountNAS` puts together in `buf`, of 256 bytes
unfoldable pub mount_line : List ℕ → List ℕ → List ℕ → List ℕ → Option (List ℕ)
mount_line user pwd server share = do
  b ← cat 256 [] (codes "mount -t cifs -o ")
  b ← cat 256 b (codes "username=")
  b ← cat 256 b user
  b ← cat 256 b (codes ",")
  b ← cat 256 b (codes "password=")
  b ← cat 256 b pwd
  b ← cat 256 b (codes " //")
  b ← cat 256 b server
  b ← (if (elim share [ [] ↦ false | c ∷ _ ↦ c == b'/' ]) then some b else cat 256 b (codes "/"))
  b ← cat 256 b share
  b ← cat 256 b (codes " ")
  b ← cat 256 b (codes "/mnt/nas/")
  some b

module _ (q : Calls) where
  open q use {State, exists, open_file, close, read, system}

  -- the first 256 bytes of a file that the shell wrote, if it is there
  unfoldable pub read_back : List ℕ → State → Option (List ℕ) × State
  read_back name s =
      let (fd, s1) = open_file name Mode.read_only s in
      let (ret, bytes, s2) = read fd 256 s1 in
      if is_neg fd then (none, s1) else (if less_one ret then none else some bytes, (close fd s2).1)

  -- `utl_DoesExist`, with fuel for its loop
  unfoldable pub does_exist : ℕ → List ℕ → List ℕ → State → Option (ℕ × State)
  does_exist fuel cmd key s = do
    line ← print_into 128 (cmd ++ codes " |/bin/grep " ++ key ++ codes " >/tmp/.tmp 2>/dev/null")
    count_back fuel key (read_back (codes "/tmp/.tmp") (system line s).3)

  -- `osNetIsMounted`, or NULL
  unfoldable pub net_is_mounted : Option (List ℕ) → State → Option (ℤ × State)
  net_is_mounted none s = some (neg 1, s)
  net_is_mounted (some mount) s = do
    line ←
        print_into 128
          (codes "/bin/mount |/bin/grep " ++ mount ++ codes " >/tmp/mount.txt 2>/dev/null")
    seek_back mount (read_back (codes "/tmp/mount.txt") (os_system q line s).1)

  -- `osRecCreateDir` on a day, printed in eight digits: the result and `NewDir`, where it is written
  unfoldable pub rec_create_dir :
      List ℕ → Option (List ℕ) → Bool → State → Option (ℤ × Option (List ℕ) × State)
  rec_create_dir day none given s = some (neg 1, none, s)
  rec_create_dir day (some dir) false s = some (neg 1, none, s)
  rec_create_dir day (some dir) true s = do
    local ← print_into 128 (dir ++ day)
    (if exists local s then some (pos 0, some local, s) else (do
      line ← print_into 128 (codes "mkdir " ++ local)
      let (ret, s') = os_system q line s
      some (ret, if is_zero ret then some local else none, s')))

  -- `osNetMountNAS`, or NULL for any of its strings
  unfoldable pub net_mount_nas :
      Option (List ℕ)
      → Option (List ℕ)
      → Option (List ℕ)
      → Option (List ℕ)
      → State
      → Option (ℤ × State)
  net_mount_nas (some user) (some pwd) (some server) (some share) s = do
    line ← mount_line user pwd server share
    let out = system line s
    some (out.0, out.3)
  net_mount_nas user pwd server share s = some (pos 0, s)

  -- the directory that `osFwNetUpdate` works in
  unfoldable pub tmp_dir : State → List ℕ
  tmp_dir s =
      if exists (codes "/mnt/mtd/ipc/tmpfs") s then codes "/mnt/mtd/ipc/tmpfs" else codes "/tmp"

  -- what follows the last `/`; without one `strrchr(..)+1` is no string, and not NULL.
  unfoldable pub file_name : List ℕ → Option (List ℕ)
  file_name [] = none
  file_name (c ∷ url) = elim (file_name url) [
    | some name ↦ some name
    | none ↦ if c == b'/' then some url else none
  ]

  -- the part of a name before its first `.`, in `name`, which has 32 bytes; without a `.` its length is wild.
  unfoldable pub stem : List ℕ → Option (List ℕ)
  stem [] = none
  stem (c ∷ name) =
      let rest = stem name in
      if c == b'.' then some [] else elim rest [ none ↦ none | some s ↦ some (c ∷ s) ]

  unfoldable pub run : List ℕ → State → Option State
  run text s = do line ← print_into 256 text; some (system line s).3

  -- `osFwNetUpdate` once the file is there; `fuel` is for `utl_KillForced`.
  unfoldable pub install : ℕ → List ℕ → List ℕ → ℤ → State → Option (ℤ × State)
  install fuel dir file pid s = do
    name ← stem file
    name ← print_into 32 name
    s ← (if less_one pid then some s else (do out ← kill_forced q fuel pid s; some out.1))
    s ← run (codes "cd " ++ dir ++ codes "/fw;tar xf " ++ file) s
    s ← run (codes "cd " ++ dir ++ codes "/fw/" ++ name ++ codes "/;sh appins.sh") s
    s ← run (codes "rm " ++ dir ++ codes "/fw -rf") s
    some (pos 1, s)

  -- `osFwNetUpdate`
  unfoldable pub fw_net_update : ℕ → List ℕ → ℤ → List ℕ → State → Option (ℤ × State)
  fw_net_update fuel url pid wget s = do
    let dir = tmp_dir s
    s ←
        run
          (codes "mkdir "
            ++ dir
            ++ codes "/fw;cd "
            ++ dir
            ++ codes "/fw;rm "
            ++ dir
            ++ codes "/fw/* -rf;"
            ++ wget
            ++ codes " -c "
            ++ url)
          s
    file ← file_name url
    path ← print_into 256 (dir ++ codes "/fw/" ++ file)
    (if exists path s then install fuel dir file pid s else some (neg 2, s))
