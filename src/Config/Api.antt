-- ===== src/Config/Api.antt =====
-- cfgfile.c: the calls that open a file, read or change one value, and close it.
use cvos.Prelude.{ℕ, List, [], Option, none, some, true, false}
use cvos.Prelude.{ℤ, pos, neg, is_neg, is_zero, if◌then◌else◌, leb, length, ◌>>=◌}
use cvos.Config.{find}
use cvos.Config.Read.{get_string, get_string2}
use cvos.Config.Write.{write}
use cvos.Config.File.{Answers, Disk, Handle, init, commit}

-- `cfg_write`, whose result is not looked at, and `cfg_commit`
unfoldable pub save :
    Option (List ℕ)
    → Option (List ℕ)
    → Option (List ℕ)
    → Answers
    → Handle
    → Disk
    → Option (ℤ × Disk)
save sect id value a h disk = do
  written ← write sect id value h.config
  let (ret, _, disk') = commit a (record h { config = written.1 }) disk
  some (ret, disk')

-- `Cfg_WriteStr` and `Cfg_WriteString`; `Cfg_RemoveKey` with no value, and `ini_setstr` with no section.
unfoldable pub write_str :
    Option (List ℕ) → Option (List ℕ) → Option (List ℕ) → Answers → Disk → Option (ℤ × Disk)
write_str sect id value a disk = do
  out ← init true a disk
  let opened = out.1
  (elim opened [ none ↦ some (out.0, out.2) | some h ↦ save sect id value a h out.2 ])

-- `Cfg_WriteInt` and `Cfg_WriteHexInt`, with the text that `sprintf` gives
unfoldable pub write_number :
    (text : ℤ → List ℕ) → Option (List ℕ) → Option (List ℕ) → ℤ → Answers → Disk → Option (ℤ × Disk)
write_number text sect id n a disk = write_str sect id (some (text n)) a disk

-- `Cfg_ReadStr`: the result and what is copied to the caller
unfoldable pub read_str :
    Option (List ℕ) → Option (List ℕ) → List ℕ → Answers → Disk → Option (ℤ × List ℕ)
read_str sect id defval a disk = do
  out ← init false a disk
  let opened = out.1
  (elim opened [
    | none ↦ some (out.0, defval)
    | some h ↦ do got ← get_string2 sect id defval h.config; some (got.0, got.1)
  ])

-- `sValue`, which has 64 bytes
abbrev pub buffer_size : ℕ
buffer_size = 64

-- `cfg_getstring` into `sValue`, and `atoi`; a longer value is a fault.
unfoldable pub read_value :
    (atoi : List ℕ → ℤ) → Option (List ℕ) → Option (List ℕ) → Handle → Option (ℤ × Option ℤ)
read_value atoi sect id h = do
  got ← get_string sect id h.config
  (if leb buffer_size (length got.1)
      then none
      else some (got.0, if is_zero got.0 then some (atoi got.1) else none))

-- `Cfg_ReadInt`, `Cfg_ReadShort` and `Cfg_Readbyte`: the number converted to the caller's type and stored.
-- Where nothing is found the first stores `defVal`, the second nothing and the third 0xFF: `default`.
unfoldable pub read_number :
    (atoi : List ℕ → ℤ)
    → (cast : ℤ → ℤ) → (default : Option ℤ) → Option (List ℕ)
    → Option (List ℕ)
    → Answers
    → Disk
    → Option (ℤ × Option ℤ)
read_number atoi cast default sect id a disk = do
  out ← init false a disk
  let opened = out.1
  (elim opened [
    | none ↦ some (out.0, none)
    | some h ↦ do
      got ← read_value atoi sect id h
      some (got.0, elim got.1 [ none ↦ default | some n ↦ some (cast n) ])
  ])

-- `ini_getstr`
unfoldable pub ini_getstr : List ℕ → Answers → Disk → Option (ℤ × List ℕ)
ini_getstr key a disk = do
  out ← init false a disk
  let opened = out.1
  (elim opened [
    | none ↦ some (out.0, [])
    | some h ↦ do got ← get_string none (some key) h.config; some (got.0, got.1)
  ])

-- the part of `Cfg_ReadString` after `cfg_init`
unfoldable pub find_string : List ℕ → List ℕ → List ℕ → ℕ → Handle → Option (ℤ × List ℕ)
find_string sec key def size h = do
  found ← find (some sec) (some key) h.config
  let value = found.1.value
  (if is_neg found.0 then some (neg 5, def) else elim value [
    | none ↦ none
    | some v ↦ if leb size (length v) then some (neg 6, def) else some (pos 0, v)
  ])

-- `Cfg_ReadString`: the result and what is in `str`, where it was written
unfoldable pub read_string :
    List ℕ → List ℕ → List ℕ → ℕ → Answers → Disk → Option (ℤ × Option (List ℕ))
read_string sec key def size a disk = if leb size (length def) then some (neg 2, none) else do
  out ← init false a disk
  let opened = out.1
  (elim opened [
    | none ↦ some (neg 3, some def)
    | some h ↦ do got ← find_string sec key def size h; some (got.0, some got.1)
  ])
