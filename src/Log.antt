-- ===== src/Log.antt =====
-- logfile.c: the log. A call names one file, and the store is what that file and those renamed from it
-- hold. The lock of `Log_MsgLine` only keeps calls apart. A string is the list of its bytes without its
-- NUL; `none` is a write behind the end of a buffer.
pub mod Keep
mod Tests
use cvos.Prelude.{bytes_eq}
use cvos.Prelude.{
  ℕ, zero, suc, ◌+◌, List, [], ◌∷◌, ◌++◌, Option, none, some, Bool, true, false, ◌&&◌, ◌||◌,
}
use cvos.Prelude.{ℤ, pos, neg, if◌then◌else◌, ◌==◌, ltb, leb, length}

-- `gLogDir`, `gMaxLogFileSize` and `gLogInitFlag`
pub record Config : Type 0 where
  pub dir : List ℕ
  pub max_size : ℕ
  pub init_flag : Bool

-- the end of `Log_Init`: a size outside of (2 KB, 500 KB] is passed over
unfoldable pub resize : ℕ → Config → Config
resize size c = record c {
  max_size = if ltb 2000 size && leb size 500000 then size else c.max_size;
  init_flag = true;
}

-- `Log_Init`: `sizeof(gLogDir)` is 256, so that a string of 256 bytes passes the test and has no room for
-- its NUL.
unfoldable pub log_init : Option (List ℕ) → ℕ → Config → Option (ℤ × Config)
log_init none size c = if c.init_flag then some (pos 0, c) else some (pos 0, resize size c)
log_init (some d) size c =
    if c.init_flag
    then some (pos 0, c)
    else (if ltb 256 (length d)
        then some (neg 1, c)
        else (if length d == 256 then none else some (pos 0, resize size (record c { dir = d }))))

-- `Log_UnInit`
pub log_uninit : Config → ℤ × Config
log_uninit c = (pos 0, record c { init_flag = false })

-- The file named by the call, and those renamed, each with the time in its name
pub record Store : Type 0 where
  pub current : List ℕ
  pub archive : List (List ℕ × List ℕ)

-- What the system answers: if `rename` and `fopen` succeed, and the two forms of the time, as the line
-- and the new name have it.
pub record Answers : Type 0 where
  pub renames : Bool
  pub opens : Bool
  pub stamp : List ℕ
  pub name : List ℕ

-- the archive less a file of that name, which `rename` replaces
unfoldable pub without : List ℕ → List (List ℕ × List ℕ) → List (List ℕ × List ℕ)
without name [] = []
without name ((n, bytes) ∷ rest) =
    let others = without name rest in if bytes_eq n name then others else (n, bytes) ∷ others

-- `rename(FullFileName,destFilename)`, whose result is not looked at
unfoldable pub rotate : Answers → Store → Store
rotate a s =
    if a.renames
    then record { current = []; archive = without a.name s.archive ++ ((a.name, s.current) ∷ []) }
    else s

-- `fopen` in mode "w+", or in mode "a+", and the line behind it
unfoldable pub put_line : Answers → Bool → List ℕ → Store → Store
put_line a fresh text s =
    if a.opens then record s { current = if fresh then text else s.current ++ text } else s

-- `Log_MsgLine2` behind its tests, with `FileSizeLimit`; a missing file has size 0.
unfoldable pub log_line : Answers → List ℕ → ℕ → Store → Store
log_line a text limit s =
    let size = length s.current in
    if size == 0
    then put_line a true text s
    else (if leb limit size then put_line a true text (rotate a s) else put_line a false text s)

-- `Log_MsgLine2`: FullFileName and destFilename have 128 bytes, the latter with 16 more to hold. Where the
-- file is not opened the result is the length of the line alone.
unfoldable pub log_msg_line2 :
    Answers → Option (List ℕ) → Option (List ℕ) → Option (List ℕ) → ℕ → Store → Option (ℤ × Store)
log_msg_line2 a (some dir) (some file) (some line) (suc limit) s =
    let text = a.stamp ++ line in
    let ret = if a.opens then pos (length text) else pos (length line) in
    let full = length dir + 1 + length file in
    if ltb 1000 (length line)
    then some (neg 2, s)
    else (if ltb full 112 || ltb full 128 && ltb (length s.current) (suc limit)
        then some (ret, log_line a text (suc limit) s)
        else none)
log_msg_line2 a dir file line limit s = some (neg 1, s)

-- `Log_MsgLine`
pub log_msg_line : Answers → Config → Option (List ℕ) → Option (List ℕ) → Store → Option (ℤ × Store)
log_msg_line a c file line s = log_msg_line2 a (some c.dir) file line c.max_size s
