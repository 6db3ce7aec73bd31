-- ===== src/Config/File.antt =====
-- cfgfile.c: a configuration and its file, `cfg_init`, `cfg_refresh` and `cfg_commit`. The system's calls
-- give the answers of `Answers`; a file that is there and opened is read and written as a whole, since the
-- results of `fprintf` and `fflush` are not looked at. The outer `none` is an image that is read for ever.
use cvos.Prelude.{ℕ, zero, suc, List, [], Option, none, some, Bool, true, false, not, ◌&&◌}
use cvos.Prelude.{ℤ, pos, neg, is_zero, if◌then◌else◌, ◌==◌, length, ◌>>=◌}
use cvos.Config.{Kind, Config}
use cvos.Config.Write.{pool_for}
use cvos.Config.Text.{parse, output}

-- what the calls answer: whether they succeed, and the time of a change
pub record Answers : Type 0 where
  pub creates : Bool
  pub opens : Bool
  pub locks : Bool
  pub stats : Bool
  pub reads : Bool
  pub fopens : Bool
  pub now : ℕ

-- the file, if it is there
pub record Disk : Type 0 where
  pub content : Option (List ℕ)
  pub mtime : ℕ

-- `TCONFIG` with what it holds of the file
pub record Handle : Type 0 where
  pub config : Config
  pub image : Option (List ℕ)
  pub size : ℕ
  pub mtime : ℕ

-- after `memset(pconfig, 0, ...)`
abbrev pub empty_config : Config
empty_config = record {
  valid = false;
  eof = false;
  kind = Kind.error;
  dirty = false;
  entries = [];
  max_entries = 0;
  cursor = 0;
  section = none;
  id = none;
  value = none;
}

-- `cfg_freeimage`
abbrev pub free_image : Handle
free_image = record { config = empty_config; image = none; size = 0; mtime = 0 }

-- the pool after `n` entries were stored into a new one
unfoldable pub pool_of : ℕ → ℕ
pool_of zero = 0
pool_of (suc n) = pool_for n (pool_of n)

-- a failed `cfg_refresh`
abbrev pub refused : ℤ → Handle → Option (ℤ × Handle)
refused ret h = some (ret, record h { image = none; size = 0 })

-- the image is still the one of the file
abbrev pub still_valid : List ℕ → ℕ → Handle → Bool
still_valid bytes time h = elim h.image [
  | none ↦ false
  | some _ ↦ length bytes == h.size && time == h.mtime
]

-- `_cfg_parse` of a new image
unfoldable pub take_image : List ℕ → ℕ → Option (ℤ × Handle)
take_image bytes time = do
  es ← parse bytes
  some (
    pos 0,
    record free_image {
      config = record empty_config {
        valid = true;
        entries = es;
        max_entries = pool_of (length es);
      };
      image = some bytes;
      size = length bytes;
      mtime = time;
    },
  )

-- `cfg_refresh`
unfoldable pub refresh : Answers → Disk → Handle → Option (ℤ × Handle)
refresh a disk h = elim disk.content [
  | none ↦ refused (neg 2) h
  | some bytes ↦
      if not a.opens
      then refused (neg 2) h
      else if not a.locks
      then refused (neg 100) h
      else if not a.stats
      then refused (neg 3) h
      else if still_valid bytes disk.mtime h
      then some (pos 0, h)
      else if not a.reads
      then refused (neg 4) (if h.config.dirty then free_image else h)
      else take_image bytes disk.mtime
]

-- the file once `cfg_init` is asked to create it
abbrev pub created : Answers → Disk → Disk
created a disk = elim disk.content [
  | some _ ↦ disk
  | none ↦ if a.creates then record { content = some []; mtime = a.now } else disk
]

-- `cfg_init` once the file is there or to be created
unfoldable pub init_at : Answers → Disk → Option (ℤ × Option Handle × Disk)
init_at a disk = do
  out ← refresh a disk free_image
  (if is_zero out.0 then some (pos 0, some out.1, disk) else some (neg 11, none, disk))

-- `cfg_init`; the handle is `none` where it fails.
unfoldable pub init : Bool → Answers → Disk → Option (ℤ × Option Handle × Disk)
init create a disk = elim disk.content [
  | some _ ↦ init_at a disk
  | none ↦ if create then init_at a (created a disk) else some (neg 2, none, disk)
]

-- `cfg_commit`
unfoldable pub commit : Answers → Handle → Disk → ℤ × Handle × Disk
commit a h disk =
    if not h.config.valid
    then (neg 1, h, disk)
    else if not h.config.dirty
    then (pos 0, h, disk)
    else elim disk.content [
      | none ↦ (neg 4, h, disk)
      | some _ ↦
          if not a.opens
          then (neg 4, h, disk)
          else if not a.locks
          then (neg 100, h, disk)
          else if not a.fopens
          then (neg 2, h, disk)
          else (
            pos 0,
            record h { config = record h.config { dirty = false } },
            record { content = some (output false h.config.entries); mtime = a.now },
          )
    ]
