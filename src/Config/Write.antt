-- ===== src/Config/Write.antt =====
-- cfgfile.c: changing a configuration, `cfg_write`, over the pool of its entries.
use cvos.Prelude.{ℕ, ◌+◌, ◌/◌, List, [], ◌∷◌, ◌++◌, Option, none, some}
use cvos.Prelude.{Bool, true, false, not, ◌||◌, ℤ, pos, neg, if◌then◌else◌, ◌==◌, leb}
use cvos.Prelude.{length, drop, ◌>>=◌}
use cvos.Config.{Entry, Config, same}

-- The size of the pool once there is room for one more of `n` entries, `_cfg_poolalloc(p, 1)`; an entry
-- has 40 bytes.
unfoldable pub pool_for : ℕ → ℕ → ℕ
pool_for n max =
    if leb (n + 1) max then max else (if max == 0 then 1 + 4096 / 40 else 1 + max + max / 2)

-- `cfg_storeentry` with `dynamic` set, whose `comment` is a copy of `value`
unfoldable pub store_entry :
    Option (List ℕ) → Option (List ℕ) → Option (List ℕ) → Option (List ℕ) → Config → Config
store_entry sect id value comment c =
    let copied : Option (List ℕ) = elim comment [ none ↦ none | some _ ↦ value ] in
    let e : Entry = record { section = sect; id = id; value = value; comment = copied } in
    record c {
      entries = c.entries ++ (e ∷ []);
      max_entries = pool_for (length c.entries) c.max_entries;
    }

-- The loop of `cfg_write` without a section: the first entry with the id is updated. Where there is none,
-- the next loop of the function runs past the entries.
unfoldable pub update_first : List ℕ → List ℕ → List Entry → Option (List Entry)
update_first id value [] = none
update_first id value (e ∷ es) =
    let rest = update_first id value es in
    if same e.id id
    then some (record e { value = some value } ∷ es)
    else elim rest [ none ↦ none | some es' ↦ some (e ∷ es') ]

-- the entries before the first header of the section, and those from it on
unfoldable pub seek : List ℕ → List Entry → Option (List Entry × List Entry)
seek sect [] = none
seek sect (e ∷ es) =
    let rest = seek sect es in
    if same e.section sect
    then some ([], e ∷ es)
    else elim rest [ none ↦ none | some (before, at) ↦ some (e ∷ before, at) ]

-- how a key was put below its header
pub data Place : Type 0 where
  updated : Place
  inserted : Place
  appended : Place

-- The loop that adds or updates a key over the entries below the header
unfoldable pub put_key : List ℕ → List ℕ → List Entry → Place × List Entry
put_key id value [] =
    (appended, record { section = none; id = some id; value = some value; comment = none } ∷ [])
put_key id value (e ∷ es) =
    let rest = put_key id value es in
    elim e.section [
      | some _ ↦ (
        inserted,
        record { section = none; id = some id; value = some value; comment = none } ∷ e ∷ es,
      )
      | none ↦
          if same e.id id
          then (updated, record e { value = some value } ∷ es)
          else (rest.0, e ∷ rest.1)
    ]

-- The pool after a key is put. An insertion uses a pointer into the old pool where the pool is moved, and
-- its `memmove` writes one entry beyond the last one: both need room for two entries.
unfoldable pub pool_after : Place → ℕ → ℕ → Option ℕ
pool_after updated n max = some max
pool_after inserted n max = if leb (n + 2) max then some max else none
pool_after appended n max = some (pool_for n max)

-- whether a comment belongs to a block: its first byte is white or starts a comment; `strchr` finds the
-- NUL, too
abbrev pub starts_block : List ℕ → Bool
starts_block [] = true
starts_block (ch ∷ text) = ch == 12 || ch == 9 || ch == 32 || ch == b';' || ch == b'#'

-- a comment of its own that belongs to a block
abbrev pub is_block : Entry → Bool
is_block e = elim e.section [
  | some _ ↦ false
  | none ↦ elim e.id [
    | some _ ↦ false
    | none ↦ elim e.value [
      | some _ ↦ false
      | none ↦ elim e.comment [ none ↦ false | some text ↦ starts_block text ]
    ]
  ]
]

-- the entries less the block of comments at their end
unfoldable pub trim_block : List Entry → List Entry
trim_block [] = []
trim_block (e ∷ es) =
    let rest = trim_block es in
    elim rest [ [] ↦ if is_block e then [] else e ∷ [] | d ∷ ds ↦ e ∷ d ∷ ds ]

-- The entries below the header before the key, and those after it; the search ends at the next section.
unfoldable pub seek_key : List ℕ → List Entry → Option (List Entry × List Entry)
seek_key id [] = none
seek_key id (e ∷ es) =
    let rest = seek_key id es in
    elim e.section [
      | some _ ↦ none
      | none ↦
          if same e.id id
          then some ([], es)
          else elim rest [ none ↦ none | some (before, after) ↦ some (e ∷ before, after) ]
    ]

-- the entries below the header up to the next section, and those from it on
unfoldable pub next_section : List Entry → List Entry × List Entry
next_section [] = ([], [])
next_section (e ∷ es) =
    let rest = next_section es in
    elim e.section [ some _ ↦ ([], e ∷ es) | none ↦ (e ∷ rest.0, rest.1) ]

-- The entries that are left once a section is deleted. Where the search for its comments passes the first
-- entry, it reads before the pool.
unfoldable pub delete_section : List Entry → List Entry → Option (List Entry)
delete_section before below =
    let (body, later) = next_section below in
    let next_block = drop (length (trim_block body)) body in
    elim (trim_block before) [ [] ↦ none | e ∷ es ↦ some ((e ∷ es) ++ (next_block ++ later)) ]

-- the entries that are left once a key is deleted below the header
unfoldable pub delete_key : List ℕ → List Entry → Option (List Entry)
delete_key id below = elim (seek_key id below) [
  | none ↦ none
  | some (before, after) ↦ some (trim_block before ++ after)
]

-- `cfg_write` below the header `e` of the section
unfoldable pub write_found :
    List Entry
    → Entry
    → List Entry
    → Option (List ℕ)
    → Option (List ℕ)
    → Config
    → Option (ℤ × Config)
write_found before e below none value c = do
  es ← delete_section before below
  some (pos 0, record c { dirty = true; entries = es })
write_found before e below (some id) none c = elim (delete_key id below) [
  | none ↦ some (pos 0, c)
  | some es ↦ some (pos 0, record c { dirty = true; entries = before ++ (e ∷ es) })
]
write_found before e below (some id) (some value) c = do
  max ← pool_after (put_key id value below).0 (length c.entries) c.max_entries
  some (
    pos 0,
    record c {
      dirty = true;
      entries = before ++ (e ∷ (put_key id value below).1);
      max_entries = max;
    },
  )

-- `cfg_write` where there is no header of the section
unfoldable pub write_new : List ℕ → Option (List ℕ) → Option (List ℕ) → Config → ℤ × Config
write_new sect none value c = (pos 0, c)
write_new sect (some id) none c = (pos 0, c)
write_new sect (some id) (some value) c =
    let c' =
      store_entry none (some id) (some value) none (store_entry (some sect) none none none c) in
    (pos 0, record c' { dirty = true })

-- `cfg_write` with a section, in a valid configuration
unfoldable pub write_section :
    List ℕ → Option (List ℕ) → Option (List ℕ) → Config → Option (ℤ × Config)
write_section sect id value c = elim (seek sect c.entries) [
  | none ↦ some (write_new sect id value c)
  | some (before, []) ↦ none
  | some (before, e ∷ below) ↦ write_found before e below id value c
]

-- `cfg_write` without a section; `strcmp` and `strdup` of NULL are faults.
unfoldable pub write_plain : Option (List ℕ) → Option (List ℕ) → Config → Option (ℤ × Config)
write_plain none value c = none
write_plain (some id) none c = none
write_plain (some id) (some value) c = do
  es ← update_first id value c.entries
  some (pos 0, record c { dirty = true; entries = es })

-- `cfg_write`
unfoldable pub write :
    Option (List ℕ) → Option (List ℕ) → Option (List ℕ) → Config → Option (ℤ × Config)
write sect id value c =
    if not c.valid
    then some (neg 1, c)
    else elim sect [ some name ↦ write_section name id value c | none ↦ write_plain id value c ]
