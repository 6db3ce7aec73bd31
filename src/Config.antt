-- ===== src/Config.antt =====
-- cfgfile.c: configuration files of sections, `[name]`, and definitions, `id=value`, in memory. A string is
-- the list of its bytes without its NUL, NULL is `none`. The outer `none` is a fault: a read outside of the
-- entries, or of NULL. A configuration is never NULL, and memory does not run out; which strings an
-- entry owns is left out, as is what the file has cached.
pub mod Read
pub mod Write
pub mod Lookup
pub mod Update
pub mod Assign
pub mod Plain
pub mod Pool
pub mod Clear
pub mod Delete
pub mod Section
pub mod Text
pub mod Parse
pub mod Line
pub mod Roundtrip
pub mod File
pub mod Api
pub mod Listing
pub mod Copy
pub mod Items
pub mod Save
mod Tests
use cvos.Prelude.{
  ℕ, zero, suc, ◌+◌, List, [], ◌∷◌, Option, none, some, Bool, true, false, not, ◌&&◌, ◌||◌,
}
use cvos.Prelude.{ℤ, pos, neg, is_neg, if◌then◌else◌, ◌==◌, length, drop, bytes_eq}

-- `TCFGENTRY`
pub record Entry : Type 0 where
  pub section : Option (List ℕ)
  pub id : Option (List ℕ)
  pub value : Option (List ℕ)
  pub comment : Option (List ℕ)

-- `CFG_TYPE(flags)`
pub data Kind : Type 0 where
  error : Kind
  at_section : Kind
  at_define : Kind
  at_continue : Kind

-- `TCONFIG`, less the file; `valid` and `eof` are CFG_VALID and CFG_EOF.
pub record Config : Type 0 where
  pub valid : Bool
  pub eof : Bool
  pub kind : Kind
  pub dirty : Bool
  pub entries : List Entry
  pub max_entries : ℕ
  pub cursor : ℕ
  pub section : Option (List ℕ)
  pub id : Option (List ℕ)
  pub value : Option (List ℕ)

abbrev pub is_quote : ℕ → Bool
is_quote c = c == b'\'' || c == b'"'

-- the loop over leading quotes of `remove_quotes`
abbrev pub skip_quotes : List ℕ → List ℕ
skip_quotes [] = []
skip_quotes (c ∷ s) = let rest = skip_quotes s in if is_quote c then rest else c ∷ s

-- the string cut at the first `c`
abbrev pub cut_at : ℕ → List ℕ → List ℕ
cut_at c [] = []
cut_at c (x ∷ s) = let rest = cut_at c s in if x == c then [] else x ∷ rest

-- `remove_quotes`
abbrev pub remove_quotes : List ℕ → Option (List ℕ)
remove_quotes s = elim (skip_quotes s) [
  | [] ↦ none
  | c ∷ r ↦ some (cut_at b'"' (cut_at b'\'' (c ∷ r)))
]

-- `cfg_rewind`
unfoldable pub rewind : Config → ℤ × Config
rewind c =
    if c.valid then (pos 0, record c { eof = false; kind = Kind.error; cursor = 0 }) else (neg 1, c)

-- The loop of `cfg_nextentry` over the entries from the cursor on
unfoldable pub scan : List Entry → Config → ℤ × Config
scan [] c = (neg 1, record c { eof = true })
scan (e ∷ es) c =
    let next : Config = record c { cursor = c.cursor + 1 } in
    let rest = scan es next in
    elim e.section [
      | some s ↦ (pos 0, record next { section = some s; kind = Kind.at_section })
      | none ↦ elim e.value [
        | none ↦ rest
        | some v ↦ elim e.id [
          | some i ↦ (pos 0, record next { value = some v; id = some i; kind = Kind.at_define })
          | none ↦ (pos 0, record next { value = some v; kind = Kind.at_continue })
        ]
      ]
    ]

-- `cfg_nextentry`
unfoldable pub next_entry : Config → ℤ × Config
next_entry c =
    if not c.valid || c.eof
    then (neg 1, c)
    else scan (drop c.cursor c.entries) (record c { kind = Kind.error; id = none; value = none })

-- one turn of the loop of `cfg_find`: it is over with a result, or goes on with `atsection`
pub data Turn : Type 0 where
  fault : Turn
  over : ℤ → Turn
  goes_on : Bool → Turn

-- `e && !strcmp(e, s)`
abbrev pub same : Option (List ℕ) → List ℕ → Bool
same none s = false
same (some e) s = bytes_eq e s

-- `szId && !strcmp(szId, id)`
abbrev pub same_id : Option (List ℕ) → List ℕ → Bool
same_id none id = false
same_id (some name) id = same (remove_quotes name) id

-- the turn before the section is found
unfoldable pub turn_out : Option (List ℕ) → Option (List ℕ) → Config → Turn
turn_out sect id c = elim c.kind [
  | Kind.at_section ↦ elim sect [
    | none ↦ fault
    | some name ↦
        if same c.section name
        then elim id [ none ↦ over (pos 0) | some _ ↦ goes_on true ]
        else goes_on false
  ]
  | _ ↦ elim sect [ none ↦ goes_on true | some _ ↦ goes_on false ]
]

-- the turn in the section
unfoldable pub turn_in : Option (List ℕ) → Config → Turn
turn_in id c = elim c.kind [
  | Kind.at_section ↦ over (neg 1)
  | Kind.at_define ↦ elim id [
    | none ↦ fault
    | some name ↦ if same_id c.id name then over (pos 0) else goes_on true
  ]
  | _ ↦ goes_on true
]

-- A turn of the loop of `cfg_find` after `cfg_nextentry`, with the turns that may follow it
abbrev pub take_turn :
    (Bool → Config → Option (ℤ × Config))
    → Bool
    → Option (List ℕ)
    → Option (List ℕ)
    → ℤ × Config
    → Option (ℤ × Config)
take_turn next atsection sect id (r, c) =
    let turn = if atsection then turn_in id c else turn_out sect id c in
    if is_neg r
    then some (neg 1, c)
    else elim turn [ fault ↦ none | over ret ↦ some (ret, c) | goes_on at ↦ next at c ]

-- The loop of `cfg_find` with `fuel` turns; `none` is a fault or too little fuel.
unfoldable pub find_loop :
    ℕ → Bool → Option (List ℕ) → Option (List ℕ) → Config → Option (ℤ × Config)
find_loop zero atsection sect id c = none
find_loop (suc fuel) atsection sect id c =
    take_turn (λ at c'. find_loop fuel at sect id c') atsection sect id (next_entry c)

-- `cfg_find`; the loop takes an entry in each turn.
unfoldable pub find : Option (List ℕ) → Option (List ℕ) → Config → Option (ℤ × Config)
find sect id c =
    let (r, c') = rewind c in
    if c.valid then find_loop (suc (length c'.entries)) false sect id c' else some (neg 1, c)
