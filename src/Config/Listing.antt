-- ===== src/Config/Listing.antt =====
-- cfgfile.c: the lists of the sections of a configuration and of the keys of a section.
use cvos.Prelude.{
  ℕ, zero, suc, ◌+◌, ◌-◌, List, [], ◌∷◌, ◌++◌, Option, none, some, Bool, true, false,
}
use cvos.Prelude.{
  ℤ, pos, neg, is_neg, if◌then◌else◌, leb, ltb, length, take, get_elem?, ◌>>=◌, bytes_eq,
}
use cvos.Config.{Kind, Config, next_entry, rewind}
use cvos.Config.File.{Answers, Disk, init}

-- `cfg_section` and `cfg_define`
abbrev pub is_header : Config → Bool
is_header c = elim c.kind [ Kind.at_section ↦ true | _ ↦ false ]

abbrev pub is_define : Config → Bool
is_define c = elim c.kind [ Kind.at_define ↦ true | _ ↦ false ]

-- `cfg_next_section`, with `fuel` turns; `none` is for too little fuel.
unfoldable pub next_header : ℕ → Config → Option (ℤ × Config)
next_header zero c = none
next_header (suc fuel) c =
    let (r, c') = next_entry c in
    let rest = next_header fuel c' in
    if is_neg r then some (neg 1, c') else if is_header c' then some (pos 0, c') else rest

-- `cfg_define(c) && !strcmp(c->section, wanted) && c->id`: the id, or none; `strcmp` of NULL is a fault.
unfoldable pub key_of : List ℕ → Config → Option (Option (List ℕ))
key_of wanted c =
    if is_define c
    then elim c.section [ none ↦ none | some s ↦ some (if bytes_eq s wanted then c.id else none) ]
    else some none

-- The loops of `list_sections` and `list_entries` into a block of `size` bytes, with what is in it. A turn
-- moves with `next` and takes what `pick` gives, its NUL included, as far as there is room.
unfoldable pub list_loop :
    (next : Config → Option (ℤ × Config))
    → (pick : Config → Option (Option (List ℕ))) → ℕ
    → ℕ
    → List ℕ
    → Config
    → Option (List ℕ × Config)
list_loop next pick zero size out c = none
list_loop next pick (suc fuel) size out c = if leb size (length out) then some (out, c) else do
  moved ← next c
  name ← (if is_neg moved.0 then some none else pick moved.1)
  let out' : List ℕ = elim name [
    | none ↦ out
    | some s ↦ out ++ take (size - length out) (s ++ (0 ∷ []))
  ]
  (if is_neg moved.0 then some (out, moved.1) else list_loop next pick fuel size out' moved.1)

-- The block that the caller gets: `lpszRetBuffer[0] = 0` is done whatever comes after it, and a NUL is put
-- behind the names where there is room.
abbrev pub ended : ℕ → List ℕ → List ℕ
ended size [] = 0 ∷ []
ended size (x ∷ out) = if ltb (suc (length out)) size then (x ∷ out) ++ (0 ∷ []) else x ∷ out

-- `list_sections`: the result and the block
unfoldable pub list_sections : ℕ → Config → Option (ℕ × List ℕ × Config)
list_sections size c =
    let (r, c') = rewind c in
    let fuel = suc (length c'.entries) in
    if is_neg r then some (0, 0 ∷ [], c) else do
      done ← list_loop (next_header fuel) (λ k. some k.section) fuel size [] c'
      some (length done.0, ended size done.0, done.1)

-- `list_entries`
unfoldable pub list_entries : List ℕ → ℕ → Config → Option (ℕ × List ℕ × Config)
list_entries wanted size c =
    let (r, c') = rewind c in
    let fuel = suc (length c'.entries) in
    if is_neg r then some (0, 0 ∷ [], c) else do
      done ← list_loop (λ k. some (next_entry k)) (key_of wanted) fuel size [] c'
      some (length done.0, ended size done.0, done.1)

-- The loops of `Cfg_GetSections` and `Cfg_GetKeys`: the names in their order
unfoldable pub names_loop :
    (next : Config → Option (ℤ × Config))
    → (pick : Config → Option (Option (List ℕ))) → ℕ
    → Config
    → Option (List (List ℕ))
names_loop next pick zero c = none
names_loop next pick (suc fuel) c = do
  moved ← next c
  (if is_neg moved.0 then some [] else do
    name ← pick moved.1
    names ← names_loop next pick fuel moved.1
    some (elim name [ none ↦ names | some s ↦ s ∷ names ]))

-- What is copied to the caller's strings from the `n`-th on: `slots` says which of them are not NULL, and
-- reading one beyond them is a fault.
unfoldable pub put_names : List Bool → ℕ → List (List ℕ) → Option (List (ℕ × List ℕ))
put_names slots n [] = some []
put_names slots n (name ∷ names) = do
  there ← get_elem? slots n
  rest ← put_names slots (n + 1) names
  some (if there then (n, name) ∷ rest else rest)

-- `Cfg_GetSections`: the result and the names copied, with their places
unfoldable pub get_sections : List Bool → Answers → Disk → Option (ℤ × List (ℕ × List ℕ))
get_sections slots a disk = do
  out ← init false a disk
  let opened = out.1
  (elim opened [
    | none ↦ some (out.0, [])
    | some h ↦ do
      let c = (rewind h.config).1
      let fuel = suc (length c.entries)
      names ← names_loop (next_header fuel) (λ k. some k.section) fuel c
      copied ← put_names slots 0 names
      some (pos (length names), copied)
  ])

-- `Cfg_GetKeys`
unfoldable pub get_keys : List ℕ → List Bool → Answers → Disk → Option (ℤ × List (ℕ × List ℕ))
get_keys wanted slots a disk = do
  out ← init false a disk
  let opened = out.1
  (elim opened [
    | none ↦ some (out.0, [])
    | some h ↦ do
      let c = (rewind h.config).1
      let fuel = suc (length c.entries)
      names ← names_loop (λ k. some (next_entry k)) (key_of wanted) fuel c
      copied ← put_names slots 0 names
      some (pos (length names), copied)
  ])
