-- ===== src/Config/Copy.antt =====
-- cfgfile.c: `cfg_copy`, which prints a configuration to a second file with its keys in a column.
use cvos.Prelude.{ℕ, ◌-◌, List, [], ◌∷◌, ◌++◌, none, some, Bool, false, not}
use cvos.Prelude.{ℤ, pos, neg, if◌then◌else◌, ◌==◌, ltb, length, take, replicate}
use cvos.Config.{Entry, Config}
use cvos.Config.Text.{put_comment, put_blank, next_skip}
use cvos.Config.File.{Answers, Disk}

-- the length of the longest key up to the next header
unfoldable pub width : List Entry → ℕ
width [] = 0
width (e ∷ es) =
    let rest = width es in
    elim e.section [
      | some _ ↦ 0
      | none ↦ elim e.id [
        | none ↦ rest
        | some id ↦ if ltb rest (length id) then length id else rest
      ]
    ]

-- `%-*.*s` of width and precision `m`
abbrev pub pad : ℕ → List ℕ → List ℕ
pad m s = take m s ++ replicate (m - length s) 32

-- ` = `
abbrev pub equals : List ℕ
equals = 32 ∷ b'=' ∷ 32 ∷ []

-- the line of an entry below a header whose longest key has length `m`
unfoldable pub put_formatted : ℕ → Entry → List ℕ
put_formatted m e = elim e.section [
  | some name ↦ b'[' ∷ (name ++ (b']' ∷ put_comment e.comment))
  | none ↦ elim e.value [
    | some value ↦ elim e.id [
      | some id ↦ (if m == 0 then id else pad m id) ++ (equals ++ (value ++ put_comment e.comment))
      | none ↦ 32 ∷ 32 ∷ (value ++ put_comment e.comment)
    ]
    | none ↦ elim e.comment [ none ↦ [] | some text ↦ b';' ∷ text ]
  ]
]

-- `_cfg_outputformatted`, with `skip` and `m`
unfoldable pub output_formatted : Bool → ℕ → List Entry → List ℕ
output_formatted skip m [] = []
output_formatted skip m (e ∷ es) =
    let blank = put_blank skip e es in
    let m' : ℕ = elim e.section [ some _ ↦ width es | none ↦ m ] in
    let rest = put_formatted m e ++ (10 ∷ output_formatted (next_skip skip e blank) m' es) in
    if blank then 10 ∷ rest else rest

-- `cfg_copy` to a second file, which has to be there
unfoldable pub copy : Answers → Config → Disk → ℤ × Disk
copy a c disk = if not c.valid then (neg 1, disk) else elim disk.content [
  | none ↦ (neg 4, disk)
  | some _ ↦
      if not a.opens
      then (neg 4, disk)
      else if not a.locks
      then (neg 100, disk)
      else if not a.fopens
      then (neg 2, disk)
      else (pos 0, record { content = some (output_formatted false 0 c.entries); mtime = a.now })
]
