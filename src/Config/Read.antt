-- ===== src/Config/Read.antt =====
-- cfgfile.c: the functions that read one value.
use cvos.Prelude.{ℕ, List, [], Option, none, some, ℤ, pos, neg, is_neg, if◌then◌else◌}
use cvos.Config.{Config, find}

-- `cfg_getstring`: the result, what is copied to the caller, and the configuration
unfoldable pub get_string :
    Option (List ℕ) → Option (List ℕ) → Config → Option (ℤ × List ℕ × Config)
get_string sect id c = elim (find sect id c) [
  | none ↦ none
  | some (r, c') ↦
      if is_neg r
      then some (neg 1, [], c')
      else elim c'.value [ none ↦ none | some v ↦ some (pos 0, v, c') ]
]

-- `cfg_getstring2`, which copies `defval` where nothing is found
unfoldable pub get_string2 :
    Option (List ℕ) → Option (List ℕ) → List ℕ → Config → Option (ℤ × List ℕ × Config)
get_string2 sect id defval c = elim (find sect id c) [
  | none ↦ none
  | some (r, c') ↦
      if is_neg r
      then some (pos 0, defval, c')
      else elim c'.value [ none ↦ none | some v ↦ some (pos 0, v, c') ]
]

-- `cfg_getlong` and `cfg_getshort`: the number that `atoi` gives, converted to the caller's type by `cast`
-- and stored; where nothing is found nothing is.
unfoldable pub get_number :
    (atoi : List ℕ → ℤ)
    → (cast : ℤ → ℤ) → Option (List ℕ)
    → Option (List ℕ)
    → Config
    → Option (ℤ × Option ℤ × Config)
get_number atoi cast sect id c = elim (find sect id c) [
  | none ↦ none
  | some (r, c') ↦
      if is_neg r
      then some (neg 2, none, c')
      else elim c'.value [ none ↦ none | some v ↦ some (pos 0, some (cast (atoi v)), c') ]
]

-- `cfg_getlong2`, `cfg_getshort2` and `cfg_getbyte2`
unfoldable pub get_number2 :
    (atoi : List ℕ → ℤ)
    → (cast : ℤ → ℤ) → ℤ
    → Option (List ℕ)
    → Option (List ℕ)
    → Config
    → Option (ℤ × ℤ × Config)
get_number2 atoi cast defval sect id c = elim (find sect id c) [
  | none ↦ none
  | some (r, c') ↦
      if is_neg r
      then some (pos 0, defval, c')
      else elim c'.value [ none ↦ none | some v ↦ some (pos 0, cast (atoi v), c') ]
]

-- `cfg_getbyte`, which wants a section and an id
unfoldable pub get_byte :
    (atoi : List ℕ → ℤ)
    → (cast : ℤ → ℤ) → Option (List ℕ)
    → Option (List ℕ)
    → Config
    → Option (ℤ × Option ℤ × Config)
get_byte atoi cast none id c = some (neg 1, none, c)
get_byte atoi cast (some sect) none c = some (neg 1, none, c)
get_byte atoi cast (some sect) (some id) c = elim (find (some sect) (some id) c) [
  | none ↦ none
  | some (r, c') ↦
      if is_neg r
      then some (neg 2, some (pos 255), c')
      else elim c'.value [ none ↦ none | some v ↦ some (pos 0, some (cast (atoi v)), c') ]
]
