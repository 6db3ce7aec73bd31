-- ===== src/Config/Text.antt =====
-- cfgfile.c: the text of a configuration, read by `_cfg_parse` and written by `_cfg_output`. The image of a
-- file is the list of its bytes; the NUL behind them is its end.
use cvos.Prelude.{ℕ, zero, suc, List, [], ◌∷◌, ◌++◌, Option, none, some, Bool, true, false, not}
use cvos.Prelude.{◌&&◌, ◌||◌, if◌then◌else◌, ◌==◌, length, ◌>>=◌}
use cvos.Config.{Entry}
use cvos.Config.Write.{starts_block}

-- `iseolchar` and `iswhite`, of a byte that is not NUL, and `isspace`
abbrev pub is_eol : ℕ → Bool
is_eol c = c == 10 || c == 13 || c == 26

abbrev pub is_white : ℕ → Bool
is_white c = c == 12 || c == 9 || c == 32

abbrev pub is_space : ℕ → Bool
is_space c = c == 32 || c == 9 || c == 10 || c == 11 || c == 12 || c == 13

-- a byte of a line
abbrev pub is_text : ℕ → Bool
is_text c = not (c == 0 || is_eol c)

-- the text less the bytes of a class at its start, and at its end
unfoldable pub skip : (ℕ → Bool) → List ℕ → List ℕ
skip test [] = []
skip test (c ∷ s) = let rest = skip test s in if test c then rest else c ∷ s

unfoldable pub trim : (ℕ → Bool) → List ℕ → List ℕ
trim test [] = []
trim test (c ∷ s) =
    let rest = trim test s in elim rest [ [] ↦ if test c then [] else c ∷ [] | d ∷ ds ↦ c ∷ d ∷ ds ]

-- the bytes before the end of the line or the NUL, and those from there on
unfoldable pub take_line : List ℕ → List ℕ × List ℕ
take_line [] = ([], [])
take_line (c ∷ s) =
    let rest = take_line s in if is_text c then (c ∷ rest.0, rest.1) else ([], c ∷ s)

-- A line and what follows its bytes: where that is an end of line, the end of the line is trimmed.
abbrev pub end_line : List ℕ → List ℕ → List ℕ × List ℕ
end_line line [] = (line, [])
end_line line (c ∷ r) = if c == 0 then (line, c ∷ r) else (trim is_white line, r)

-- `_cfg_getline`: the line and the image after it. The result of the function is whether the line is not
-- empty.
unfoldable pub get_line : List ℕ → List ℕ × List ℕ
get_line image = let (line, rest) = take_line (skip is_eol image) in end_line line rest

-- `strchr(s, c)`: the bytes before and after
unfoldable pub split_at_char : ℕ → List ℕ → Option (List ℕ × List ℕ)
split_at_char c [] = none
split_at_char c (x ∷ s) =
    let rest = split_at_char c s in
    if x == c
    then some ([], s)
    else elim rest [ none ↦ none | some (before, after) ↦ some (x ∷ before, after) ]

-- The loop over a value, with the quote `in_string` it is in, or 0, and whether `lp[-1]` is white: the
-- value and the comment behind it
unfoldable pub scan_value : ℕ → Bool → List ℕ → List ℕ × Option (List ℕ)
scan_value in_string white [] = ([], none)
scan_value in_string white (c ∷ s) =
    let quote =
      if in_string == 0
      then (if c == b'"' || c == b'\'' then c else 0)
      else (if c == in_string then 0 else in_string) in
    let rest = scan_value quote (is_white c) s in
    if in_string == 0 && (c == b';' || c == b'#') && white
    then ([], some s)
    else (c ∷ rest.0, rest.1)

-- A value, from `value = lp` on. What stands before it is white, or the NUL that replaced the `=`, which
-- `iswhite` finds, too.
unfoldable pub parse_value : Option (List ℕ) → List ℕ → Entry
parse_value id lp =
    let (value, comment) = scan_value 0 true lp in
    let kept : List ℕ = elim comment [ none ↦ value | some _ ↦ trim is_space value ] in
    record { section = none; id = id; value = some kept; comment = comment }

-- the comment at `lp`
unfoldable pub parse_comment : List ℕ → Option (List ℕ)
parse_comment [] = none
parse_comment (c ∷ s) = if c == b';' || c == b'#' then some s else none

-- a header, after its `[`; `none` is a line that is passed over
unfoldable pub parse_header : List ℕ → Option Entry
parse_header lp = elim (split_at_char b']' (skip is_white lp)) [
  | none ↦ none
  | some (name, after) ↦ elim (trim is_space name) [
    | [] ↦ none
    | c ∷ s ↦ some record {
      section = some (c ∷ s);
      id = none;
      value = none;
      comment = parse_comment (skip is_white after);
    }
  ]
]

-- a definition
unfoldable pub parse_define : List ℕ → Option Entry
parse_define lp = elim (split_at_char b'=' lp) [
  | none ↦ none
  | some (id, after) ↦ some (parse_value (some (trim is_space id)) (skip is_white after))
]

-- What starts a line, once white bytes are skipped
unfoldable pub parse_start : Bool → List ℕ → Option Entry
parse_start continues [] = if continues then some (parse_value none []) else parse_define []
parse_start continues (c ∷ s) =
    if c == b'['
    then parse_header s
    else (if c == b';'
        then some record { section = none; id = none; value = none; comment = some s }
        else if continues
        then some (parse_value none (c ∷ s))
        else parse_define (c ∷ s))

-- a line of `_cfg_parse`; `none` is a `continue`
unfoldable pub parse_line : List ℕ → Option Entry
parse_line [] = none
parse_line (c ∷ s) = parse_start (is_white c) (skip is_white (c ∷ s))

-- The loop of `_cfg_parse`, with `fuel` turns; `none` is for too little fuel.
unfoldable pub parse_loop : ℕ → List ℕ → Option (List Entry)
parse_loop zero image = none
parse_loop (suc fuel) [] = some []
parse_loop (suc fuel) (c ∷ s) = do
  es ← parse_loop fuel (get_line (c ∷ s)).1
  some (elim (parse_line (get_line (c ∷ s)).0) [ none ↦ es | some e ↦ e ∷ es ])

-- `_cfg_parse`
unfoldable pub parse : List ℕ → Option (List Entry)
parse image = parse_loop (suc (length image)) image

-- the comment behind an entry
unfoldable pub put_comment : Option (List ℕ) → List ℕ
put_comment none = []
put_comment (some text) = 9 ∷ b';' ∷ text

-- whether only comments stand before the next header
unfoldable pub header_next : List Entry → Bool
header_next [] = false
header_next (e ∷ es) =
    let rest = header_next es in
    elim e.section [
      | some _ ↦ true
      | none ↦ elim e.id [ some _ ↦ false | none ↦ elim e.value [ some _ ↦ false | none ↦ rest ] ]
    ]

-- what an entry prints before its line, `skip` being whether a blank line may be due
unfoldable pub put_blank : Bool → Entry → List Entry → Bool
put_blank skip e es = elim e.section [
  | some _ ↦ skip
  | none ↦ elim e.value [
    | some _ ↦ false
    | none ↦ elim e.comment [
      | none ↦ false
      | some text ↦ skip && starts_block text && header_next es
    ]
  ]
]

-- the line of an entry
unfoldable pub put_line : Entry → List ℕ
put_line e = elim e.section [
  | some name ↦ b'[' ∷ (name ++ (b']' ∷ put_comment e.comment))
  | none ↦ elim e.value [
    | some value ↦ elim e.id [
      | some id ↦ id ++ (b'=' ∷ (value ++ put_comment e.comment))
      | none ↦ value ++ put_comment e.comment
    ]
    | none ↦ elim e.comment [ none ↦ [] | some text ↦ b';' ∷ text ]
  ]
]

-- `skip` after an entry
unfoldable pub next_skip : Bool → Entry → Bool → Bool
next_skip skip e blank = elim e.section [ some _ ↦ true | none ↦ if blank then false else skip ]

-- `_cfg_output`; the width `m` it works out is not used.
unfoldable pub output : Bool → List Entry → List ℕ
output skip [] = []
output skip (e ∷ es) =
    let blank = put_blank skip e es in
    let rest = put_line e ++ (10 ∷ output (next_skip skip e blank) es) in
    if blank then 10 ∷ rest else rest
