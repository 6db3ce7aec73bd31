-- ===== src/Json.antt =====
-- The JSON helpers of utils.c over the cJSON library, which is a parameter: `JsonParseText` and
-- `JsonCreateObjects`. A string is the list of its bytes without its NUL; `none` is a fault.
pub mod Laws
mod Tests
use cvos.Prelude.{ℕ, zero, suc, ◌+◌, List, [], ◌∷◌, ◌++◌, Option, none, some, Bool, true, false}
use cvos.Prelude.{ℤ, pos, neg, if◌then◌else◌, ◌==◌, ltb, length, take, ◌>>=◌, copy}

-- The fields of a `cJSON` that the helpers read, where a NULL string is `none`. A list of them is an item
-- with those behind it by `next`.
pub record Item : Type 0 where
  pub type : ℕ
  pub string : Option (List ℕ)
  pub valuestring : Option (List ℕ)

-- `cJSON_Parse`; and what `cJSON_Print` gives for an object to which the pairs were added in that order, or
-- NULL
pub record Json : Type 0 where
  pub parse : List ℕ → List Item
  pub print : List (List ℕ × List ℕ) → Option (List ℕ)

-- `cJSON_String`
abbrev pub json_string : ℕ
json_string = 16

-- `((json->type)&&0xFF)!=cJSON_String`, with the value of `&&`
unfoldable pub not_string : ℕ → Bool
not_string type =
    let value : ℕ = if type == 0 then 0 else 1 in if value == json_string then false else true

-- the loop of `JsonParseText`: `i`, and the names and values stored from the first on
unfoldable pub parse_items : ℕ → List Item → Option (ℕ × List (List ℕ × List ℕ))
parse_items i [] = some (i, [])
parse_items i (t ∷ ts) =
    let rest = parse_items (i + 1) ts in
    if not_string t.type then some (i, []) else (do
      name ← t.string
      value ← t.valuestring
      more ← rest
      some (more.0, (name, value) ∷ more.1))

-- `JsonParseText`
unfoldable pub json_parse_text : Json → List ℕ → Option (ℤ × List (List ℕ × List ℕ))
json_parse_text json text = elim (json.parse text) [
  | [] ↦ some (neg 1, [])
  | t ∷ ts ↦ do got ← parse_items 0 (t ∷ ts); some (pos got.0, got.1)
]

-- the pairs that the loop of `JsonCreateObjects` adds, from the arrays; a read behind them is a fault.
unfoldable pub pairs : ℕ → List (List ℕ) → List (List ℕ) → Option (List (List ℕ × List ℕ))
pairs zero names values = some []
pairs (suc n) [] values = none
pairs (suc n) (name ∷ names) [] = none
pairs (suc n) (name ∷ names) (value ∷ values) = do
  rest ← pairs n names values
  some ((name, value) ∷ rest)

-- `JsonCreateObjects`: the result and `MsgBuf`, into which `strncpy` puts no NUL
unfoldable pub json_create_objects :
    Json → List (List ℕ) → List (List ℕ) → ℕ → List ℕ → Option (ℤ × List ℕ)
json_create_objects json names values n buf = do
  all ← pairs n names values
  (elim (json.print all) [
    | none ↦ some (pos 0, buf)
    | some out ↦ do
      let ret = if ltb 1000 (length out) then 1000 else length out
      buf' ← copy buf 0 (take ret out)
      some (pos ret, buf')
  ])
