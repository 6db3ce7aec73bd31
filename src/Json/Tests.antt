-- ===== src/Json/Tests.antt =====
-- The JSON helpers of utils.c on a library that reads and prints one pair.
use cvos.Prelude.{◌≡◌, ◌≢◌, refl, [], ◌∷◌, some, pos, neg, copy, write}
use cvos.Json.{Json, json_parse_text, json_create_objects, pairs}
use cvos.Json.Laws.{json_parse_text_lem}

abbrev one_pair : Json
one_pair = record {
  parse = λ text. record { type = 16; string = some (b'a' ∷ []); valuestring = some text } ∷ [];
  print = λ ps. some (b'{' ∷ b'}' ∷ []);
}

json_parse_text_lem_example :
    (one_pair.parse (b'x' ∷ []) ≡ [] → json_parse_text one_pair (b'x' ∷ []) ≡ some (neg 1, []))
    × (one_pair.parse (b'x' ∷ []) ≢ [] → json_parse_text one_pair (b'x' ∷ []) ≡ some (pos 0, []))
json_parse_text_lem_example = json_parse_text_lem one_pair (b'x' ∷ [])

run-json_create_objects :
    json_create_objects one_pair ((b'a' ∷ []) ∷ []) ((b'x' ∷ []) ∷ []) 1 (7 ∷ 7 ∷ 7 ∷ [])
    ≡ some (pos 2, b'{' ∷ b'}' ∷ 7 ∷ [])
unfolding json_create_objects pairs copy write
run-json_create_objects = refl
