-- ===== src/Json/Laws.antt =====
-- What the JSON helpers of utils.c take and give.
use cvos.Prelude.{ℕ, ◌≡◌, ◌≢◌, refl, List, [], ◌∷◌, some, true, Bool-cases}
use cvos.Prelude.{◌⊎◌, inl, inr, pos, neg, ◌==◌}
use cvos.Json.{Json, not_string, parse_items, json_parse_text}

list_cases {ℓ} : {A : Type ℓ} (xs : List A) → (xs ≡ []) ⊎ ((y : A) × (ys : List A) × (xs ≡ y ∷ ys))
list_cases [] = inl refl
list_cases (y ∷ ys) = inr (y, ys, refl)

never_string : (type : ℕ) → not_string type ≡ true
unfolding not_string
never_string type = elim (Bool-cases (type == 0)) [ inl z ↦ rw z | inr s ↦ rw s ]

-- Whatever cJSON makes of the text, `JsonParseText` stores no name and no value: it returns -1 where cJSON
-- gives NULL, and else 0, since a truth value, which is 0 or 1, is compared with `cJSON_String`, 16.
pub json_parse_text_lem :
    (json : Json) (text : List ℕ)
    → (json.parse text ≡ [] → json_parse_text json text ≡ some (neg 1, []))
      × (json.parse text ≢ [] → json_parse_text json text ≡ some (pos 0, []))
unfolding json_parse_text parse_items
json_parse_text_lem json text = (
  λ nothing. rw (nothing, json_parse_text),
  λ found. elim (list_cases (json.parse text)) [
    | inl nothing ↦ absurd (found nothing)
    | inr (t, ts, e) ↦ rw (e, json_parse_text, never_string t.type)
  ],
)
