-- ===== src/Config/Lookup.antt =====
-- What `cfg_find` finds: the value that the entries, read in their order, give the id in its section.
use cvos.Prelude.{ℕ, zero, suc, ◌+◌, ◌<◌, ◌≡◌, refl, sym, ◌∙◌, ap, arith, inl, inr}
use cvos.Prelude.{List, [], ◌∷◌, Option, none, some, Option-cases, Bool, true, false, Bool-cases}
use cvos.Prelude.{ℤ, pos, negsuc, if◌then◌else◌, length, drop}
use cvos.Config.{Entry, Kind, Config, rewind, scan, next_entry, same, same_id}
use cvos.Config.{turn_in, turn_out, take_turn, find_loop, find}

-- the value of the id among the entries below a header
abbrev pub lookup_in : List ℕ → List Entry → Option (List ℕ)
lookup_in id [] = none
lookup_in id (e ∷ es) =
    let rest = lookup_in id es in
    elim e.section [
      | some _ ↦ none
      | none ↦ elim e.value [ none ↦ rest | some v ↦ if same_id e.id id then some v else rest ]
    ]

-- the value of the id in the first section of the name
abbrev pub lookup : List ℕ → List ℕ → List Entry → Option (List ℕ)
lookup sect id [] = none
lookup sect id (e ∷ es) =
    let rest = lookup sect id es in if same e.section sect then lookup_in id es else rest

-- What a result of `cfg_find` says of the value; a find without a value is as bad as a fault, since the
-- callers copy the value.
abbrev pub answer : Option (ℤ × Config) → Option (Option (List ℕ))
answer none = none
answer (some (pos n, c)) = elim c.value [ none ↦ none | some v ↦ some (some v) ]
answer (some (negsuc n, c)) = some none

drop-next {ℓ} :
    {A : Type ℓ} (k : ℕ) (xs : List A) (y : A) (ys : List A)
    → drop k xs ≡ y ∷ ys
    → drop (suc k) xs ≡ ys
drop-next zero [] y ys e = cc
drop-next zero (x ∷ xs) y ys e = cc
drop-next (suc k) [] y ys e = cc
drop-next (suc k) (x ∷ xs) y ys e = drop-next k xs y ys e

-- A turn of the loop reads on from the entry at the cursor.
pub next_entry-scan :
    (c : Config) (es : List Entry)
    → c.valid ≡ true
    → c.eof ≡ false
    → drop c.cursor c.entries ≡ es
    → next_entry c ≡ scan es (record c { kind = Kind.error; id = none; value = none })
unfolding next_entry
next_entry-scan c es v f d = rw (next_entry, v, f, d) refl

-- The cursor moves on by one.
pub next_cursor :
    (c : Config) (e : Entry) (es : List Entry)
    → drop c.cursor c.entries ≡ e ∷ es
    → drop (c.cursor + 1) c.entries ≡ es
next_cursor c e es d =
    let one : c.cursor + 1 ≡ suc c.cursor = omega arith in
    rw one (drop-next c.cursor c.entries e es d)

-- An entry that is neither a header nor holds a value is passed over.
pub find_loop-skip :
    (fuel : ℕ) (at : Bool) (sect id : Option (List ℕ)) (e : Entry) (es : List Entry) (c : Config)
    → c.valid ≡ true
    → c.eof ≡ false
    → drop c.cursor c.entries ≡ e ∷ es
    → e.section ≡ none
    → e.value ≡ none
    → find_loop (suc fuel) at sect id c
      ≡ find_loop (suc fuel) at sect id (record c { cursor = c.cursor + 1 })
unfolding find_loop scan
find_loop-skip fuel at sect id e es c v f d s val =
    let turn : ℤ × Config → Option (ℤ × Config) =
      take_turn (λ at' c'. find_loop fuel at' sect id c') at sect id in
    let moved : Config = record c { cursor = c.cursor + 1 } in
    let now : next_entry c ≡ next_entry moved =
      next_entry-scan c (e ∷ es) v f d
      ∙ rw (scan, s, val) (sym (next_entry-scan moved es v f (next_cursor c e es d))) in
    ap turn now

-- The configuration after `cfg_nextentry` at a header, and at an entry that holds a value
abbrev pub header_read : List ℕ → Config → Config
header_read s c = record c {
  kind = Kind.at_section;
  cursor = c.cursor + 1;
  section = some s;
  id = none;
  value = none;
}

abbrev pub value_read : Option (List ℕ) → List ℕ → Config → Config
value_read i v c = record c {
  kind = elim i [ none ↦ Kind.at_continue | some _ ↦ Kind.at_define ];
  cursor = c.cursor + 1;
  id = i;
  value = some v;
}

module _ (c : Config) (e : Entry) (es : List Entry) (v : c.valid ≡ true) (f : c.eof ≡ false)
    (d : drop c.cursor c.entries ≡ e ∷ es) where
  pub next_entry-header :
      (s : List ℕ) → e.section ≡ some s → next_entry c ≡ (pos 0, header_read s c)
  unfolding scan
  next_entry-header s at = next_entry-scan c (e ∷ es) v f d ∙ rw (scan, at) refl

  pub next_entry-value :
      (i : Option (List ℕ)) (val : List ℕ)
      → e.section ≡ none
      → e.value ≡ some val
      → e.id ≡ i
      → next_entry c ≡ (pos 0, value_read i val c)
  unfolding scan
  next_entry-value none val below has named =
      next_entry-scan c (e ∷ es) v f d ∙ rw (scan, below, has, named) refl
  next_entry-value (some i) val below has named =
      next_entry-scan c (e ∷ es) v f d ∙ rw (scan, below, has, named) refl

-- Below the header the loop finds what `lookup_in` says.
pub find_loop-in :
    (fuel : ℕ) (sect : Option (List ℕ)) (id : List ℕ) (es : List Entry) (c : Config)
    → length es < fuel
    → c.valid ≡ true
    → c.eof ≡ false
    → drop c.cursor c.entries ≡ es
    → answer (find_loop fuel true sect (some id) c) ≡ some (lookup_in id es)
unfolding find_loop scan turn_in
find_loop-in zero sect id es c l v f d = absurd (omega arith)
find_loop-in (suc fuel) sect id [] c l v f d = rw (find_loop, next_entry-scan c [] v f d) refl
find_loop-in (suc fuel) sect id (e ∷ es) c l v f d =
    let moved = next_cursor c e es d in
    let turn : ℤ × Config → Option (Option (List ℕ)) = λ r.
      answer (take_turn (λ at' c'. find_loop fuel at' sect (some id) c') true sect (some id) r) in
    elim (Option-cases e.section) [
      | inr (s, at) ↦ ap turn (next_entry-header c e es v f d s at) ∙ rw at refl
      | inl below ↦ elim (Option-cases e.value) [
        | inl bare ↦
            rw (find_loop-skip fuel true sect (some id) e es c v f d below bare, below, bare)
              (find_loop-in (suc fuel) sect id es (record c { cursor = c.cursor + 1 }) (omega arith)
                v f moved)
        | inr (val, has) ↦ elim (Option-cases e.id) [
          | inl unnamed ↦
              ap turn (next_entry-value c e es v f d none val below has unnamed)
              ∙ rw (below, has, unnamed)
                  (find_loop-in fuel sect id es (value_read none val c) (omega arith) v f moved)
          | inr (i, named) ↦ elim (Bool-cases (same_id (some i) id)) [
            | inl holds ↦
                ap turn (next_entry-value c e es v f d (some i) val below has named)
                ∙ rw (below, has, named, holds) refl
            | inr fails ↦
                ap turn (next_entry-value c e es v f d (some i) val below has named)
                ∙ rw (below, has, named, fails)
                    (find_loop-in fuel sect id es (value_read (some i) val c) (omega arith) v f
                      moved)
          ]
        ]
      ]
    ]

-- Before it the loop finds what `lookup` says.
find_loop-out :
    (fuel : ℕ) (sect id : List ℕ) (es : List Entry) (c : Config)
    → length es < fuel
    → c.valid ≡ true
    → c.eof ≡ false
    → drop c.cursor c.entries ≡ es
    → answer (find_loop fuel false (some sect) (some id) c) ≡ some (lookup sect id es)
unfolding find_loop scan turn_out
find_loop-out zero sect id es c l v f d = absurd (omega arith)
find_loop-out (suc fuel) sect id [] c l v f d = rw (find_loop, next_entry-scan c [] v f d) refl
find_loop-out (suc fuel) sect id (e ∷ es) c l v f d =
    let moved = next_cursor c e es d in
    let turn : ℤ × Config → Option (Option (List ℕ)) = λ r. answer (
      take_turn (λ at' c'. find_loop fuel at' (some sect) (some id) c') false (some sect) (some id)
        r) in
    elim (Option-cases e.section) [
      | inr (s, at) ↦ elim (Bool-cases (same (some s) sect)) [
        | inl holds ↦
            ap turn (next_entry-header c e es v f d s at)
            ∙ rw (at, holds)
                (find_loop-in fuel (some sect) id es (header_read s c) (omega arith) v f moved)
        | inr fails ↦
            ap turn (next_entry-header c e es v f d s at)
            ∙ rw (at, fails)
                (find_loop-out fuel sect id es (header_read s c) (omega arith) v f moved)
      ]
      | inl below ↦ elim (Option-cases e.value) [
        | inl bare ↦
            rw (find_loop-skip fuel false (some sect) (some id) e es c v f d below bare, below)
              (find_loop-out (suc fuel) sect id es (record c { cursor = c.cursor + 1 })
                (omega arith) v f moved)
        | inr (val, has) ↦ elim (Option-cases e.id) [
          | inl unnamed ↦
              ap turn (next_entry-value c e es v f d none val below has unnamed)
              ∙ rw below
                  (find_loop-out fuel sect id es (value_read none val c) (omega arith) v f moved)
          | inr (i, named) ↦
              ap turn (next_entry-value c e es v f d (some i) val below has named)
              ∙ rw below (
                  find_loop-out fuel sect id es (value_read (some i) val c) (omega arith) v f moved)
        ]
      ]
    ]

-- With a section and an id, `cfg_find` in a valid configuration comes to an end without a fault, and it
-- finds the value that the entries give the id, read in their order: that of the first definition of the id,
-- less its quotes, below the first header of the section and before the next header, or none.
pub find_lem :
    (sect id : List ℕ) (c : Config)
    → c.valid ≡ true
    → answer (find (some sect) (some id) c) ≡ some (lookup sect id c.entries)
unfolding find rewind
find_lem sect id c v =
    let start : Config = record c { eof = false; kind = Kind.error; cursor = 0 } in
    let fuel = suc (length c.entries) in
    let run : find (some sect) (some id) c ≡ find_loop fuel false (some sect) (some id) start =
      rw (find, rewind, v) refl in
    ap answer run ∙ find_loop-out fuel sect id c.entries start (omega arith) v refl refl
