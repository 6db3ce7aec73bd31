-- ===== src/Config/Plain.antt =====
-- Keys without a section, `ini_setstr` and `ini_getstr` of cfgfile.c: the calls with NULL as the section.
use cvos.Prelude.{ℕ, zero, suc, ◌+◌, ◌<◌, ◌≡◌, refl, sym, ◌∙◌, ap, arith, inl, inr}
use cvos.Prelude.{List, [], ◌∷◌, Option, none, some, Option-cases, Bool, true, false, Bool-cases}
use cvos.Prelude.{ℤ, if◌then◌else◌, length, drop}
use mathlib.Core.Bool.{true≢false}
use cvos.Config.{Entry, Kind, Config, rewind, next_entry, same}
use cvos.Config.{turn_out, take_turn, find_loop, find}
use cvos.Config.Write.{update_first, write_plain, write}
use cvos.Config.Lookup.{
  answer, lookup_in, next_cursor, next_entry-scan, find_loop-skip, find_loop-in,
}
use cvos.Config.Lookup.{value_read, next_entry-header, next_entry-value}

-- What is found without a section: `none` is the fault of `strcmp` where a header comes first. The first
-- entry with a value is passed over.
abbrev pub lookup_plain : List ℕ → List Entry → Option (Option (List ℕ))
lookup_plain id [] = some none
lookup_plain id (e ∷ es) =
    let rest = lookup_plain id es in
    elim e.section [
      | some _ ↦ none
      | none ↦ elim e.value [ none ↦ rest | some _ ↦ some (lookup_in id es) ]
    ]

find_loop-plain :
    (fuel : ℕ) (id : List ℕ) (es : List Entry) (c : Config)
    → length es < fuel
    → c.valid ≡ true
    → c.eof ≡ false
    → drop c.cursor c.entries ≡ es
    → answer (find_loop fuel false none (some id) c) ≡ lookup_plain id es
unfolding find_loop turn_out cvos.Config.scan
find_loop-plain zero id es c l v f d = absurd (omega arith)
find_loop-plain (suc fuel) id [] c l v f d = rw (find_loop, next_entry-scan c [] v f d) refl
find_loop-plain (suc fuel) id (e ∷ es) c l v f d =
    let moved = next_cursor c e es d in
    let turn : ℤ × Config → Option (Option (List ℕ)) = λ r.
      answer (take_turn (λ at' c'. find_loop fuel at' none (some id) c') false none (some id) r) in
    elim (Option-cases e.section) [
      | inr (s, at) ↦ ap turn (next_entry-header c e es v f d s at) ∙ rw at refl
      | inl below ↦ elim (Option-cases e.value) [
        | inl bare ↦
            rw (find_loop-skip fuel false none (some id) e es c v f d below bare, below, bare)
              (find_loop-plain (suc fuel) id es (record c { cursor = c.cursor + 1 }) (omega arith) v
                f moved)
        | inr (val, has) ↦ elim (Option-cases e.id) [
          | inl unnamed ↦
              ap turn (next_entry-value c e es v f d none val below has unnamed)
              ∙ rw (below, has)
                  (find_loop-in fuel none id es (value_read none val c) (omega arith) v f moved)
          | inr (i, named) ↦
              ap turn (next_entry-value c e es v f d (some i) val below has named)
              ∙ rw (below, has)
                  (find_loop-in fuel none id es (value_read (some i) val c) (omega arith) v f moved)
        ]
      ]
    ]

-- Without a section, `cfg_find` in a valid configuration is a fault where a header comes before every value;
-- otherwise it finds an id below the first entry with a value and before the next header, so never
-- in that entry.
find-plain :
    (id : List ℕ) (c : Config)
    → c.valid ≡ true
    → answer (find none (some id) c) ≡ lookup_plain id c.entries
unfolding find rewind
find-plain id c v =
    let start : Config = record c { eof = false; kind = Kind.error; cursor = 0 } in
    let fuel = suc (length c.entries) in
    let run : find none (some id) c ≡ find_loop fuel false none (some id) start =
      rw (find, rewind, v) refl in
    ap answer run ∙ find_loop-plain fuel id c.entries start (omega arith) v refl refl

-- whether an entry has the id
abbrev pub has_id : List ℕ → List Entry → Bool
has_id id [] = false
has_id id (e ∷ es) = let rest = has_id id es in if same e.id id then true else rest

update_first-new :
    (id value : List ℕ) (es : List Entry) → has_id id es ≡ false → update_first id value es ≡ none
unfolding update_first
update_first-new id value [] new = refl
update_first-new id value (e ∷ es) new = elim (Bool-cases (same e.id id)) [
  | inl found ↦ absurd (true≢false (sym (rw found refl) ∙ new))
  | inr missed ↦
      rw (update_first, missed, update_first-new id value es (sym (rw missed refl) ∙ new)) refl
]

-- Without a section no key can be added to a valid configuration: `cfg_write` of an id that no entry has is
-- a fault, since it runs past the entries.
write-new_plain :
    (id value : List ℕ) (c : Config)
    → c.valid ≡ true
    → has_id id c.entries ≡ false
    → write none (some id) (some value) c ≡ none
unfolding write write_plain
write-new_plain id value c v new =
    rw (write, v, write_plain, update_first-new id value c.entries new) refl
