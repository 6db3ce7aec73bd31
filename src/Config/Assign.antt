-- ===== src/Config/Assign.antt =====
-- Writing a value and reading it back: `cfg_write` and then `cfg_find`.
use cvos.Prelude.{ℕ, ◌+◌, ◌≤◌, ◌≡◌, refl, sym, ◌∙◌, ap, subst, arith, inl, inr}
use cvos.Prelude.{List, [], ◌∷◌, ◌++◌, Option, none, some, true, Bool-cases, ◌&&◌}
use cvos.Prelude.{
  pos, if◌then◌else◌, length, length-append, leb, ◌⊎◌, ◌>>=◌, bytes_eq, bytes_eq_sound,
}
use mathlib.Core.List.{append-nil, append_assoc}
use cvos.Config.{Entry, Config, find}
use cvos.Config.Write.{put_key, seek, pool_for, pool_after, Place, updated, inserted, appended}
use cvos.Config.Write.{write_found, write_new, write_section, write, store_entry}
use cvos.Config.Lookup.{lookup, lookup_in, answer, find_lem}
use cvos.Config.Update.{PlainId, PlainIds, lookup_in-put_key, lookup-put_key, PlainIds-append}
use cvos.Config.Update.{lookup-across, lookup-end, lookup-lacks, seek-cases, lacks, Split}

-- what is read for `s` and `i` once `id` has got the value in the section
abbrev pub assigned : List ℕ → List ℕ → List ℕ → List ℕ → List ℕ → Option (List ℕ) → Option (List ℕ)
assigned sect id value s i old = if bytes_eq sect s && bytes_eq id i then some value else old

-- what is read below the first header of the section
pub lookup-header :
    (sect s i : List ℕ) (before : List Entry) (e : Entry) (below : List Entry)
    → lacks sect before ≡ true
    → e.section ≡ some sect
    → bytes_eq sect s ≡ true
    → lookup s i (before ++ (e ∷ below)) ≡ lookup_in i below
lookup-header sect s i before e below l at here =
    let l' : lacks s before ≡ true =
      ap (λ t. lacks t before) (sym (bytes_eq_sound sect s here)) ∙ l in
    lookup-lacks s i before (e ∷ below) l' ∙ rw (at, here) refl

-- room for two more entries, or no entry yet
abbrev pub Room : Config → Type 0
Room c = (length c.entries ≡ 0) ⊎ (length c.entries + 2 ≤ c.max_entries)

pub valid-section :
    (sect : List ℕ) (id value : Option (List ℕ)) (c : Config)
    → c.valid ≡ true
    → write (some sect) id value c ≡ write_section sect id value c
unfolding write
valid-section sect id value c valid = rw (write, valid) refl

module _ (sect id value s i : List ℕ) (plain : PlainId (some id)) where
  -- A key put below the header of the section
  lookup-found :
      (before : List Entry) (e : Entry) (below : List Entry)
      → lacks sect before ≡ true
      → e.section ≡ some sect
      → PlainIds below
      → lookup s i (before ++ (e ∷ (put_key id value below).1))
        ≡ assigned sect id value s i (lookup s i (before ++ (e ∷ below)))
  lookup-found before e below l at ps = elim (Bool-cases (bytes_eq sect s)) [
    | inl here ↦
        rw
          (
            lookup-header sect s i before e (put_key id value below).1 l at here,
            lookup-header sect s i before e below l at here,
            here,
          )
          (lookup_in-put_key id value i below plain ps)
    | inr other ↦ rw other (
        lookup-across s i e (put_key id value below).1 below sect at before other
          (lookup-put_key id value s i below))
  ]

  -- A key put below a new header
  lookup-new :
      (es : List Entry) (h k : Entry)
      → lacks sect es ≡ true
      → h.section ≡ some sect
      → k.section ≡ none
      → k.id ≡ some id
      → k.value ≡ some value
      → lookup s i (es ++ (h ∷ k ∷ [])) ≡ assigned sect id value s i (lookup s i es)
  lookup-new es h k l at below named has = elim (Bool-cases (bytes_eq sect s)) [
    | inl here ↦
        let l' : lacks s es ≡ true = ap (λ t. lacks t es) (sym (bytes_eq_sound sect s here)) ∙ l in
        let nothing : lookup s i es ≡ none =
          ap (lookup s i) (sym (append-nil es)) ∙ lookup-lacks s i es [] l' in
        rw
          (
            lookup-header sect s i es h (k ∷ []) l at here,
            here,
            nothing,
            below,
            has,
            named,
            plain i,
          )
          refl
    | inr other ↦ rw other (lookup-end s i h (k ∷ []) [] sect at es other (rw below refl))
  ]

  module _ (c : Config) (valid : c.valid ≡ true) (room : Room c) (ids : PlainIds c.entries) where
    -- A header that is there is an entry.
    enough_room : Split sect c.entries → length c.entries + 2 ≤ c.max_entries
    enough_room (before, e, below, found, l, at, whole) = elim room [
      | inr enough ↦ enough
      | inl empty ↦
          let size = ap length whole ∙ length-append before (e ∷ below) in absurd (omega arith)
    ]

    room-put :
        length c.entries + 2 ≤ c.max_entries
        → (p : Place) → (m : ℕ) × (pool_after p (length c.entries) c.max_entries ≡ some m)
    unfolding pool_after
    room-put two updated = (_, refl)
    room-put two inserted =
        let enough : leb (length c.entries + 2) c.max_entries ≡ true = ground arith in
        (c.max_entries, rw (pool_after, enough) refl)
    room-put two appended = (_, refl)

    abbrev pub Written : Type 0
    Written =
        (c' : Config) × (write (some sect) (some id) (some value) c ≡ some (pos 0, c'))
        × (c'.valid ≡ true)
        × (c'.dirty ≡ true)
        × (lookup s i c'.entries ≡ assigned sect id value s i (lookup s i c.entries))

    written_new : seek sect c.entries ≡ none → lacks sect c.entries ≡ true → Written
    unfolding write write_section write_new store_entry
    written_new nothing l =
        let h : Entry = record { section = some sect; id = none; value = none; comment = none } in
        let k : Entry = record {
          section = none;
          id = some id;
          value = some value;
          comment = none;
        } in
        let c' : Config = record c {
          dirty = true;
          entries = (c.entries ++ (h ∷ [])) ++ (k ∷ []);
          max_entries =
              pool_for (length (c.entries ++ (h ∷ []))) (pool_for (length c.entries) c.max_entries);
        } in
        let runs : write_section sect (some id) (some value) c ≡ some (pos 0, c') =
          rw (write_section, nothing) refl in
        (
          c',
          valid-section sect (some id) (some value) c valid ∙ runs,
          valid,
          refl,
          ap (lookup s i) (append_assoc c.entries (h ∷ []) (k ∷ []))
              ∙ lookup-new c.entries h k l refl refl refl refl,
        )

    written_found : Split sect c.entries → Written
    unfolding write write_section write_found
    written_found (before, e, below, found, l, at, whole) =
        let two = enough_room (before, e, below, found, l, at, whole) in
        let (m, fits) = room-put two (put_key id value below).0 in
        let ids_below : PlainIds below =
          ((PlainIds-append before (e ∷ below)).0 (subst PlainIds whole ids)).1.1 in
        let c' : Config = record c {
          dirty = true;
          entries = before ++ (e ∷ (put_key id value below).1);
          max_entries = m;
        } in
        let runs : write_section sect (some id) (some value) c ≡ some (pos 0, c') =
          rw (write_section, found, write_found, fits) refl in
        (
          c',
          valid-section sect (some id) (some value) c valid ∙ runs,
          valid,
          refl,
          lookup-found before e below l at ids_below
              ∙ ap (λ es. assigned sect id value s i (lookup s i es)) (sym whole),
        )

    pub written : Written
    written = elim (seek-cases sect c.entries) [
      | inl (nothing, l) ↦ written_new nothing l
      | inr split ↦ written_found split
    ]

    -- In a valid configuration that has no entry yet, or room for two more, a value can be written for an id
    -- without quotes, if none of the ids there has quotes: `cfg_find` finds it then, and for every other
    -- section and id what it found before.
    pub find-write :
        (write (some sect) (some id) (some value) c >>= λ (ret, c').
        answer (find (some s) (some i) c'))
        ≡ some (assigned sect id value s i (lookup s i c.entries))
    find-write =
        let (c', runs, v, d, reads) = written in
        ap (λ o. o >>= λ (ret, c'). answer (find (some s) (some i) c')) runs
        ∙ find_lem s i c' v
        ∙ ap some reads
