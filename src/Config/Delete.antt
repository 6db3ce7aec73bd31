-- ===== src/Config/Delete.antt =====
-- Deleting a key or a section with `cfg_write`.
use cvos.Prelude.{ℕ, ◌≡◌, refl, sym, ◌∙◌, ap, subst, inl, inr, ◌⊎◌}
use cvos.Prelude.{
  List, [], ◌∷◌, ◌++◌, Option, none, some, Option-cases, true, false, Bool-cases, ◌&&◌,
}
use cvos.Prelude.{pos, if◌then◌else◌, ◌>>=◌, bytes_eq, bytes_eq_sound, bytes_eq_refl}
use mathlib.Core.Bool.{true≢false}
use mathlib.Core.List.{append-nil}
use cvos.Config.{Entry, Config, same, same_id, find}
use cvos.Config.Write.{trim_block, seek, seek_key, delete_key}
use cvos.Config.Write.{write_found, write_new, write_section, write}
use cvos.Config.Lookup.{lookup, lookup_in, answer, find_lem}
use cvos.Config.Update.{PlainId, PlainIds, other_id}
use cvos.Config.Update.{lookup-across, lookup-lacks, seek-cases, lacks, Split, PlainIds-append}
use cvos.Config.Assign.{lookup-header, valid-section}
use cvos.Config.Clear.{lookup_again, next_value, clear, lookup_in-trim_block, lookup_in-other}
use cvos.Config.Clear.{lookup_in-clear, lookup_again-clear, lookup-clear, clear-trim_block}

-- What `seek_key` gives: the entries before the first definition of the id, its entry, and those after it.
abbrev Found : List ℕ → List Entry → Type 0
Found id es =
    (b : List Entry) × (k : Entry) × (after : List Entry) × (seek_key id es ≡ some (b, after))
    × (clear id b ≡ true)
    × (k.section ≡ none)
    × (same k.id id ≡ true)
    × (es ≡ b ++ (k ∷ after))

-- where it gives nothing, nothing is defined
abbrev Absent : List ℕ → List Entry → Type 0
Absent id es =
    (seek_key id es ≡ none) × (PlainIds es → lookup_in id es ≡ none) × (lookup_again id es ≡ none)

seek_key-cases : (id : List ℕ) (es : List Entry) → Absent id es ⊎ Found id es
unfolding seek_key
seek_key-cases id [] = inl (refl, (λ p. refl), refl)
seek_key-cases id (e ∷ es) = elim (Option-cases e.section) [
  | inr (s, at) ↦ inl (rw (seek_key, at) refl, (λ p. rw at refl), rw at refl)
  | inl below ↦ elim (Bool-cases (same e.id id)) [
    | inl found ↦ inr ([], e, es, rw (seek_key, below, found) refl, refl, below, found, refl)
    | inr missed ↦ elim (seek_key-cases id es) [
      | inl (nothing, unread, again) ↦ inl (
        rw (seek_key, below, missed, nothing) refl,
        (λ (p, ps). elim (Option-cases e.value) [
          | inl bare ↦ rw (below, bare) (unread ps)
          | inr (v, has) ↦
              let unnamed : same_id e.id id ≡ false = p id ∙ missed in
              rw (below, has, unnamed) (unread ps)
        ]),
        rw (below, missed) again,
      )
      | inr (b, k, after, later, cl, bk, hk, whole) ↦
          let step : seek_key id (e ∷ es)
              ≡ elim (seek_key id es) [ none ↦ none | some (b, a) ↦ some (e ∷ b, a) ] =
            rw (seek_key, below, missed) refl in
          inr (
            e ∷ b,
            k,
            after,
            step ∙ ap (λ o. elim o [ none ↦ none | some (b, a) ↦ some (e ∷ b, a) ]) later,
            rw (below, missed) cl,
            bk,
            hk,
            ap (λ t. e ∷ t) whole,
          )
    ]
  ]
]

-- what is read below the header once the key is deleted there
abbrev removed : List ℕ → List ℕ → List Entry → Option (List ℕ)
removed id i below = if bytes_eq id i then lookup_again id below else lookup_in i below

lookup_in-found :
    (id i : List ℕ) (b : List Entry) (k : Entry) (after : List Entry)
    → clear id b ≡ true
    → k.section ≡ none
    → same k.id id ≡ true
    → PlainIds (b ++ (k ∷ after))
    → lookup_in i (trim_block b ++ after) ≡ removed id i (b ++ (k ∷ after))
lookup_in-found id i b k after cl bk hk ps =
    let (pb, (pk, pa)) : PlainIds b × (PlainId k.id × PlainIds after) =
      (PlainIds-append b (k ∷ after)).0 ps in
    lookup_in-trim_block i b after ∙ elim (Bool-cases (bytes_eq id i)) [
      | inl this ↦
          let next : lookup_in id (b ++ after) ≡ lookup_again id (b ++ (k ∷ after)) =
            lookup_in-clear id b after cl pb
            ∙ sym (lookup_again-clear id b (k ∷ after) cl ∙ rw (bk, hk) refl) in
          rw this (
            subst (λ j. lookup_in j (b ++ after) ≡ lookup_again id (b ++ (k ∷ after)))
              (bytes_eq_sound id i this) next)
      | inr other ↦ rw other (sym (lookup_in-other i b k after bk (other_id k.id id i pk hk other)))
    ]

-- What a header or a value of another section is does not change.
lookup-found :
    (id s i : List ℕ) (b : List Entry) (k : Entry) (after : List Entry)
    → clear id b ≡ true
    → k.section ≡ none
    → lookup s i (trim_block b ++ after) ≡ lookup s i (b ++ (k ∷ after))
lookup-found id s i b k after cl bk =
    lookup-clear id s i (trim_block b) after (clear-trim_block id b cl)
    ∙ sym (lookup-clear id s i b (k ∷ after) cl ∙ rw bk refl)

next_value-header :
    (sect id : List ℕ) (before : List Entry) (e : Entry) (below : List Entry)
    → lacks sect before ≡ true
    → e.section ≡ some sect
    → next_value sect id (before ++ (e ∷ below)) ≡ lookup_again id below
next_value-header sect id [] e below l at = rw (at, bytes_eq_refl sect) refl
next_value-header sect id (x ∷ xs) e below l at = elim (Bool-cases (same x.section sect)) [
  | inl found ↦ absurd (true≢false (sym l ∙ rw found refl))
  | inr missed ↦ rw missed (next_value-header sect id xs e below (sym (rw missed refl) ∙ l) at)
]

next_value-lacks :
    (sect id : List ℕ) (es : List Entry) → lacks sect es ≡ true → next_value sect id es ≡ none
next_value-lacks sect id [] l = refl
next_value-lacks sect id (x ∷ xs) l = elim (Bool-cases (same x.section sect)) [
  | inl found ↦ absurd (true≢false (sym l ∙ rw found refl))
  | inr missed ↦ rw missed (next_value-lacks sect id xs (sym (rw missed refl) ∙ l))
]

-- what is read once the key is deleted
abbrev pub deleted : List ℕ → List ℕ → List ℕ → List ℕ → List Entry → Option (List ℕ)
deleted sect id s i es =
    if bytes_eq sect s && bytes_eq id i then next_value sect id es else lookup s i es

module _ (sect id s i : List ℕ) where
  -- a deletion in entries that have the section
  deleted-header :
      (before : List Entry) (e : Entry) (below below' : List Entry)
      → lacks sect before ≡ true
      → e.section ≡ some sect
      → lookup_in i below' ≡ removed id i below
      → lookup s i below' ≡ lookup s i below
      → lookup s i (before ++ (e ∷ below')) ≡ deleted sect id s i (before ++ (e ∷ below))
  deleted-header before e below below' l at inside outside = elim (Bool-cases (bytes_eq sect s)) [
    | inl here ↦
        rw
          (
            lookup-header sect s i before e below' l at here,
            lookup-header sect s i before e below l at here,
            next_value-header sect id before e below l at,
            here,
          )
          inside
    | inr other ↦ rw other (lookup-across s i e below' below sect at before other outside)
  ]

  -- and in entries that do not have it
  deleted-lacks : (es : List Entry) → lacks sect es ≡ true → lookup s i es ≡ deleted sect id s i es
  deleted-lacks es l = elim (Bool-cases (bytes_eq sect s)) [
    | inl here ↦ elim (Bool-cases (bytes_eq id i)) [
      | inl this ↦ rw (here, this, next_value-lacks sect id es l) (absent here)
      | inr other ↦ rw (here, other) refl
    ]
    | inr other ↦ rw other refl
  ]
    where
      absent : bytes_eq sect s ≡ true → lookup s i es ≡ none
      absent here =
          let l' : lacks s es ≡ true =
            ap (λ t. lacks t es) (sym (bytes_eq_sound sect s here)) ∙ l in
          ap (lookup s i) (sym (append-nil es)) ∙ lookup-lacks s i es [] l'

  module _ (c : Config) (valid : c.valid ≡ true) (ids : PlainIds c.entries) where
    Deleted : Type 0
    Deleted =
        (c' : Config) × (write (some sect) (some id) none c ≡ some (pos 0, c'))
        × (c'.valid ≡ true)
        × (lookup s i c'.entries ≡ deleted sect id s i c.entries)

    deleted_found : Split sect c.entries → Deleted
    unfolding Deleted write_section write_found delete_key
    deleted_found (before, e, below, found, l, at, whole) =
        let ids_below : PlainIds below =
          ((PlainIds-append before (e ∷ below)).0 (subst PlainIds whole ids)).1.1 in
        let run = valid-section sect (some id) none c valid in
        elim (seek_key-cases id below) [
          | inl (nothing, unread, again) ↦
              let kept : lookup_in i below ≡ removed id i below =
                elim (Bool-cases (bytes_eq id i)) [
                  | inl this ↦
                      rw (this, again)
                        (subst (λ j. lookup_in j below ≡ none) (bytes_eq_sound id i this)
                          (unread ids_below))
                  | inr other ↦ rw other refl
                ] in
              (
                c,
                run ∙ rw (write_section, found, write_found, delete_key, nothing) refl,
                valid,
                ap (lookup s i) whole
                    ∙ deleted-header before e below below l at kept refl
                    ∙ ap (deleted sect id s i) (sym whole),
              )
          | inr (b, k, after, sought, cl, bk, hk, split) ↦
              let c' : Config = record c {
                dirty = true;
                entries = before ++ (e ∷ (trim_block b ++ after));
              } in
              (
                c',
                run ∙ rw (write_section, found, write_found, delete_key, sought) refl,
                valid,
                deleted-header before e below (trim_block b ++ after) l at
                      (lookup_in-found id i b k after cl bk hk (subst PlainIds split ids_below)
                        ∙ ap (removed id i) (sym split))
                      (lookup-found id s i b k after cl bk ∙ ap (lookup s i) (sym split))
                    ∙ ap (deleted sect id s i) (sym whole),
              )
        ]

    deleted_new : seek sect c.entries ≡ none → lacks sect c.entries ≡ true → Deleted
    unfolding Deleted write_section write_new
    deleted_new nothing l = (
      c,
      valid-section sect (some id) none c valid ∙ rw (write_section, nothing) refl,
      valid,
      deleted-lacks c.entries l,
    )

    -- In a valid configuration whose ids have no quotes `cfg_write` deletes a key without a fault. Reading
    -- the key then finds its next definition in the section, if there is one, and reading every other key
    -- what it found before.
    pub find-delete :
        (write (some sect) (some id) none c >>= λ (ret, c'). answer (find (some s) (some i) c'))
        ≡ some (deleted sect id s i c.entries)
    unfolding Deleted
    find-delete =
        let (c', runs, v, reads) : Deleted = elim (seek-cases sect c.entries) [
          | inl (nothing, l) ↦ deleted_new nothing l
          | inr split ↦ deleted_found split
        ] in
        ap (λ o. o >>= λ (ret, c'). answer (find (some s) (some i) c')) runs
        ∙ find_lem s i c' v
        ∙ ap some reads
