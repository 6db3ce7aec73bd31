-- ===== src/Config/Clear.antt =====
-- Entries below a header of cfgfile.c that hold neither a header nor an id, and what a deletion passes over.
use cvos.Prelude.{ℕ, ◌≡◌, refl, sym, ◌∙◌, inl, inr}
use cvos.Prelude.{
  List, [], ◌∷◌, ◌++◌, Option, none, some, Option-cases, Bool, true, false, Bool-cases,
}
use cvos.Prelude.{if◌then◌else◌}
use mathlib.Core.Bool.{true≢false}
use cvos.Config.{Entry, same, same_id}
use cvos.Config.Write.{is_block, trim_block}
use cvos.Config.Lookup.{lookup, lookup_in}
use cvos.Config.Update.{PlainIds, lookup_in_cong}

-- the value that the next definition of the id below a header gives, once its first one is gone
abbrev pub lookup_again : List ℕ → List Entry → Option (List ℕ)
lookup_again id [] = none
lookup_again id (e ∷ es) =
    let rest = lookup_again id es in
    elim e.section [ some _ ↦ none | none ↦ if same e.id id then lookup_in id es else rest ]

-- that of the id in the first section of the name
abbrev pub next_value : List ℕ → List ℕ → List Entry → Option (List ℕ)
next_value sect id [] = none
next_value sect id (e ∷ es) =
    let rest = next_value sect id es in if same e.section sect then lookup_again id es else rest

-- no header and no definition of the id
abbrev pub clear : List ℕ → List Entry → Bool
clear id [] = true
clear id (e ∷ es) =
    let rest = clear id es in
    elim e.section [ some _ ↦ false | none ↦ if same e.id id then false else rest ]

-- A block of comments holds no value and no header.
pub is_block-empty : (e : Entry) → is_block e ≡ true → (e.section ≡ none) × (e.value ≡ none)
is_block-empty e h = elim (Option-cases e.section) [
  | inr (s, at) ↦ absurd (true≢false (sym h ∙ rw at refl))
  | inl below ↦ elim (Option-cases e.value) [
    | inl bare ↦ (below, bare)
    | inr (v, has) ↦ elim (Option-cases e.id) [
      | inl unnamed ↦ absurd (true≢false (sym h ∙ rw (below, unnamed, has) refl))
      | inr (i, named) ↦ absurd (true≢false (sym h ∙ rw (below, named) refl))
    ]
  ]
]

pub lookup_in-trim_block :
    (i : List ℕ) (xs ys : List Entry) → lookup_in i (trim_block xs ++ ys) ≡ lookup_in i (xs ++ ys)
unfolding trim_block
lookup_in-trim_block i [] ys = refl
lookup_in-trim_block i (e ∷ xs) ys =
    let rest = lookup_in-trim_block i xs ys in
    elim (trim_block xs)
        as (λ t.
          lookup_in i (t ++ ys) ≡ lookup_in i (xs ++ ys)
          → lookup_in i
              ((elim t [ [] ↦ if is_block e then [] else e ∷ [] | d ∷ ds ↦ e ∷ d ∷ ds ]) ++ ys)
            ≡ lookup_in i (e ∷ (xs ++ ys))) [
              | d ∷ ds ↦ λ h. lookup_in_cong i e ((d ∷ ds) ++ ys) (xs ++ ys) h
              | [] ↦ λ h. elim (Bool-cases (is_block e)) [
                | inl block ↦
                    let (below, bare) = is_block-empty e block in rw (block, below, bare) h
                | inr kept ↦ rw kept (lookup_in_cong i e ys (xs ++ ys) h)
              ]
            ]
      rest

-- Below the header, up to a key that is not looked for
pub lookup_in-other :
    (i : List ℕ) (b : List Entry) (k : Entry) (after : List Entry)
    → k.section ≡ none
    → same_id k.id i ≡ false
    → lookup_in i (b ++ (k ∷ after)) ≡ lookup_in i (b ++ after)
lookup_in-other i [] k after below missed = elim (Option-cases k.value) [
  | inl bare ↦ rw (below, bare) refl
  | inr (v, has) ↦ rw (below, has, missed) refl
]
lookup_in-other i (e ∷ b) k after below missed =
    lookup_in_cong i e (b ++ (k ∷ after)) (b ++ after) (lookup_in-other i b k after below missed)

-- What an entry that is neither a header nor has the id does
pub clear-cases :
    (id : List ℕ) (e : Entry) (b : List Entry)
    → clear id (e ∷ b) ≡ true
    → (e.section ≡ none) × (same e.id id ≡ false) × (clear id b ≡ true)
clear-cases id e b cl = elim (Option-cases e.section) [
  | inr (s, at) ↦ absurd (true≢false (sym cl ∙ rw at refl))
  | inl below ↦ elim (Bool-cases (same e.id id)) [
    | inl found ↦ absurd (true≢false (sym cl ∙ rw (below, found) refl))
    | inr missed ↦ (below, missed, sym (rw (below, missed) refl) ∙ cl)
  ]
]

pub lookup_in-clear :
    (id : List ℕ) (b at : List Entry)
    → clear id b ≡ true
    → PlainIds b
    → lookup_in id (b ++ at) ≡ lookup_in id at
lookup_in-clear id [] at cl ps = refl
lookup_in-clear id (e ∷ b) at cl (p, ps) =
    let (below, missed, cl') = clear-cases id e b cl in
    let rest = lookup_in-clear id b at cl' ps in
    elim (Option-cases e.value) [
      | inl bare ↦ rw (below, bare) rest
      | inr (v, has) ↦
          let unnamed : same_id e.id id ≡ false = p id ∙ missed in rw (below, has, unnamed) rest
    ]

pub lookup_again-clear :
    (id : List ℕ) (b at : List Entry)
    → clear id b ≡ true
    → lookup_again id (b ++ at) ≡ lookup_again id at
lookup_again-clear id [] at cl = refl
lookup_again-clear id (e ∷ b) at cl =
    let (below, missed, cl') = clear-cases id e b cl in
    rw (below, missed) (lookup_again-clear id b at cl')

-- Nothing there is a header, so no section is found there.
pub lookup-clear :
    (id s i : List ℕ) (b at : List Entry) → clear id b ≡ true → lookup s i (b ++ at) ≡ lookup s i at
lookup-clear id s i [] at cl = refl
lookup-clear id s i (e ∷ b) at cl =
    let (below, missed, cl') = clear-cases id e b cl in rw below (lookup-clear id s i b at cl')

pub clear-trim_block :
    (id : List ℕ) (b : List Entry) → clear id b ≡ true → clear id (trim_block b) ≡ true
unfolding trim_block
clear-trim_block id [] cl = refl
clear-trim_block id (e ∷ b) cl =
    let (below, missed, cl') = clear-cases id e b cl in
    elim (trim_block b)
        as (λ t.
          clear id t ≡ true
          → clear id (elim t [ [] ↦ if is_block e then [] else e ∷ [] | d ∷ ds ↦ e ∷ d ∷ ds ])
            ≡ true) [
              | [] ↦ λ h. elim (Bool-cases (is_block e)) [
                | inl block ↦ rw block refl
                | inr kept ↦ rw (kept, below, missed) refl
              ]
              | d ∷ ds ↦ λ h. rw (below, missed) h
            ]
      (clear-trim_block id b cl')
