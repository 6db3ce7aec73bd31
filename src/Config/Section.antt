-- ===== src/Config/Section.antt =====
-- Deleting a whole section with `cfg_write`.
use cvos.Prelude.{ℕ, ◌≡◌, refl, sym, ◌∙◌, ap, inl, inr}
use cvos.Prelude.{List, [], ◌∷◌, ◌++◌, Option, none, some, Bool, true, false, Bool-cases}
use cvos.Prelude.{if◌then◌else◌, bytes_eq_refl}
use mathlib.Core.Bool.{true≢false}
use cvos.Config.{Entry, Config, same}
use cvos.Config.Write.{is_block, trim_block, seek, delete_section, write_found}
use cvos.Config.Write.{write_section, write}
use cvos.Config.Assign.{valid-section}
use cvos.Config.Clear.{is_block-empty}

abbrev pub all_blocks : List Entry → Bool
all_blocks [] = true
all_blocks (e ∷ es) = let rest = all_blocks es in if is_block e then rest else false

all_blocks-cases :
    (e : Entry) (es : List Entry)
    → all_blocks (e ∷ es) ≡ true
    → (is_block e ≡ true) × (all_blocks es ≡ true)
all_blocks-cases e es all = elim (Bool-cases (is_block e)) [
  | inl block ↦ (block, sym (rw block refl) ∙ all)
  | inr other ↦ absurd (true≢false (sym all ∙ rw other refl))
]

trim_block-all : (es : List Entry) → all_blocks es ≡ true → trim_block es ≡ []
unfolding trim_block
trim_block-all [] all = refl
trim_block-all (e ∷ es) all =
    let (block, rest) = all_blocks-cases e es all in
    ap (λ t. elim t [ [] ↦ if is_block e then [] else e ∷ [] | d ∷ ds ↦ e ∷ d ∷ ds ])
      (trim_block-all es rest)
    ∙ rw block refl

seek-all_blocks :
    (sect : List ℕ) (blocks : List Entry) (e : Entry) (below : List Entry)
    → all_blocks blocks ≡ true
    → e.section ≡ some sect
    → seek sect (blocks ++ (e ∷ below)) ≡ some (blocks, e ∷ below)
unfolding seek
seek-all_blocks sect [] e below all at =
    let found : same e.section sect ≡ true = ap (λ o. same o sect) at ∙ bytes_eq_refl sect in
    rw (seek, found) refl
seek-all_blocks sect (b ∷ blocks) e below all at =
    let (block, rest) = all_blocks-cases b blocks all in
    let (bare, _) = is_block-empty b block in
    let missed : same b.section sect ≡ false = ap (λ o. same o sect) bare in
    rw (seek, missed, seek-all_blocks sect blocks e below rest at) refl

-- A section of a valid configuration that only blocks of comments, or nothing, stand before cannot be
-- deleted: `cfg_write` is a fault, since it reads before the first entry to look for the comments above the
-- section.
write-first_section :
    (sect : List ℕ) (value : Option (List ℕ)) (blocks : List Entry) (e : Entry) (below : List Entry)
    (c : Config)
    → c.valid ≡ true
    → c.entries ≡ blocks ++ (e ∷ below)
    → all_blocks blocks ≡ true
    → e.section ≡ some sect
    → write (some sect) none value c ≡ none
unfolding write_section write_found delete_section
write-first_section sect value blocks e below c valid whole all at =
    let sought : seek sect c.entries ≡ some (blocks, e ∷ below) =
      ap (seek sect) whole ∙ seek-all_blocks sect blocks e below all at in
    valid-section sect none value c valid
    ∙ rw (write_section, sought, write_found, delete_section, trim_block-all blocks all) refl
