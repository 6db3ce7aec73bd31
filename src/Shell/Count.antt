-- ===== src/Shell/Count.antt =====
-- The keys that `utl_DoesExist` of utils.c counts.
use cvos.Prelude.{ℕ, zero, suc, ◌≤◌, ◌<◌, ◌≡◌, ◌≢◌, refl, sym, subst, ◌∙◌, ap, arith, inl, inr, ◌⊎◌}
use cvos.Prelude.{List, [], ◌∷◌, ◌++◌, Option, none, some, true, Option-cases}
use cvos.Prelude.{ltb, length, length-append, codes}
use cvos.Files.{Calls}
use cvos.Shell.{
  behind, strstr, string_in, count_keys, read_back, count_text, count_back, does_exist,
}

-- the key stands nowhere in the text
abbrev pub Lacks : List ℕ → List ℕ → Type 0
Lacks key text = (x y : List ℕ) → text ≢ x ++ (key ++ y)

differ {ℓ} : {A : Type ℓ} (a : A) → none ≡ some a → ⊥
differ a e = cc

behind-append : (key y : List ℕ) → behind key (key ++ y) ≡ some y
unfolding behind
behind-append [] y = refl
behind-append (k ∷ key) y = ground (arith, behind-append key y)

behind_sound : (key text rest : List ℕ) → behind key text ≡ some rest → text ≡ key ++ rest
unfolding behind
behind_sound [] text rest e = cc
behind_sound (k ∷ key) [] rest e = cc
behind_sound (k ∷ key) (c ∷ text) rest e = ground (arith, behind_sound key text rest)

strstr-here :
    (key text rest : List ℕ) → behind key text ≡ some rest → strstr key text ≡ some ([], rest)
unfolding strstr
strstr-here key [] rest e = rw (e, strstr) refl
strstr-here key (c ∷ text) rest e = rw (e, strstr) refl

strstr-empty : (key : List ℕ) → behind key [] ≡ none → strstr key [] ≡ none
unfolding strstr
strstr-empty key e = rw (e, strstr) refl

strstr-later :
    (key : List ℕ) (c : ℕ) (text before rest : List ℕ)
    → behind key (c ∷ text) ≡ none
    → strstr key text ≡ some (before, rest)
    → strstr key (c ∷ text) ≡ some (c ∷ before, rest)
unfolding strstr
strstr-later key c text before rest e later = rw (e, later, strstr) refl

strstr-never :
    (key : List ℕ) (c : ℕ) (text : List ℕ)
    → behind key (c ∷ text) ≡ none
    → strstr key text ≡ none
    → strstr key (c ∷ text) ≡ none
unfolding strstr
strstr-never key c text e later = rw (e, later, strstr) refl

-- The place behind `before` is the first at which the key stands in the text.
abbrev pub First : List ℕ → List ℕ → List ℕ → Type 0
First key before text = (x y : List ℕ) → text ≡ x ++ (key ++ y) → length before ≤ length x

First-later :
    (key : List ℕ) (c : ℕ) (text before : List ℕ)
    → behind key (c ∷ text) ≡ none
    → First key before text
    → First key (c ∷ before) (c ∷ text)
First-later key c text before no_key first [] y at =
    absurd (differ y (sym no_key ∙ ap (behind key) at ∙ behind-append key y))
First-later key c text before no_key first (a ∷ x) y at =
    let later = first x y (cc) in omega (arith, later)

-- A key that is found stands there, and nowhere before.
strstr_sound :
    (key text : List ℕ)
    → (strstr key text ≡ none)
      ⊎ ((before : List ℕ) × (rest : List ℕ) × (strstr key text ≡ some (before, rest))
          × (text ≡ before ++ (key ++ rest))
          × First key before text)
strstr_sound key [] = elim (Option-cases (behind key [])) [
  | inl no_key ↦ inl (strstr-empty key no_key)
  | inr (r, key_here) ↦
      inr (
        [],
        r,
        strstr-here key [] r key_here,
        behind_sound key [] r key_here,
        λ x y at. omega arith,
      )
]
strstr_sound key (c ∷ text) = elim (Option-cases (behind key (c ∷ text))) [
  | inl no_key ↦ elim (strstr_sound key text) [
    | inl never ↦ inl (strstr-never key c text no_key never)
    | inr (before, rest, later, at, first) ↦ inr (
      c ∷ before,
      rest,
      strstr-later key c text before rest no_key later,
      ap (λ t. c ∷ t) at,
      First-later key c text before no_key first,
    )
  ]
  | inr (r, key_here) ↦ inr (
    [],
    r,
    strstr-here key (c ∷ text) r key_here,
    behind_sound key (c ∷ text) r key_here,
    λ x y at. omega arith,
  )
]

not_here : (key text y : List ℕ) → strstr key text ≡ none → text ≡ key ++ y → ⊥
not_here key text y e at =
    let found = strstr-here key text y (ap (behind key) at ∙ behind-append key y) in cc (e, found)

strstr-tail :
    (key : List ℕ) (c : ℕ) (text : List ℕ) → strstr key (c ∷ text) ≡ none → strstr key text ≡ none
strstr-tail key c text e = elim (Option-cases (behind key (c ∷ text))) [
  | inl no_key ↦ elim (strstr_sound key text) [
    | inl never ↦ never
    | inr (before, rest, later, _, _) ↦
        absurd
          (differ (c ∷ before, rest) (sym e ∙ strstr-later key c text before rest no_key later))
  ]
  | inr (r, key_here) ↦ absurd (differ ([], r) (sym e ∙ strstr-here key (c ∷ text) r key_here))
]

strstr-none : (key text : List ℕ) → strstr key text ≡ none → Lacks key text
strstr-none key text e [] y at = not_here key text y e at
strstr-none key [] e (a ∷ x) y at = cc
strstr-none key (c ∷ text) e (a ∷ x) y at = strstr-none key text (strstr-tail key c text e) x y (cc)

-- pieces with the key between two of them
abbrev pub join : List ℕ → List ℕ → List (List ℕ) → List ℕ
join key last [] = last
join key last (p ∷ pieces) = p ++ (key ++ join key last pieces)

-- Every piece ends at the first place at which the key stands in what begins with the piece, and behind the
-- last key it stands nowhere.
abbrev pub Leftmost : List ℕ → List ℕ → List (List ℕ) → Type 0
Leftmost key last [] = Lacks key last
Leftmost key last (p ∷ pieces) = First key p (join key last (p ∷ pieces)) × Leftmost key last pieces

abbrev Counted : List ℕ → List ℕ → Option ℕ → Type 0
Counted key text out =
    (pieces : List (List ℕ)) × (last : List ℕ) × (out ≡ some (length pieces))
    × (text ≡ join key last pieces)
    × Leftmost key last pieces

count_keys-Counted :
    (fuel : ℕ) (key text : List ℕ)
    → 1 ≤ length key
    → length text < fuel
    → Counted key text (count_keys fuel key text)
unfolding count_keys
count_keys-Counted zero key text some_key h = absurd (omega arith)
count_keys-Counted (suc fuel) key text some_key h = elim (strstr_sound key text) [
  | inl never ↦ ([], text, rw (count_keys, never) refl, refl, strstr-none key text never)
  | inr (before, rest, found, at, first) ↦
      let size = ap length at in
      let (pieces, last, e, whole, lacks) =
        count_keys-Counted fuel key rest some_key
          (omega (arith, size, length-append before (key ++ rest), length-append key rest)) in
      let split : text ≡ join key last (before ∷ pieces) =
        at ∙ ap (λ t. before ++ (key ++ t)) whole in
      (
        before ∷ pieces,
        last,
        rw (count_keys, found, e) (ap some (omega arith)),
        split,
        (subst (First key before) split first, lacks),
      )
]

count_keys-empty : (fuel : ℕ) (text : List ℕ) → count_keys fuel [] text ≡ none
unfolding count_keys strstr behind
count_keys-empty zero text = refl
count_keys-empty (suc fuel) [] = rw (count_keys-empty fuel []) refl
count_keys-empty (suc fuel) (c ∷ text) = rw (count_keys-empty fuel (c ∷ text)) refl

module _ (q : Calls) (cmd key : List ℕ) (s s' : q.State) (bytes text : List ℕ) where
  abbrev line : List ℕ
  line = cmd ++ codes " |/bin/grep " ++ key ++ codes " >/tmp/.tmp 2>/dev/null"

  -- Where the command fits in its buffer and the shell's output is read back as a text: with a key that is
  -- not empty `utl_DoesExist` comes to an end, and the result is the number of times that the text can be
  -- cut behind the first key that is left in it, until none is left. With an empty key it never comes to an
  -- end.
  pub does_exist_lem :
      length line < 128
      → read_back q (codes "/tmp/.tmp") (q.system line s).3 ≡ (some bytes, s')
      → string_in bytes ≡ some text
      → (1 ≤ length key
          → (pieces : List (List ℕ)) × (last : List ℕ) × (does_exist q (suc (length text)) cmd key s
              ≡ some (length pieces, s'))
            × (text ≡ join key last pieces)
            × Leftmost key last pieces)
        × (key ≡ [] → (fuel : ℕ) → does_exist q fuel cmd key s ≡ none)
  unfolding does_exist count_back count_text
  does_exist_lem fits read is_text =
      let short : ltb (length line) 128 ≡ true = ground arith in
      let start : (fuel : ℕ) → does_exist q fuel cmd key s ≡ count_text fuel key text s' = λ fuel.
        rw (does_exist, short) (ap (λ got. count_back fuel key got) read ∙ rw is_text refl) in
      (
        λ some_key.
            let (pieces, last, e, whole, lacks) =
              count_keys-Counted (suc (length text)) key text some_key (omega arith) in
            (pieces, last, start (suc (length text)) ∙ rw e refl, whole, lacks),
        λ no_key fuel.
            start fuel
            ∙ ap (λ k. count_text fuel k text s') no_key
            ∙ rw (count_keys-empty fuel text) refl,
      )
