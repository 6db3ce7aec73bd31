-- ===== src/Config/Update.antt =====
-- What `cfg_write` changes of what `cfg_find` finds.
use cvos.Prelude.{ℕ, ◌≡◌, refl, sym, ◌∙◌, ap, inl, inr, ◌⊎◌, ◌↔◌}
use cvos.Prelude.{List, [], ◌∷◌, ◌++◌, Option, none, some, Option-cases}
use cvos.Prelude.{Bool, true, false, Bool-cases, if◌then◌else◌, bytes_eq, bytes_eq_sound}
use mathlib.Core.Bool.{true≢false}
use cvos.Config.{Entry, same, same_id}
use cvos.Config.Write.{put_key, seek}
use cvos.Config.Lookup.{lookup, lookup_in}

-- The id has no quotes that `cfg_find` takes off: it is compared there as `cfg_write` compares it.
abbrev pub PlainId : Option (List ℕ) → Type 0
PlainId id = (x : List ℕ) → same_id id x ≡ same id x

abbrev pub PlainIds : List Entry → Type 0
PlainIds [] = true ≡ true
PlainIds (e ∷ es) = PlainId e.id × PlainIds es

pub same_sound : (i : Option (List ℕ)) (a : List ℕ) → same i a ≡ true → i ≡ some a
same_sound none a h = absurd (true≢false (sym h))
same_sound (some i) a h = ap some (bytes_eq_sound i a h)

-- An id that is the one written is not the one looked for, where these two differ.
pub other_id :
    (i : Option (List ℕ)) (a b : List ℕ)
    → PlainId i
    → same i a ≡ true
    → bytes_eq a b ≡ false
    → same_id i b ≡ false
other_id i a b p h n = p b ∙ ap (λ t. same t b) (same_sound i a h) ∙ n

-- nor is an id that is not the one written the one looked for, where these two agree
pub this_id :
    (i : Option (List ℕ)) (a b : List ℕ)
    → PlainId i
    → same i a ≡ false
    → bytes_eq a b ≡ true
    → same_id i b ≡ false
this_id i a b p h y = p b ∙ ap (same i) (sym (bytes_eq_sound a b y)) ∙ h

-- Once a key is put below a header, it has the value there, and every other key what it had.
pub lookup_in-put_key :
    (id value i : List ℕ) (es : List Entry)
    → PlainId (some id)
    → PlainIds es
    → lookup_in i (put_key id value es).1 ≡ (if bytes_eq id i then some value else lookup_in i es)
unfolding put_key
lookup_in-put_key id value i [] p ps = rw (p i) refl
lookup_in-put_key id value i (e ∷ es) p (pe, ps) = elim (Option-cases e.section) [
  | inr (s, at) ↦ rw (put_key, at, p i, at) refl
  | inl below ↦ elim (Bool-cases (same e.id id)) [
    | inl found ↦ elim (Bool-cases (bytes_eq id i)) [
      | inl this ↦
          let named : same_id e.id i ≡ true =
            pe i ∙ ap (λ t. same t i) (same_sound e.id id found) ∙ this in
          rw (put_key, below, found, this, below, named) refl
      | inr other ↦
          let unnamed : same_id e.id i ≡ false = other_id e.id id i pe found other in
          elim (Option-cases e.value) [
            | inl bare ↦ rw (put_key, below, found, other, below, unnamed, bare) refl
            | inr (v, has) ↦ rw (put_key, below, found, other, below, unnamed, has, unnamed) refl
          ]
    ]
    | inr missed ↦
        let rest = lookup_in-put_key id value i es p ps in
        elim (Option-cases e.value) [
          | inl bare ↦ rw (put_key, below, missed, below, bare) rest
          | inr (v, has) ↦ elim (Bool-cases (bytes_eq id i)) [
            | inl this ↦
                let unnamed : same_id e.id i ≡ false = this_id e.id id i pe missed this in
                rw (put_key, below, missed, below, has, unnamed) rest
            | inr other ↦ rw (put_key, below, missed, below, has, rest, other) refl
          ]
        ]
  ]
]

-- No other section changes by that.
pub lookup-put_key :
    (id value s i : List ℕ) (es : List Entry) → lookup s i (put_key id value es).1 ≡ lookup s i es
unfolding put_key
lookup-put_key id value s i [] = refl
lookup-put_key id value s i (e ∷ es) = elim (Option-cases e.section) [
  | inr (t, at) ↦ rw (put_key, at, at) refl
  | inl below ↦ elim (Bool-cases (same e.id id)) [
    | inl found ↦ rw (put_key, below, found, below) refl
    | inr missed ↦ rw (put_key, below, missed, below) (lookup-put_key id value s i es)
  ]
]

pub PlainIds-put_key :
    (id value : List ℕ) (es : List Entry)
    → PlainId (some id)
    → PlainIds es
    → PlainIds (put_key id value es).1
unfolding put_key
PlainIds-put_key id value [] p ps = (p, refl)
PlainIds-put_key id value (e ∷ es) p (pe, ps) = elim (Option-cases e.section) [
  | inr (t, at) ↦ rw (put_key, at) (p, (pe, ps))
  | inl below ↦ elim (Bool-cases (same e.id id)) [
    | inl found ↦ rw (put_key, below, found) (pe, ps)
    | inr missed ↦ rw (put_key, below, missed) (pe, PlainIds-put_key id value es p ps)
  ]
]

pub lookup_in_cong :
    (i : List ℕ) (e : Entry) (xs ys : List Entry)
    → lookup_in i xs ≡ lookup_in i ys
    → lookup_in i (e ∷ xs) ≡ lookup_in i (e ∷ ys)
lookup_in_cong i e xs ys h =
    ap
      (λ r. elim e.section [
        | some _ ↦ none
        | none ↦ elim e.value [ none ↦ r | some v ↦ if same_id e.id i then some v else r ]
      ])
      h

-- The values of other sections do not depend on what is below the header of one.
module _ (s i : List ℕ) (h : Entry) (x y : List Entry) (name : List ℕ)
    (header : h.section ≡ some name) where
  lookup_in-across : (es : List Entry) → lookup_in i (es ++ (h ∷ x)) ≡ lookup_in i (es ++ (h ∷ y))
  lookup_in-across [] = rw header refl
  lookup_in-across (e ∷ es) =
      lookup_in_cong i e (es ++ (h ∷ x)) (es ++ (h ∷ y)) (lookup_in-across es)

  pub lookup-across :
      (es : List Entry)
      → bytes_eq name s ≡ false
      → lookup s i x ≡ lookup s i y
      → lookup s i (es ++ (h ∷ x)) ≡ lookup s i (es ++ (h ∷ y))
  lookup-across [] other agree = rw (header, other) agree
  lookup-across (e ∷ es) other agree = rw (lookup_in-across es, lookup-across es other agree) refl

  lookup_in-end : (es : List Entry) → lookup_in i (es ++ (h ∷ x)) ≡ lookup_in i es
  lookup_in-end [] = rw header refl
  lookup_in-end (e ∷ es) = lookup_in_cong i e (es ++ (h ∷ x)) es (lookup_in-end es)

  pub lookup-end :
      (es : List Entry)
      → bytes_eq name s ≡ false
      → lookup s i x ≡ none
      → lookup s i (es ++ (h ∷ x)) ≡ lookup s i es
  lookup-end [] other nothing = rw (header, other) nothing
  lookup-end (e ∷ es) other nothing = rw (lookup_in-end es, lookup-end es other nothing) refl

-- no entry is a header of the section
abbrev pub lacks : List ℕ → List Entry → Bool
lacks s [] = true
lacks s (e ∷ es) = let rest = lacks s es in if same e.section s then false else rest

pub lookup-lacks :
    (s i : List ℕ) (es at : List Entry) → lacks s es ≡ true → lookup s i (es ++ at) ≡ lookup s i at
lookup-lacks s i [] at l = refl
lookup-lacks s i (e ∷ es) at l = elim (Bool-cases (same e.section s)) [
  | inl found ↦ absurd (true≢false (sym l ∙ rw found refl))
  | inr missed ↦ rw missed (lookup-lacks s i es at (sym (rw missed refl) ∙ l))
]

-- What `seek` gives: the entries before the first header of the section, the header, and those below.
abbrev pub Split : List ℕ → List Entry → Type 0
Split s es =
    (before : List Entry) × (e : Entry) × (below : List Entry) × (seek s es
      ≡ some (before, e ∷ below))
    × (lacks s before ≡ true)
    × (e.section ≡ some s)
    × (es ≡ before ++ (e ∷ below))

pub seek-cases :
    (s : List ℕ) (es : List Entry) → ((seek s es ≡ none) × (lacks s es ≡ true)) ⊎ Split s es
unfolding seek
seek-cases s [] = inl (refl, refl)
seek-cases s (e ∷ es) = elim (Bool-cases (same e.section s)) [
  | inl found ↦ inr ([], e, es, rw (seek, found) refl, refl, same_sound e.section s found, refl)
  | inr missed ↦ elim (seek-cases s es) [
    | inl (nothing, l) ↦ inl (rw (seek, missed, nothing) refl, rw missed l)
    | inr (b, d, below, later, l, at, whole) ↦
        inr (e ∷ b, d, below, rw (seek, missed, later) refl, rw missed l, at, ap (λ t. e ∷ t) whole)
  ]
]

pub PlainIds-append : (xs ys : List Entry) → PlainIds (xs ++ ys) ↔ (PlainIds xs × PlainIds ys)
PlainIds-append [] ys = ((λ p. (refl, p)), (λ (_, p). p))
PlainIds-append (x ∷ xs) ys = (
  (λ (p, ps). let (a, b) = (PlainIds-append xs ys).0 ps in ((p, a), b)),
  (λ ((p, a), b). (p, (PlainIds-append xs ys).1 (a, b))),
)
