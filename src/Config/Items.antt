-- ===== src/Config/Items.antt =====
-- What `cfg_write` stores is again what a file can hold.
use cvos.Prelude.{ℕ, ◌≡◌, refl, sym, ◌∙◌, ap, inl, inr, ◌⊎◌}
use cvos.Prelude.{List, [], ◌∷◌, ◌++◌, map, none, some, Option-cases, Bool-cases}
use cvos.Prelude.{length}
use mathlib.Core.List.{append_assoc}
use cvos.Config.{Entry, Config, same}
use cvos.Config.Write.{
  put_key, seek, pool_after, write_found, write_new, write_section, store_entry,
}
use cvos.Config.Pool.{After}
use cvos.Config.Roundtrip.{Item, header, define, remark, entry_of, Clean, AllClean}

map-append : (xs ys : List Item) → map entry_of (xs ++ ys) ≡ map entry_of xs ++ map entry_of ys
map-append [] ys = refl
map-append (x ∷ xs) ys = ap (λ r. entry_of x ∷ r) (map-append xs ys)

AllClean-append : (xs ys : List Item) → AllClean xs → AllClean ys → AllClean (xs ++ ys)
AllClean-append [] ys k l = l
AllClean-append (x ∷ xs) ys (k, ks) l = (k, AllClean-append xs ys ks l)

-- entries that a file can hold
abbrev pub Holdable : List Entry → Type 0
Holdable es = (ts : List Item) × (es ≡ map entry_of ts) × AllClean ts

Holdable-cons : (t : Item) (es : List Entry) → Clean t → Holdable es → Holdable (entry_of t ∷ es)
Holdable-cons t es k (ts, e, ks) = (t ∷ ts, ap (λ r. entry_of t ∷ r) e, (k, ks))

Holdable-append :
    (ts : List Item) (es : List Entry)
    → AllClean ts
    → Holdable es
    → Holdable (map entry_of ts ++ es)
Holdable-append ts es k (us, e, ks) = (
  ts ++ us,
  ap (λ r. map entry_of ts ++ r) e ∙ sym (map-append ts us),
  AllClean-append ts us k ks,
)

module _ (c : ℕ) (id value : List ℕ) (clean : Clean (define c id value)) where
  -- A key put below a header
  put_key-Holdable :
      (ts : List Item) → AllClean ts → Holdable (put_key (c ∷ id) value (map entry_of ts)).1
  unfolding put_key
  put_key-Holdable [] k = (define c id value ∷ [], refl, (clean, refl))
  put_key-Holdable (header d s text ∷ ts) (k, ks) =
      (define c id value ∷ header d s text ∷ ts, refl, (clean, (k, ks)))
  put_key-Holdable (remark text ∷ ts) (k, ks) =
      Holdable-cons (remark text) _ k (put_key-Holdable ts ks)
  put_key-Holdable (define d i v ∷ ts) (k, ks) = elim (Bool-cases (same (some (d ∷ i)) (c ∷ id))) [
    | inl found ↦
        let (w, o, m, l, t, a, _, _, _) = k in
        let (_, _, _, _, _, _, s, q, x) = clean in
        rw (put_key, found) (define d i value ∷ ts, refl, ((w, o, m, l, t, a, s, q, x), ks))
    | inr missed ↦ rw (put_key, missed) (Holdable-cons (define d i v) _ k (put_key-Holdable ts ks))
  ]

-- What `seek` gives of entries that a file can hold
seek-items :
    (sect : List ℕ) (ts : List Item)
    → AllClean ts
    → (seek sect (map entry_of ts) ≡ none)
      ⊎ ((us : List Item) × (t : Item) × (vs : List Item) × (seek sect (map entry_of ts)
            ≡ some (map entry_of us, entry_of t ∷ map entry_of vs))
          × (AllClean us × (Clean t × AllClean vs)))
unfolding seek
seek-items sect [] k = inl refl
seek-items sect (t ∷ ts) (k, ks) = elim (Bool-cases (same (entry_of t).section sect)) [
  | inl found ↦ inr ([], t, ts, rw (seek, found) refl, (refl, (k, ks)))
  | inr missed ↦ elim (seek-items sect ts ks) [
    | inl nothing ↦ inl (rw (seek, missed, nothing) refl)
    | inr (us, u, vs, later, (ku, kv)) ↦
        inr (t ∷ us, u, vs, rw (seek, missed, later) refl, ((k, ku), kv))
  ]
]

-- `cfg_write` of a clean name, key and value leaves entries that a file can hold.
pub write_section-Holdable :
    (d : ℕ) (name : List ℕ) (c : ℕ) (id value : List ℕ) (config : Config)
    → Clean (header d name none)
    → Clean (define c id value)
    → Holdable config.entries
    → After
        (λ (ret, config'). Holdable config'.entries)
        (write_section (d ∷ name) (some (c ∷ id)) (some value) config)
unfolding write_section write_found write_new store_entry
write_section-Holdable d name c id value config head clean (ts, e, ks) =
    let sect = d ∷ name in
    elim (seek-items sect ts ks) [
      | inl nothing ↦
          let none_there : seek sect config.entries ≡ none = ap (seek sect) e ∙ nothing in
          let both : AllClean (header d name none ∷ define c id value ∷ []) =
            (head, (clean, refl)) in
          rw (write_section, none_there)
            (
              ts ++ (header d name none ∷ define c id value ∷ []),
              append_assoc config.entries _ _
                  ∙ ap (λ r. r ++ map entry_of (header d name none ∷ define c id value ∷ [])) e
                  ∙ sym (map-append ts _),
              AllClean-append ts _ ks both,
            )
      | inr (us, t, vs, found, (ku, (kt, kv))) ↦
          let there : seek sect config.entries
              ≡ some (map entry_of us, entry_of t ∷ map entry_of vs) =
            ap (seek sect) e ∙ found in
          let put =
            Holdable-append us _ ku
              (Holdable-cons t _ kt (put_key-Holdable c id value clean vs kv)) in
          let place = (put_key (c ∷ id) value (map entry_of vs)).0 in
          elim (Option-cases (pool_after place (length config.entries) config.max_entries)) [
            | inl full ↦ rw (write_section, there, write_found, full) refl
            | inr (m, room) ↦ rw (write_section, there, write_found, room) put
          ]
    ]
