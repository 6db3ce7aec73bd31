-- ===== src/Config/Pool.antt =====
-- The pool of the entries of cfgfile.c: `numEntries` is at most `maxEntries`.
use mathlib.Core.Option.{none-ne-some}
use cvos.Prelude.{ℕ, zero, suc, ◌+◌, ◌≤◌, ◌≡◌, refl, sym, ◌∙◌, ap, subst, arith, inl, inr}
use cvos.Prelude.{List, [], ◌∷◌, ◌++◌, Option, none, some, Option-cases, some_inj, Bool-cases}
use cvos.Prelude.{ℤ, pos, length, length-append, drop, ◌>>=◌, leb, if◌then◌else◌, true}
use cvos.Config.{Entry, Config, same}
use cvos.Config.Write.{put_key, pool_for, pool_after, Place, updated, inserted, appended}
use cvos.Config.Write.{is_block, trim_block, seek_key, next_section, delete_section, delete_key}
use cvos.Config.Write.{write_found, write_new, write_section, write_plain, write, store_entry}
use cvos.Config.Write.{update_first}
use cvos.Config.Update.{seek-cases}

-- The pool has room for its entries.
abbrev pub Fits : Config → Type 0
Fits c = length c.entries ≤ c.max_entries

pool_for_room : (n max : ℕ) → n ≤ max → n + 1 ≤ pool_for n max
unfolding pool_for
pool_for_room n max h = ground arith

store_entry-Fits :
    (sect id value comment : Option (List ℕ)) (c : Config)
    → Fits c
    → Fits (store_entry sect id value comment c)
unfolding store_entry
store_entry-Fits sect id value comment c h =
    omega (arith, length-append c.entries, pool_for_room (length c.entries) c.max_entries h)

-- what holds of a result that is no fault
abbrev pub After {ℓ} : {A : Type ℓ} → (A → Type 0) → Option A → Type 0
After P none = true ≡ true
After P (some a) = P a

length-update_first :
    (id value : List ℕ) (es : List Entry)
    → After (λ es'. length es' ≡ length es) (update_first id value es)
unfolding update_first
length-update_first id value [] = refl
length-update_first id value (e ∷ es) = elim (Bool-cases (same e.id id)) [
  | inl found ↦ rw (update_first, found) refl
  | inr missed ↦
      let rest = length-update_first id value es in
      elim (Option-cases (update_first id value es)) [
        | inl nothing ↦ rw (update_first, missed, nothing) refl
        | inr (r, later) ↦
            rw (update_first, missed, later)
              (ap suc (subst (After (λ es'. length es' ≡ length es)) later rest))
      ]
]

-- how many entries a put key adds
abbrev grows : Place → ℕ
grows updated = 0
grows inserted = 1
grows appended = 1

length-put_key :
    (id value : List ℕ) (es : List Entry)
    → length (put_key id value es).1 ≡ length es + grows (put_key id value es).0
unfolding put_key
length-put_key id value [] = refl
length-put_key id value (e ∷ es) = elim (Option-cases e.section) [
  | inr (s, at) ↦ rw (put_key, at) (omega arith)
  | inl below ↦ elim (Bool-cases (same e.id id)) [
    | inl found ↦ rw (put_key, below, found) (omega arith)
    | inr missed ↦ rw (put_key, below, missed) (omega (arith, length-put_key id value es))
  ]
]

pool_after-room :
    (p : Place) (n max m : ℕ) → pool_after p n max ≡ some m → n ≤ max → n + grows p ≤ m
unfolding pool_after
pool_after-room updated n max m h l = let e = some_inj h in omega arith
pool_after-room inserted n max m h l = elim (Bool-cases (leb (n + 2) max)) [
  | inl room ↦ let e : max ≡ m = some_inj (sym (rw (pool_after, room) refl) ∙ h) in ground arith
  | inr full ↦ absurd (none-ne-some _ (sym (rw (pool_after, full) refl) ∙ h))
]
pool_after-room appended n max m h l =
    let e : pool_for n max ≡ m = some_inj h in omega (arith, pool_for_room n max l)

length-trim_block : (es : List Entry) → length (trim_block es) ≤ length es
unfolding trim_block
length-trim_block [] = omega arith
length-trim_block (e ∷ es) =
    let rest = length-trim_block es in
    elim (trim_block es)
        as (λ t.
          length t ≤ length es
          → length (elim t [ [] ↦ if is_block e then [] else e ∷ [] | d ∷ ds ↦ e ∷ d ∷ ds ])
            ≤ suc (length es)) [ [] ↦ λ h. ground arith | d ∷ ds ↦ λ h. omega arith ]
      rest

length-drop {ℓ} : {A : Type ℓ} (n : ℕ) (xs : List A) → length (drop n xs) ≤ length xs
length-drop zero xs = omega arith
length-drop (suc n) [] = omega arith
length-drop (suc n) (x ∷ xs) = omega (arith, length-drop n xs)

length-seek_key :
    (id : List ℕ) (es : List Entry)
    → After (λ (before, after). length before + length after ≤ length es) (seek_key id es)
unfolding seek_key
length-seek_key id [] = refl
length-seek_key id (e ∷ es) = elim (Option-cases e.section) [
  | inr (s, at) ↦ rw (seek_key, at) refl
  | inl below ↦ elim (Bool-cases (same e.id id)) [
    | inl found ↦ rw (seek_key, below, found) (omega arith)
    | inr missed ↦
        let rest = length-seek_key id es in
        elim (Option-cases (seek_key id es)) [
          | inl nothing ↦ rw (seek_key, below, missed, nothing) refl
          | inr ((b, a), later) ↦
              let fewer : length b + length a ≤ length es =
                subst (After (λ (b', a'). length b' + length a' ≤ length es)) later rest in
              rw (seek_key, below, missed, later) (omega arith)
        ]
  ]
]

length-next_section :
    (es : List Entry) → length (next_section es).0 + length (next_section es).1 ≡ length es
unfolding next_section
length-next_section [] = refl
length-next_section (e ∷ es) = elim (Option-cases e.section) [
  | inr (s, at) ↦ rw (next_section, at) (omega arith)
  | inl below ↦ rw (next_section, below) (omega (arith, length-next_section es))
]

length-delete_key :
    (id : List ℕ) (below : List Entry)
    → After (λ es. length es ≤ length below) (delete_key id below)
unfolding delete_key
length-delete_key id below = elim (Option-cases (seek_key id below)) [
  | inl nothing ↦ rw (delete_key, nothing) refl
  | inr ((b, a), found) ↦
      let fewer : length b + length a ≤ length below =
        subst (After (λ (b', a'). length b' + length a' ≤ length below)) found
          (length-seek_key id below) in
      rw (delete_key, found) (omega (arith, length-append (trim_block b) a, length-trim_block b))
]

length-delete_section :
    (before below : List Entry)
    → After (λ es. length es ≤ length before + length below) (delete_section before below)
unfolding delete_section
length-delete_section before below =
    let (body, later) = next_section below in
    let kept = drop (length (trim_block body)) body in
    let whole : length body + length later ≡ length below = length-next_section below in
    elim (trim_block before)
        as (λ t.
          length t ≤ length before
          → After (λ es. length es ≤ length before + length below)
              (elim t [ [] ↦ none | e ∷ es ↦ some ((e ∷ es) ++ (kept ++ later)) ])) [
                | [] ↦ λ h. refl
                | e ∷ es ↦ λ h. omega (
                  arith,
                  length-append es (kept ++ later),
                  length-append kept later,
                  length-drop (length (trim_block body)) body,
                )
              ]
      (length-trim_block before)

-- the pool after a call that is no fault
abbrev pub FitsAfter : Option (ℤ × Config) → Type 0
FitsAfter r = After (λ (ret, c). Fits c) r

write_found-Fits :
    (before : List Entry) (e : Entry) (below : List Entry) (id value : Option (List ℕ)) (c : Config)
    → c.entries ≡ before ++ (e ∷ below)
    → Fits c
    → FitsAfter (write_found before e below id value c)
unfolding write_found
write_found-Fits before e below none value c whole h =
    let size : length c.entries ≡ length before + suc (length below) =
      ap length whole ∙ length-append before (e ∷ below) in
    let bound = length-delete_section before below in
    elim (delete_section before below)
        as (λ r.
          After (λ es. length es ≤ length before + length below) r
          → FitsAfter (r >>= λ es. some (pos 0, record c { dirty = true; entries = es }))) [
            | none ↦ λ b. refl
            | some es ↦ λ b. omega arith
          ]
      bound
write_found-Fits before e below (some id) none c whole h =
    let size : length c.entries ≡ length before + suc (length below) =
      ap length whole ∙ length-append before (e ∷ below) in
    elim (delete_key id below)
        as (λ r.
          After (λ es. length es ≤ length below) r
          → FitsAfter (elim r [
            | none ↦ some (pos 0, c)
            | some es ↦ some (pos 0, record c { dirty = true; entries = before ++ (e ∷ es) })
          ])) [ none ↦ λ b. h | some es ↦ λ b. omega (arith, length-append before (e ∷ es)) ]
      (length-delete_key id below)
write_found-Fits before e below (some id) (some value) c whole h =
    let size : length c.entries ≡ length before + suc (length below) =
      ap length whole ∙ length-append before (e ∷ below) in
    let put = (put_key id value below).1 in
    elim (Option-cases (pool_after (put_key id value below).0 (length c.entries) c.max_entries)) [
      | inl full ↦ rw (write_found, full) refl
      | inr (m, room) ↦
          let fits = pool_after-room (put_key id value below).0 _ _ m room h in
          rw (write_found, room)
            (omega (arith, length-append before (e ∷ put), length-put_key id value below))
    ]

write_new-Fits :
    (sect : List ℕ) (id value : Option (List ℕ)) (c : Config)
    → Fits c
    → Fits (write_new sect id value c).1
unfolding write_new
write_new-Fits sect none value c h = h
write_new-Fits sect (some id) none c h = h
write_new-Fits sect (some id) (some value) c h =
    store_entry-Fits none (some id) (some value) none (store_entry (some sect) none none none c)
      (store_entry-Fits (some sect) none none none c h)

write_section-Fits :
    (sect : List ℕ) (id value : Option (List ℕ)) (c : Config)
    → Fits c
    → FitsAfter (write_section sect id value c)
unfolding write_section
write_section-Fits sect id value c h = elim (seek-cases sect c.entries) [
  | inl (nothing, l) ↦ rw (write_section, nothing) (write_new-Fits sect id value c h)
  | inr (before, e, below, found, l, at, whole) ↦
      rw (write_section, found) (write_found-Fits before e below id value c whole h)
]

write_plain-Fits :
    (id value : Option (List ℕ)) (c : Config) → Fits c → FitsAfter (write_plain id value c)
unfolding write_plain
write_plain-Fits none value c h = refl
write_plain-Fits (some id) none c h = refl
write_plain-Fits (some id) (some value) c h =
    elim (update_first id value c.entries)
        as (λ r.
          After (λ es. length es ≡ length c.entries) r
          → FitsAfter (r >>= λ es. some (pos 0, record c { dirty = true; entries = es }))) [
            | none ↦ λ b. refl
            | some es ↦ λ b. omega arith
          ]
      (length-update_first id value c.entries)

-- Where `numEntries` is at most `maxEntries`, it is so after `cfg_write`, whatever this is called with and
-- whichever way it ends without a fault.
pub write-Fits :
    (sect id value : Option (List ℕ)) (c : Config) → Fits c → FitsAfter (write sect id value c)
unfolding write
write-Fits sect id value c h = elim (Bool-cases c.valid) [
  | inr bad ↦ rw (write, bad) h
  | inl good ↦ elim sect as (λ s. FitsAfter (write s id value c)) [
    | none ↦
        let runs : write none id value c ≡ write_plain id value c = rw (write, good) refl in
        subst FitsAfter (sym runs) (write_plain-Fits id value c h)
    | some name ↦
        let runs : write (some name) id value c ≡ write_section name id value c =
          rw (write, good) refl in
        subst FitsAfter (sym runs) (write_section-Fits name id value c h)
  ]
]
