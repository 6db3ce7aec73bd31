-- ===== src/Config/Save.antt =====
-- A value that is written to a file is read back from it: `Cfg_WriteStr` and then `Cfg_ReadStr`.
use cvos.Prelude.{ℕ, ◌+◌, ◌≤◌, ◌≡◌, refl, sym, ◌∙◌, ap, subst, some_inj}
use cvos.Prelude.{
  List, ◌∷◌, map, Option, none, some, Option-cases, inl, inr, ◌⊎◌, Bool, true, false,
}
use cvos.Prelude.{ℤ, pos, neg, negsuc, is_neg, is_zero, if◌then◌else◌, length, ◌>>=◌}
use mathlib.Core.Option.{none-ne-some}
use cvos.Config.{Entry, Config, find}
use cvos.Config.Read.{get_string2}
use cvos.Config.Write.{write_section}
use cvos.Config.Lookup.{lookup, answer, find_lem}
use cvos.Config.Update.{PlainId, PlainIds}
use cvos.Config.Assign.{assigned, written, Written, valid-section}
use cvos.Config.Pool.{After}
use cvos.Config.Text.{parse, output}
use cvos.Config.Roundtrip.{Item, header, define, entry_of, Clean, AllClean, parse-output}
use cvos.Config.Items.{Holdable, write_section-Holdable}
use cvos.Config.File.{Answers, Disk, Handle, free_image, empty_config, pool_of, take_image, refresh}
use cvos.Config.File.{init_at, init, commit, created}
use cvos.Config.Api.{save, write_str, read_str}

-- what `cfg_getstring2` copies
abbrev pub or_default : List ℕ → Option (List ℕ) → List ℕ
or_default defval none = defval
or_default defval (some v) = v

abbrev reply : List ℕ → Option (ℤ × Config) → Option (ℤ × List ℕ × Config)
reply defval none = none
reply defval (some (r, c)) =
    if is_neg r
    then some (pos 0, defval, c)
    else elim c.value [ none ↦ none | some v ↦ some (pos 0, v, c) ]

reply-answer :
    (defval : List ℕ) (o : Option (ℤ × Config)) (value : Option (List ℕ))
    → answer o ≡ some value
    → (c : Config) × (reply defval o ≡ some (pos 0, or_default defval value, c))
reply-answer defval none value h = absurd (none-ne-some _ h)
reply-answer defval (some (negsuc n, c)) value h =
    (c, ap (λ v. some (pos 0, or_default defval v, c)) (some_inj h))
reply-answer defval (some (pos n, c)) value h = elim (Option-cases c.value) [
  | inl nothing ↦ absurd (none-ne-some _ (sym (rw nothing refl) ∙ h))
  | inr (v, has) ↦
      let same : some v ≡ value = some_inj (sym (rw has refl) ∙ h) in
      let copied : Option (List ℕ) → Option (ℤ × List ℕ × Config) =
        λ o. elim o [ none ↦ none | some w ↦ some (pos 0, w, c) ] in
      (c, ap copied has ∙ ap (λ w. some (pos 0, or_default defval w, c)) same)
]

get_string2_lem :
    (sect id defval : List ℕ) (c : Config)
    → c.valid ≡ true
    → (c' : Config) × (get_string2 (some sect) (some id) defval c
        ≡ some (pos 0, or_default defval (lookup sect id c.entries), c'))
unfolding get_string2
get_string2_lem sect id defval c v =
    reply-answer defval (find (some sect) (some id) c) _ (find_lem sect id c v)

-- the calls all succeed
abbrev pub Works : Answers → Type 0
Works a =
    (a.opens ≡ true) × (a.locks ≡ true) × (a.stats ≡ true) × (a.reads ≡ true) × (a.fopens ≡ true)

abbrev pub opened : List Entry → List ℕ → ℕ → Handle
opened es image time = record free_image {
  config = record empty_config { valid = true; entries = es; max_entries = pool_of (length es) };
  image = some image;
  size = length image;
  mtime = time;
}

pub init-opened :
    (create : Bool) (a : Answers) (disk : Disk) (image : List ℕ) (es : List Entry)
    → Works a
    → disk.content ≡ some image
    → parse image ≡ some es
    → init create a disk ≡ some (pos 0, some (opened es image disk.mtime), disk)
unfolding init init_at refresh take_image
init-opened create a disk image es (o, l, s, r, f) there reads =
    let got : refresh a disk free_image ≡ some (pos 0, opened es image disk.mtime) =
      rw (refresh, there, o, l, s, r, take_image, reads) refl in
    let at : init_at a disk ≡ some (pos 0, some (opened es image disk.mtime), disk) =
      ap
        (λ x. x >>= λ out.
          if is_zero out.0 then some (pos 0, some out.1, disk) else some (neg 11, none, disk))
        got in
    ap
      (λ c. elim c [
        | some _ ↦ init_at a disk
        | none ↦ if create then init_at a (created a disk) else some (neg 2, none, disk)
      ])
      there
    ∙ at

-- `cfg_commit` of a changed configuration writes it out.
commit-written :
    (a : Answers) (h : Handle) (disk : Disk) (image : List ℕ)
    → Works a
    → disk.content ≡ some image
    → h.config.valid ≡ true
    → h.config.dirty ≡ true
    → (commit a h disk).0 ≡ pos 0
      × ((commit a h disk).2
          ≡ record { content = some (output false h.config.entries); mtime = a.now })
unfolding commit
commit-written a h disk image (o, l, s, r, f) there v d =
    (rw (commit, v, d, there, o, l, f) refl, rw (commit, v, d, there, o, l, f) refl)

read_str_lem :
    (a : Answers) (disk : Disk) (image : List ℕ) (es : List Entry) (sect id defval : List ℕ)
    → Works a
    → disk.content ≡ some image
    → parse image ≡ some es
    → read_str (some sect) (some id) defval a disk
      ≡ some (pos 0, or_default defval (lookup sect id es))
unfolding read_str
read_str_lem a disk image es sect id defval works there reads =
    let h = opened es image disk.mtime in
    let (c', got) = get_string2_lem sect id defval h.config refl in
    rw (read_str, init-opened false a disk image es works there reads, got) refl

parse-Holdable : (es : List Entry) → Holdable es → parse (output false es) ≡ some es
parse-Holdable es (ts, e, k) =
    ap (λ r. parse (output false r)) e ∙ parse-output ts k ∙ ap some (sym e)

-- what is stored by a call of `Cfg_WriteStr` that succeeds, for a section and an id
abbrev pub Stored : List Item → List ℕ → List ℕ → List ℕ → List ℕ → List ℕ → Answers → Disk → Type 0
Stored ts name key value sect id a disk =
    (disk' : Disk) × (es : List Entry) × (write_str (some name) (some key) (some value) a disk
      ≡ some (pos 0, disk'))
    × (disk'.content ≡ some (output false es))
    × (parse (output false es) ≡ some es)
    × (lookup sect id es ≡ assigned name key value sect id (lookup sect id (map entry_of ts)))

pub write_str-Stored :
    (ts : List Item) (d : ℕ) (name : List ℕ) (c : ℕ) (key value sect id : List ℕ) (a : Answers)
    (disk : Disk)
    → Works a
    → disk.content ≡ some (output false (map entry_of ts))
    → AllClean ts
    → PlainIds (map entry_of ts)
    → (length (map entry_of ts) ≡ 0)
      ⊎ (length (map entry_of ts) + 2 ≤ pool_of (length (map entry_of ts)))
    → Clean (header d name none)
    → Clean (define c key value)
    → PlainId (some (c ∷ key))
    → Stored ts (d ∷ name) (c ∷ key) value sect id a disk
unfolding write_str save
write_str-Stored ts d name c key value sect id a disk works there clean plain room head item
      plain_key =
    let es = map entry_of ts in
    let h = opened es (output false es) disk.mtime in
    let (config', runs, v, dirty, reads) : Written (d ∷ name) (c ∷ key) value sect id plain_key
        h.config refl room plain =
      written (d ∷ name) (c ∷ key) value sect id plain_key h.config refl room plain in
    let section_runs : write_section (d ∷ name) (some (c ∷ key)) (some value) h.config
        ≡ some (pos 0, config') =
      sym (valid-section (d ∷ name) (some (c ∷ key)) (some value) h.config refl) ∙ runs in
    let holds : Holdable config'.entries =
      subst (After (λ (ret, k). Holdable k.entries)) section_runs
        (write_section-Holdable d name c key value h.config head item (ts, refl, clean)) in
    let h' : Handle = record h { config = config' } in
    let saved : write_str (some (d ∷ name)) (some (c ∷ key)) (some value) a disk
        ≡ some ((commit a h' disk).0, (commit a h' disk).2) =
      rw
        (
          write_str,
          init-opened true a disk (output false es) es works there (parse-output ts clean),
          save,
          runs,
        )
        refl in
    let disk' : Disk = record { content = some (output false config'.entries); mtime = a.now } in
    let (done, now) = commit-written a h' disk (output false es) works there v dirty in
    (
      disk',
      config'.entries,
      saved ∙ ap (λ r. some (r, (commit a h' disk).2)) done ∙ ap (λ k. some (pos 0, k)) now,
      refl,
      parse-Holdable config'.entries holds,
      reads,
    )

-- A file of clean headers, definitions and comments, whose ids have no quotes, and which is empty or leaves
-- room for two more entries in the pool: where the calls of the system succeed, after `Cfg_WriteStr` of a
-- value under a name and a key, all of them clean and the key without quotes, `Cfg_ReadStr` of that key gives
-- the value, and of any other key what the file gave before, or the default.
pub read_str-write_str :
    (ts : List Item) (d : ℕ) (name : List ℕ) (c : ℕ) (key value sect id defval : List ℕ)
    (a : Answers) (disk : Disk)
    → Works a
    → disk.content ≡ some (output false (map entry_of ts))
    → AllClean ts
    → PlainIds (map entry_of ts)
    → (length (map entry_of ts) ≡ 0)
      ⊎ (length (map entry_of ts) + 2 ≤ pool_of (length (map entry_of ts)))
    → Clean (header d name none)
    → Clean (define c key value)
    → PlainId (some (c ∷ key))
    → (write_str (some (d ∷ name)) (some (c ∷ key)) (some value) a disk >>= λ (ret, disk').
        read_str (some sect) (some id) defval a disk')
      ≡ some (
        pos 0,
        or_default defval
            (assigned (d ∷ name) (c ∷ key) value sect id (lookup sect id (map entry_of ts))),
      )
read_str-write_str ts d name c key value sect id defval a disk works there clean plain room head
      item plain_key =
    let (disk', es, saved, content, reads, found) =
      write_str-Stored ts d name c key value sect id a disk works there clean plain room head item
        plain_key in
    ap (λ o. o >>= λ (ret, k). read_str (some sect) (some id) defval a k) saved
    ∙ read_str_lem a disk' (output false es) es sect id defval works content reads
    ∙ ap (λ o. some (pos 0, or_default defval o)) found

-- Of two valid configurations of one file, both changed, `cfg_commit` of the one and then of the other leaves
-- what the other alone would have left, where the calls of the system succeed: the changes of the first are
-- gone.
pub commit-commit :
    (a b : Answers) (h h' : Handle) (disk : Disk) (image : List ℕ)
    → Works a
    → Works b
    → disk.content ≡ some image
    → h.config.valid ≡ true
    → h.config.dirty ≡ true
    → h'.config.valid ≡ true
    → h'.config.dirty ≡ true
    → (commit b h' (commit a h disk).2).2 ≡ (commit b h' disk).2
commit-commit a b h h' disk image works works' there v d v' d' =
    let (_, first) = commit-written a h disk image works there v d in
    let middle : Disk = record { content = some (output false h.config.entries); mtime = a.now } in
    let (_, second) = commit-written b h' middle _ works' refl v' d' in
    let (_, alone) = commit-written b h' disk image works' there v' d' in
    ap (λ k. (commit b h' k).2) first ∙ second ∙ sym alone
