-- ===== src/Utils/Pid.antt =====
-- The process number that utils.c keeps in a file of cfgfile.c.
use cvos.Prelude.{ℕ, ◌+◌, ◌≤◌, ◌<◌, ◌≡◌, refl, sym, ◌∙◌, ap, arith, some_inj}
use cvos.Prelude.{List, [], ◌∷◌, map, Option, none, some, Option-cases, inl, inr, ◌⊎◌, true, false}
use cvos.Prelude.{ℤ, pos, neg, negsuc, is_neg, if◌then◌else◌, leb, length, ◌>>=◌}
use mathlib.Core.Option.{none-ne-some}
use cvos.Config.{Entry, Config, find}
use cvos.Config.Read.{get_string}
use cvos.Config.Lookup.{lookup, answer, find_lem}
use cvos.Config.Update.{PlainIds}
use cvos.Config.Text.{parse, output, trim, skip}
use cvos.Config.Roundtrip.{Item, header, define, entry_of, Clean, AllClean}
use cvos.Config.File.{Answers, Disk, pool_of}
use cvos.Config.Api.{write_number, read_number, read_value, buffer_size}
use cvos.Config.Save.{Works, opened, init-opened, write_str-Stored}
use cvos.Utils.{pid_name, log_my_pid, get_my_pid}

abbrev reply : Option (ℤ × Config) → Option (ℤ × List ℕ × Config)
reply none = none
reply (some (r, c)) =
    if is_neg r
    then some (neg 1, [], c)
    else elim c.value [ none ↦ none | some v ↦ some (pos 0, v, c) ]

reply-answer :
    (o : Option (ℤ × Config)) (v : List ℕ)
    → answer o ≡ some (some v)
    → (c : Config) × (reply o ≡ some (pos 0, v, c))
reply-answer none v h = absurd (none-ne-some _ h)
reply-answer (some (negsuc n, c)) v h = absurd (none-ne-some _ (some_inj h))
reply-answer (some (pos n, c)) v h = elim (Option-cases c.value) [
  | inl nothing ↦ absurd (none-ne-some _ (sym (rw nothing refl) ∙ h))
  | inr (w, has) ↦
      let same : some w ≡ some v = some_inj (sym (rw has refl) ∙ h) in
      let copied : Option (List ℕ) → Option (ℤ × List ℕ × Config) =
        λ o. elim o [ none ↦ none | some x ↦ some (pos 0, x, c) ] in
      (c, ap copied (has ∙ same))
]

get_string_lem :
    (sect id v : List ℕ) (c : Config)
    → c.valid ≡ true
    → lookup sect id c.entries ≡ some v
    → (c' : Config) × (get_string (some sect) (some id) c ≡ some (pos 0, v, c'))
unfolding get_string
get_string_lem sect id v c valid at =
    reply-answer (find (some sect) (some id) c) v (find_lem sect id c valid ∙ ap some at)

pid_header : Clean (header b'p' (b'i' ∷ b'd' ∷ []) none)
unfolding trim skip
pid_header = (refl, refl, refl, refl, refl)

read_number_lem :
    (atoi : List ℕ → ℤ) (cast : ℤ → ℤ) (default : Option ℤ) (sect id v image : List ℕ)
    (es : List Entry) (a : Answers) (disk : Disk)
    → Works a
    → disk.content ≡ some image
    → parse image ≡ some es
    → lookup sect id es ≡ some v
    → length v < buffer_size
    → read_number atoi cast default (some sect) (some id) a disk
      ≡ some (pos 0, some (cast (atoi v)))
unfolding read_number read_value
read_number_lem atoi cast default sect id v image es a disk works there reads at short =
    let h = opened es image disk.mtime in
    let (c', got) = get_string_lem sect id v h.config refl at in
    let fits : leb buffer_size (length v) ≡ false = ground arith in
    rw (read_number, init-opened false a disk image es works there reads, got, fits) refl

-- Into a file of clean headers, definitions and comments, whose ids have no quotes, and which is empty or leaves
-- room for two more entries in the pool: where the calls of the system succeed, `utl_LogMyPid` writes the
-- process number so that `utl_GetMyPid` gives it back, if its digits are a clean value shorter than 64 bytes
-- that `atoi` reads as the number.
pub pid_round_trip :
    (text : ℤ → List ℕ) (atoi : List ℕ → ℤ) (pid : ℤ) (ts : List Item) (a b : Answers) (disk : Disk)
    → atoi (text pid) ≡ pid
    → length (text pid) < buffer_size
    → Clean (define b'p' (b'i' ∷ b'd' ∷ []) (text pid))
    → Works a
    → Works b
    → disk.content ≡ some (output false (map entry_of ts))
    → AllClean ts
    → PlainIds (map entry_of ts)
    → (length (map entry_of ts) ≡ 0)
      ⊎ (length (map entry_of ts) + 2 ≤ pool_of (length (map entry_of ts)))
    → (log_my_pid text pid a disk >>= λ (ret, disk'). get_my_pid atoi b disk') ≡ some pid
unfolding log_my_pid get_my_pid write_number
pid_round_trip text atoi pid ts a b disk same short clean works works' there all plain room =
    let (disk', es, saved, content, reads, found) =
      write_str-Stored ts b'p' (b'i' ∷ b'd' ∷ []) b'p' (b'i' ∷ b'd' ∷ []) (text pid) pid_name
        pid_name a disk works there all plain room pid_header clean (λ x. refl) in
    ap (λ o. o >>= λ (ret, k). get_my_pid atoi b k) saved
    ∙ rw
        (
          get_my_pid,
          read_number_lem atoi (λ n. n) (some (neg 1)) pid_name pid_name (text pid)
              (output false es) es b disk' works' content reads found short,
        )
        (ap some same)
