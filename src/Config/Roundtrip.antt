-- ===== src/Config/Roundtrip.antt =====
-- A configuration that is written and read again.
use cvos.Prelude.{ℕ, zero, suc, ◌≤◌, ◌<◌, ◌≡◌, refl, sym, ◌∙◌, ap, arith, inl, inr}
use cvos.Prelude.{List, [], ◌∷◌, ◌++◌, map, Option, none, some, Bool, true, false, Bool-cases}
use cvos.Prelude.{if◌then◌else◌, ◌==◌, length, length-append, ◌>>=◌}
use mathlib.Core.List.{append-nil}
use cvos.Config.{Entry}
use cvos.Config.Text.{is_white, is_space, skip, trim, get_line}
use cvos.Config.Text.{scan_value, parse_value, parse_comment, parse_header, parse_define}
use cvos.Config.Text.{parse_start, parse_line, parse_loop, parse, put_comment, put_line, put_blank}
use cvos.Config.Text.{next_skip, output}
use cvos.Config.Line.{all_text, all_text-append, lacks_char, get_line-text, trim-append, trim-cons}
use cvos.Config.Line.{split_at_char-first}

-- What stands in a file: a header, perhaps with a comment, a definition, a comment; the first byte of a
-- name and of an id is given apart.
pub data Item : Type 0 where
  header : ℕ → List ℕ → Option (List ℕ) → Item
  define : ℕ → List ℕ → List ℕ → Item
  remark : List ℕ → Item

abbrev pub entry_of : Item → Entry
entry_of (header c s text) = record {
  section = some (c ∷ s);
  id = none;
  value = none;
  comment = text;
}
entry_of (define c i v) = record {
  section = none;
  id = some (c ∷ i);
  value = some v;
  comment = none;
}
entry_of (remark text) = record { section = none; id = none; value = none; comment = some text }

-- the text of a comment: on one line, and not white at its end
abbrev pub CleanText : List ℕ → Type 0
CleanText s = (all_text s ≡ true) × (trim is_white s ≡ s)

abbrev pub CleanComment : Option (List ℕ) → Type 0
CleanComment none = true ≡ true
CleanComment (some text) = CleanText text

-- A name and an id do not start or end with white bytes and have no `]` or `=`; an id does not start as a
-- header or a comment does. A value does not start or end with white bytes and has no mark of a comment
-- after a white byte outside of quotes.
abbrev pub Clean : Item → Type 0
Clean (header c s text) =
    (is_white c ≡ false)
    × (lacks_char b']' (c ∷ s) ≡ true)
    × (trim is_space (c ∷ s) ≡ c ∷ s)
    × (all_text (c ∷ s) ≡ true)
    × CleanComment text
Clean (define c i v) =
    (is_white c ≡ false)
    × ((c == b'[') ≡ false)
    × ((c == b';') ≡ false)
    × (lacks_char b'=' (c ∷ i) ≡ true)
    × (trim is_space (c ∷ i) ≡ c ∷ i)
    × (all_text (c ∷ i) ≡ true)
    × (skip is_white v ≡ v)
    × (scan_value 0 true v ≡ (v, none))
    × CleanText v
Clean (remark text) = CleanText text

abbrev pub AllClean : List Item → Type 0
AllClean [] = true ≡ true
AllClean (t ∷ ts) = Clean t × AllClean ts

parse_line-put_line : (t : Item) → Clean t → parse_line (put_line (entry_of t)) ≡ some (entry_of t)
unfolding parse_line parse_start put_line parse_header parse_define parse_value put_comment skip
    parse_comment
parse_line-put_line (header c s none) (w, l, t, a, k) =
    rw
      (
        put_line,
        parse_line,
        parse_start,
        parse_header,
        skip,
        w,
        split_at_char-first b']' (c ∷ s) [] l,
        t,
      )
      refl
parse_line-put_line (header c s (some text)) (w, l, t, a, k) =
    rw
      (
        put_line,
        parse_line,
        parse_start,
        parse_header,
        skip,
        w,
        split_at_char-first b']' (c ∷ s) (9 ∷ b';' ∷ text) l,
        t,
      )
      refl
parse_line-put_line (define c i v) (w, o, m, l, t, a, s, q, k) =
    let line = (c ∷ i) ++ (b'=' ∷ v) in
    let start : parse_line line ≡ parse_start false line = rw (parse_line, skip, w) refl in
    let key : parse_start false line ≡ parse_define line = rw (parse_start, o, m) refl in
    ap (λ r. parse_line ((c ∷ i) ++ (b'=' ∷ r))) (append-nil v)
    ∙ start
    ∙ key
    ∙ rw (parse_define, split_at_char-first b'=' (c ∷ i) v l, s, parse_value, q, s, q, t) refl
parse_line-put_line (remark text) k = refl

-- the bytes of a line, the first of them apart
abbrev Bytes : List ℕ → Type 0
Bytes line =
    (c : ℕ) × (s : List ℕ) × (line ≡ c ∷ s) × (all_text line ≡ true) × (trim is_white line ≡ line)

-- A printed entry is a line that reading does not change.
put_line-Bytes : (t : Item) → Clean t → Bytes (put_line (entry_of t))
unfolding put_line put_comment trim
put_line-Bytes (header c s none) (w, l, t, a, k) = (
  b'[',
  _,
  refl,
  all_text-append (c ∷ s) (b']' ∷ []) a refl,
  trim-append is_white (b'[' ∷ c ∷ s) b']' [] (trim-cons is_white b']' [] refl refl),
)
put_line-Bytes (header c s (some text)) (w, l, t, a, (ka, kt)) = (
  b'[',
  _,
  refl,
  all_text-append (c ∷ s) (b']' ∷ 9 ∷ b';' ∷ text) a ka,
  trim-append is_white (b'[' ∷ c ∷ s) b']' (9 ∷ b';' ∷ text)
      (trim-append is_white (b']' ∷ 9 ∷ []) b';' text (trim-cons is_white b';' text refl kt)),
)
put_line-Bytes (define c i v) (w, o, m, l, t, a, s, q, (ka, kt)) = (
  c,
  _,
  refl,
  all_text-append (c ∷ i) (b'=' ∷ (v ++ [])) a (rw (append-nil v) ka),
  trim-append is_white (c ∷ i) b'=' (v ++ [])
      (trim-cons is_white b'=' (v ++ []) refl (rw (append-nil v) kt)),
)
put_line-Bytes (remark text) (ka, kt) = (b';', text, refl, ka, trim-cons is_white b';' text refl kt)

-- A turn of the loop at a line
turn : ℕ → List ℕ × List ℕ → Option (List Entry)
turn fuel (line, rest) =
    parse_loop fuel rest >>= λ es. some (elim (parse_line line) [ none ↦ es | some e ↦ e ∷ es ])

turn-blank :
    (fuel c : ℕ) (s rest : List ℕ) (blank : Bool)
    → get_line ((c ∷ s) ++ (10 ∷ rest)) ≡ (c ∷ s, rest)
    → parse_loop
        (suc fuel)
        (if blank then 10 ∷ ((c ∷ s) ++ (10 ∷ rest)) else (c ∷ s) ++ (10 ∷ rest))
      ≡ turn fuel (c ∷ s, rest)
unfolding parse_loop turn get_line skip
turn-blank fuel c s rest true got = ap (turn fuel) got
turn-blank fuel c s rest false got = ap (turn fuel) got

-- an entry's line, perhaps after a blank one, as `_cfg_parse` reads it
parse_loop-line :
    (fuel : ℕ) (blank : Bool) (line rest : List ℕ) (e : Entry)
    → Bytes line
    → parse_line line ≡ some e
    → parse_loop (suc fuel) (if blank then 10 ∷ (line ++ (10 ∷ rest)) else line ++ (10 ∷ rest))
      ≡ (parse_loop fuel rest >>= λ es. some (e ∷ es))
unfolding turn
parse_loop-line fuel blank line rest e (c, s, named, text, whole) reads =
    let text' : all_text (c ∷ s) ≡ true = ap all_text (sym named) ∙ text in
    let whole' : trim is_white (c ∷ s) ≡ c ∷ s = ap (trim is_white) (sym named) ∙ whole ∙ named in
    let reads' : parse_line (c ∷ s) ≡ some e = ap parse_line (sym named) ∙ reads in
    let put : List ℕ → List ℕ = λ l. if blank then 10 ∷ (l ++ (10 ∷ rest)) else l ++ (10 ∷ rest) in
    let then_add : Option Entry → Option (List Entry) =
      λ o. parse_loop fuel rest >>= λ es. some (elim o [ none ↦ es | some e' ↦ e' ∷ es ]) in
    ap (λ l. parse_loop (suc fuel) (put l)) named
    ∙ turn-blank fuel c s rest blank (get_line-text c s rest text' whole')
    ∙ ap then_add reads'

parse_loop-output :
    (fuel : ℕ) (may : Bool) (ts : List Item)
    → length ts < fuel
    → AllClean ts
    → parse_loop fuel (output may (map entry_of ts)) ≡ some (map entry_of ts)
unfolding parse_loop output
parse_loop-output zero may ts l k = absurd (omega arith)
parse_loop-output (suc fuel) may [] l k = refl
parse_loop-output (suc fuel) may (t ∷ ts) l (k, ks) =
    let e = entry_of t in
    let es = map entry_of ts in
    let blank = put_blank may e es in
    parse_loop-line fuel blank (put_line e) (output (next_skip may e blank) es) e
      (put_line-Bytes t k) (parse_line-put_line t k)
    ∙ ap (λ o. o >>= λ es'. some (e ∷ es'))
        (parse_loop-output fuel (next_skip may e blank) ts (omega arith) ks)

length-output : (may : Bool) (es : List Entry) → length es ≤ length (output may es)
unfolding output
length-output may [] = omega arith
length-output may (e ∷ es) = elim (Bool-cases (put_blank may e es)) [
  | inl blank ↦
      rw (output, blank)
        (omega (
          arith,
          length-append (put_line e) (10 ∷ output (next_skip may e true) es),
          length-output (next_skip may e true) es,
        ))
  | inr none_due ↦
      rw (output, none_due)
        (omega (
          arith,
          length-append (put_line e) (10 ∷ output (next_skip may e false) es),
          length-output (next_skip may e false) es,
        ))
]

length-map_entry : (ts : List Item) → length (map entry_of ts) ≡ length ts
length-map_entry [] = refl
length-map_entry (t ∷ ts) = ap suc (length-map_entry ts)

-- What `_cfg_output` writes of clean headers, definitions and comments, `_cfg_parse` reads back as the same
-- entries, in the same order.
pub parse-output :
    (ts : List Item) → AllClean ts → parse (output false (map entry_of ts)) ≡ some (map entry_of ts)
unfolding parse
parse-output ts k =
    let image = output false (map entry_of ts) in
    parse_loop-output (suc (length image)) false ts
      (omega (arith, length-output false (map entry_of ts), length-map_entry ts)) k
