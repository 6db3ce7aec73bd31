-- ===== src/Config/Tests.antt =====
-- Runs of the configuration, and its theorems at concrete inputs.
use cvos.Prelude.{inr}
use cvos.Prelude.{◌≡◌, refl, arith, List, [], ◌∷◌, none, some, true, false, pos, ◌>>=◌}
use cvos.Prelude.{ℕ, length, map}
use cvos.Config.{Entry, Kind, Config, find, find_loop, next_entry, scan, rewind, turn_in, turn_out}
use cvos.Config.Read.{get_string}
use cvos.Config.Write.{write, write_section, write_found, seek, put_key, pool_after}
use cvos.Config.Write.{delete_key, seek_key, trim_block, pool_for}
use cvos.Config.Lookup.{answer, find_lem}
use cvos.Config.Assign.{find-write}
use cvos.Config.Pool.{write-Fits, FitsAfter}
use cvos.Config.Delete.{find-delete}
use cvos.Config.Section.{}
use cvos.Config.Text.{parse, parse_loop, parse_line, parse_start, parse_define, parse_value}
use cvos.Config.Text.{scan_value, split_at_char, get_line, take_line, skip, trim, output}
use cvos.Config.Text.{put_line, put_comment, put_blank, next_skip}
use cvos.Config.Parse.{parse_ends}
use cvos.Config.Roundtrip.{Item, header, define, entry_of, parse-output}
use cvos.Config.File.{Answers, Disk, Handle, free_image, commit, pool_of}
use cvos.Config.Api.{write_str, read_str}
use cvos.Config.Save.{read_str-write_str, commit-commit}

abbrev titled : List ℕ → Entry
titled s = record { section = some s; id = none; value = none; comment = none }

abbrev key : List ℕ → List ℕ → Entry
key i v = record { section = none; id = some i; value = some v; comment = none }

abbrev note : Entry
note = record { section = none; id = none; value = none; comment = some (32 ∷ 65 ∷ []) }

-- `[s]`, `a=1`, a comment, `b=2`, `[t]`, `a=3`
abbrev entries : List Entry
entries =
    titled (115 ∷ [])
    ∷ key (97 ∷ []) (49 ∷ [])
    ∷ note
    ∷ key (98 ∷ []) (50 ∷ [])
    ∷ titled (116 ∷ [])
    ∷ key (97 ∷ []) (51 ∷ [])
    ∷ []

abbrev config : Config
config = record {
  valid = true;
  eof = false;
  kind = Kind.error;
  dirty = false;
  entries = entries;
  max_entries = 103;
  cursor = 0;
  section = none;
  id = none;
  value = none;
}

-- the same after a blank entry and two keys without a section
abbrev plain_config : Config
plain_config = record config {
  entries = note ∷ key (97 ∷ []) (49 ∷ []) ∷ key (98 ∷ []) (50 ∷ []) ∷ [];
}

run-get_string :
    (get_string (some (116 ∷ [])) (some (97 ∷ [])) config >>= λ (ret, v, c). some v)
    ≡ some (51 ∷ [])
unfolding get_string find find_loop next_entry scan rewind turn_in turn_out
run-get_string = refl

-- Deleting a key takes the comments above it along.
run-delete :
    (write (some (115 ∷ [])) (some (98 ∷ [])) none config >>= λ (ret, c). some (length c.entries))
    ≡ some 4
unfolding write write_section write_found seek delete_key seek_key trim_block
run-delete = refl

-- A full pool has no room for a key between sections.
run-full :
    write (some (115 ∷ [])) (some (99 ∷ [])) (some (52 ∷ [])) (record config { max_entries = 7 })
    ≡ none
unfolding write write_section write_found seek put_key pool_after
run-full = refl

find_lem_example : answer (find (some (115 ∷ [])) (some (98 ∷ [])) config) ≡ some (some (50 ∷ []))
find_lem_example = find_lem (115 ∷ []) (98 ∷ []) config refl

find-write_example :
    (write (some (115 ∷ [])) (some (99 ∷ [])) (some (52 ∷ [])) config >>= λ (ret, c).
    answer (find (some (115 ∷ [])) (some (99 ∷ [])) c))
    ≡ some (some (52 ∷ []))
find-write_example =
    find-write (115 ∷ []) (99 ∷ []) (52 ∷ []) (115 ∷ []) (99 ∷ []) (λ x. refl) config refl
      (inr (omega arith))
      ((λ x. refl), ((λ x. refl), ((λ x. refl), ((λ x. refl), ((λ x. refl), ((λ x. refl), refl))))))

find-delete_example :
    (write (some (115 ∷ [])) (some (97 ∷ [])) none config >>= λ (ret, c).
    answer (find (some (115 ∷ [])) (some (98 ∷ [])) c))
    ≡ some (some (50 ∷ []))
find-delete_example =
    find-delete (115 ∷ []) (97 ∷ []) (115 ∷ []) (98 ∷ []) config refl
      ((λ x. refl), ((λ x. refl), ((λ x. refl), ((λ x. refl), ((λ x. refl), ((λ x. refl), refl))))))

write-Fits_example : FitsAfter (write (some (116 ∷ [])) (some (99 ∷ [])) (some (52 ∷ [])) config)
write-Fits_example =
    write-Fits (some (116 ∷ [])) (some (99 ∷ [])) (some (52 ∷ [])) config (omega arith)

-- A line that starts with `#` is read as a definition where it has a `=`, and is dropped where it has none.
run-parse_sharp :
    parse (b'#' ∷ b'a' ∷ b'=' ∷ b'1' ∷ 10 ∷ b'#' ∷ b'b' ∷ 10 ∷ [])
    ≡ some (key (b'#' ∷ b'a' ∷ []) (b'1' ∷ []) ∷ [])
unfolding parse parse_loop parse_line parse_start parse_define parse_value scan_value split_at_char
    get_line take_line skip trim
run-parse_sharp = refl

-- A value on a line of its own is printed without the white byte that it was read by, and is lost.
abbrev alone : Entry
alone = record { section = none; id = none; value = some (b'a' ∷ []); comment = none }

run-value_line : parse (32 ∷ b'a' ∷ 10 ∷ []) ≡ some (alone ∷ [])
unfolding parse parse_loop parse_line parse_start parse_value scan_value get_line take_line skip
    trim
run-value_line = refl

run-value_line_lost : parse (output false (alone ∷ [])) ≡ some []
unfolding parse parse_loop parse_line parse_start parse_define split_at_char get_line take_line skip
    trim output put_line put_comment put_blank next_skip
run-value_line_lost = refl

-- `[s]`, `a=1`
abbrev items : List Item
items = header b's' [] none ∷ define b'a' [] (b'1' ∷ []) ∷ []

parse_ends_example : (es : List Entry) × (parse (b'a' ∷ b'=' ∷ 10 ∷ []) ≡ some es)
parse_ends_example = parse_ends (b'a' ∷ b'=' ∷ 10 ∷ []) refl

parse-output_example : parse (output false (map entry_of items)) ≡ some (map entry_of items)
unfolding scan_value skip trim
parse-output_example = parse-output items (
  (refl, refl, refl, refl, refl),
  ((refl, refl, refl, refl, refl, refl, refl, refl, (refl, refl)), refl),
)

-- a system whose calls are done
abbrev works : Answers
works = record {
  creates = true;
  opens = true;
  locks = true;
  stats = true;
  reads = true;
  fopens = true;
  now = 9;
}

abbrev disk : Disk
disk = record { content = some (output false (map entry_of items)); mtime = 5 }

read_str-write_str_example :
    (write_str (some (b's' ∷ [])) (some (b'b' ∷ [])) (some (b'2' ∷ [])) works disk
      >>= λ (ret, disk'). read_str (some (b's' ∷ [])) (some (b'b' ∷ [])) [] works disk')
    ≡ some (pos 0, b'2' ∷ [])
unfolding scan_value skip trim pool_of pool_for
read_str-write_str_example =
    read_str-write_str items b's' [] b'b' [] (b'2' ∷ []) (b's' ∷ []) (b'b' ∷ []) [] works disk
      (refl, refl, refl, refl, refl) refl
      (
        (refl, refl, refl, refl, refl),
        ((refl, refl, refl, refl, refl, refl, refl, refl, (refl, refl)), refl),
      )
      ((λ x. refl), ((λ x. refl), refl)) (inr (omega arith)) (refl, refl, refl, refl, refl)
      (refl, refl, refl, refl, refl, refl, refl, refl, (refl, refl)) (λ x. refl)

abbrev handle : Handle
handle = record free_image { config = record config { dirty = true } }

abbrev other : Handle
other = record free_image { config = record plain_config { dirty = true } }

commit-commit_example :
    (commit works other (commit works handle disk).2).2 ≡ (commit works other disk).2
commit-commit_example =
    commit-commit works works handle other disk _ (refl, refl, refl, refl, refl)
      (refl, refl, refl, refl, refl) refl refl refl refl refl
