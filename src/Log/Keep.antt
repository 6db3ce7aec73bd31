-- ===== src/Log/Keep.antt =====
-- What the log of logfile.c keeps.
use cvos.Prelude.{ℕ, ◌+◌, ◌≤◌, ◌<◌, ◌≡◌, refl, sym, ◌∙◌, ap, arith, inl, inr}
use cvos.Prelude.{List, [], ◌∷◌, ◌++◌, true, Bool-cases}
use cvos.Prelude.{◌==◌, leb, length, length-append}
use mathlib.Core.List.{append_assoc, append-nil}
use cvos.Log.{Store, Answers, without, rotate, put_line, log_line}

-- all that the renamed files hold, in their order
abbrev pub archived : List (List ℕ × List ℕ) → List ℕ
archived [] = []
archived ((n, bytes) ∷ rest) = bytes ++ archived rest

-- all that was logged
abbrev pub logged : Store → List ℕ
logged s = archived s.archive ++ s.current

archived-append :
    (xs : List (List ℕ × List ℕ)) (n bytes : List ℕ)
    → archived (xs ++ ((n, bytes) ∷ [])) ≡ archived xs ++ bytes
archived-append [] n bytes = append-nil bytes
archived-append ((m, b) ∷ xs) n bytes =
    ap (λ t. b ++ t) (archived-append xs n bytes) ∙ sym (append_assoc b (archived xs) bytes)

nil_of_length : (xs : List ℕ) → length xs ≡ 0 → xs ≡ []
nil_of_length [] e = refl
nil_of_length (x ∷ xs) e = absurd (omega (arith, e))

-- Where the calls of the system succeed and no renamed file has the name that this moment gives, logging
-- a line loses nothing and adds the line at the end; the file logged to stays below the limit and the line
-- together.
pub log_line_keeps :
    (a : Answers) (text : List ℕ) (limit : ℕ) (s : Store)
    → a.opens ≡ true
    → a.renames ≡ true
    → without a.name s.archive ≡ s.archive
    → 1 ≤ limit
    → (logged (log_line a text limit s) ≡ logged s ++ text)
      × (length (log_line a text limit s).current < limit + length text)
unfolding log_line put_line rotate
log_line_keeps a text limit s opens renames fresh pos_limit =
    elim (Bool-cases (length s.current == 0)) [
      | inl empty ↦
          let nil : s.current ≡ [] = nil_of_length s.current (ground (arith, empty)) in
          (
            rw (log_line, empty, opens)
                (ap (λ t. t ++ text)
                  (sym (append-nil (archived s.archive))
                    ∙ ap (λ t. archived s.archive ++ t) (sym nil))),
            rw (log_line, empty, opens) (omega arith),
          )
      | inr full ↦ elim (Bool-cases (leb limit (length s.current))) [
        | inl big ↦ (
          rw (log_line, full, big, opens, renames, fresh)
              (ap (λ t. t ++ text) (archived-append s.archive a.name s.current)),
          rw (log_line, full, big, opens) (omega arith),
        )
        | inr small ↦
            let below : length s.current < limit = ground (arith, small) in
            (
              rw (log_line, full, small, opens)
                  (sym (append_assoc (archived s.archive) s.current text)),
              rw (log_line, full, small, opens) (omega (arith, length-append s.current text)),
            )
      ]
    ]
