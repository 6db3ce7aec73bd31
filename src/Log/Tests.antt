-- ===== src/Log/Tests.antt =====
-- The log of logfile.c at a concrete input.
use cvos.Prelude.{◌+◌, ◌<◌, ◌≡◌, refl, arith, [], ◌∷◌, true, length}
use cvos.Log.{Store, Answers, without, log_line}
use cvos.Log.Keep.{logged, log_line_keeps}

abbrev answers : Answers
answers = record { renames = true; opens = true; stamp = 20 ∷ []; name = 5 ∷ [] }

abbrev store : Store
store = record { current = 1 ∷ 2 ∷ 3 ∷ []; archive = ((4 ∷ []), (9 ∷ [])) ∷ [] }

apart : without (5 ∷ []) store.archive ≡ store.archive
unfolding without
apart = refl

log_line_keeps_example :
    (logged (log_line answers (7 ∷ 8 ∷ []) 3 store) ≡ 9 ∷ 1 ∷ 2 ∷ 3 ∷ 7 ∷ 8 ∷ [])
    × (length (log_line answers (7 ∷ 8 ∷ []) 3 store).current < 3 + 2)
log_line_keeps_example = log_line_keeps answers (7 ∷ 8 ∷ []) 3 store refl refl apart (omega arith)
