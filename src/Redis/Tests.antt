-- ===== src/Redis/Tests.antt =====
-- Runs of the Redis client, and its theorems at concrete inputs.
use cvos.Prelude.{ℕ, ◌+◌, ◌≡◌, refl, List, [], ◌∷◌, none, some, ℤ, pos, false}
use cvos.Redis.{Server, Conn, Reply, returns, fault}
use cvos.Redis.{init, log_in, select_db, flush, hget_ins_id, on_reply, id_of, hset_ins_cnt, counted}
use cvos.Redis.Instances.{one_more, one_less, times, one_less-one_more}

abbrev nil_reply : Reply
nil_reply = record { is_error = false; str = none; integer = pos 5 }

-- a server that answers without a string; its state counts the connections that are not freed
abbrev server : Server ℕ
server = record {
  connect = λ n. (some (7, false), n + 1);
  command = λ hdl c n. (some nil_reply, n);
  free = λ hdl n. 0;
}

abbrev no_number : List ℕ → ℤ
no_number s = pos 0

abbrev closed : Conn
closed = record { hdl = none; ins_cnt = pos 0 }

abbrev live : Conn
live = record { hdl = some 7; ins_cnt = pos 1 }

run-init : init server no_number [] (pos 1) closed 0 ≡ (some 7, live, 1)
unfolding init log_in select_db flush
run-init = refl

-- A device without an `InsId` is answered without a string.
run-hget_ins_id : hget_ins_id server no_number (some (b'a' ∷ [])) live 1 ≡ (fault, 1)
unfolding hget_ins_id on_reply id_of
run-hget_ins_id = refl

run-hset_ins_cnt :
    hset_ins_cnt server no_number (some (b'd' ∷ b'e' ∷ b'v' ∷ b'1' ∷ [])) (pos 1) live 1
    ≡ (returns (pos 5), 1)
unfolding hset_ins_cnt on_reply counted
run-hset_ins_cnt = refl

one_less-one_more_example :
    times 3 (one_less server no_number) (times 2 (one_more server no_number [] (pos 1)) (live, 1))
    ≡ (closed, 0)
one_less-one_more_example = one_less-one_more server no_number [] (pos 1) 7 2 1
