-- ===== src/Msg/Handover.antt =====
-- The identifiers that `MSG_GetIpcId` of msg.c gives out, and the message that `MSG_QueSndMsg` loses.
use cvos.Prelude.{ℕ, zero, suc, ◌+◌, ◌≡◌, refl, ◌∙◌, ap, arith, List, [], true, false, leb, ℤ, pos}
use cvos.Prelude.{neg, is_neg, ◌+ℤ◌, ◌==◌}
use cvos.Msg.Ipc.{Ids, get_ipc_id, Queues, que_rev_msg, que_snd_msg}

-- `gIpcIdBase` and `gIpcId` after `n` calls of `MSG_GetIpcId`
unfoldable pub ids_after : ℕ → ℤ → Ids → Ids
ids_after zero key s = s
ids_after (suc n) key s = ids_after n key (get_ipc_id key s).1

add_one : (i : ℕ) → pos i +ℤ pos 1 ≡ pos (i + 1)
add_one i = let t : leb (0 + 0) (i + 1) ≡ true = ground arith in rw t (ap pos (omega arith))

next_id :
    (key : ℤ) (b i : ℕ)
    → get_ipc_id key (record { base = pos (suc b); id = pos i })
      ≡ (pos (i + 1), record { base = pos (suc b); id = pos (i + 1) })
unfolding get_ipc_id
next_id key b i = let set : (suc b == 0) ≡ false = ground arith in rw (get_ipc_id, add_one i, set)

ids_after_lem :
    (n : ℕ) (key : ℤ) (b i : ℕ)
    → ids_after n key (record { base = pos (suc b); id = pos i })
      ≡ record { base = pos (suc b); id = pos (i + n) }
unfolding ids_after
ids_after_lem zero key b i = ap (λ t. record { base = pos (suc b); id = pos t }) (omega arith)
ids_after_lem (suc n) key b i =
    ap (λ t. ids_after n key t.1) (next_id key b i)
    ∙ ids_after_lem n key b (i + 1)
    ∙ ap (λ t. record { base = pos (suc b); id = pos t }) (omega arith)

-- The first call with a key above 0 gives the key, and the call after `n` more gives the key plus `n + 1`,
-- whatever key it is given: no identifier is given out twice.
get_ipc_id_counts :
    (key later : ℤ) (b n : ℕ)
    → key ≡ pos (suc b)
    → let (first, s) = get_ipc_id key (record { base = pos 0; id = pos 0 }) in
      (first ≡ key) × ((get_ipc_id later (ids_after n later s)).0 ≡ pos (suc b + n + 1))
unfolding get_ipc_id
get_ipc_id_counts key later b n e =
    let more = ids_after_lem n later b (suc b) in
    (
      refl,
      rw e (
          ap (λ t. (get_ipc_id later t).0) more
          ∙ ap (λ t. t.0) (next_id later b (suc b + n))
          ∙ ap pos (omega arith)),
    )

-- Where the queue is found, the message is taken and the removal that follows is done, `MSG_QueSndMsg`
-- returns the result of the send; on a system in which a removed queue cannot be read, `MSG_QueRevMsg` of
-- that queue then fails with no message, at any length.
que_snd_msg_lost :
    (q : Queues) (key : ℤ) (msg : List ℕ) (k k1 k2 k3 : q.State) (id sent gone len : ℕ)
    → q.msgget key false k ≡ (pos id, k1)
    → q.msgsnd (pos id) msg k1 ≡ (pos sent, k2)
    → q.remove (pos id) k2 ≡ (pos gone, k3)
    → ((n : ℕ) → is_neg (q.msgrcv (pos id) n k3).0 ≡ true)
    → (que_snd_msg q key msg k ≡ (pos sent, k3))
      × ((que_rev_msg q (pos id) len k3).0 ≡ neg (q.errno (q.msgrcv (pos id) len k3).2))
      × ((que_rev_msg q (pos id) len k3).1 ≡ [])
unfolding que_snd_msg que_rev_msg
que_snd_msg_lost q key msg k k1 k2 k3 id sent gone len found taken removed deaf = (
  rw (que_snd_msg, found, taken, removed),
  rw (que_rev_msg, deaf len),
  rw (que_rev_msg, deaf len),
)
