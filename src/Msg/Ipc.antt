-- ===== src/Msg/Ipc.antt =====
-- The IPC identifiers and the message queues of msg.c. The system calls on queues are a parameter.
use cvos.Prelude.{ℕ, List, []}
use cvos.Prelude.{Bool, true, false, ℤ, pos, neg, ◌+ℤ◌, is_neg, is_zero, if◌then◌else◌}

-- `gIpcIdBase` and `gIpcId`
pub record Ids : Type 0 where
  pub base : ℤ
  pub id : ℤ

-- `MSG_GetIpcId`, where `key` is what `ftok(".", ipckey)` returns; both variables start at 0. An
-- increment past the range of `int` is undefined in C and not looked at here.
unfoldable pub get_ipc_id : ℤ → Ids → ℤ × Ids
get_ipc_id key s =
    let s' =
      if is_zero s.base then record { base = key; id = key } else record s { id = s.id +ℤ pos 1 } in
    (s'.id, s')

-- The system calls on System V queues, with the state that they work on: a queue is named by an
-- identifier, and a call that fails returns a negative number and sets `errno`. `log` is what a line
-- of MsgPrint does to that state.
pub record Queues : Type 1 where
  pub State : Type 0
  pub errno : State → ℕ
  pub msgget : ℤ → Bool → State → ℤ × State
  pub msgsnd : ℤ → List ℕ → State → ℤ × State
  pub msgrcv : ℤ → ℕ → State → ℤ × List ℕ × State
  pub remove : ℤ → State → ℤ × State
  pub log : State → State

-- A system call that is done returns no negative number.
module _ (q : Queues) where
  open q use {State, errno, msgget, msgsnd, msgrcv, remove, log}

  -- `QueId=-errno` and `ret=-errno`, behind the line that is logged
  pub failed : State → ℤ × State
  failed k = let k' = log k in (neg (errno k'), k')

  pub que_create : ℤ → State → ℤ × State
  que_create key k = let (id, k') = msgget key true k in if is_neg id then failed k' else (id, k')

  -- The receiver gets the message in the block that it handed over.
  unfoldable pub que_rev_msg : ℤ → ℕ → State → ℤ × List ℕ × State
  que_rev_msg id len k =
      let (ret, msg, k') = msgrcv id len k in
      if is_neg id
      then (neg 1, [], k)
      else (if is_neg ret then (neg (errno k'), [], k') else (ret, msg, k'))

  pub que_destroy : ℤ → State → ℤ × State
  que_destroy id k =
      let (ret, k') = remove id k in
      if is_neg id then (neg 1, k) else (if is_neg ret then failed k' else (pos 0, k'))

  -- `MSG_QueSndMsg`: the queue is removed as soon as the message is in it.
  unfoldable pub que_snd_msg : ℤ → List ℕ → State → ℤ × State
  que_snd_msg key msg k =
      let (id, k1) = msgget key false k in
      let (ret, k2) = msgsnd id msg k1 in
      let (_, k3) = remove id k2 in
      if is_neg id then failed k1 else (if is_neg ret then failed k3 else (ret, k3))
