-- ===== src/Msg/Keeper.antt =====
-- `MSG_AppSendtoKeeper` of msg.c. An APPMSG_S is the list of its 84 bytes: the process number in four, the
-- name in sixteen, the script in sixty-four; `rest` is what the message buffer holds behind the 1024 bytes
-- that are set to 0.
use cvos.Prelude.{ℕ, ◌+◌, List, ◌++◌, Option, some}
use cvos.Prelude.{ℤ, pos, drop, replicate, ◌>>=◌, copy, read_n, strlen}
use cvos.Msg.Ipc.{Queues, que_snd_msg}

-- `strcpy(&text[at], &app[at])`
unfoldable pub copy_field : List ℕ → List ℕ → ℕ → Option (List ℕ)
copy_field text app at = do
  n ← strlen (drop at app)
  bytes ← read_n app at (n + 1)
  copy text at bytes

-- the 84 bytes that are sent
unfoldable pub keeper_text : List ℕ → List ℕ → Option (List ℕ)
keeper_text app rest = do
  pid ← read_n app 0 4
  text ← copy (replicate 1024 0 ++ rest) 0 pid
  text ← copy_field text app 4
  text ← copy_field text app 20
  read_n text 0 84

module _ (q : Queues) where
  open q use {State, log}

  -- `MSG_AppSendtoKeeper`: the queue of the keeper is 0x221234. The type of the message is left out, as in
  -- `que_snd_msg`.
  pub app_send_to_keeper : List ℕ → List ℕ → State → Option (ℤ × State)
  app_send_to_keeper app rest k = do
    text ← keeper_text app rest
    let (ret, k') = que_snd_msg q (pos 0x221234) text k
    some (ret, log k')
