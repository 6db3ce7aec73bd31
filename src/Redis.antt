-- ===== src/Redis.antt =====
-- RedisClt.c: the one connection to a Redis server, and the values kept there of devices and applications.
-- hiredis and the server are a parameter: what the calls answer, on a state that is not looked into. A string
-- is the list of its bytes without its NUL, NULL is `none`; the lock and the lines that print are left out.
pub mod Instances
mod Tests
use cvos.Prelude.{
  ℕ, ◌-◌, ◌%◌, ◌^◌, List, [], ◌∷◌, Option, none, some, Bool, true, false, not, ◌&&◌, ◌||◌,
}
use cvos.Prelude.{
  ℤ, pos, neg, negsuc, is_zero, ◌+ℤ◌, ◌-ℤ◌, if◌then◌else◌, leb, ltb, length, bytes_eq,
}

-- the fields of a device
pub data Field : Type 0 where
  ins_id : Field
  ins_cnt : Field
  tcp_fd : Field

-- the commands, with what their formats are filled in with
pub data Command : Type 0 where
  auth : List ℕ → Command
  select : ℤ → Command
  flush_db : Command
  hmset : List ℕ → ℤ → ℤ → Command
  hget : List ℕ → Field → Command
  hdel : List ℕ → Field → Command
  hincrby : List ℕ → ℤ → Command
  hset_app : List ℕ → ℤ → Command
  hget_app : List ℕ → Command

-- `redisReply`: whether its type is REDIS_REPLY_ERROR, its string and its number
pub record Reply : Type 0 where
  pub is_error : Bool
  pub str : Option (List ℕ)
  pub integer : ℤ

-- `redisConnectWithTimeout`, which gives a context and whether its `err` is set, `redisCommand`, `redisFree`
pub record Server {ℓ} (S : Type ℓ) : Type ℓ where
  pub connect : S → Option (ℕ × Bool) × S
  pub command : ℕ → Command → S → Option Reply × S
  pub free : ℕ → S → S

-- `gRedisConn`
pub record Conn : Type 0 where
  pub hdl : Option ℕ
  pub ins_cnt : ℤ

-- what a function returns, a fault, or the status that it leaves the process with
pub data Result : Type 0 where
  returns : ℤ → Result
  fault : Result
  exits : ℤ → Result

-- the `int` of a `long long`
abbrev pub to_int32 : ℤ → ℤ
to_int32 (pos n) = let m = n % 2 ^ 32 in if ltb m (2 ^ 31) then pos m else neg (2 ^ 32 - m)
to_int32 (negsuc n) =
    let m = n % 2 ^ 32 in if ltb m (2 ^ 31) then negsuc m else pos (2 ^ 32 - 1 - m)

-- `OK`
abbrev pub ok : List ℕ
ok = b'O' ∷ b'K' ∷ []

-- What `REDIS_HGET_InsCnt`, `REDIS_HGET_AppFd` and `REDIS_HGET_TcpFd` make of a reply
unfoldable pub value_of : (atoi : List ℕ → ℤ) → Option Reply → ℤ
value_of atoi none = neg 1
value_of atoi (some r) =
    if r.is_error
    then neg 2
    else elim r.str [ none ↦ neg 3 | some s ↦ if bytes_eq s ok then neg 4 else atoi s ]

-- `REDIS_HMSET`: a reply without a string ends the process.
unfoldable pub stored : Option Reply → Result
stored none = returns (neg 1)
stored (some r) = if r.is_error then returns (neg 3) else elim r.str [
  | none ↦ exits (neg 5)
  | some s ↦ if bytes_eq s ok then returns (pos 0) else returns (neg 4)
]

module _ {ℓ} {S : Type ℓ} (server : Server S) (atoi : List ℕ → ℤ) where
  -- `REDIS_UnInit`
  unfoldable pub un_init : Conn → S → ℤ × Conn × S
  un_init conn s =
      let left : Conn = record conn { ins_cnt = conn.ins_cnt -ℤ pos 1 } in
      elim conn.hdl [
        | none ↦ (pos 0, left, s)
        | some hdl ↦
            if is_zero left.ins_cnt
            then (pos 0, record left { hdl = none }, server.free hdl s)
            else (pos 0, left, s)
      ]

  -- the end of `REDIS_Init` after a failure, with the state after the calls
  unfoldable pub give_up : Conn → S → Option ℕ × Conn × S
  give_up conn s =
      let (_, _, s') = un_init conn s in (none, record { hdl = none; ins_cnt = pos 0 }, s')

  -- `FLUSHDB`, whose reply is not looked at
  unfoldable pub flush : ℕ → S → Option ℕ × Conn × S
  flush hdl s =
      let (_, s') = server.command hdl flush_db s in
      (some hdl, record { hdl = some hdl; ins_cnt = pos 1 }, s')

  -- `SELECT` and `AUTH`, whose replies have to be there
  unfoldable pub select_db : ℕ → ℤ → Conn → S → Option ℕ × Conn × S
  select_db hdl db conn s =
      let (reply, s') = server.command hdl (select db) s in
      elim reply [ none ↦ give_up conn s' | some _ ↦ flush hdl s' ]

  unfoldable pub log_in : ℕ → List ℕ → ℤ → Conn → S → Option ℕ × Conn × S
  log_in hdl pass db conn s =
      let (reply, s') = server.command hdl (auth pass) s in
      elim reply [ none ↦ give_up conn s' | some _ ↦ select_db hdl db conn s' ]

  -- `REDIS_Init`
  unfoldable pub init : List ℕ → ℤ → Conn → S → Option ℕ × Conn × S
  init pass db conn s = elim conn.hdl [
    | some hdl ↦ (some hdl, record conn { ins_cnt = conn.ins_cnt +ℤ pos 1 }, s)
    | none ↦
        let (opened, s') = server.connect s in
        elim opened [
          | none ↦ give_up conn s'
          | some (hdl, err) ↦
              let conn' : Conn = record conn { hdl = some hdl } in
              if err then give_up conn' s' else log_in hdl pass db conn' s'
        ]
  ]

  -- A command on the connection, which `REDIS_SelectDb` does not look for: it is a fault without one.
  unfoldable pub ask : Conn → Command → S → Option (Option Reply) × S
  ask conn c s = elim conn.hdl [
    | none ↦ (none, s)
    | some hdl ↦ let (reply, s') = server.command hdl c s in (some reply, s')
  ]

  -- `REDIS_SelectDb`
  unfoldable pub select_only : ℤ → Conn → S → Result × S
  select_only db conn s =
      let (reply, s') = ask conn (select db) s in
      (elim reply [ none ↦ fault | some _ ↦ returns (pos 0) ], s')

  -- A function with a name and a connection: -1 without one of them, `short` for a name of at most three
  -- bytes where that is looked at, or what `use_reply` makes of the reply
  unfoldable pub on_reply :
      (name : Option (List ℕ))
      → (check_length : Bool) → (List ℕ → Command)
      → (Option Reply → Result)
      → Conn
      → S
      → Result × S
  on_reply none check_length c use_reply conn s = (returns (neg 1), s)
  on_reply (some name) check_length c use_reply conn s = elim conn.hdl [
    | none ↦ (returns (neg 1), s)
    | some hdl ↦
        if check_length && leb (length name) 3
        then (returns (neg 2), s)
        else let (reply, s') = server.command hdl (c name) s in (use_reply reply, s')
  ]

  -- `REDIS_HMSET`
  unfoldable pub hmset_ids : Option (List ℕ) → ℤ → ℤ → Conn → S → Result × S
  hmset_ids devid id fd conn s = on_reply devid true (λ name. hmset name id fd) stored conn s

  -- `REDIS_HGET_InsCnt`, `REDIS_HGET_TcpFd` and `REDIS_HGET_AppFd`
  unfoldable pub hget_ins_cnt : Option (List ℕ) → Conn → S → Result × S
  hget_ins_cnt devid conn s =
      on_reply devid false (λ name. hget name ins_cnt) (λ r. returns (value_of atoi r)) conn s

  unfoldable pub hget_tcp_fd : Option (List ℕ) → Conn → S → Result × S
  hget_tcp_fd devid conn s =
      on_reply devid true (λ name. hget name tcp_fd) (λ r. returns (value_of atoi r)) conn s

  unfoldable pub hget_app_fd : Option (List ℕ) → Conn → S → Result × S
  hget_app_fd field conn s =
      on_reply field true (λ name. hget_app name) (λ r. returns (value_of atoi r)) conn s

  -- `REDIS_HGET_InsId`, which hands the string to `atoi` whatever the reply is
  unfoldable pub id_of : Option Reply → Result
  id_of none = returns (neg 1)
  id_of (some r) = elim r.str [ none ↦ fault | some s ↦ returns (atoi s) ]

  unfoldable pub hget_ins_id : Option (List ℕ) → Conn → S → Result × S
  hget_ins_id devid conn s = on_reply devid false (λ name. hget name ins_id) id_of conn s

  -- `REDIS_HSET_InsCnt`
  unfoldable pub counted : Option Reply → Result
  counted none = returns (neg 2)
  counted (some r) = returns (if r.is_error then neg 3 else to_int32 r.integer)

  unfoldable pub hset_ins_cnt : Option (List ℕ) → ℤ → Conn → S → Result × S
  hset_ins_cnt devid n conn s = on_reply devid true (λ name. hincrby name n) counted conn s

  -- `REDIS_HSET_AppFd`
  unfoldable pub put_app : Option Reply → Result
  put_app none = returns (neg 1)
  put_app (some r) = returns (if r.is_error then neg 3 else pos 0)

  unfoldable pub hset_app_fd : Option (List ℕ) → ℤ → Conn → S → Result × S
  hset_app_fd field fd conn s = on_reply field true (λ name. hset_app name fd) put_app conn s

  -- `REDIS_HDEL_InsId` and `REDIS_HDEL_TcpFd`
  unfoldable pub hdel_field : Field → Option (List ℕ) → Conn → S → Result × S
  hdel_field f devid conn s =
      on_reply devid false (λ name. hdel name f) (λ _. returns (pos 0)) conn s
