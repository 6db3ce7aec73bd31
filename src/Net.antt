-- ===== src/Net.antt =====
-- netsock.c: sockets. A function is given the system calls (Net/Syscalls) and the state before it, and
-- gives its result and the state after it. Lines that only log are left out.
pub mod Syscalls
pub mod Transfer
mod Tests
use cvos.Prelude.{ℕ, zero, suc, ◌+◌, ◌-◌, ◌*◌, ◌/◌, ◌%◌, List, [], ◌∷◌, ◌++◌, Option, none, some}
use cvos.Prelude.{Bool, true, false, not, ◌&&◌, ◌||◌, ℤ, pos, negsuc, neg, ◌-ℤ◌, is_neg, is_zero}
use cvos.Prelude.{
  if◌then◌else◌, ◌==◌, ltb, leb, length, take, drop, replicate, str_eq, copy, read_n, ◌>>=◌,
}
use cvos.Stream.{send_loop, receive_loop}
use cvos.Net.Syscalls.{Sockets, Opt, rcv_timeo, snd_timeo, rcv_buf, snd_buf, reuse_addr}

-- `x<1`
abbrev pub less_one : ℤ → Bool
less_one (pos n) = n == 0
less_one (negsuc n) = true

-- `x * k` for an `int` and a constant; `bufsize<<10` is `x * 1024`.
abbrev pub times : ℕ → ℤ → ℤ
times k (pos n) = pos (n * k)
times k (negsuc n) = neg ((n + 1) * k)

module _ (q : Sockets) where
  open q use {
    State, errno, socket, ignore_sigpipe, set_opt, bind, listen, connect, accept, shutdown, close,
    getsockname, getpeername, send, recv, select, tcp_info,
  }

  -- `NET_OpenSock`; `none` is a string without an end.
  pub open_sock : List ℕ → State → Option (ℤ × State)
  open_sock sock_type k = do
    tcp ← str_eq sock_type (b'T' ∷ b'C' ∷ b'P' ∷ 0 ∷ [])
    let (ret, k1) = socket tcp k
    some (ret, ignore_sigpipe k1)

  -- `NET_CloseSock`
  unfoldable pub close_sock : ℤ → State → ℤ × State
  close_sock fd k =
      let (ret, k1) = shutdown fd k in
      let (_, k2) = close fd k1 in if is_neg fd then (pos 0, k) else (ret, k2)

  -- `NET_OptSet`: each option in turn, up to the first that fails
  pub opt_set : ℤ → ℤ → ℤ → State → ℤ × State
  opt_set fd timeout bufsize k =
      let (r1, k1) = set_opt fd rcv_timeo (times 1000 timeout) k in
      let (r2, k2) = set_opt fd snd_timeo (times 1000 timeout) k1 in
      let (r3, k3) = set_opt fd rcv_buf (times 1024 bufsize) k2 in
      let (r4, k4) = set_opt fd snd_buf (times 1024 bufsize) k3 in
      if not (is_zero r1)
      then (neg 2, k1)
      else (if not (is_zero r2)
          then (neg 3, k2)
          else (if not (is_zero r3)
              then (neg 4, k3)
              else (if not (is_zero r4) then (neg 5, k4) else (r4, k4))))

  -- `NET_PortBind`, with SOMAXCONN of 128
  pub port_bind : ℤ → ℤ → Option (List ℕ) → State → ℤ × State
  port_bind fd port ip k =
      let (r1, k1) = set_opt fd reuse_addr (pos 1) k in
      let (r2, k2) = bind fd ip port k1 in
      let (r3, k3) = listen fd 128 k2 in
      if less_one port
      then (neg 1, k)
      else (if is_neg r1
          then (neg 2, k1)
          else (if not (is_zero r2)
              then (neg 10, k2)
              else (if not (is_zero r3) then (neg 11, k3) else (r3, k3))))

  -- `NET_GetAddr` past its tests: the result, both blocks and the state. A block is cleared, and then takes
  -- the name; `getsockname` leaves the name's length in `len`.
  get_names : ℤ → List ℕ → List ℕ → ℕ → State → Option (ℤ × List ℕ × List ℕ × State)
  get_names fd local remote len k = do
    local0 ← copy local 0 (replicate len 0)
    remote0 ← copy remote 0 (replicate len 0)
    let (r1, name1, len1, k1) = getsockname fd len k
    let (r2, name2, len2, k2) = getpeername fd len1 k1
    local1 ← copy local0 0 name1
    if not (is_zero r1) then some (neg 10, local1, remote0, k1) else (do
      remote1 ← copy remote0 0 name2
      some (if not (is_zero r2) then neg 11 else r2, local1, remote1, k2))

  -- `NET_GetAddr`; `len<sizeof(struct sockaddr_in)` compares as unsigned, so that a negative `len`
  -- passes, and `memset` then leaves the block.
  pub get_addr :
      ℤ
      → Option (List ℕ)
      → Option (List ℕ)
      → ℤ
      → State
      → Option (ℤ × Option (List ℕ) × Option (List ℕ) × State)
  get_addr fd (some local) (some remote) (pos len) k =
      if ltb len 16
      then some (neg 1, some local, some remote, k)
      else (do (ret, l, r, k') ← get_names fd local remote len k; some (ret, some l, some r, k'))
  get_addr fd (some local) (some remote) (negsuc n) k = none
  get_addr fd local remote len k = some (neg 1, local, remote, k)

  -- `NET_Connect`
  pub net_connect : ℤ → Option (List ℕ) → ℤ → State → ℤ × State
  net_connect fd none port k = (neg 1, k)
  net_connect fd (some ip) port k =
      let (ret, k1) = connect fd ip port k in
      if less_one port then (neg 2, k) else (if not (is_zero ret) then (neg 10, k1) else (ret, k1))

  -- `NET_Send` of the bytes at `buf`, `len` of them: a negative `len` is one below 1, as 0 is. The fuel
  -- of the loop is the number of bytes.
  unfoldable pub net_send : ℤ → Option (List ℕ) → State → Option (ℤ × State)
  net_send fd none k = some (neg 1, k)
  net_send fd (some []) k = some (neg 1, k)
  net_send fd (some (b ∷ p)) k = do
    (ret, cnt, left, k') ← send_loop (send fd) (length (b ∷ p)) (b ∷ p) (pos 0) 0 k
    some (elim left [ [] ↦ ret | _ ∷ _ ↦ pos cnt ], k')

  -- `NET_RcvPoll` with `fuel` turns: a descriptor that `select` returns for without its being ready is
  -- watched again, with the whole timeout. `none` is for too little fuel.
  pub rcv_poll : ℕ → ℤ → ℤ → State → Option (ℤ × State)
  rcv_poll zero fd timeout k = none
  rcv_poll (suc fuel) fd timeout k =
      let limit = if less_one timeout then none else some timeout in
      let (ret, ready, k') = select fd limit k in
      let rest = rcv_poll fuel fd timeout k' in
      if is_zero (neg 1 -ℤ ret)
      then some (neg 10, k')
      else (if is_zero ret then some (pos 0, k') else (if ready then some (pos 1, k') else rest))

  -- `NET_Rev`: its result and the bytes put into the caller's block
  unfoldable pub net_rev : ℤ → Bool → ℤ → State → Option (ℤ × List ℕ × State)
  net_rev fd false len k = some (neg 1, [], k)
  net_rev fd true (negsuc n) k = some (neg 2, [], k)
  net_rev fd true (pos len) k =
      if len == 0
      then some (neg 2, [], k)
      else (do (cnt, got, k') ← receive_loop (recv fd) len len 0 [] k; some (pos cnt, got, k'))

  -- `NET_PollAndRev` behind `recv`: a result that is negative counts as an error only if errno is set, and
  -- one of 0 as a broken pipe.
  polled : ℤ → ℤ → State → ℤ
  polled ret cnt k =
      let set = not (is_zero (errno k)) in
      let cnt' = if is_neg cnt && set then neg 10 else cnt in
      if is_zero (ret -ℤ pos 1) && is_zero cnt' && set then neg 11 else cnt'

  -- `NET_PollAndRev`
  pub poll_and_rev : ℤ → ℕ → ℤ → State → ℤ × List ℕ × State
  poll_and_rev fd len timeout k =
      let limit = if less_one timeout then pos 1000 else timeout in
      let (ret, ready, k1) = select fd (some limit) k in
      let (cnt, bytes, k2) = recv fd len k1 in
      if less_one ret
      then (pos 0, [], k1)
      else (if ready then (polled ret cnt k2, bytes, k2) else (polled ret (pos 0) k1, [], k1))

  -- `NET_SelectRev`
  pub select_rev : ℤ → ℕ → State → ℤ × List ℕ × State
  select_rev fd len k =
      let (ret, ready, k1) = select fd (some (pos 1000)) k in
      let (cnt, bytes, k2) = recv fd len k1 in
      if not (less_one ret) && ready then (cnt, bytes, k2) else (ret, [], k1)

  -- the options of a socket that the code sets without a look at the results
  pub set_opts : ℤ → List (Opt × ℤ) → State → State
  set_opts fd [] k = k
  set_opts fd ((o, v) ∷ rest) k = let (_, k') = set_opt fd o v k in set_opts fd rest k'

  abbrev pub big_buffer : ℤ
  big_buffer = pos (512 * 1024)

  -- `NET_Ser_Bind` past the test of the socket. `ret` is set to -3 and -4 there, and what the function
  -- returns is `s`.
  unfoldable pub ser_bind_at : ℤ → ℤ → ℤ → State → State
  ser_bind_at s port timeout k =
      let (_, k1) = set_opt s reuse_addr (pos 1) k in
      let (r2, k2) = bind s none port k1 in
      let (r3, k3) = listen s 256 k2 in
      let (_, closed2) = close_sock s k2 in
      let (_, closed3) = close_sock s k3 in
      if is_neg r2
      then closed2
      else (if is_neg r3
          then closed3
          else set_opts s
              ((snd_buf, big_buffer)
                ∷ (rcv_buf, big_buffer)
                ∷ (rcv_timeo, timeout)
                ∷ (snd_timeo, timeout)
                ∷ [])
              k3)

  -- `NET_Ser_Bind`
  unfoldable pub ser_bind : ℤ → ℤ → State → ℤ × State
  ser_bind port timeout k =
      let (s, k0) = socket true k in
      if is_neg s then (s, k0) else (s, ser_bind_at s port timeout k0)

  -- `NET_Ser_Accept`; the address of the client goes to the caller's block.
  pub ser_accept : ℤ → ℤ → State → ℤ × State
  ser_accept fd timeout k =
      let (ret, ready, k1) = select fd (some timeout) k in
      let (new_fd, k2) = accept fd k1 in
      if less_one ret
      then (neg 2, k1)
      else (if not ready
          then (neg 4, k1)
          else (if is_neg new_fd then (neg 5, k2) else (
            new_fd,
            set_opts new_fd
                ((rcv_timeo, timeout)
                  ∷ (snd_timeo, timeout)
                  ∷ (snd_buf, big_buffer)
                  ∷ (rcv_buf, big_buffer)
                  ∷ (reuse_addr, pos 1)
                  ∷ [])
                k2,
          )))

  -- `NET_CheckTcpLink`
  pub check_tcp_link : ℤ → State → ℤ × State
  check_tcp_link fd k =
      let (ret, established, k1) = tcp_info fd k in
      (if is_zero ret && established then pos 1 else ret, k1)

  -- `NET_ConnTcpSvr`
  pub conn_tcp_svr : List ℕ → ℤ → State → ℤ × State
  conn_tcp_svr svr port k =
      let (sock, k1) = socket true k in
      let (r2, k2) = connect sock svr port k1 in
      let (_, closed) = close_sock sock k2 in
      if is_zero (neg 1 -ℤ sock)
      then (neg 2, k1)
      else (if not (is_zero r2) then (neg 3, closed) else (
        sock,
        set_opts sock
            ((snd_buf, big_buffer)
              ∷ (rcv_buf, big_buffer)
              ∷ (reuse_addr, pos 1)
              ∷ (rcv_timeo, pos 2800)
              ∷ (snd_timeo, pos 2800)
              ∷ [])
            k2,
      ))
