-- ===== src/Net/Syscalls.antt =====
-- The system calls on sockets that netsock.c makes, as a parameter of the model.
use cvos.Prelude.{ℕ, List, Option, Bool, ℤ}

-- `SO_RCVTIMEO`, `SO_SNDTIMEO`, `SO_RCVBUF`, `SO_SNDBUF`, `SO_REUSEADDR`
pub data Opt : Type 0 where
  rcv_timeo : Opt
  snd_timeo : Opt
  rcv_buf : Opt
  snd_buf : Opt
  reuse_addr : Opt

-- Each call works on a state that the model does not look into. `socket` is told if the socket is a
-- stream; a timeout is given in milliseconds, a buffer in bytes; an address is the text of the IP, if
-- any, and the port. `select` watches one descriptor for at most the milliseconds given, or without end,
-- and tells if it is ready; `tcp_info` tells if the state is TCP_ESTABLISHED.
pub record Sockets : Type 1 where
  pub State : Type 0
  pub errno : State → ℤ
  pub socket : Bool → State → ℤ × State
  pub ignore_sigpipe : State → State
  pub set_opt : ℤ → Opt → ℤ → State → ℤ × State
  pub bind : ℤ → Option (List ℕ) → ℤ → State → ℤ × State
  pub listen : ℤ → ℕ → State → ℤ × State
  pub connect : ℤ → List ℕ → ℤ → State → ℤ × State
  pub accept : ℤ → State → ℤ × State
  pub shutdown : ℤ → State → ℤ × State
  pub close : ℤ → State → ℤ × State
  pub getsockname : ℤ → ℕ → State → ℤ × List ℕ × ℕ × State
  pub getpeername : ℤ → ℕ → State → ℤ × List ℕ × ℕ × State
  pub send : ℤ → List ℕ → State → ℤ × State
  pub recv : ℤ → ℕ → State → ℤ × List ℕ × State
  pub select : ℤ → Option ℤ → State → ℤ × Bool × State
  pub tcp_info : ℤ → State → ℤ × Bool × State
