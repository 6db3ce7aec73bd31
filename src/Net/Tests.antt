-- ===== src/Net/Tests.antt =====
-- The transfers of netsock.c on a system that takes two bytes at a time and gives one.
use cvos.Prelude.{ℕ, zero, suc, ◌≤◌, ◌<◌, ◌≡◌, refl, sym, arith, ◌⊎◌, List, [], ◌∷◌, ◌++◌, some}
use cvos.Prelude.{ℤ, pos, neg, pos_part, take, length, true}
use mathlib.Core.List.{append-nil}
use cvos.Stream.{send_loop}
use cvos.Stream.Send.{Sends}
use cvos.Stream.Receive.{Receives}
use cvos.Net.Syscalls.{Sockets}
use cvos.Net.{net_send, net_rev}
use cvos.Net.Transfer.{net_send_lem, net_rev_lem}

abbrev two_bytes : List ℕ → List ℕ → ℤ × List ℕ
two_bytes p k = (pos (length (take 2 p)), k ++ take 2 p)

abbrev one_byte : ℕ → List ℕ → ℤ × List ℕ × List ℕ
one_byte zero k = (pos 0, [], k)
one_byte (suc len) k = (pos 1, 7 ∷ [], k ++ (7 ∷ []))

-- no port to be had
abbrev tiny : Sockets
tiny = record {
  State = List ℕ;
  errno = λ k. pos 0;
  socket = λ stream k. (pos 3, k);
  ignore_sigpipe = λ k. k;
  set_opt = λ fd o v k. (pos 0, k);
  bind = λ fd ip port k. (neg 1, k);
  listen = λ fd n k. (pos 0, k);
  connect = λ fd ip port k. (pos 0, k);
  accept = λ fd k. (pos 4, k);
  shutdown = λ fd k. (pos 0, k);
  close = λ fd k. (pos 0, 99 ∷ k);
  getsockname = λ fd n k. (pos 0, [], n, k);
  getpeername = λ fd n k. (pos 0, [], n, k);
  send = λ fd. two_bytes;
  recv = λ fd. one_byte;
  select = λ fd t k. (pos 1, true, k);
  tcp_info = λ fd k. (pos 0, true, k);
}

two_bytes-Sends : Sends two_bytes (λ k. k)
two_bytes-Sends [] k = (omega arith, refl)
two_bytes-Sends (a ∷ []) k = (omega arith, refl)
two_bytes-Sends (a ∷ b ∷ p) k = (omega arith, refl)

one_byte-Receives : Receives one_byte (λ k. k)
one_byte-Receives zero k = (refl, omega arith, sym (append-nil k))
one_byte-Receives (suc len) k = (refl, omega arith, refl)

net_send_lem_example :
    (n : ℕ) × (ret : ℤ) × (k' : List ℕ) × (net_send tiny (pos 3) (some (1 ∷ 2 ∷ 3 ∷ [])) []
      ≡ some (ret, k'))
    × (n ≤ 3)
    × (k' ≡ take n (1 ∷ 2 ∷ 3 ∷ []))
    × (((n < 3) × (ret ≡ pos n)) ⊎ ((n ≡ 3) × (1 ≤ pos_part ret) × (pos_part ret ≤ 3)))
net_send_lem_example = net_send_lem tiny (pos 3) (λ k. k) two_bytes-Sends 1 (2 ∷ 3 ∷ []) []

-- all is sent, and the result is the length of the last part
run-net_send : net_send tiny (pos 3) (some (1 ∷ 2 ∷ 3 ∷ [])) [] ≡ some (pos 1, 1 ∷ 2 ∷ 3 ∷ [])
unfolding net_send send_loop
run-net_send = refl

net_rev_lem_example :
    (got : List ℕ) × (k' : List ℕ) × (net_rev tiny (pos 3) true (pos 2) []
      ≡ some (pos (length got), got, k'))
    × (length got ≤ 2)
    × (k' ≡ got)
net_rev_lem_example = net_rev_lem tiny (pos 3) (λ k. k) one_byte-Receives 2 [] (omega arith)
