-- ===== src/Net/Transfer.antt =====
-- What `NET_Send` and `NET_Rev` of netsock.c move, and what `NET_Ser_Bind` returns.
use cvos.Prelude.{ℕ, zero, suc, ◌+◌, ◌≤◌, ◌<◌, ◌≡◌, refl, ap, arith, ◌⊎◌, inl, inr}
use cvos.Prelude.{List, [], ◌∷◌, ◌++◌, none, some, true, false, ◌==◌, Bool-cases}
use cvos.Prelude.{ℤ, pos, pos_part, is_neg, take, drop, length}
use cvos.Stream.Send.{Sends, send_loop-Sent}
use cvos.Stream.Receive.{Receives, receive_loop-Received}
use cvos.Net.Syscalls.{Sockets, reuse_addr}
use cvos.Net.{net_send, net_rev, close_sock, ser_bind, ser_bind_at}

drop_some : (n : ℕ) (p : List ℕ) → n < length p → (x : ℕ) × (xs : List ℕ) × (drop n p ≡ x ∷ xs)
drop_some n [] h = absurd (omega arith)
drop_some zero (x ∷ p) h = (x, p, refl)
drop_some (suc n) (x ∷ p) h = drop_some n p (omega arith)

drop_whole : (n : ℕ) (p : List ℕ) → n ≡ length p → drop n p ≡ []
drop_whole zero [] h = refl
drop_whole (suc n) [] h = refl
drop_whole zero (x ∷ p) h = absurd (omega arith)
drop_whole (suc n) (x ∷ p) h = drop_whole n p (omega arith)

module _ (q : Sockets) (fd : ℤ) where
  open q use {State, send, recv}

  -- On a block that is not empty, and a system whose `send` takes what it says, `NET_Send` comes to an end
  -- and hands over a first part of the block. If that is not the whole block, it returns the part's length;
  -- if it is, it returns a number from 1 to the block's length.
  pub net_send_lem :
      (wire : State → List ℕ)
      → Sends (send fd) wire
      → (b : ℕ) (p : List ℕ) (k : State)
      → (n : ℕ) × (ret : ℤ) × (k' : State) × (net_send q fd (some (b ∷ p)) k ≡ some (ret, k'))
        × (n ≤ length (b ∷ p))
        × (wire k' ≡ wire k ++ take n (b ∷ p))
        × (((n < length (b ∷ p)) × (ret ≡ pos n))
            ⊎ ((n ≡ length (b ∷ p)) × (1 ≤ pos_part ret) × (pos_part ret ≤ length (b ∷ p))))
  unfolding net_send
  net_send_lem wire law b p k =
      let (n, ret, k', e, small, w, last) =
        send_loop-Sent (send fd) wire law (length (b ∷ p)) (b ∷ p) (pos 0) 0 k (omega arith) in
      elim (Bool-cases (n == length (b ∷ p))) [
        | inl is_all ↦
            let whole : n ≡ length (b ∷ p) = ground (arith, is_all) in
            let end : (1 ≤ pos_part ret) × (pos_part ret ≤ length (b ∷ p)) = elim (last whole) [
              | inl (nil, same) ↦ absurd (omega (arith, ap length nil))
              | inr bounds ↦ bounds
            ] in
            (
              n,
              ret,
              k',
              rw (net_send, e, drop_whole n (b ∷ p) whole),
              small,
              w,
              inr (whole, end.0, end.1),
            )
        | inr not_all ↦
            let part : n < length (b ∷ p) = ground (arith, not_all) in
            let (x, xs, left) = drop_some n (b ∷ p) part in
            let count : 0 + n ≡ n = omega arith in
            (n, pos n, k', rw (net_send, e, left, count), small, w, inl (part, refl))
      ]

  -- With a length of at least 1, and a system whose `recv` takes what it says, `NET_Rev` comes to an end, and
  -- the bytes that it puts into the block are those taken from the descriptor, in their order; it returns
  -- their number, which is at most the length.
  pub net_rev_lem :
      (seen : State → List ℕ)
      → Receives (recv fd) seen
      → (len : ℕ) (k : State) → 1 ≤ len
      → (got : List ℕ) × (k' : State) × (net_rev q fd true (pos len) k
          ≡ some (pos (length got), got, k'))
        × (length got ≤ len)
        × (seen k' ≡ seen k ++ got)
  unfolding net_rev
  net_rev_lem seen law len k h =
      let (got, k', e, small, s) =
        receive_loop-Received (recv fd) seen law len len 0 [] k (omega arith) in
      let some_len : (len == 0) ≡ false = ground arith in
      let count : 0 + length got ≡ length got = omega arith in
      (got, k', rw (net_rev, some_len, e, count), small, s)

-- Where the socket is made and `bind` fails, `NET_Ser_Bind` closes the socket and returns it.
ser_bind_closed :
    (q : Sockets) (port timeout : ℤ) (k k0 k1 k2 : q.State) (s set bound : ℤ)
    → q.socket true k ≡ (s, k0)
    → q.set_opt s reuse_addr (pos 1) k0 ≡ (set, k1)
    → q.bind s none port k1 ≡ (bound, k2)
    → is_neg s ≡ false
    → is_neg bound ≡ true
    → ser_bind q port timeout k ≡ (s, (close_sock q s k2).1)
unfolding ser_bind ser_bind_at
ser_bind_closed q port timeout k k0 k1 k2 s set bound e0 e1 e2 made failed =
    rw (ser_bind, e0, e1, e2, made, failed)
