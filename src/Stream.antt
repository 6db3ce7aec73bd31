-- ===== src/Stream.antt =====
-- The loops that move a block of bytes through a descriptor: those of `NET_Send` and `NET_Rev` of
-- netsock.c and of `FifoSend` of utils.c. The system call is a parameter, with the state that it works on;
-- its result is its return value, of which a negative one is an error.
pub mod Send
pub mod Receive
use cvos.Prelude.{ℕ, zero, suc, ◌+◌, ◌-◌, List, [], ◌∷◌, ◌++◌, Option, none, some, ℤ, pos, negsuc}
use cvos.Prelude.{take, drop, length}

-- what `ret<1` lets through
abbrev pub progress : ℤ → Option ℕ
progress (pos zero) = none
progress (pos (suc n)) = some (suc n)
progress (negsuc n) = none

-- `while(len>0)` over the bytes left to send, with the last `ret` and the `cnt` so far. The result is both
-- of them behind the loop, the bytes that were not sent and the state; `none` is for too little fuel. A call
-- takes no more bytes than it is given.
unfoldable pub send_loop {ℓ} :
    {S : Type ℓ} → (List ℕ → S → ℤ × S) → ℕ → List ℕ → ℤ → ℕ → S → Option (ℤ × ℕ × List ℕ × S)
send_loop send fuel [] ret cnt k = some (ret, cnt, [], k)
send_loop send zero (b ∷ p) ret cnt k = none
send_loop send (suc fuel) (b ∷ p) ret cnt k =
    let (r, k') = send (b ∷ p) k in
    elim (progress r) [
      | none ↦ some (r, cnt, b ∷ p, k')
      | some n ↦ send_loop send fuel (drop n (b ∷ p)) r (cnt + n) k'
    ]

-- `while(len>0)` of `NET_Rev`, with `len` bytes still wanted: `cnt`, the bytes put into the block in their
-- order, and the state.
unfoldable pub receive_loop {ℓ} :
    {S : Type ℓ} → (ℕ → S → ℤ × List ℕ × S) → ℕ → ℕ → ℕ → List ℕ → S → Option (ℕ × List ℕ × S)
receive_loop recv fuel zero cnt got k = some (cnt, got, k)
receive_loop recv zero (suc len) cnt got k = none
receive_loop recv (suc fuel) (suc len) cnt got k =
    let (r, bytes, k') = recv (suc len) k in
    elim (progress r) [
      | none ↦ some (cnt, got, k')
      | some n ↦ receive_loop recv fuel (suc len - n) (cnt + n) (got ++ take n bytes) k'
    ]
