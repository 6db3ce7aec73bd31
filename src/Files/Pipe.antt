-- ===== src/Files/Pipe.antt =====
-- What `FifoSend` of utils.c hands over.
use cvos.Prelude.{
  ℕ, ◌+◌, ◌%◌, ◌^◌, ◌≤◌, ◌<◌, ◌≡◌, refl, ◌∙◌, ap, arith, List, [], ◌++◌, some, false,
}
use cvos.Prelude.{ℤ, pos, is_neg, take, length, leb, read_n-mid}
use cvos.Timer.{to_int, to_int-small}
use cvos.Stream.Send.{Sends, send_loop-Sent}
use cvos.Files.{Calls, Mode, pipe_buf, fifo_get, fifo_write, fifo_send}

-- the length that `FifoSend` reckons for a message shorter than PIPE_BUF
len_of :
    (body_len n : ℕ)
    → body_len + 8 ≡ n
    → n < pipe_buf
    → to_int (pos ((body_len + 8) % 2 ^ 32)) ≡ pos n
len_of body_len n e small =
    let cut : (body_len + 8) % 2 ^ 32 ≡ n = omega arith in
    ap (λ t. to_int (pos t)) cut ∙ to_int-small n (omega arith)

fifo_write_lem :
    (q : Calls) (wire : q.State → List ℕ) (msg rest : List ℕ) (k : q.State) (fd : ℤ)
    → length msg < pipe_buf
    → Sends (q.write fd) wire
    → (n : ℕ) × (k' : q.State) × (fifo_write q fd (msg ++ rest) (pos (length msg)) k
        ≡ some (pos n, (q.close fd k').1))
      × (n ≤ length msg)
      × (wire k' ≡ wire k ++ take n msg)
unfolding fifo_write
fifo_write_lem q wire msg rest k fd small law =
    let (n, ret, k', e, most, w, last) =
      send_loop-Sent (q.write fd) wire law (length msg) msg (pos 0) 0 k (omega arith) in
    let fits : leb pipe_buf (length msg) ≡ false = ground arith in
    let count : 0 + n ≡ n = omega arith in
    (n, k', rw (fits, read_n-mid [] msg rest 0 refl, e, count), most, w)

-- Where the pipe is opened, on a message shorter than PIPE_BUF, its type of 8 bytes included, and a system
-- whose `write` takes what it says, `FifoSend` comes to an end: it hands over a first part of the message,
-- closes the pipe and returns the part's length.
pub fifo_send_lem :
    (q : Calls) (wire : q.State → List ℕ) (name msg rest : List ℕ) (body_len : ℕ) (k k1 : q.State)
    (fd : ℤ)
    → fifo_get q name Mode.write_only k ≡ (fd, k1)
    → is_neg fd ≡ false
    → body_len + 8 ≡ length msg
    → length msg < pipe_buf
    → Sends (q.write fd) wire
    → (n : ℕ) × (k' : q.State) × (fifo_send q (some name) (some (msg ++ rest)) body_len k
        ≡ some (pos n, (q.close fd k').1))
      × (n ≤ length msg)
      × (wire k' ≡ wire k1 ++ take n msg)
unfolding fifo_send
fifo_send_lem q wire name msg rest body_len k k1 fd opened valid size small law =
    let (n, k', e, most, w) = fifo_write_lem q wire msg rest k1 fd small law in
    (
      n,
      k',
      rw (opened, valid)
          (ap (λ t. fifo_write q fd (msg ++ rest) t k1) (len_of body_len (length msg) size small)
            ∙ e),
      most,
      w,
    )
