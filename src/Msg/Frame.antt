-- ===== src/Msg/Frame.antt =====
-- The text frames of msg.c, `MSG_PackMsg` and `MSG_UnPackMsg`: `@@`, a version character, the body, for
-- version '2' the two bytes of its checksum, and `##`. They are C strings, ended by a NUL byte.
pub mod Text
pub mod Roundtrip
use cvos.Prelude.{ℕ, ◌+◌, ◌-◌, ◌^◌, List, ◌++◌, Option, none, some}
use cvos.Prelude.{Bool, true, ℤ, pos, negsuc, neg, sub_ℕ, if◌then◌else◌, ◌==◌, ltb}
use cvos.Prelude.{get_elem?, length, drop, replicate, ◌>>=◌, write, copy, read_n, strlen, string_of}
use cvos.Crc.{sum_crc16}
use cvos.Msg.{high, low, join}

-- the end of `MSG_PackMsg`, from `if (ver=='2')` on
pub pack_msg_tail : ℕ → List ℕ → ℕ → List ℕ → Option (ℤ × Option (List ℕ))
pack_msg_tail ver body len p =
    if ver == b'2'
    then (do
      crc ← sum_crc16 body len
      p ← write p (len + 3) (high crc)
      p ← write p (len + 4) (low crc)
      p ← write p (len + 5) b'#'
      p ← write p (len + 6) b'#'
      some (pos (len + 7), some p))
    else (do p ← write p (len + 3) b'#'; p ← write p (len + 4) b'#'; some (pos (len + 5), some p))

-- `MSG_PackMsg(ver, body, MsgBuf)`: its result and the message block after it. `strcpy` copies the body
-- and its NUL, which the bytes behind the body then overwrite.
pub pack_msg : ℕ → Option (List ℕ) → Option (List ℕ) → Option (ℤ × Option (List ℕ))
pack_msg ver none p = some (neg 1, p)
pack_msg ver (some body) none = some (neg 1, none)
pack_msg ver (some body) (some p) = do
  p ← write p 0 b'@'
  p ← write p 1 b'@'
  p ← write p 2 ver
  len ← strlen body
  bytes ← read_n body 0 (len + 1)
  p ← copy p 3 bytes
  pack_msg_tail ver body len p

-- an `int` passed as `unsigned int`, and as `size_t`
abbrev pub to_unsigned : ℕ → ℤ → ℕ
to_unsigned w (pos n) = n
to_unsigned w (negsuc n) = 2 ^ w - 1 - n

-- `strncpy(dst, src, n)`: the string cut at `n`, then zeros up to `n`.
pub strncpy : List ℕ → List ℕ → ℕ → Option (List ℕ)
strncpy dst src n =
    let text = string_of n src in
    if ltb (length dst) n then none else copy dst 0 (text ++ replicate (n - length text) 0)

-- `sum` against `crc16` in `MSG_UnPackMsg`, for version '2'. With a negative `len` the checksum runs out
-- of the block, so the reads behind it are those of a length that is not negative.
pub check_msg : List ℕ → ℤ → Option Bool
check_msg p len = do
  sum ← sum_crc16 (drop 3 p) (to_unsigned 32 len)
  h ← get_elem? p (to_unsigned 32 len + 3)
  l ← get_elem? p (to_unsigned 32 len + 4)
  some (sum == join h l)

-- What `MSG_UnPackMsg` returns, and `*ver` and the body after it.
pub record Unpacked : Type 0 where
  pub ret : ℤ
  pub ver : Option ℕ
  pub body : Option (List ℕ)

-- `MSG_UnPackMsg` from `protocol=MsgBuf[2]` on
pub unpack_body : ℕ → List ℕ → List ℕ → Option Unpacked
unpack_body ver body p = do
  protocol ← get_elem? p 2
  total ← strlen p
  let len = if protocol == b'2' then sub_ℕ total 7 else sub_ℕ total 5
  good ← (if protocol == b'2' then check_msg p len else some true)
  if good
      then (do
        out ← strncpy body (drop 3 p) (to_unsigned 64 len)
        some (record { ret = len; ver = some protocol; body = some out }))
      else some (record { ret = neg 3; ver = some ver; body = some body })

-- `MSG_UnPackMsg` behind the tests for NULL; `||` reads the second character only if the first fits.
pub unpack_text : ℕ → List ℕ → List ℕ → Option Unpacked
unpack_text ver body p = do
  first ← get_elem? p 0
  second ← (if first == b'@' then get_elem? p 1 else some 0)
  if second == b'@'
      then unpack_body ver body p
      else some (record { ret = neg 2; ver = some ver; body = some body })

pub unpack_msg : Option ℕ → Option (List ℕ) → Option (List ℕ) → Option Unpacked
unpack_msg (some ver) (some body) (some p) = unpack_text ver body p
unpack_msg ver body p = some (record { ret = neg 1; ver = ver; body = body })
