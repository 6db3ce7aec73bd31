-- ===== src/Msg.antt =====
-- msg.c: the binary frames (`MSG_PackHex`, `MSG_UnPackHex`), the text frames (`MSG_PackMsg`,
-- `MSG_UnPackMsg`) and the IPC identifiers. Bytes and `char`s are their bit patterns, below 256.
-- A pointer that may be NULL is an option; the outer `none` is a fault, an access outside of a block.
pub mod Hex
pub mod Delivery
pub mod Frame
pub mod Ipc
pub mod Handover
pub mod Keeper
mod Tests
use cvos.Prelude.{
  ℕ, zero, suc, ◌+◌, ◌-◌, ◌*◌, ◌/◌, ◌%◌, ◌^◌, List, [], ◌∷◌, ◌++◌, Option, none, some,
}
use cvos.Prelude.{
  Bool, true, false, ◌&&◌, ◌||◌, not, ℤ, pos, negsuc, neg, sub_ℕ, if◌then◌else◌, ◌==◌,
}
use cvos.Prelude.{
  ltb, get_elem?, length, drop, replicate, ◌>>=◌, write, copy, read_n, strlen, string_of,
}
use cvos.Crc.{sum_crc16}

-- `(crc16>>8)&0xFF` and `crc16&0xFF`
abbrev pub high : ℕ → ℕ
high crc = crc / 2 ^ 8 % 2 ^ 8

abbrev pub low : ℕ → ℕ
low crc = crc % 2 ^ 8

-- `(h<<8)&0xFF00 | l&0x00FF`: the masks leave no bit in common, so `|` is a sum.
abbrev pub join : ℕ → ℕ → ℕ
join h l = h % 2 ^ 8 * 2 ^ 8 + l % 2 ^ 8

-- `unsigned int` sums
abbrev pub add32 : ℕ → ℕ → ℕ
add32 a b = (a + b) % 2 ^ 32

-- the end of `MSG_PackHex`, from `if (ver==2)` on
pub pack_hex_crc : ℕ → List ℕ → ℕ → ℕ → List ℕ → Option (ℕ × Option (List ℕ))
pack_hex_crc ver body len total p =
    if ver == 2
    then (do
      crc ← sum_crc16 body len
      p ← write p (add32 len 4) (high crc)
      p ← write p (add32 len 5) (low crc)
      some (add32 total 2, some p))
    else some (total, some p)

-- `MSG_PackHex(ver, sn, body, len, MsgBuf)`: its result and the message buffer after it.
pub pack_hex : ℕ → ℕ → Option (List ℕ) → ℕ → Option (List ℕ) → Option (ℕ × Option (List ℕ))
pack_hex ver sn none len p = some (0, p)
pack_hex ver sn (some body) len none = some (0, none)
pack_hex ver sn (some body) len (some p) = do
  p ← write p 0 0xaa
  p ← write p 1 ver
  p ← write p 2 sn
  p ← write p 3 (len % 2 ^ 8)
  bytes ← read_n body 0 len
  p ← copy p 4 bytes
  pack_hex_crc ver body len (add32 len 4) p

-- What `MSG_UnPackHex` returns, and `*ver`, `*sn` and the body after it.
pub record Unpacked : Type 0 where
  pub ret : ℤ
  pub ver : Option ℕ
  pub sn : Option ℕ
  pub body : Option (List ℕ)

-- `sum` against `crc16` in `MSG_UnPackHex`; a frame of another version has no checksum.
pub check_hex : ℕ → List ℕ → ℕ → Option Bool
check_hex protocol p len =
    if protocol == 2
    then (do
      sum ← sum_crc16 (drop 4 p) len
      h ← get_elem? p (add32 len 4)
      l ← get_elem? p (add32 len 5)
      some (sum == join h l))
    else some true

-- `MSG_UnPackHex` from `*ver=protocol=MsgBuf[1]` on
pub unpack_fields : List ℕ → List ℕ → Option Unpacked
unpack_fields body p = do
  protocol ← get_elem? p 1
  sn ← get_elem? p 2
  len ← get_elem? p 3
  good ← check_hex protocol p len
  if good
      then (do
        bytes ← read_n p 4 len
        out ← copy body 0 bytes
        some (record { ret = pos len; ver = some protocol; sn = some sn; body = some out }))
      else some (record { ret = neg 3; ver = some protocol; sn = some sn; body = some body })

-- `MSG_UnPackHex` behind the tests for NULL
pub unpack_frame : ℕ → ℕ → List ℕ → List ℕ → Option Unpacked
unpack_frame ver sn body p = do
  head ← get_elem? p 0
  if head == 0xaa
      then unpack_fields body p
      else some (record { ret = neg 2; ver = some ver; sn = some sn; body = some body })

pub unpack_hex : Option ℕ → Option ℕ → Option (List ℕ) → Option (List ℕ) → Option Unpacked
unpack_hex (some ver) (some sn) (some body) (some p) = unpack_frame ver sn body p
unpack_hex ver sn body p = some (record { ret = neg 1; ver = ver; sn = sn; body = body })
