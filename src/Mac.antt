-- ===== src/Mac.antt =====
-- The hardware address of a network card: `osNetGetMacAddr` of vos.c and `utl_NetGetMacAddr` of utils.c.
-- The calls of the system are a parameter; a string that a function gives is the list of its bytes without
-- its NUL, and a block that it is given is the list of all its bytes. The outer `none` is a fault.
pub mod Text
mod Tests
use cvos.Prelude.{ℕ, ◌+◌, ◌-◌, ◌/◌, ◌%◌, List, [], ◌∷◌, ◌++◌, Option, none, some, Bool, true, false}
use cvos.Prelude.{ℤ, pos, neg, is_zero, if◌then◌else◌, ltb, replicate, ◌>>=◌, copy, read_n}

-- a digit of `%x`
unfoldable pub hex_char : ℕ → ℕ
hex_char n = if ltb n 10 then b'0' + n else b'a' + (n - 10)

-- `%02x` of a byte
unfoldable pub hex_byte : ℕ → List ℕ
hex_byte b = hex_char (b / 16 % 16) ∷ hex_char (b % 16) ∷ []

-- `%02x` of each byte, with the separator between two of them
unfoldable pub mac_text : List ℕ → List ℕ → List ℕ
mac_text sep [] = []
mac_text sep (b ∷ []) = hex_byte b
mac_text sep (b ∷ c ∷ bytes) = hex_byte b ++ (sep ++ mac_text sep (c ∷ bytes))

-- `socket`, `ioctl` with SIOCGIFHWADDR on the 16 bytes of `ifr_name`, which gives the six bytes of the
-- address, and `close`
pub record Cards {ℓ} (S : Type ℓ) : Type ℓ where
  pub socket : S → ℤ × S
  pub address : ℤ → List ℕ → S → Option (List ℕ)
  pub close : ℤ → S → S

-- `memcpy(ifr.ifr_name,netcard,nlen)`: a name of more than 16 bytes runs over the field.
unfoldable pub card_name : List ℕ → ℕ → Option (List ℕ)
card_name card n = do
  name ← read_n card 0 n
  if ltb 16 n then none else copy (replicate 16 0) 0 name

module _ {ℓ} {S : Type ℓ} (cards : Cards S) where
  -- Both functions behind the test for NULL: the result, the text put into `mac` and the state. A failed
  -- `socket` gives -1, which `if(sock)` takes for a success.
  unfoldable pub ask_card : List ℕ → List ℕ → S → ℤ × Option (List ℕ) × S
  ask_card sep name s =
      let (sock, s') = cards.socket s in
      if is_zero sock then (neg 2, none, s') else elim (cards.address sock name s') [
        | none ↦ (neg 3, none, cards.close sock s')
        | some bytes ↦ (pos 0, some (mac_text sep bytes), cards.close sock s')
      ]

  -- a card's address, printed with the separator; `wanted` tells if `mac` is given
  unfoldable pub get_mac :
      List ℕ → Option (List ℕ) → ℕ → Bool → S → Option (ℤ × Option (List ℕ) × S)
  get_mac sep none n wanted s = some (neg 1, none, s)
  get_mac sep (some card) n false s = some (neg 1, none, s)
  get_mac sep (some card) n true s = do name ← card_name card n; some (ask_card sep name s)

  -- `osNetGetMacAddr`
  unfoldable pub os_net_get_mac_addr :
      Option (List ℕ) → ℕ → Bool → S → Option (ℤ × Option (List ℕ) × S)
  os_net_get_mac_addr = get_mac []

  -- `utl_NetGetMacAddr`
  unfoldable pub utl_net_get_mac_addr :
      Option (List ℕ) → ℕ → Bool → S → Option (ℤ × Option (List ℕ) × S)
  utl_net_get_mac_addr = get_mac (b':' ∷ [])
