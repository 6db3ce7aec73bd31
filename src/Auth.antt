-- ===== src/Auth.antt =====
-- auth.c: the days that a copy has been in use. The time is after 1970, so that the days since then are a
-- natural number; the status file is read and written through Cfg_ReadInt and Cfg_WriteInt, whose results
-- are not looked at. The MAC address of a card is compared with the one that the copy is bound to.
pub mod Count
pub mod Card
mod Tests
use cvos.Prelude.{
  ℕ, zero, suc, ◌+◌, ◌-◌, [], ◌∷◌, ◌++◌, Option, none, some, Bool, true, false, ◌&&◌, List,
}
use cvos.Prelude.{
  ℤ, pos, negsuc, neg, ◌+ℤ◌, ◌-ℤ◌, is_neg, is_zero, if◌then◌else◌, ◌==◌, ltb, str_eq, strlen, copy,
  replicate, ◌>>=◌,
}
use cvos.Mac.{Cards, utl_net_get_mac_addr}

-- `gBaseDays` and `gLostDays`, 0 at the start
pub record Days : Type 0 where
  pub base : ℕ
  pub lost : ℕ

-- `Auth_VerifyDateAuth`: the result, the variables and the number written to the status file, if any. The
-- first argument is the number that the status file holds, read in a call that finds `gBaseDays` at 0.
unfoldable pub verify_date : ℤ → ℕ → ℤ → Days → ℤ × Days × Option ℤ
verify_date stored now expire s =
    let going = if s.base == 0 then stored else pos 0 in
    let base = if s.base == 0 then now else s.base in
    if ltb now base
    then (pos 0, record { base = now; lost = s.lost }, none)
    else (if ltb s.lost (now - base)
        then (
          if is_neg (expire -ℤ (pos (now - base) +ℤ going)) then neg 1 else pos 0,
          record { base = base; lost = now - base },
          some (pos (now - base) +ℤ going),
        )
        else (pos 0, record { base = base; lost = s.lost }, none))

-- `Auth_VerifyMacAuth`, with the result of `utl_NetGetMacAddr` and the text that it stores
pub verify_mac : ℤ → List ℕ → List ℕ → Option ℤ
verify_mac ret mac addr =
    if is_zero ret
    then (do same ← str_eq mac addr; some (if same then pos 1 else neg 1))
    else some ret

-- what `sMac`, of 32 bytes, holds behind `utl_NetGetMacAddr`
unfoldable pub mac_buffer : Option (List ℕ) → Option (List ℕ)
mac_buffer none = some (replicate 32 0)
mac_buffer (some text) = copy (replicate 32 0) 0 (text ++ (0 ∷ []))

-- `Auth_VerifyMacAuth` on the blocks that hold both strings
unfoldable pub verify_mac_auth {ℓ} : {S : Type ℓ} → Cards S → List ℕ → List ℕ → S → Option (ℤ × S)
verify_mac_auth cards name addr s = do
  n ← strlen name
  out ← utl_net_get_mac_addr cards (some name) n true s
  mac ← mac_buffer out.1
  ret ← verify_mac out.0 mac addr
  some (ret, out.2)
