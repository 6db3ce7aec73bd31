-- ===== src/Ifaces/Ip.antt =====
-- `osNetGetIP` of vos.c: the IPv4 address of an interface, copied without a NUL behind it. The calls of the
-- system are a parameter; the block that `ip` points to is the list of its bytes, and `none` is a fault.
use cvos.Prelude.{ℕ, ◌≤◌, ◌≡◌, refl, sym, ◌∙◌, ap, List, [], ◌∷◌, ◌++◌, Option, none, some}
use cvos.Prelude.{ℤ, pos, neg, is_neg, if◌then◌else◌, true, false, length, take, drop, take-append}
use cvos.Prelude.{
  copy, copy-mid, strlen, strlen-nul, split_at, no_nul, no_nul-append, no_nul-drop, ◌>>=◌,
}
use mathlib.Core.List.{append_assoc}

-- `families`: the kinds of socket that are tried in their order
pub data Family : Type 0 where
  inet : Family
  ipx : Family
  ax25 : Family
  appletalk : Family

-- `socket` of a datagram, `ioctl` with SIOCGIFADDR and `inet_ntoa` of what it gives, and `close`
pub record Sockets {ℓ} (S : Type ℓ) : Type ℓ where
  pub socket : Family → S → ℤ × S
  pub address : ℤ → List ℕ → S → Option (List ℕ)
  pub close : ℤ → S → S

drop-append : (xs ys : List ℕ) → drop (length xs) (xs ++ ys) ≡ ys
drop-append [] ys = refl
drop-append (x ∷ xs) ys = drop-append xs ys

module _ {ℓ} {S : Type ℓ} (sys : Sockets S) where
  -- the loop over the families; `sock` is the last one's result
  unfoldable pub first_socket : List Family → ℤ → S → ℤ × S
  first_socket [] sock s = (sock, s)
  first_socket (f ∷ fs) sock s =
      let (fd, s') = sys.socket f s in
      let rest = first_socket fs fd s' in if is_neg fd then rest else (fd, s')

  -- `osNetGetIP`: the result, the block and the state
  unfoldable pub os_net_get_ip :
      Option (List ℕ) → Option (List ℕ) → S → Option (ℤ × Option (List ℕ) × S)
  os_net_get_ip none ip s = some (neg 1, ip, s)
  os_net_get_ip (some name) none s = some (neg 1, none, s)
  os_net_get_ip (some name) (some ip) s =
      let (sock, s') = first_socket (inet ∷ ipx ∷ ax25 ∷ appletalk ∷ []) (neg 1) s in
      if is_neg sock then some (neg 1, some ip, s') else elim (sys.address sock (take 16 name) s') [
        | none ↦ some (neg 2, some ip, sys.close sock s')
        | some text ↦ do ip' ← copy ip 0 text; some (pos 0, some ip', sys.close sock s')
      ]

  -- Where a socket is made and the interface has an address, of which the caller's block holds a string that
  -- is as long or longer: `osNetGetIP` returns 0, and the string in the block is the address followed by what
  -- the old string had behind that many bytes.
  pub os_net_get_ip_lem :
      (name text old rest : List ℕ) (sock : ℤ) (s s' : S)
      → first_socket (inet ∷ ipx ∷ ax25 ∷ appletalk ∷ []) (neg 1) s ≡ (sock, s')
      → is_neg sock ≡ false
      → sys.address sock (take 16 name) s' ≡ some text
      → no_nul text ≡ true
      → no_nul old ≡ true
      → length text ≤ length old
      → (ip' : List ℕ) × (n : ℕ) × (os_net_get_ip (some name) (some (old ++ (0 ∷ rest))) s
          ≡ some (pos 0, some ip', sys.close sock s'))
        × (strlen ip' ≡ some n)
        × (take n ip' ≡ text ++ drop (length text) old)
  unfolding os_net_get_ip
  os_net_get_ip_lem name text old rest sock s s' made good at clean clean_old short =
      let (gone, tail, e, l) = split_at (length text) old short in
      let behind : drop (length text) old ≡ tail =
        ap (drop (length text)) e
        ∙ ap (λ n. drop n (gone ++ tail)) (sym l)
        ∙ drop-append gone tail in
      let tail_clean : no_nul tail ≡ true =
        ap no_nul (sym behind) ∙ no_nul-drop (length text) old clean_old in
      let whole : no_nul (text ++ tail) ≡ true = no_nul-append text tail clean tail_clean in
      let copied : copy (old ++ (0 ∷ rest)) 0 text ≡ some ((text ++ tail) ++ (0 ∷ rest)) =
        ap (λ t. copy (t ++ (0 ∷ rest)) 0 text) e
        ∙ ap (λ t. copy t 0 text) (append_assoc gone tail (0 ∷ rest))
        ∙ copy-mid [] gone (tail ++ (0 ∷ rest)) text 0 refl (sym l)
        ∙ ap some (sym (append_assoc text tail (0 ∷ rest))) in
      (
        (text ++ tail) ++ (0 ∷ rest),
        length (text ++ tail),
        rw (os_net_get_ip, made, good, at, copied)
            (ap (λ t. some (pos 0, some ((text ++ tail) ++ (0 ∷ rest)), sys.close t.0 t.1)) made),
        strlen-nul (text ++ tail) rest whole,
        take-append (text ++ tail) (0 ∷ rest) ∙ ap (λ t. text ++ t) (sym behind),
      )
