-- ===== src/Ifaces.antt =====
-- utils.c: the addresses of a network interface, `utl_IfGetInfo` with its list of interfaces. The list that
-- `getifaddrs` gives is a parameter. A string is the list of its bytes without its NUL; `none` is a fault: an
-- access through NULL, to a freed node, to bytes never written, or behind the end of a field.
pub mod Once
pub mod Freed
pub mod Ip
mod Tests
use cvos.Prelude.{
  ℕ, zero, suc, List, [], ◌∷◌, ◌++◌, Option, none, some, Bool, true, false, ◌||◌, not,
}
use cvos.Prelude.{ℤ, pos, neg, if◌then◌else◌, leb, length, ◌>>=◌, bytes_eq}
use cvos.Mac.{mac_text}

-- what `ifa_addr` points to: an IPv4 address as `inet_ntop` writes it, the six bytes of a hardware
-- address, or an address of another family
pub data Address : Type 0 where
  inet : List ℕ → Address
  packet : List ℕ → Address
  other : Address

-- `struct ifaddrs`, where a NULL `ifa_addr` is `none`
pub record Entry : Type 0 where
  pub name : List ℕ
  pub address : Option Address

-- `struct if_ipv4_info` without its `next`; `raw_hd_addr` is `none` until it is written, since `malloc` leaves
-- anything in it.
pub record Node : Type 0 where
  pub name : List ℕ
  pub ip : List ℕ
  pub hd : List ℕ
  pub raw : Option (List ℕ)

-- `if_info`: NULL, the first of a list of nodes, or what is left of it once all nodes are freed
pub data IfInfo : Type 0 where
  unset : IfInfo
  listed : Node → List Node → IfInfo
  freed : IfInfo

-- `_if_prt_if_info`: what `buf` and `raw_buf` hold after it, of which it writes the second for a hardware
-- address only, or -1 for another family
unfoldable pub print_address : Address → List ℕ → Option (List ℕ × List ℕ)
print_address (inet text) raw = some (text, raw)
print_address (packet bytes) raw = some (mac_text (b':' ∷ []) bytes, mac_text [] bytes)
print_address other raw = none

-- the switch of `_if_add_to_link` on the family
unfoldable pub fill : Address → List ℕ → List ℕ → Node → Node
fill (inet text) buf raw n = record n { ip = buf }
fill (packet bytes) buf raw n = record n { raw = some raw; hd = buf }
fill other buf raw n = n

unfoldable pub new_node : List ℕ → Node
new_node name = record { name = name; ip = []; hd = []; raw = none }

-- the search of `_if_add_to_link` from the second node on, and the node at the end where none has the name
unfoldable pub add_node : List ℕ → Address → List ℕ → List ℕ → List Node → List Node
add_node name a buf raw [] = fill a buf raw (new_node name) ∷ []
add_node name a buf raw (n ∷ ns) =
    let rest = add_node name a buf raw ns in
    if bytes_eq n.name name then fill a buf raw n ∷ ns else n ∷ rest

-- `_if_add_to_link`, where `malloc` gives a node; its name has 16 bytes, and `buf` and `raw_buf` fit in 20.
unfoldable pub add_to_link : List ℕ → Address → List ℕ → List ℕ → IfInfo → Option IfInfo
add_to_link name a buf raw unset =
    if leb 16 (length name) then none else some (listed (fill a buf raw (new_node name)) [])
add_to_link name a buf raw (listed n ns) =
    if bytes_eq n.name name
    then some (listed (fill a buf raw n) ns)
    else (if leb 16 (length name) then none else some (listed n (add_node name a buf raw ns)))
add_to_link name a buf raw freed = none

-- `lo`
abbrev pub loopback : List ℕ
loopback = b'l' ∷ b'o' ∷ []

-- what the loop of `_if_get_if_info` does with an address of that interface: `raw_buf` and the list after it
unfoldable pub take_address : List ℕ → Option Address → List ℕ → IfInfo → Option (List ℕ × IfInfo)
take_address name none raw info = some (raw, info)
take_address name (some a) raw info = elim (print_address a raw) [
  | none ↦ some (raw, info)
  | some (buf, raw') ↦ (do info' ← add_to_link name a buf raw' info; some (raw', info'))
]

-- One turn of the loop of `_if_get_if_info`
unfoldable pub take_entry : List ℕ → Entry → List ℕ → IfInfo → Option (List ℕ × IfInfo)
take_entry name e raw info =
    if bytes_eq e.name loopback || not (bytes_eq e.name name)
    then some (raw, info)
    else take_address e.name e.address raw info

unfoldable pub take_entries : List ℕ → List Entry → List ℕ → IfInfo → Option IfInfo
take_entries name [] raw info = some info
take_entries name (e ∷ es) raw info = do
  next ← take_entry name e raw info
  take_entries name es next.0 next.1

-- `_if_get_if_info`, with the list of `getifaddrs` or its failure; `raw_buf` is empty before the loop.
unfoldable pub get_if_info : List ℕ → Option (List Entry) → IfInfo → Option (ℤ × IfInfo)
get_if_info name none info = some (neg 1, info)
get_if_info name (some es) info = do info' ← take_entries name es [] info; some (pos 0, info')

-- which of `mac`, `ip` and `raw_mac` are given
pub record Wanted : Type 0 where
  pub mac : Bool
  pub ip : Bool
  pub raw : Bool

-- `mac`, `ip` and `raw_mac` as `utl_IfGetInfo` leaves them, where it writes them
pub record Found : Type 0 where
  pub mac : Option (List ℕ)
  pub ip : Option (List ℕ)
  pub raw : Option (List ℕ)

-- `strcpy(raw_mac, ...)` where it is asked for; a field that was not written is a fault.
unfoldable pub copy_raw : Bool → Option (List ℕ) → Option (Option (List ℕ))
copy_raw false raw = some none
copy_raw true none = none
copy_raw true (some text) = some (some text)

-- the copies of `utl_IfGetInfo`
unfoldable pub copy_out : Wanted → IfInfo → Option Found
copy_out w (listed n ns) = do
  raw ← copy_raw w.raw n.raw
  some (record {
    mac = if w.mac then some n.hd else none;
    ip = if w.ip then some n.ip else none;
    raw = raw;
  })
copy_out w unset =
    if w.mac || (w.ip || w.raw) then none else some (record { mac = none; ip = none; raw = none })
copy_out w freed = none

-- the loop that frees the list, which leaves `if_info` as it is
unfoldable pub free_list : IfInfo → Option IfInfo
free_list unset = some unset
free_list (listed n ns) = some freed
free_list freed = none

-- `utl_IfGetInfo`
unfoldable pub if_get_info :
    List ℕ → Option (List Entry) → Wanted → IfInfo → Option (ℤ × Found × IfInfo)
if_get_info name answer w info = do
  got ← get_if_info name answer info
  found ← (elim answer [
    | none ↦ some (record { mac = none; ip = none; raw = none })
    | some es ↦ copy_out w got.1
  ])
  info' ← free_list got.1
  some (got.0, found, info')
