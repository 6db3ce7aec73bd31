-- ===== src/Ifaces/Tests.antt =====
-- The addresses of `eth0` on a machine with three entries for it, and its address over a longer one.
use cvos.Prelude.{ℕ, ◌≡◌, refl, arith, List, [], ◌∷◌, Option, none, some, true, false, pos}
use cvos.Mac.{mac_text}
use cvos.Prelude.{inr, ◌++◌, ◌+◌, neg, strlen, take, if◌then◌else◌, ◌==◌}
use cvos.Ifaces.Ip.{Family, ipx, ax25, appletalk, Sockets, first_socket, os_net_get_ip}
use cvos.Ifaces.Ip.{os_net_get_ip_lem}
use cvos.Ifaces.{inet, packet, Entry, IfInfo, unset, Wanted, if_get_info, loopback}
use cvos.Ifaces.Once.{if_get_info_once}

abbrev eth0 : List ℕ
eth0 = b'e' ∷ b't' ∷ b'h' ∷ b'0' ∷ []

abbrev address : List ℕ
address = b'1' ∷ b'.' ∷ b'2' ∷ b'.' ∷ b'3' ∷ b'.' ∷ b'4' ∷ []

abbrev entries : List Entry
entries =
    record { name = loopback; address = some (inet (b'7' ∷ [])) }
    ∷ record { name = eth0; address = some (packet (1 ∷ 2 ∷ 3 ∷ 4 ∷ 5 ∷ 6 ∷ [])) }
    ∷ record { name = eth0; address = none }
    ∷ record { name = eth0; address = some (inet address) }
    ∷ []

abbrev wanted : Wanted
wanted = record { mac = false; ip = true; raw = true }

abbrev plain : List ℕ
plain = mac_text [] (1 ∷ 2 ∷ 3 ∷ 4 ∷ 5 ∷ 6 ∷ [])

if_get_info_once_example :
    (info : IfInfo) × (if_get_info eth0 (some entries) wanted unset
      ≡ some (pos 0, record { mac = none; ip = some address; raw = some plain }, info))
    × ((name' : List ℕ) (answer : Option (List Entry)) (w' : Wanted)
        → if_get_info name' answer w' info ≡ none)
if_get_info_once_example =
    if_get_info_once eth0 entries wanted (some plain) refl (omega arith) (λ e. cc)
      (inr (refl, plain, refl, refl))

-- a machine on which the second kind of socket is the first that works; the state counts the calls
abbrev second_kind : Sockets ℕ
second_kind = record {
  socket = λ f s. if s == 0 then (neg 1, 1) else (pos 3, s + 1);
  address = λ sock name s. some (b'1' ∷ b'.' ∷ b'2' ∷ []);
  close = λ sock s. s;
}

second : first_socket second_kind (Family.inet ∷ ipx ∷ ax25 ∷ appletalk ∷ []) (neg 1) 0 ≡ (pos 3, 2)
unfolding first_socket
second = refl

run-os_net_get_ip :
    (ip' : List ℕ) × (n : ℕ) × (os_net_get_ip second_kind (some eth0) (some (address ++ (0 ∷ []))) 0
      ≡ some (pos 0, some ip', 2))
    × (strlen ip' ≡ some n)
    × (take n ip' ≡ b'1' ∷ b'.' ∷ b'2' ∷ b'.' ∷ b'3' ∷ b'.' ∷ b'4' ∷ [])
run-os_net_get_ip =
    os_net_get_ip_lem second_kind eth0 (b'1' ∷ b'.' ∷ b'2' ∷ []) address [] (pos 3) 0 2 second refl
      refl refl refl (omega arith)
