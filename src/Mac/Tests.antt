-- ===== src/Mac/Tests.antt =====
-- Runs of the functions that read a hardware address.
use cvos.Prelude.{ℕ, ◌≡◌, refl, List, [], ◌∷◌, none, some, pos, neg, true, read_n, copy, write}
use cvos.Mac.{Cards, hex_char, hex_byte, mac_text, card_name, ask_card, get_mac}
use cvos.Mac.{os_net_get_mac_addr, utl_net_get_mac_addr}

-- a system that gives one descriptor, and whose state counts the sockets that are open
abbrev system : ℕ → Cards ℕ
system fd = record {
  socket = λ n. (pos fd, 1);
  address = λ sock name n. some (0 ∷ 0x1c ∷ 0xff ∷ 4 ∷ 5 ∷ 0xa0 ∷ []);
  close = λ sock n. 0;
}

abbrev eth0 : List ℕ
eth0 = b'e' ∷ b't' ∷ b'h' ∷ b'0' ∷ 0 ∷ []

run-os_net_get_mac_addr :
    os_net_get_mac_addr (system 3) (some eth0) 4 true 0
    ≡ some (
      pos 0,
      some (b'0' ∷ b'0' ∷ b'1' ∷ b'c' ∷ b'f' ∷ b'f' ∷ b'0' ∷ b'4' ∷ b'0' ∷ b'5' ∷ b'a' ∷ b'0' ∷ []),
      0,
    )
unfolding os_net_get_mac_addr get_mac card_name ask_card mac_text hex_byte hex_char read_n copy
    write
run-os_net_get_mac_addr = refl

-- A socket that got descriptor 0 is taken for a failure and stays open.
run-utl_net_get_mac_addr :
    utl_net_get_mac_addr (system 0) (some eth0) 4 true 0 ≡ some (neg 2, none, 1)
unfolding utl_net_get_mac_addr get_mac card_name ask_card read_n copy write
run-utl_net_get_mac_addr = refl
