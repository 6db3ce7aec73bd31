-- ===== src/Auth/Tests.antt =====
-- The address of the card of auth.c at a concrete input.
use cvos.Prelude.{ℕ, ◌+◌, ◌-◌, ◌≡◌, ◌≢◌, refl, arith, List, [], ◌∷◌, ◌++◌, some, pos, neg}
use cvos.Mac.{Cards, mac_text}
use cvos.Auth.{verify_mac_auth}
use cvos.Auth.Card.{verify_mac_auth_lem}

-- one card, whose address is `00:16:3e:04:71:22`
abbrev diqi : List ℕ
diqi = 0x00 ∷ 0x16 ∷ 0x3e ∷ 0x04 ∷ 0x71 ∷ 0x22 ∷ []

abbrev one_card : Cards ℕ
one_card = record {
  socket = λ n. (pos 3, n + 1);
  address = λ sock name n. some diqi;
  close = λ sock n. n - 1;
}

abbrev eth0 : List ℕ
eth0 = b'e' ∷ b't' ∷ b'h' ∷ b'0' ∷ []

verify_mac_auth_lem_example :
    let out =
      verify_mac_auth one_card (eth0 ++ (0 ∷ [])) (mac_text (b':' ∷ []) diqi ++ (0 ∷ [])) 5 in
    (diqi ≡ diqi → out ≡ some (pos 1, 5)) × (diqi ≢ diqi → out ≡ some (neg 1, 5))
verify_mac_auth_lem_example =
    verify_mac_auth_lem one_card eth0 [] 5 6 (pos 3) diqi refl (omega arith) refl refl refl refl
      diqi [] refl (omega arith) (omega arith)
