-- ===== src/Auth/Card.antt =====
-- What `Auth_VerifyMacAuth` of auth.c finds on the card.
use cvos.Prelude.{ℕ, ◌+◌, ◌-◌, ◌/◌, ◌%◌, ◌*◌, ◌≤◌, ◌≡◌, ◌≢◌, refl, sym, ◌∙◌, ap, arith, some}
use cvos.Prelude.{List, [], ◌∷◌, ◌++◌, true, false, ℤ, pos, neg, is_zero, if◌then◌else◌, ltb}
use cvos.Prelude.{length, replicate, length-append, copy-replicate, read_n-mid, bytes_eq}
use cvos.Prelude.{bytes_eq_refl, bytes_eq_sound, Bool-cases, inl, inr}
use cvos.Prelude.{no_nul, no_nul-append, strlen-nul, str_eq-nul}
use mathlib.Core.List.{append_assoc}
use cvos.Mac.{
  Cards, mac_text, hex_byte, hex_char, card_name, ask_card, get_mac, utl_net_get_mac_addr,
}
use cvos.Mac.Text.{Bytes, mac_text-inj}
use cvos.Auth.{verify_mac, mac_buffer, verify_mac_auth}

hex_char-pos : (n : ℕ) → 1 ≤ hex_char n
unfolding hex_char
hex_char-pos n = ground arith

hex_byte-no_nul : (b : ℕ) → no_nul (hex_byte b) ≡ true
unfolding hex_byte
hex_byte-no_nul b = ground (arith, hex_char-pos (b / 16 % 16), hex_char-pos (b % 16))

mac_text-no_nul : (bytes : List ℕ) → no_nul (mac_text (b':' ∷ []) bytes) ≡ true
unfolding mac_text
mac_text-no_nul [] = refl
mac_text-no_nul (b ∷ []) = hex_byte-no_nul b
mac_text-no_nul (b ∷ c ∷ bytes) =
    no_nul-append (hex_byte b) (b':' ∷ mac_text (b':' ∷ []) (c ∷ bytes)) (hex_byte-no_nul b)
      (mac_text-no_nul (c ∷ bytes))

length-mac_text :
    (b : ℕ) (bytes : List ℕ) → length (mac_text (b':' ∷ []) (b ∷ bytes)) ≡ 2 + 3 * length bytes
unfolding mac_text hex_byte
length-mac_text b [] = refl
length-mac_text b (c ∷ bytes) = omega (arith, length-mac_text c bytes)

length-address : (bytes : List ℕ) → length bytes ≡ 6 → length (mac_text (b':' ∷ []) bytes) ≡ 17
length-address [] h = absurd (omega arith)
length-address (b ∷ bytes) h = omega (arith, length-mac_text b bytes)

module _ {ℓ} {S : Type ℓ} (cards : Cards S) (name rest : List ℕ) (s s1 : S) (sock : ℤ)
    (bytes : List ℕ) (clean : no_nul name ≡ true) (short : length name ≤ 16)
    (opened : cards.socket s ≡ (sock, s1)) (usable : is_zero sock ≡ false)
    (answer : cards.address sock (name ++ replicate (16 - length name) 0) s1 ≡ some bytes)
    (six : length bytes ≡ 6) where
  asked :
      utl_net_get_mac_addr cards (some (name ++ (0 ∷ rest))) (length name) true s
      ≡ some (pos 0, some (mac_text (b':' ∷ []) bytes), cards.close sock s1)
  unfolding utl_net_get_mac_addr get_mac card_name ask_card
  asked =
      let fits : ltb 16 (length name) ≡ false = ground arith in
      rw
        (
          read_n-mid [] name (0 ∷ rest) 0 refl,
          fits,
          copy-replicate 16 0 name short,
          opened,
          usable,
          answer,
        )
        (ap (λ t. some (pos 0, some (mac_text (b':' ∷ []) bytes), cards.close t.0 t.1)) opened)

  stored :
      mac_buffer (some (mac_text (b':' ∷ []) bytes))
      ≡ some (mac_text (b':' ∷ []) bytes ++ (0 ∷ replicate 14 0))
  unfolding mac_buffer
  stored =
      let text = mac_text (b':' ∷ []) bytes in
      let size : length (text ++ (0 ∷ [])) ≡ 18 =
        omega (arith, length-append text (0 ∷ []), length-address bytes six) in
      copy-replicate 32 0 (text ++ (0 ∷ [])) (omega (arith, size))
      ∙ ap (λ t. some ((text ++ (0 ∷ [])) ++ replicate (32 - t) 0)) size
      ∙ ap some (append_assoc text (0 ∷ []) (replicate 14 0))

  compared :
      (want after : List ℕ)
      → verify_mac_auth cards (name ++ (0 ∷ rest)) (mac_text (b':' ∷ []) want ++ (0 ∷ after)) s
        ≡ some (
          if bytes_eq (mac_text (b':' ∷ []) bytes) (mac_text (b':' ∷ []) want)
              then pos 1
              else neg 1,
          cards.close sock s1,
        )
  unfolding verify_mac_auth verify_mac
  compared want after = rw (
    strlen-nul name rest clean,
    asked,
    stored,
    str_eq-nul (mac_text (b':' ∷ []) bytes) (mac_text (b':' ∷ []) want) (replicate 14 0) after
        (mac_text-no_nul bytes) (mac_text-no_nul want),
  )

  -- Where a socket is made whose descriptor is not 0, and the card of that name, of at most 16 bytes, has
  -- an address of six bytes: `Auth_VerifyMacAuth` returns 1 if these are the bytes whose text it is given,
  -- and -1 if not; it closes the socket.
  pub verify_mac_auth_lem :
      (want after : List ℕ)
      → length want ≡ 6
      → Bytes bytes
      → Bytes want
      → let out =
          verify_mac_auth cards (name ++ (0 ∷ rest)) (mac_text (b':' ∷ []) want ++ (0 ∷ after)) s in
        (bytes ≡ want → out ≡ some (pos 1, cards.close sock s1))
        × (bytes ≢ want → out ≡ some (neg 1, cards.close sock s1))
  verify_mac_auth_lem want after six' small small' =
      let text = mac_text (b':' ∷ []) in
      (
        λ e.
            let same : bytes_eq (text bytes) (text want) ≡ true =
              ap (λ t. bytes_eq (text bytes) (text t)) (sym e) ∙ bytes_eq_refl (text bytes) in
            compared want after ∙ rw same refl,
        λ ne. elim (Bool-cases (bytes_eq (text bytes) (text want))) [
          | inl same ↦ absurd (
              ne (
                mac_text-inj (b':' ∷ []) bytes want (six ∙ sym six') small small'
                  (bytes_eq_sound (text bytes) (text want) same)))
          | inr other ↦ compared want after ∙ rw other refl
        ],
      )
