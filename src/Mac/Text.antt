-- ===== src/Mac/Text.antt =====
-- The text of a hardware address, and what auth.c finds by comparing two of them.
use cvos.Prelude.{ℕ, ◌/◌, ◌%◌, ◌<◌, ◌≡◌, refl, sym, ◌∙◌, ap, arith, List, [], ◌∷◌, ◌++◌}
use cvos.Prelude.{length}
use mathlib.Core.List.{append-nil}
use cvos.Mac.{hex_char, hex_byte, mac_text}

abbrev pub Bytes : List ℕ → Type 0
Bytes [] = Unit
Bytes (b ∷ bytes) = (b < 256) × Bytes bytes

hex_char-inj : (m n : ℕ) → m < 16 → n < 16 → hex_char m ≡ hex_char n → m ≡ n
unfolding hex_char
hex_char-inj m n hm hn e = ground arith

hex_byte-inj :
    (a b : ℕ) (xs ys : List ℕ)
    → a < 256
    → b < 256
    → hex_byte a ++ xs ≡ hex_byte b ++ ys
    → (a ≡ b) × (xs ≡ ys)
unfolding hex_byte
hex_byte-inj a b xs ys ha hb e =
    let high : hex_char (a / 16 % 16) ≡ hex_char (b / 16 % 16) = cc in
    let low : hex_char (a % 16) ≡ hex_char (b % 16) = cc in
    let rest : xs ≡ ys = cc in
    (
      omega (
        arith,
        hex_char-inj (a / 16 % 16) (b / 16 % 16) (omega arith) (omega arith) high,
        hex_char-inj (a % 16) (b % 16) (omega arith) (omega arith) low,
      ),
      rest,
    )

append-inj : (sep xs ys : List ℕ) → sep ++ xs ≡ sep ++ ys → xs ≡ ys
append-inj [] xs ys e = e
append-inj (c ∷ sep) xs ys e = append-inj sep xs ys (cc)

hex_byte-end : (a b : ℕ) → a < 256 → b < 256 → hex_byte a ≡ hex_byte b → a ≡ b
hex_byte-end a b ha hb e =
    (hex_byte-inj a b [] [] ha hb (append-nil (hex_byte a) ∙ e ∙ sym (append-nil (hex_byte b)))).0

-- Addresses of as many bytes that print the same are the same.
pub mac_text-inj :
    (sep xs ys : List ℕ)
    → length xs ≡ length ys
    → Bytes xs
    → Bytes ys
    → mac_text sep xs ≡ mac_text sep ys
    → xs ≡ ys
unfolding mac_text
mac_text-inj sep [] [] l ha hb e = refl
mac_text-inj sep [] (b ∷ ys) l ha hb e = absurd (omega arith)
mac_text-inj sep (a ∷ xs) [] l ha hb e = absurd (omega arith)
mac_text-inj sep (a ∷ []) (b ∷ []) l ha hb e = ap (λ t. t ∷ []) (hex_byte-end a b ha.0 hb.0 e)
mac_text-inj sep (a ∷ []) (b ∷ d ∷ ys) l ha hb e = absurd (omega arith)
mac_text-inj sep (a ∷ c ∷ xs) (b ∷ []) l ha hb e = absurd (omega arith)
mac_text-inj sep (a ∷ c ∷ xs) (b ∷ d ∷ ys) l ha hb e =
    let parts =
      hex_byte-inj a b (sep ++ mac_text sep (c ∷ xs)) (sep ++ mac_text sep (d ∷ ys)) ha.0 hb.0 e in
    let tails =
      mac_text-inj sep (c ∷ xs) (d ∷ ys) (omega arith) ha.1 hb.1 (append-inj sep _ _ parts.1) in
    cc (parts.0, tails)
