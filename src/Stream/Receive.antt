-- ===== src/Stream/Receive.antt =====
-- What the receiving loop of netsock.c takes in.
use cvos.Prelude.{ℕ, zero, suc, ◌+◌, ◌-◌, ◌≤◌, ◌≡◌, refl, sym, ◌∙◌, ap, arith, inl, inr}
use cvos.Prelude.{
  List, [], ◌∷◌, ◌++◌, Option, some, ℤ, pos_part, take, length, length-append, take_all,
}
use mathlib.Core.List.{append_assoc, append-nil}
use cvos.Stream.{receive_loop}
use cvos.Stream.Send.{progress-cases}

-- What is documented of a call that receives: it returns the number of bytes that it took, no more than
-- were wanted; `seen` is what was taken from the descriptor so far.
abbrev pub Receives {ℓ} : {S : Type ℓ} → (ℕ → S → ℤ × List ℕ × S) → (S → List ℕ) → Type ℓ
Receives {S} recv seen =
    (len : ℕ) (k : S)
    → let (r, bytes, k') = recv len k in
      (length bytes ≡ pos_part r) × (length bytes ≤ len) × (seen k' ≡ seen k ++ bytes)

-- What the loop gives: the bytes taken in are those put behind `got`, they are counted, and there are at
-- most `len` of them.
abbrev pub Received {ℓ} :
    {S : Type ℓ} → (S → List ℕ) → ℕ → ℕ → List ℕ → S → Option (ℕ × List ℕ × S) → Type ℓ
Received {S} seen len cnt got k out =
    (new : List ℕ) × (k' : S) × (out ≡ some (cnt + length new, got ++ new, k'))
    × (length new ≤ len)
    × (seen k' ≡ seen k ++ new)

empty_of_length : (xs : List ℕ) → length xs ≡ 0 → xs ≡ []
empty_of_length [] e = refl
empty_of_length (x ∷ xs) e = absurd (omega (arith, e))

module _ {ℓ} {S : Type ℓ} (recv : ℕ → S → ℤ × List ℕ × S) (seen : S → List ℕ)
    (law : Receives recv seen) where
  pub receive_loop-Received :
      (fuel len cnt : ℕ) (got : List ℕ) (k : S)
      → len ≤ fuel
      → Received seen len cnt got k (receive_loop recv fuel len cnt got k)
  unfolding receive_loop
  receive_loop-Received fuel zero cnt got k h = (
    [],
    k,
    ap (λ t. some (t, got, k)) (omega arith)
        ∙ ap (λ t. some (cnt + 0, t, k)) (sym (append-nil got)),
    omega arith,
    sym (append-nil (seen k)),
  )
  receive_loop-Received zero (suc len) cnt got k h = absurd (omega arith)
  receive_loop-Received (suc fuel) (suc len) cnt got k h =
      let (r, bytes, k') = recv (suc len) k in
      let (size, fits, taken) = law (suc len) k in
      elim (progress-cases r) [
        | inl (stop, nothing) ↦
            let none_new : bytes ≡ [] = empty_of_length bytes (size ∙ nothing) in
            (
              [],
              k',
              rw (receive_loop, stop)
                  (ap (λ t. some (t, got, k')) (omega arith)
                    ∙ ap (λ t. some (cnt + 0, t, k')) (sym (append-nil got))),
              omega arith,
              taken ∙ ap (λ t. seen k ++ t) none_new,
            )
        | inr (n, go, is_n, some_taken) ↦
            let whole : length bytes ≡ n = size ∙ ap pos_part is_n in
            let (new, k2, e, small, s) =
              receive_loop-Received fuel (suc len - n) (cnt + n) (got ++ take n bytes) k'
                (omega arith) in
            let all : take n bytes ≡ bytes = take_all n bytes whole in
            let count : cnt + n + length new ≡ cnt + length (bytes ++ new) =
              omega (arith, length-append bytes new, whole) in
            (
              bytes ++ new,
              k2,
              rw (receive_loop, go)
                  (e
                    ∙ ap (λ t. some (t, (got ++ take n bytes) ++ new, k2)) count
                    ∙ ap (λ t. some (cnt + length (bytes ++ new), (got ++ t) ++ new, k2)) all
                    ∙ ap (λ t. some (cnt + length (bytes ++ new), t, k2))
                        (append_assoc got bytes new)),
              omega (arith, length-append bytes new, whole, small, fits),
              s ∙ ap (λ t. t ++ new) taken ∙ append_assoc (seen k) bytes new,
            )
      ]
