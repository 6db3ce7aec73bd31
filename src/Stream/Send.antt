-- ===== src/Stream/Send.antt =====
-- What the sending loop of netsock.c and utils.c hands over.
use cvos.Prelude.{ℕ, zero, suc, ◌+◌, ◌-◌, ◌≤◌, ◌≡◌, refl, sym, ◌∙◌, ap, arith, ◌⊎◌, inl, inr}
use cvos.Prelude.{List, [], ◌∷◌, ◌++◌, Option, none, some, ℤ, pos, negsuc, pos_part}
use cvos.Prelude.{take, drop, length}
use mathlib.Core.List.{append_assoc, append-nil}
use cvos.Stream.{progress, send_loop}

-- What is documented of a call that sends: it takes a first part of what it is given, as long as it says,
-- and hands it over behind what was handed over before.
abbrev pub Sends {ℓ} : {S : Type ℓ} → (List ℕ → S → ℤ × S) → (S → List ℕ) → Type ℓ
Sends {S} send wire =
    (p : List ℕ) (k : S)
    → (pos_part (send p k).0 ≤ length p)
      × (wire (send p k).1 ≡ wire k ++ take (pos_part (send p k).0) p)

pub progress-cases :
    (r : ℤ)
    → ((progress r ≡ none) × (pos_part r ≡ 0))
      ⊎ ((n : ℕ) × (progress r ≡ some n) × (r ≡ pos n) × (1 ≤ n))
progress-cases (pos zero) = inl (refl, refl)
progress-cases (pos (suc n)) = inr (suc n, refl, refl, omega arith)
progress-cases (negsuc n) = inl (refl, refl)

take-nil : (n : ℕ) → take {A = ℕ} n [] ≡ []
take-nil zero = refl
take-nil (suc n) = refl

take-take-drop : (n m : ℕ) (p : List ℕ) → take n p ++ take m (drop n p) ≡ take (n + m) p
take-take-drop zero m p = ap (λ t. take t p) (omega arith)
take-take-drop (suc n) m [] = take-nil m ∙ sym (take-nil (suc n + m))
take-take-drop (suc n) m (x ∷ p) =
    let e : suc n + m ≡ suc (n + m) = omega arith in rw e (ap (λ t. x ∷ t) (take-take-drop n m p))

drop-nil : (n : ℕ) → drop {A = ℕ} n [] ≡ []
drop-nil zero = refl
drop-nil (suc n) = refl

drop-drop : (n m : ℕ) (p : List ℕ) → drop m (drop n p) ≡ drop (n + m) p
drop-drop zero m p = ap (λ t. drop t p) (omega arith)
drop-drop (suc n) m [] = drop-nil m ∙ sym (drop-nil (suc n + m))
drop-drop (suc n) m (x ∷ p) =
    let e : suc n + m ≡ suc (n + m) = omega arith in rw e (drop-drop n m p)

length-drop : (n : ℕ) (p : List ℕ) → length (drop n p) ≡ length p - n
length-drop zero p = omega arith
length-drop (suc n) [] = omega arith
length-drop (suc n) (x ∷ p) = omega (arith, length-drop n p)

-- What the loop leaves: `n` bytes handed over and counted, the others left, and a last call that took at
-- least one byte if none is left.
abbrev pub Sent {ℓ} :
    {S : Type ℓ} → (S → List ℕ) → List ℕ → ℤ → ℕ → S → Option (ℤ × ℕ × List ℕ × S) → Type ℓ
Sent {S} wire p ret cnt k out =
    (n : ℕ) × (ret' : ℤ) × (k' : S) × (out ≡ some (ret', cnt + n, drop n p, k'))
    × (n ≤ length p)
    × (wire k' ≡ wire k ++ take n p)
    × (n ≡ length p
        → ((p ≡ []) × (ret' ≡ ret)) ⊎ ((1 ≤ pos_part ret') × (pos_part ret' ≤ length p)))

module _ {ℓ} {S : Type ℓ} (send : List ℕ → S → ℤ × S) (wire : S → List ℕ)
    (law : Sends send wire) where
  pub send_loop-Sent :
      (fuel : ℕ) (p : List ℕ) (ret : ℤ) (cnt : ℕ) (k : S)
      → length p ≤ fuel
      → Sent wire p ret cnt k (send_loop send fuel p ret cnt k)
  unfolding send_loop
  send_loop-Sent fuel [] ret cnt k h = (
    0,
    ret,
    k,
    ap (λ t. some (ret, t, [], k)) (omega arith),
    omega arith,
    sym (append-nil (wire k)),
    λ e. inl (refl, refl),
  )
  send_loop-Sent zero (b ∷ p) ret cnt k h = absurd (omega arith)
  send_loop-Sent (suc fuel) (b ∷ p) ret cnt k h =
      let (r, k') = send (b ∷ p) k in
      let (fits, handed) = law (b ∷ p) k in
      elim (progress-cases r) [
        | inl (stop, nothing) ↦ (
          0,
          r,
          k',
          rw (send_loop, stop) (ap (λ t. some (r, t, b ∷ p, k')) (omega arith)),
          omega arith,
          handed ∙ ap (λ t. wire k ++ take t (b ∷ p)) nothing,
          λ e. absurd (omega (arith, e)),
        )
        | inr (n, go, is_n, some_taken) ↦
            let q = b ∷ p in
            let taken : pos_part r ≡ n = ap pos_part is_n in
            let left = length-drop n q in
            let (m, ret', k2, e, small, w, last) =
              send_loop-Sent fuel (drop n q) r (cnt + n) k' (omega (arith, left)) in
            let count : cnt + n + m ≡ cnt + (n + m) = omega arith in
            (
              n + m,
              ret',
              k2,
              rw (send_loop, go)
                  (e
                    ∙ ap (λ t. some (ret', t, drop m (drop n q), k2)) count
                    ∙ ap (λ t. some (ret', cnt + (n + m), t, k2)) (drop-drop n m q)),
              omega (arith, small, left, fits, taken),
              w
                  ∙ ap (λ t. t ++ take m (drop n q)) (handed ∙ ap (λ t. wire k ++ take t q) taken)
                  ∙ append_assoc (wire k) (take n q) (take m (drop n q))
                  ∙ ap (λ t. wire k ++ t) (take-take-drop n m q),
              λ all. elim (last (omega (arith, all, left))) [
                | inl (nil, same) ↦
                    inr (omega (arith, ap pos_part same), omega (arith, ap pos_part same, fits))
                | inr (one, most) ↦ inr (one, omega (arith, most, left))
              ],
            )
      ]
