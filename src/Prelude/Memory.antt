-- ===== src/Prelude/Memory.antt =====
-- C memory blocks: a block is the list of its bytes, and an access outside of it is a fault (`none`).
use Prim.Native.Nat.{ℕ, zero, suc, ◌+◌, ◌-◌, ◌≤◌}
use mathlib.Core.Path.{◌≡◌, refl, sym, ◌∙◌, ap}
use mathlib.Core.Bool.{Bool, true, false}
use mathlib.Core.Option.{Option, none, some}
use mathlib.Core.List.{List, [], ◌∷◌, ◌++◌, append_assoc}
use native.Mathlib.Omega.{arith}
use cvos.Prelude.Tests.{ltb, ◌==◌, if◌then◌else◌}
use cvos.Prelude.Lists.{length, get_elem?, set, replicate, length-append}

infixl 5 ◌>>=◌
abbrev pub ◌>>=◌ {ℓ κ} : {A : Type ℓ} {B : Type κ} → Option A → (A → Option B) → Option B
none >>= f = none
some a >>= f = f a

-- `p[i] = v`
unfoldable pub write : List ℕ → ℕ → ℕ → Option (List ℕ)
write p i v = if ltb i (length p) then some (set p i v) else none

-- `memcpy(&p[i], ...)` of the bytes given
unfoldable pub copy : List ℕ → ℕ → List ℕ → Option (List ℕ)
copy p i [] = some p
copy p i (v ∷ vs) = do q ← write p i v; copy q (i + 1) vs

-- the `n` bytes from `&p[i]` on
unfoldable pub read_n : List ℕ → ℕ → ℕ → Option (List ℕ)
read_n p i zero = some []
read_n p i (suc n) = do v ← get_elem? p i; vs ← read_n p (i + 1) n; some (v ∷ vs)

-- `strlen(p)`
unfoldable pub strlen : List ℕ → Option ℕ
strlen [] = none
strlen (c ∷ p) = if c == 0 then some 0 else (strlen p >>= λ n. some (suc n))

-- the bytes of a C string before its NUL, at most `n`
unfoldable pub string_of : ℕ → List ℕ → List ℕ
string_of zero p = []
string_of (suc n) [] = []
string_of (suc n) (c ∷ p) = if c == 0 then [] else c ∷ string_of n p

-- `set` at the place where the first part ends
pub set-mid :
    (xs ys : List ℕ) (i v w : ℕ) → i ≡ length xs → set (xs ++ (w ∷ ys)) i v ≡ xs ++ (v ∷ ys)
set-mid [] ys i v w e = rw e refl
set-mid (x ∷ xs) ys zero v w e = absurd (omega arith)
set-mid (x ∷ xs) ys (suc i) v w e = ap (λ t. x ∷ t) (set-mid xs ys i v w (omega arith))

pub write-mid :
    (xs ys : List ℕ) (i v w : ℕ)
    → i ≡ length xs
    → write (xs ++ (w ∷ ys)) i v ≡ some (xs ++ (v ∷ ys))
unfolding write
write-mid xs ys i v w e =
    let inside : ltb i (length (xs ++ (w ∷ ys))) ≡ true =
      ground (arith, length-append xs (w ∷ ys)) in
    rw inside (ap some (set-mid xs ys i v w e))

pub copy-mid :
    (xs old ys vs : List ℕ) (i : ℕ)
    → i ≡ length xs
    → length vs ≡ length old
    → copy (xs ++ (old ++ ys)) i vs ≡ some (xs ++ (vs ++ ys))
unfolding copy
copy-mid xs [] ys [] i e l = refl
copy-mid xs (o ∷ old) ys [] i e l = absurd (omega arith)
copy-mid xs [] ys (v ∷ vs) i e l = absurd (omega arith)
copy-mid xs (o ∷ old) ys (v ∷ vs) i e l =
    rw (write-mid xs (old ++ ys) i v o e, ← append_assoc xs (v ∷ []) (old ++ ys))
      (copy-mid (xs ++ (v ∷ [])) old ys vs (i + 1) (omega (arith, length-append xs (v ∷ [])))
          (omega arith)
        ∙ ap some (append_assoc xs (v ∷ []) (vs ++ ys)))

pub length-replicate : (n v : ℕ) → length (replicate n v) ≡ n
length-replicate zero v = refl
length-replicate (suc n) v = ap suc (length-replicate n v)

pub replicate-split : (n k v : ℕ) → n ≤ k → replicate k v ≡ replicate n v ++ replicate (k - n) v
replicate-split zero k v h = ap (λ t. replicate t v) (omega arith)
replicate-split (suc n) zero v h = absurd (omega arith)
replicate-split (suc n) (suc k) v h =
    ap (λ t. v ∷ t)
      (replicate-split n k v (omega arith) ∙ ap (λ t. replicate n v ++ replicate t v) (omega arith))

-- Bytes put at the start of a block that is filled with one value
pub copy-replicate :
    (k v : ℕ) (vs : List ℕ)
    → length vs ≤ k
    → copy (replicate k v) 0 vs ≡ some (vs ++ replicate (k - length vs) v)
copy-replicate k v vs h =
    let n = length vs in
    ap (λ t. copy t 0 vs) (replicate-split n k v h)
    ∙ copy-mid [] (replicate n v) (replicate (k - n) v) vs 0 refl (sym (length-replicate n v))

pub get-mid : (xs ys : List ℕ) (v i : ℕ) → i ≡ length xs → get_elem? (xs ++ (v ∷ ys)) i ≡ some v
get-mid [] ys v i e = rw e refl
get-mid (x ∷ xs) ys v zero e = absurd (omega arith)
get-mid (x ∷ xs) ys v (suc i) e = get-mid xs ys v i (omega arith)

pub read_n-mid :
    (xs vs ys : List ℕ) (i : ℕ) → i ≡ length xs → read_n (xs ++ (vs ++ ys)) i (length vs) ≡ some vs
unfolding read_n
read_n-mid xs [] ys i e = refl
read_n-mid xs (v ∷ vs) ys i e =
    let rest : read_n (xs ++ (v ∷ (vs ++ ys))) (i + 1) (length vs) ≡ some vs =
      ap (λ t. read_n t (i + 1) (length vs)) (sym (append_assoc xs (v ∷ []) (vs ++ ys)))
      ∙ read_n-mid (xs ++ (v ∷ [])) vs ys (i + 1) (omega (arith, length-append xs (v ∷ []))) in
    rw (get-mid xs (vs ++ ys) v i e, rest)

-- A block of at least `n` bytes has a first part of `n` bytes.
pub split_at :
    (n : ℕ) (p : List ℕ)
    → n ≤ length p
    → (xs : List ℕ) × (ys : List ℕ) × (p ≡ xs ++ ys) × (length xs ≡ n)
split_at zero p h = ([], p, refl, refl)
split_at (suc n) [] h = absurd (omega arith)
split_at (suc n) (x ∷ p) h =
    let (xs, ys, e, l) = split_at n p (omega arith) in (x ∷ xs, ys, ap (λ t. x ∷ t) e, ap suc l)

-- `!strcmp(p, q)`
unfoldable pub str_eq : List ℕ → List ℕ → Option Bool
str_eq [] q = none
str_eq (a ∷ p) [] = none
str_eq (a ∷ p) (b ∷ q) =
    let rest = str_eq p q in if a == b then (if a == 0 then some true else rest) else some false

-- `!strcmp(p, q)` for strings given without their NUL
abbrev pub bytes_eq : List ℕ → List ℕ → Bool
bytes_eq [] [] = true
bytes_eq [] (b ∷ q) = false
bytes_eq (a ∷ p) [] = false
bytes_eq (a ∷ p) (b ∷ q) = let rest = bytes_eq p q in if a == b then rest else false

pub bytes_eq_refl : (p : List ℕ) → bytes_eq p p ≡ true
bytes_eq_refl [] = refl
bytes_eq_refl (a ∷ p) = ground (arith, bytes_eq_refl p)

pub bytes_eq_sound : (p q : List ℕ) → bytes_eq p q ≡ true → p ≡ q
bytes_eq_sound [] [] e = refl
bytes_eq_sound [] (b ∷ q) e = cc
bytes_eq_sound (a ∷ p) [] e = cc
bytes_eq_sound (a ∷ p) (b ∷ q) e = ground (arith, bytes_eq_sound p q)
