-- ===== src/Ringbuf/Holds.antt =====
-- When a ring holds a queue, and that the stores and reads of the ring keep to it.
use cvos.Prelude.{
  ℕ, suc, ◌+◌, ◌-◌, ◌≤◌, ◌<◌, ◌≡◌, ◌≢◌, refl, sym, true, false, Option, none, some, arith,
}
use cvos.Prelude.{List, [], ◌∷◌, ◌++◌, leb, ◌==◌, if◌then◌else◌, length, set, get_elem?}
use cvos.Prelude.{◌∙◌, ap, length-append, get_elem?-set_self, get_elem?-set_ne}
use cvos.Ringbuf.{Ring, points_at, or_else}
use cvos.Ringbuf.Queue.{capacity, tail}

-- the slot `n` places on from slot `p`
abbrev pub slot : ℕ → ℕ → ℕ → ℕ
slot size p n = if leb size (p + n) then p + n - size else p + n

slot_zero : (size p : ℕ) → p < size → slot size p 0 ≡ p
slot_zero size p h = ground arith

pub slot_lt : (size p n : ℕ) → p < size → n ≤ size → slot size p n < size
slot_lt size p n h k = ground arith

slot-suc : (size p n : ℕ) → p < size → n < size → slot size (slot size p 1) n ≡ slot size p (suc n)
slot-suc size p n h k = ground arith

slot_snoc : (size p n : ℕ) → p < size → n < size → slot size (slot size p n) 1 ≡ slot size p (suc n)
slot_snoc size p n h k = ground arith

pub capacity-le : (size : ℕ) → 0 < size → capacity size ≤ size
capacity-le size h = ground arith

slot-ne : (size p n : ℕ) → p < size → suc n < size → slot size p (suc n) ≢ p
slot-ne size p n h k = ground arith

module _ {ℓ} {A : Type ℓ} where
  -- The items of `q` stand from slot `p` on, going round at `size`.
  abbrev pub Window : List A → ℕ → ℕ → List A → Type ℓ
  Window arr size p [] = Unit
  Window arr size p (x ∷ q) = (get_elem? arr p ≡ some x) × Window arr size (slot size p 1) q

  -- ... and the next free slot is `w`.
  pub record IsSpan (arr : List A) (size p w : ℕ) (q : List A) : Type ℓ where
    pub read_in : p < size
    pub next : w ≡ slot size p (length q)
    pub window : Window arr size p q

  abbrev pub Shape : List A → ℕ → Option ℕ → ℕ → List A → Type ℓ
  Shape arr size none w q = q ≡ []
  Shape arr size (some p) w q = (q ≢ []) × IsSpan arr size p w q

  -- The ring, apart from its counter, holds the queue `q`.
  pub record Holds (r : Ring A) (q : List A) : Type ℓ where
    pub storage : r.size ≤ length r.arr
    pub write_in : r.writepos < r.size
    pub fits : length q ≤ capacity r.size
    pub shape : Shape r.arr r.size r.readpos r.writepos q

  length-snoc : (q : List A) (x : A) → length (q ++ (x ∷ [])) ≡ suc (length q)
  length-snoc q x = omega (arith, length-append q (x ∷ []))

  snoc-ne-nil : (q : List A) (x : A) → q ++ (x ∷ []) ≢ []
  snoc-ne-nil [] x = λ e. cc
  snoc-ne-nil (y ∷ q) x = λ e. cc

  Window-set :
      (arr : List A) (size p w : ℕ) (q : List A) (x : A)
      → p < size
      → length q < size
      → w ≡ slot size p (length q)
      → Window arr size p q
      → Window (set arr w x) size p q
  Window-set arr size p w [] x hp hl hw h = tt
  Window-set arr size p w (y ∷ q) x hp hl hw h = (
    get_elem?-set_ne arr w p x (λ e. slot-ne size p (length q) hp hl (sym hw ∙ e)) ∙ h.0,
    Window-set arr size (slot size p 1) w q x (slot_lt size p 1 hp (omega arith)) (omega arith)
        (hw ∙ sym (slot-suc size p (length q) hp (omega arith))) h.1,
  )

  Window-snoc :
      (arr : List A) (size p : ℕ) (q : List A) (x : A)
      → p < size
      → length q < size
      → get_elem? arr (slot size p (length q)) ≡ some x
      → Window arr size p q
      → Window arr size p (q ++ (x ∷ []))
  Window-snoc arr size p [] x hp hl e h = (rw (slot_zero size p hp) at e, tt)
  Window-snoc arr size p (y ∷ q) x hp hl e h = (
    h.0,
    Window-snoc arr size (slot size p 1) q x (slot_lt size p 1 hp (omega arith)) (omega arith)
        (rw (slot-suc size p (length q) hp (omega arith)) e) h.1,
  )

  -- A store at the next free slot, which then goes on by one.
  pub IsSpan-store :
      (arr : List A) (size p w : ℕ) (q : List A) (x : A)
      → size ≤ length arr
      → length q < size
      → IsSpan arr size p w q
      → IsSpan (set arr w x) size p (slot size w 1) (q ++ (x ∷ []))
  IsSpan-store arr size p w q x hs hl s = record {
    read_in = s.read_in;
    next =
        ap (λ t. slot size t 1) s.next
        ∙ slot_snoc size p (length q) s.read_in hl
        ∙ ap (slot size p) (sym (length-snoc q x));
    window =
        Window-snoc (set arr w x) size p q x s.read_in hl
          (rw (← s.next) (
            get_elem?-set_self arr w x
              (omega (arith, slot_lt size p (length q) s.read_in (omega arith)))))
          (Window-set arr size p w q x s.read_in hl s.next s.window);
  }

  -- A read of the oldest item, which leaves the rest.
  IsSpan-tail :
      (arr : List A) (size p w : ℕ) (x : A) (q : List A)
      → suc (length q) ≤ size
      → IsSpan arr size p w (x ∷ q)
      → IsSpan arr size (slot size p 1) w q
  IsSpan-tail arr size p w x q hl s = record {
    read_in = slot_lt size p 1 s.read_in (omega arith);
    next = s.next ∙ sym (slot-suc size p (length q) s.read_in hl);
    window = s.window.1;
  }

  -- The test for a full ring finds out whether the queue is at its capacity.
  pub points_at-full :
      (arr : List A) (size : ℕ) (o : Option ℕ) (w : ℕ) (q : List A)
      → w < size
      → length q ≤ capacity size
      → Shape arr size o w q
      → points_at o (slot size w 1) ≡ (length q == capacity size)
  points_at-full arr size none w q hw hl h = rw h (ground arith)
  points_at-full arr size (some p) w [] hw hl h = absurd (h.0 refl)
  points_at-full arr size (some p) w (x ∷ q) hw hl (ne, s) = ground (arith, s.next, s.read_in)

  pub Shape-store :
      (arr : List A) (size : ℕ) (o : Option ℕ) (w : ℕ) (q : List A) (x : A)
      → size ≤ length arr
      → w < size
      → length q < size
      → Shape arr size o w q
      → Shape (set arr w x) size (or_else o w) (slot size w 1) (q ++ (x ∷ []))
  Shape-store arr size none w q x hs hw hl h = rw h (
      (
        snoc-ne-nil [] x,
        IsSpan-store arr size w w [] x hs (omega arith)
            (record { read_in = hw; next = sym (slot_zero size w hw); window = tt }),
      ))
  Shape-store arr size (some p) w q x hs hw hl (ne, s) =
      (snoc-ne-nil q x, IsSpan-store arr size p w q x hs hl s)

  pub Shape-skip_store :
      (arr : List A) (size p w : ℕ) (q : List A) (x : A)
      → size ≤ length arr
      → length q ≤ size
      → q ≢ []
      → IsSpan arr size p w q
      → Shape (set arr w x) size (some (slot size p 1)) (slot size w 1) (tail q ++ (x ∷ []))
  Shape-skip_store arr size p w [] x hs hl ne s = absurd (ne refl)
  Shape-skip_store arr size p w (y ∷ q) x hs hl ne s = (
    snoc-ne-nil q x,
    IsSpan-store arr size (slot size p 1) w q x hs hl (IsSpan-tail arr size p w y q hl s),
  )

  -- After a read the ring is found empty exactly when nothing is left.
  pub Shape-take :
      (arr : List A) (size p w : ℕ) (x : A) (q : List A)
      → suc (length q) ≤ capacity size
      → IsSpan arr size p w (x ∷ q)
      → Shape arr size (if slot size p 1 == w then none else some (slot size p 1)) w q
  Shape-take arr size p w x [] hl s =
      let last : (slot size p 1 == w) ≡ true = ground (arith, s.next) in rw last refl
  Shape-take arr size p w x (y ∷ q) hl s =
      let more : (slot size p 1 == w) ≡ false = ground (arith, s.next, s.read_in) in
      let bound : suc (length (y ∷ q)) ≤ size =
        omega (arith, capacity-le size (omega (arith, s.read_in))) in
      rw more ((λ e. cc), IsSpan-tail arr size p w x (y ∷ q) bound s)
