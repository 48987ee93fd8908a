-- ===== src/Slots.antt =====
-- The two sides of the link between pieces and buffers: `bi` of a piece names a buffer and `pi` of a
-- buffer names a piece, -1 standing for neither. The facts here hold of any two lists of records
-- with such a field.
use native.Mathlib.Decide.{ℕ_discrete}
use libtorrent_go.Base.{
  ℕ, zero, suc, ◌<◌, ◌≡◌, refl, ap, sym, ◌∙◌, ◌≢◌, ◌↔◌, some, List, [], ◌∷◌, ℤ, pos, minus_one,
  arith, length, get_elem?, set, get_elem?-lt,
}

module _ {ℓ} {A : Type ℓ} where
  -- The field `f` of the element at an index, -1 out of range.
  unfoldable pub slot : (A → ℤ) → List A → ℕ → ℤ
  slot f [] i = minus_one
  slot f (x ∷ xs) zero = f x
  slot f (x ∷ xs) (suc i) = slot f xs i

  pub slot_at :
      (f : A → ℤ) (xs : List A) (i : ℕ) {x : A} → get_elem? xs i ≡ some x → slot f xs i ≡ f x
  unfolding slot
  slot_at f [] i e = cc
  slot_at f (x ∷ xs) zero e = cc
  slot_at f (x ∷ xs) (suc i) e = slot_at f xs i e

  pub slot-lt : (f : A → ℤ) (xs : List A) (i : ℕ) {n : ℕ} → slot f xs i ≡ pos n → i < length xs
  unfolding slot
  slot-lt f [] i e = cc
  slot-lt f (x ∷ xs) zero e = omega arith
  slot-lt f (x ∷ xs) (suc i) e = omega (arith, slot-lt f xs i e)

  pub slot-set_self :
      (f : A → ℤ) (xs : List A) (i : ℕ) (v : A) → i < length xs → slot f (set xs i v) i ≡ f v
  unfolding slot
  slot-set_self f [] i v h = elim h [ ]
  slot-set_self f (x ∷ xs) zero v h = refl
  slot-set_self f (x ∷ xs) (suc i) v h = slot-set_self f xs i v (omega arith)

  pub slot-set_ne :
      (f : A → ℤ) (xs : List A) (i j : ℕ) (v : A) → i ≢ j → slot f (set xs i v) j ≡ slot f xs j
  unfolding slot
  slot-set_ne f [] i j v h = refl
  slot-set_ne f (x ∷ xs) zero zero v h = absurd (h refl)
  slot-set_ne f (x ∷ xs) zero (suc j) v h = refl
  slot-set_ne f (x ∷ xs) (suc i) zero v h = refl
  slot-set_ne f (x ∷ xs) (suc i) (suc j) v h = slot-set_ne f xs i j v (λ e. h (ap suc e))

  -- A write that leaves the field as it was.
  pub slot-set_same :
      (f : A → ℤ) (xs : List A) (i j : ℕ) (v : A) {x : A}
      → get_elem? xs i ≡ some x
      → f v ≡ f x
      → slot f (set xs i v) j ≡ slot f xs j
  slot-set_same f xs i j v e q = elim (ℕ_discrete i j) [
    | yes p ↦ rw (← p) (slot-set_self f xs i v (get_elem?-lt xs i e) ∙ q ∙ sym (slot_at f xs i e))
    | no p ↦ slot-set_ne f xs i j v p
  ]

-- Piece p lies in buffer b exactly when buffer b holds piece p.
abbrev pub Linked : (ℕ → ℤ) → (ℕ → ℤ) → Type 0
Linked f g = (p b : ℕ) → (f p ≡ pos b) ↔ (g b ≡ pos p)

module _ {ℓ κ} {A : Type ℓ} {B : Type κ} (f : A → ℤ) (g : B → ℤ) (xs : List A) (ys : List B)
    (both : Linked (slot f xs) (slot g ys)) where
  pub Linked-set_left :
      (p : ℕ) (v : A) {x : A}
      → get_elem? xs p ≡ some x
      → f v ≡ f x
      → Linked (slot f (set xs p v)) (slot g ys)
  Linked-set_left p v e q a b = rw (slot-set_same f xs p a v e q) (both a b)

  pub Linked-set_right :
      (b : ℕ) (w : B) {y : B}
      → get_elem? ys b ≡ some y
      → g w ≡ g y
      → Linked (slot f xs) (slot g (set ys b w))
  Linked-set_right b w e q a c = rw (slot-set_same g ys b c w e q) (both a c)

  -- Both ends of one link are cut.
  pub Linked-cut :
      (p b : ℕ) (v : A) (w : B)
      → p < length xs
      → b < length ys
      → slot g ys b ≡ pos p
      → f v ≡ minus_one
      → g w ≡ minus_one
      → Linked (slot f (set xs p v)) (slot g (set ys b w))
  Linked-cut p b v w hp hb here fv gw a c = elim (ℕ_discrete p a) [
    | yes e ↦ elim (ℕ_discrete b c) [
      | yes q ↦ ground (arith, slot-set_self f xs p v hp, slot-set_self g ys b w hb)
      | no q ↦
          ground (arith, slot-set_self f xs p v hp, slot-set_ne g ys b c w q, both p c, both p b)
    ]
    | no e ↦ elim (ℕ_discrete b c) [
      | yes q ↦ ground (arith, slot-set_ne f xs p a v e, slot-set_self g ys b w hb, both a b)
      | no q ↦ rw (slot-set_ne f xs p a v e, slot-set_ne g ys b c w q) (both a c)
    ]
  ]

  -- A free piece and a free buffer are joined.
  pub Linked-join :
      (p b : ℕ) (v : A) (w : B)
      → p < length xs
      → b < length ys
      → slot f xs p ≡ minus_one
      → slot g ys b ≡ minus_one
      → f v ≡ pos b
      → g w ≡ pos p
      → Linked (slot f (set xs p v)) (slot g (set ys b w))
  Linked-join p b v w hp hb fp gb fv gw a c = elim (ℕ_discrete p a) [
    | yes e ↦ elim (ℕ_discrete b c) [
      | yes q ↦ ground (arith, slot-set_self f xs p v hp, slot-set_self g ys b w hb)
      | no q ↦ ground (arith, slot-set_self f xs p v hp, slot-set_ne g ys b c w q, both p c)
    ]
    | no e ↦ elim (ℕ_discrete b c) [
      | yes q ↦ ground (arith, slot-set_ne f xs p a v e, slot-set_self g ys b w hb, both a b)
      | no q ↦ rw (slot-set_ne f xs p a v e, slot-set_ne g ys b c w q) (both a c)
    ]
  ]
