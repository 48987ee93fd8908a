-- ===== src/Base/Lists.antt =====
-- Lists measured and indexed by native numbers, under the library's names.
use Prim.Native.Nat.{ℕ, zero, suc, ◌+◌, ◌-◌, ◌<◌, ◌≤◌, min}
use mathlib.Core.Path.{◌≡◌, refl, sym, ap, subst, subst₂}
use mathlib.Core.Logic.{◌≢◌, ◌⊎◌, inl, inr}
use mathlib.Core.List.{List, [], ◌∷◌, ◌++◌}
use mathlib.Core.Option.{Option, none, some, some-injective}
use native.Mathlib.Omega.{arith}
use native.Mathlib.Decide.{ℕ_discrete}

module _ {ℓ} {A : Type ℓ} where
  abbrev pub length : List A → ℕ
  length [] = 0
  length (x ∷ xs) = suc (length xs)

  abbrev pub get_elem? : List A → ℕ → Option A
  get_elem? [] i = none
  get_elem? (x ∷ xs) zero = some x
  get_elem? (x ∷ xs) (suc i) = get_elem? xs i

  -- A write out of bounds changes nothing; the code's writes follow a read of the same index.
  abbrev pub set : List A → ℕ → A → List A
  set [] i v = []
  set (x ∷ xs) zero v = v ∷ xs
  set (x ∷ xs) (suc i) v = x ∷ set xs i v

  abbrev pub take : ℕ → List A → List A
  take zero xs = []
  take (suc n) [] = []
  take (suc n) (x ∷ xs) = x ∷ take n xs

  abbrev pub drop : ℕ → List A → List A
  drop zero xs = xs
  drop (suc n) [] = []
  drop (suc n) (x ∷ xs) = drop n xs

  abbrev pub replicate : ℕ → A → List A
  replicate zero a = []
  replicate (suc n) a = a ∷ replicate n a

module _ {ℓ} {A : Type ℓ} where
  pub length-append : (xs ys : List A) → length (xs ++ ys) ≡ length xs + length ys
  length-append [] ys = omega arith
  length-append (x ∷ xs) ys = omega (arith, length-append xs ys)

  pub length-set : (xs : List A) (i : ℕ) (v : A) → length (set xs i v) ≡ length xs
  length-set [] i v = refl
  length-set (x ∷ xs) zero v = refl
  length-set (x ∷ xs) (suc i) v = ap suc (length-set xs i v)

  pub length-take : (n : ℕ) (xs : List A) → length (take n xs) ≡ min n (length xs)
  length-take zero xs = omega arith
  length-take (suc n) [] = omega arith
  length-take (suc n) (x ∷ xs) = omega (arith, length-take n xs)

  pub length-drop : (n : ℕ) (xs : List A) → length (drop n xs) ≡ length xs - n
  length-drop zero xs = omega arith
  length-drop (suc n) [] = omega arith
  length-drop (suc n) (x ∷ xs) = omega (arith, length-drop n xs)

  pub length-replicate : (n : ℕ) (a : A) → length (replicate n a) ≡ n
  length-replicate zero a = refl
  length-replicate (suc n) a = ap suc (length-replicate n a)

  pub get_elem?-set_self :
      (xs : List A) (i : ℕ) (v : A) → i < length xs → get_elem? (set xs i v) i ≡ some v
  get_elem?-set_self [] i v h = elim h [ ]
  get_elem?-set_self (x ∷ xs) zero v h = refl
  get_elem?-set_self (x ∷ xs) (suc i) v h = get_elem?-set_self xs i v (omega arith)

  pub get_elem?-set_ne :
      (xs : List A) {i j : ℕ} (v : A) → i ≢ j → get_elem? (set xs i v) j ≡ get_elem? xs j
  get_elem?-set_ne [] v h = refl
  get_elem?-set_ne (x ∷ xs) {i = zero} {j = zero} v h = absurd (h refl)
  get_elem?-set_ne (x ∷ xs) {i = zero} {j = suc j} v h = refl
  get_elem?-set_ne (x ∷ xs) {i = suc i} {j = zero} v h = refl
  get_elem?-set_ne (x ∷ xs) {i = suc i} {j = suc j} v h = get_elem?-set_ne xs v (λ e. h (ap suc e))

  -- What stands there is written back.
  pub set-get_elem? : (xs : List A) (i : ℕ) {x : A} → get_elem? xs i ≡ some x → set xs i x ≡ xs
  set-get_elem? [] i h = cc
  set-get_elem? (y ∷ xs) zero {x} h = ap (λ z. z ∷ xs) (sym (some-injective y x h))
  set-get_elem? (y ∷ xs) (suc i) h = ap (◌∷◌ y) (set-get_elem? xs i h)

  pub get_elem?-lt : (xs : List A) (i : ℕ) {x : A} → get_elem? xs i ≡ some x → i < length xs
  get_elem?-lt [] i h = cc
  get_elem?-lt (y ∷ xs) zero h = omega arith
  get_elem?-lt (y ∷ xs) (suc i) h = omega (arith, get_elem?-lt xs i h)

  pub get_elem?_of_lt : (xs : List A) (i : ℕ) → i < length xs → (x : A) × (get_elem? xs i ≡ some x)
  get_elem?_of_lt [] i h = elim h [ ]
  get_elem?_of_lt (x ∷ xs) zero h = (x, refl)
  get_elem?_of_lt (x ∷ xs) (suc i) h = get_elem?_of_lt xs i (omega arith)

  pub get_elem?_ge : (xs : List A) (i : ℕ) → length xs ≤ i → get_elem? xs i ≡ none
  get_elem?_ge [] i h = refl
  get_elem?_ge (x ∷ xs) zero h = absurd (omega arith)
  get_elem?_ge (x ∷ xs) (suc i) h = get_elem?_ge xs i (omega arith)

  -- What stands at `j` after a write at `i`: the new element or the old one.
  pub get_elem?-set_cases :
      (xs : List A) (i : ℕ) (v : A) (j : ℕ) {y : A}
      → get_elem? (set xs i v) j ≡ some y
      → ((i ≡ j) × (v ≡ y)) ⊎ ((i ≢ j) × (get_elem? xs j ≡ some y))
  get_elem?-set_cases xs i v j e = elim (ℕ_discrete i j) [
    | yes p ↦ inl (
      p,
      ground (arith, get_elem?-set_self xs i v, get_elem?-lt (set xs i v) j e, length-set xs i v),
    )
    | no p ↦ inr (p, ground (arith, get_elem?-set_ne xs {i = i} {j = j} v p))
  ]

-- A statement about every element and its index.
abbrev pub Each {ℓ κ} : {A : Type ℓ} → (ℕ → A → Type κ) → List A → Type (ℓ ⊔ κ)
Each {A} P xs = (i : ℕ) (x : A) → get_elem? xs i ≡ some x → P i x

module _ {ℓ κ} {A : Type ℓ} (P : ℕ → A → Type κ) where
  pub Each-set : (xs : List A) (i : ℕ) (v : A) → Each P xs → P i v → Each P (set xs i v)
  Each-set xs i v all new j y e = elim (get_elem?-set_cases xs i v j e) [
    | inl (p, q) ↦ subst₂ P p q new
    | inr (p, q) ↦ all j y q
  ]

module _ {ℓ κ} {A : Type ℓ} (P : ℕ → A → Type κ) where
  Each-tail : (x : A) (xs : List A) → Each P (x ∷ xs) → Each (λ i. P (suc i)) xs
  Each-tail x xs all i y e = all (suc i) y e

  pub Each-cons : (x : A) (xs : List A) → P zero x → Each (λ i. P (suc i)) xs → Each P (x ∷ xs)
  Each-cons x xs here all zero y e = subst (P zero) (some-injective x y e) here
  Each-cons x xs here all (suc i) y e = all i y e

  pub Each-nil : Each P []
  Each-nil i x e = cc

-- One more element at the end.
pub Each-snoc {ℓ κ} :
    {A : Type ℓ} (P : ℕ → A → Type κ) (xs : List A) (v : A)
    → Each P xs
    → P (length xs) v
    → Each P (xs ++ v ∷ [])
Each-snoc P [] v all new = Each-cons P v [] new (Each-nil _)
Each-snoc P (x ∷ xs) v all new =
    Each-cons P x (xs ++ v ∷ []) (all zero x refl)
      (Each-snoc (λ i. P (suc i)) xs v (Each-tail P x xs all) new)
