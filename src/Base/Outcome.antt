-- ===== src/Base/Outcome.antt =====
-- The outcome of a call: a value, undefined behaviour, or a loop that has not ended yet.
use mathlib.Core.Path.{◌≡◌, refl, subst, sym}
use mathlib.Core.Bool.{Bool, true, false}
use mathlib.Core.Option.{Option, none, some}
use Prim.Native.Nat.{ℕ}
use libtorrent_go.Base.Int.{ℤ, pos, negsuc}
use libtorrent_go.Base.Lists.{get_elem?}
use mathlib.Core.List.{List}

-- `fault`: the C++ code reads out of range, through an indeterminate pointer, or divides by zero.
-- `hang`: the fuel ran out inside a loop.
pub data Result {κ} (Value : Type κ) : Type κ where
  fault hang : Result Value
  ok : Value → Result Value

-- A call is made with the value of the one before it.
infixl 6 ◌>>=◌
abbrev pub ◌>>=◌ {κ μ} :
    {Value : Type κ} {Next : Type μ} → Result Value → (Value → Result Next) → Result Next
fault >>= call = fault
hang >>= call = hang
ok v >>= call = call v

-- `v[i]` of a vector.
abbrev pub or_fault {ℓ} : {A : Type ℓ} → Option A → Result A
or_fault none = fault
or_fault (some a) = ok a

abbrev pub at {ℓ} : {A : Type ℓ} → List A → ℕ → Result A
at xs i = or_fault (get_elem? xs i)

-- `v[i]` at an `int`: a negative index is out of range.
abbrev pub at_int {ℓ} : {A : Type ℓ} → List A → ℤ → Result A
at_int xs (pos i) = at xs i
at_int xs (negsuc i) = fault

-- `a && b`: the second operand is evaluated only if the first is true.
infixr 35 ◌and_then◌
abbrev pub ◌and_then◌ : Result Bool → Result Bool → Result Bool
ok true and_then b = b
ok false and_then b = ok false
fault and_then b = fault
hang and_then b = hang

-- A result is no fault, and if it is a value, that satisfies `P`.
abbrev pub Safe {ℓ} : {A : Type ℓ} → (A → Type 0) → Result A → Type 0
Safe P (ok a) = P a
Safe P fault = ⊥
Safe P hang = Unit

pub Safe-bind {ℓ κ} :
    {A : Type ℓ} {B : Type κ} (P : A → Type 0) (Q : B → Type 0) (m : Result A) (f : A → Result B)
    → Safe P m
    → ((a : A) → P a → Safe Q (f a))
    → Safe Q (m >>= f)
Safe-bind P Q (ok a) f h k = k a h
Safe-bind P Q fault f h k = absurd h
Safe-bind P Q hang f h k = tt

pub Safe-mono {ℓ} :
    {A : Type ℓ} (P Q : A → Type 0) (m : Result A) → Safe P m → ((a : A) → P a → Q a) → Safe Q m
Safe-mono P Q (ok a) h k = k a h
Safe-mono P Q fault h k = absurd h
Safe-mono P Q hang h k = tt

-- What is shown of a value may rest on how it came about.
pub Safe-and {ℓ} :
    {A : Type ℓ} (P Q : A → Type 0) (m : Result A)
    → Safe P m
    → ((a : A) → m ≡ ok a → Q a)
    → Safe (λ a. P a × Q a) m
Safe-and P Q (ok a) h k = (h, k a refl)
Safe-and P Q fault h k = absurd h
Safe-and P Q hang h k = tt

-- A computation that yields a value.
abbrev pub Total {ℓ} : {A : Type ℓ} → Result A → Type ℓ
Total {A} m = (a : A) × (m ≡ ok a)

pub and_then-Total : (m k : Result Bool) → Total m → Total k → Total (m and_then k)
and_then-Total m k (true, p) (b, q) = (b, rw (p, q) refl)
and_then-Total m k (false, p) (b, q) = (false, rw p refl)

pub and_then-eq-true :
    (m k : Result Bool) → (m and_then k) ≡ ok true → (m ≡ ok true) × (k ≡ ok true)
and_then-eq-true (ok true) k h = (refl, h)
and_then-eq-true (ok false) k h = cc
and_then-eq-true fault k h = cc
and_then-eq-true hang k h = cc

pub ok-injective {ℓ} : {A : Type ℓ} {a b : A} → ok a ≡ ok b → a ≡ b
ok-injective h = cc

pub Safe-ok {ℓ} : {A : Type ℓ} (P : A → Type 0) {m : Result A} {a : A} → Safe P m → m ≡ ok a → P a
Safe-ok P h e = subst (Safe P) e h

-- A chain that ends has ended at its first link, and then at the others.
pub ended {ℓ κ} :
    {Value : Type ℓ} {Last : Type κ} (first : Result Value) (others : Value → Result Last)
    {last : Last}
    → ok last ≡ (first >>= others)
    → (v : Value) × (others v ≡ ok last) × (first ≡ ok v)
ended fault others h = cc
ended hang others h = cc
ended (ok v) others h = (v, sym h, refl)
