-- ===== src/Storage/Account/Count.antt =====
-- Counting the buffers of memory_storage.hpp that pass a test.
use libtorrent_go.Base.{
  ℕ, zero, suc, ◌+◌, ◌≤◌, ◌≡◌, refl, Bool, true, false, ◌⊎◌, inl, inr, some, List, [], ◌∷◌, ◌++◌,
  arith, length, get_elem?, set, Each, Bool-cases,
}
use mathlib.Core.Option.{some-injective}
use libtorrent_go.Buffer.{Buffer}
use libtorrent_go.Storage.Evict.Evictable.{count_if}

pub count_if-set_up :
    (p : Buffer → Bool) (bs : List Buffer) (i : ℕ) (c : Buffer) {b : Buffer}
    → get_elem? bs i ≡ some b
    → p b ≡ false
    → p c ≡ true
    → count_if p (set bs i c) ≡ suc (count_if p bs)
unfolding count_if
count_if-set_up p [] i c e miss hit = cc
count_if-set_up p (x ∷ bs) zero c e miss hit =
    let q = some-injective x _ e in rw (hit, q, miss) refl
count_if-set_up p (x ∷ bs) (suc i) c e miss hit =
    ground (arith, count_if-set_up p bs i c e miss hit)

pub count_if-le-length : (p : Buffer → Bool) (bs : List Buffer) → count_if p bs ≤ length bs
unfolding count_if
count_if-le-length p [] = omega arith
count_if-le-length p (b ∷ bs) = ground (arith, count_if-le-length p bs)

pub count_if-snoc :
    (p : Buffer → Bool) (bs : List Buffer) (b : Buffer)
    → p b ≡ false
    → count_if p (bs ++ b ∷ []) ≡ count_if p bs
unfolding count_if
count_if-snoc p [] b miss = rw miss refl
count_if-snoc p (c ∷ bs) b miss = ground (arith, count_if-snoc p bs b miss)

-- What passes the first test passes one of two others.
pub count_if_cover :
    (p q r : Buffer → Bool) (bs : List Buffer)
    → Each (λ _ b. p b ≡ true → (q b ≡ true) ⊎ (r b ≡ true)) bs
    → count_if p bs ≤ count_if q bs + count_if r bs
unfolding count_if
count_if_cover p q r [] h = omega arith
count_if_cover p q r (b ∷ bs) h =
    let rest = count_if_cover p q r bs (λ i. h (suc i)) in
    elim (Bool-cases (p b)) [
      | inl hit ↦ elim (h zero b refl hit) [
        | inl a ↦ ground (arith, rest)
        | inr a ↦ ground (arith, rest)
      ]
      | inr miss ↦ ground (arith, rest)
    ]

pub count_if_none :
    (r : Buffer → Bool) (bs : List Buffer) → Each (λ _ b. r b ≡ false) bs → count_if r bs ≡ 0
unfolding count_if
count_if_none r [] h = refl
count_if_none r (b ∷ bs) h = rw (h zero b refl) (count_if_none r bs (λ i. h (suc i)))

-- At most one buffer passes a test that two different ones never pass.
pub count_if_unique :
    (r : Buffer → Bool) (bs : List Buffer)
    → ((i j : ℕ) (b c : Buffer)
        → get_elem? bs i ≡ some b
        → get_elem? bs j ≡ some c
        → r b ≡ true
        → r c ≡ true
        → i ≡ j)
    → count_if r bs ≤ 1
unfolding count_if
count_if_unique r [] h = omega arith
count_if_unique r (b ∷ bs) h = elim (Bool-cases (r b)) [
  | inl hit ↦
      let others : Each (λ _ c. r c ≡ false) bs = λ j c here. elim (Bool-cases (r c)) [
        | inl same ↦ absurd (omega (arith, h zero (suc j) b c refl here hit same))
        | inr miss ↦ miss
      ] in
      ground (arith, count_if_none r bs others)
  | inr miss ↦
      let rest =
        count_if_unique r bs
          (λ i j x y at_i at_j hx hy. omega (arith, h (suc i) (suc j) x y at_i at_j hx hy)) in
      ground (arith, rest)
]
