-- ===== src/Storage/Evict/Oldest.antt =====
-- The search loop of `find_last_buffer` in memory_storage.hpp: it picks the candidate that was
-- touched least recently.
use libtorrent_go.Base.{
  ℕ, zero, suc, ◌≡◌, refl, subst, Bool, true, false, ◌&&◌, ◌⊎◌, inl, inr, some, none, List, [], ◌∷◌,
  ℤ, arith, get_elem?, Each, Bool-cases, ok,
}
use mathlib.Core.Option.{some-injective}
use libtorrent_go.Buffer.{Buffer, Time, earlier}
use libtorrent_go.Storage.{Storage, Env}
use libtorrent_go.Storage.Evict.{is_candidate, scan}

pub earlier_irrefl : (a : Time) → earlier a a ≡ false
earlier_irrefl none = refl
earlier_irrefl (some x) = ground arith

pub earlier_trans : (a b c : Time) → earlier a b ≡ true → earlier b c ≡ true → earlier a c ≡ true
earlier_trans none b c h k = cc
earlier_trans (some x) none c h k = cc
earlier_trans (some x) (some y) none h k = cc
earlier_trans (some x) (some y) (some z) h k = ground arith

-- What is not before `c` is not before `a` either, where `a` is before `c`.
pub not_earlier : (a b c : Time) → earlier a c ≡ true → earlier b c ≡ false → earlier b a ≡ false
not_earlier a none c h k = refl
not_earlier none (some y) c h k = refl
not_earlier (some x) (some y) none h k = cc
not_earlier (some x) (some y) (some z) h k = ground arith

pub earlier_asymm : (a b : Time) → earlier a b ≡ true → earlier b a ≡ false
earlier_asymm none b h = cc
earlier_asymm (some x) none h = cc
earlier_asymm (some x) (some y) h = ground arith

module _ (e : Env) (s : Storage) (pi : ℤ) (check_read : Bool) where
  -- No candidate of the list was touched before `limit`.
  abbrev pub NoneBefore : Time → List Buffer → Type 0
  NoneBefore limit =
      Each (λ _ c. is_candidate e s pi check_read c ≡ ok true → earlier c.accessed limit ≡ false)

  -- The buffer `b` at `i` is a candidate touched before `limit`, and no candidate before it.
  pub record IsOldest (limit : Time) (bs : List Buffer) (i : ℕ) (b : Buffer) : Type 0 where
    pub here : get_elem? bs i ≡ some b
    pub candidate : is_candidate e s pi check_read b ≡ ok true
    pub before : earlier b.accessed limit ≡ true
    pub oldest : NoneBefore b.accessed bs

  abbrev pub Picked : Time → List Buffer → ℤ → ℤ → Type 0
  Picked limit bs start r =
      ((r ≡ start) × NoneBefore limit bs)
      ⊎ ((i : ℕ) × (b : Buffer) × (r ≡ b.index) × IsOldest limit bs i b)

  NoneBefore-cons :
      (limit : Time) (b : Buffer) (bs : List Buffer)
      → (is_candidate e s pi check_read b ≡ ok true → earlier b.accessed limit ≡ false)
      → NoneBefore limit bs
      → NoneBefore limit (b ∷ bs)
  NoneBefore-cons limit b bs h k zero c q =
      subst (λ x. is_candidate e s pi check_read x ≡ ok true → earlier x.accessed limit ≡ false)
        (some-injective b c q) h
  NoneBefore-cons limit b bs h k (suc i) c q = k i c q

  -- One more buffer in front, which is the best so far.
  Picked-better :
      (limit : Time) (b : Buffer) (bs : List Buffer) (start r : ℤ)
      → is_candidate e s pi check_read b ≡ ok true
      → earlier b.accessed limit ≡ true
      → Picked b.accessed bs b.index r
      → Picked limit (b ∷ bs) start r
  Picked-better limit b bs start r c h (inl (q, all)) = inr (
    zero,
    b,
    q,
    record {
      here = refl;
      candidate = c;
      before = h;
      oldest = NoneBefore-cons b.accessed b bs (λ _. earlier_irrefl b.accessed) all;
    },
  )
  Picked-better limit b bs start r c h (inr (i, y, q, o)) = inr (
    suc i,
    y,
    q,
    record {
      here = o.here;
      candidate = o.candidate;
      before = earlier_trans y.accessed b.accessed limit o.before h;
      oldest =
          NoneBefore-cons y.accessed b bs (λ _. earlier_asymm y.accessed b.accessed o.before)
            o.oldest;
    },
  )

  -- One more buffer in front, which is passed over.
  Picked-worse :
      (limit : Time) (b : Buffer) (bs : List Buffer) (start r : ℤ)
      → (is_candidate e s pi check_read b ≡ ok true → earlier b.accessed limit ≡ false)
      → Picked limit bs start r
      → Picked limit (b ∷ bs) start r
  Picked-worse limit b bs start r h (inl (q, all)) = inl (q, NoneBefore-cons limit b bs h all)
  Picked-worse limit b bs start r h (inr (i, y, q, o)) = inr (
    suc i,
    y,
    q,
    record {
      here = o.here;
      candidate = o.candidate;
      before = o.before;
      oldest =
          NoneBefore-cons y.accessed b bs
            (λ c. not_earlier y.accessed b.accessed limit o.before (h c)) o.oldest;
    },
  )

  -- The loop ends with a value, and that is its start or the oldest candidate.
  pub scan_lem :
      (bs : List Buffer) (start : ℤ) (limit : Time)
      → Each (λ _ b. (c : Bool) × (is_candidate e s pi check_read b ≡ ok c)) bs
      → (r : ℤ) × (scan e s pi check_read bs start limit ≡ ok r) × Picked limit bs start r
  unfolding scan
  scan_lem [] start limit all = (start, refl, inl (refl, λ i c q. cc))
  scan_lem (b ∷ bs) start limit all =
      let (c, known) = all zero b refl in
      elim (Bool-cases (c && earlier b.accessed limit)) [
        | inl better ↦
            let (r, q, p) = scan_lem bs b.index b.accessed (λ i. all (suc i)) in
            (
              r,
              rw (known, better) q,
              Picked-better limit b bs start r (ground (arith, known)) (ground (arith, better)) p,
            )
        | inr worse ↦
            let (r, q, p) = scan_lem bs start limit (λ i. all (suc i)) in
            (
              r,
              rw (known, worse) q,
              Picked-worse limit b bs start r (λ m. ground (arith, known, m, worse)) p,
            )
      ]
