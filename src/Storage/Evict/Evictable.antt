-- ===== src/Storage/Evict/Evictable.antt =====
-- The buffers that `trim` of memory_storage.hpp may free to make room for a piece, described apart
-- from its search, and their number.
use libtorrent_go.Base.{
  ◌and_then◌, ℕ, zero, suc, ◌<◌, ◌≡◌, refl, Bool, true, false, not, ◌&&◌, inl, inr, some, List, [],
  ◌∷◌, ℤ, minus_one, ◌==ℤ◌, arith, get_elem?, set, if◌then◌else◌, ok, and_then-eq-true,
}
use mathlib.Core.Option.{some-injective}
use libtorrent_go.Base.{◌and_then◌, Result, pos, Bool-cases, ◌≢◌, ap, ==ℤ-refl}
use libtorrent_go.Buffer.{Buffer, is_assigned, new_buffer}
use libtorrent_go.Storage.{Storage, Env}
use libtorrent_go.Storage.Valid.{bit, IsValid, IsSlot-cases}
use libtorrent_go.Storage.Evict.{is_reserved, is_readered, negate, is_candidate}
use libtorrent_go.Storage.Evict.Safe.{is_reserved_lem, held-lt}

-- The buffer holds a piece that is neither reserved nor the piece `keep`.
unfoldable pub evictable : List Bool → ℤ → Buffer → Bool
evictable reserved keep b =
    b.is_used && not (b.pi ==ℤ minus_one) && not (bit reserved b.pi) && not (b.pi ==ℤ keep)

unfoldable pub count_if : (Buffer → Bool) → List Buffer → ℕ
count_if p [] = 0
count_if p (b ∷ bs) = if p b then suc (count_if p bs) else count_if p bs

-- How many buffers `trim` may free.
unfoldable pub evictable_count : Storage → ℤ → ℕ
evictable_count s keep = count_if (evictable s.reserved_pieces keep) s.buffers

count_if_pos :
    (p : Buffer → Bool) (bs : List Buffer)
    → 0 < count_if p bs
    → (i : ℕ) × (b : Buffer) × (get_elem? bs i ≡ some b) × (p b ≡ true)
unfolding count_if
count_if_pos p [] h = elim h [ ]
count_if_pos p (b ∷ bs) h = elim (Bool-cases (p b)) [
  | inl hit ↦ (zero, b, refl, hit)
  | inr miss ↦ let (i, c, here, hit) = count_if_pos p bs (rw miss at h) in (suc i, c, here, hit)
]

pub count_if-set :
    (p : Buffer → Bool) (bs : List Buffer) (i : ℕ) (c : Buffer) {b : Buffer}
    → get_elem? bs i ≡ some b
    → p b ≡ true
    → p c ≡ false
    → suc (count_if p (set bs i c)) ≡ count_if p bs
unfolding count_if
count_if-set p [] i c e hit miss = cc
count_if-set p (x ∷ bs) zero c e hit miss = let q = some-injective x _ e in rw (miss, q, hit) refl
count_if-set p (x ∷ bs) (suc i) c e hit miss = ground (arith, count_if-set p bs i c e hit miss)

pub evictable_count_pos :
    (s : Storage) (keep : ℤ)
    → 0 < evictable_count s keep
    → (i : ℕ) × (b : Buffer) × (get_elem? s.buffers i ≡ some b)
      × (evictable s.reserved_pieces keep b ≡ true)
unfolding evictable_count
evictable_count_pos s keep h = count_if_pos _ s.buffers h

-- To free one of them leaves one less.
pub evictable_count-set :
    (s s' : Storage) (keep : ℤ) (i : ℕ) (c : Buffer) {b : Buffer}
    → get_elem? s.buffers i ≡ some b
    → evictable s.reserved_pieces keep b ≡ true
    → c.is_used ≡ false
    → s'.reserved_pieces ≡ s.reserved_pieces
    → s'.buffers ≡ set s.buffers i c
    → suc (evictable_count s' keep) ≡ evictable_count s keep
unfolding evictable_count evictable
evictable_count-set s s' keep i c e hit free same put =
    rw (same, put)
      (count_if-set (evictable s.reserved_pieces keep) s.buffers i c e hit (rw free refl))

pub evictable_none :
    (s : Storage) (keep : ℤ) (i : ℕ) {b : Buffer}
    → get_elem? s.buffers i ≡ some b
    → evictable s.reserved_pieces keep b ≡ true
    → 0 < evictable_count s keep
unfolding evictable_count evictable new_buffer
evictable_none s keep i e hit = omega (
  arith,
  count_if-set (evictable s.reserved_pieces keep) s.buffers i (new_buffer minus_one 0) e hit refl,
)

-- The condition of the search, where it does not ask who reads, tells exactly the evictable buffers.
pub is_candidate-evictable :
    (e : Env) {s : Storage} (keep : ℤ) (v : IsValid s) (i : ℕ) {b : Buffer}
    → get_elem? s.buffers i ≡ some b
    → is_candidate e s keep false b ≡ ok (evictable s.reserved_pieces keep b)
unfolding is_candidate is_assigned evictable
is_candidate-evictable e {s} keep v i {b} h =
    elim (IsSlot-cases b.pi (v.buffers_ok i b h).pi_slot) [
      | inl free ↦ rw ((v.buffers_ok i b h).used, free) refl
      | inr (p, held) ↦ rw (held, is_reserved_lem p v (held-lt v i p h held)) (ground arith)
    ]

last_true :
    (a b c d k : Result Bool)
    → (a and_then b and_then c and_then d and_then k) ≡ ok true
    → (a and_then b and_then c and_then d and_then ok true) ≡ ok true
last_true a b c d k h =
    let (p, h1) = and_then-eq-true a (b and_then c and_then d and_then k) h in
    let (q, h2) = and_then-eq-true b (c and_then d and_then k) h1 in
    let (r, h3) = and_then-eq-true c (d and_then k) h2 in
    rw (p, q, r, (and_then-eq-true d k h3).0) refl

-- Whoever is found among the pieces that nobody reads is found among all.
pub is_candidate-any :
    (e : Env) (s : Storage) (keep : ℤ) (check_read : Bool) (b : Buffer)
    → is_candidate e s keep check_read b ≡ ok true
    → is_candidate e s keep false b ≡ ok true
unfolding is_candidate
is_candidate-any e s keep check_read b h =
    last_true (ok b.is_used) (ok (is_assigned b)) (negate (is_reserved s b.pi))
      (ok (not (b.pi ==ℤ keep))) (if check_read then negate (is_readered e s b.pi) else ok true) h

-- The parts of the description, for a buffer that is evictable.
pub record Holds (reserved : List Bool) (keep : ℤ) (b : Buffer) : Type 0 where
  pub used : b.is_used ≡ true
  pub unreserved : bit reserved b.pi ≡ false
  pub other : b.pi ≢ keep

pub evictable-Holds :
    (reserved : List Bool) (keep : ℤ) (b : Buffer)
    → evictable reserved keep b ≡ true
    → Holds reserved keep b
unfolding evictable
evictable-Holds reserved keep b h = record {
  used = ground arith;
  unreserved = ground arith;
  other = λ q. ground (arith, ap (λ z. z ==ℤ keep) q, ==ℤ-refl keep);
}

-- It holds a piece.
pub evictable-piece :
    {s : Storage} (keep : ℤ) (v : IsValid s) (i : ℕ) {b : Buffer}
    → get_elem? s.buffers i ≡ some b
    → evictable s.reserved_pieces keep b ≡ true
    → (p : ℕ) × (b.pi ≡ pos p)
evictable-piece {s} keep v i {b} h hit = elim (IsSlot-cases b.pi (v.buffers_ok i b h).pi_slot) [
  | inl free ↦ absurd (
      ground
        (arith, (v.buffers_ok i b h).used, (evictable-Holds s.reserved_pieces keep b hit).used))
  | inr held ↦ held
]

pub count_if-set_same :
    (p : Buffer → Bool) (bs : List Buffer) (i : ℕ) (c : Buffer) {b : Buffer}
    → get_elem? bs i ≡ some b
    → p c ≡ p b
    → count_if p (set bs i c) ≡ count_if p bs
unfolding count_if
count_if-set_same p [] i c h same = cc
count_if-set_same p (x ∷ bs) zero c {b} h same =
    let one : x ≡ b = some-injective x b h in rw (same, ← one) refl
count_if-set_same p (x ∷ bs) (suc i) c h same = rw (count_if-set_same p bs i c h same) refl

-- A buffer is changed that stays evictable, or stays what may not be freed.
pub evictable_count-set_same :
    (s s' : Storage) (keep : ℤ) (i : ℕ) (c : Buffer) {b : Buffer}
    → get_elem? s.buffers i ≡ some b
    → evictable s.reserved_pieces keep c ≡ evictable s.reserved_pieces keep b
    → s'.reserved_pieces ≡ s.reserved_pieces
    → s'.buffers ≡ set s.buffers i c
    → evictable_count s' keep ≡ evictable_count s keep
unfolding evictable_count
evictable_count-set_same s s' keep i c h same marks bufs =
    rw (marks, bufs) (count_if-set_same (evictable s.reserved_pieces keep) s.buffers i c h same)
