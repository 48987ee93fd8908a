-- ===== src/Storage/Evict/Trim.antt =====
-- The loop of `trim` in memory_storage.hpp: when it ends, when it does not, and what it keeps.
use libtorrent_go.Base.{
  ℕ, zero, suc, ◌+◌, ◌≡◌, refl, ap, ◌∙◌, true, false, ℤ, pos, ◌+ℤ◌, ◌-ℤ◌, ltb_ℤ, ◌<ℤ◌, ◌≤ℤ◌, arith,
  int_laws, inl, inr, ok, hang,
}
use libtorrent_go.Buffer.{reset_buffer}
use libtorrent_go.Storage.{Storage, Env}
use libtorrent_go.Storage.Valid.{IsValid}
use libtorrent_go.Storage.Evict.{trim_round, trim_loop, trim}
use libtorrent_go.Storage.Evict.Evictable.{evictable_count, evictable_count-set}
use libtorrent_go.Storage.Evict.Round.{Evicts, Evicts-IsValid, ticks-IsValid, trim_round_lem}

-- An eviction takes one from the evictable buffers.
pub Evicts-count :
    {e : Env} {keep : ℤ} {s s' : Storage}
    → Evicts e keep s s'
    → suc (evictable_count s' keep) ≡ evictable_count s keep
unfolding reset_buffer
Evicts-count {e} {keep} {s} {s'} m =
    evictable_count-set s s' keep m.i (reset_buffer (e.clock m.ticks) m.buf) m.at_i m.chosen refl
      (ap (λ u. u.reserved_pieces) m.result) (ap (λ u. u.buffers) m.result)

pub Evicts-used :
    {e : Env} {keep : ℤ} {s s' : Storage}
    → Evicts e keep s s'
    → (s'.buffer_used ≡ s.buffer_used -ℤ pos 1) × (s'.buffer_limit ≡ s.buffer_limit)
Evicts-used m = (ap (λ u. u.buffer_used) m.result, ap (λ u. u.buffer_limit) m.result)

pub Idle-count :
    (s : Storage) (keep : ℤ) (k : ℕ)
    → evictable_count (record s { ticks = k }) keep ≡ evictable_count s keep
unfolding evictable_count
Idle-count s keep k = refl

-- The evictable buffers are too few: with all of them gone the limit is still reached.
abbrev pub TooFew : Storage → ℤ → Type 0
TooFew s keep = s.buffer_limit +ℤ pos (evictable_count s keep) ≤ℤ s.buffer_used

pub not_below : (u l : ℤ) → l ≤ℤ u → ltb_ℤ u l ≡ false
not_below u l h = ground arith

pub below : (u l : ℤ) → ltb_ℤ u l ≡ true → u <ℤ l
below u l h = ground arith

pub at_least : (u l : ℤ) → ltb_ℤ u l ≡ false → l ≤ℤ u
at_least u l h = ground arith

few_step :
    (l u l' u' : ℤ) (c c' : ℕ)
    → u' ≡ u -ℤ pos 1
    → l' ≡ l
    → suc c' ≡ c
    → l +ℤ pos c ≤ℤ u
    → l' +ℤ pos c' ≤ℤ u'
few_step l u l' u' c c' p q r h = rw (p, q) (omega (int_laws, h, r))

Evicts-TooFew :
    {e : Env} {keep : ℤ} {s s' : Storage} → Evicts e keep s s' → TooFew s keep → TooFew s' keep
Evicts-TooFew {e} {keep} {s} {s'} m few =
    few_step s.buffer_limit s.buffer_used s'.buffer_limit s'.buffer_used _ _ (Evicts-used m).0
      (Evicts-used m).1 (Evicts-count m) few

pub trim_loop-stop :
    (e : Env) (keep : ℤ) (fuel : ℕ) (s : Storage)
    → ltb_ℤ s.buffer_used s.buffer_limit ≡ true
    → trim_loop e keep (suc fuel) s ≡ ok s
unfolding trim_loop
trim_loop-stop e keep fuel s h = rw (h, trim_loop) refl

pub trim_loop-step :
    (e : Env) (keep : ℤ) (fuel : ℕ) (s : Storage) {s' : Storage}
    → ltb_ℤ s.buffer_used s.buffer_limit ≡ false
    → trim_round e keep s ≡ ok s'
    → trim_loop e keep (suc fuel) s ≡ trim_loop e keep fuel s'
unfolding trim_loop
trim_loop-step e keep fuel s h done = rw (h, trim_loop, done) refl

-- The loop then goes on for ever, whatever the clock shows.
trim_loop-hang :
    (e : Env) (keep : ℤ) (fuel : ℕ) {s : Storage}
    → IsValid s
    → TooFew s keep
    → trim_loop e keep fuel s ≡ hang
unfolding evictable_count
trim_loop-hang e keep zero v few = unfold trim_loop in refl
trim_loop-hang e keep (suc fuel) {s} v few =
    let (s', done, outcome) = trim_round_lem e keep v in
    trim_loop-step e keep fuel s (not_below s.buffer_used s.buffer_limit (omega (int_laws, few)))
      done
    ∙ elim outcome [
      | inl m ↦ trim_loop-hang e keep fuel (Evicts-IsValid v m) (Evicts-TooFew m few)
      | inr (same, _) ↦
          ap (trim_loop e keep fuel) same
          ∙ trim_loop-hang e keep fuel (ticks-IsValid (s.ticks + 1 + 1) v) few
    ]

-- On a valid storage whose capacity is not negative, where `buffer_used` would still reach the
-- limit with all evictable buffers gone, `trim` does not end after any number of rounds, whatever
-- the clock shows.
pub trim-hang :
    (e : Env) (keep : ℤ) (fuel : ℕ) {s : Storage}
    → IsValid s
    → pos 0 ≤ℤ s.capacity
    → TooFew s keep
    → trim e fuel s keep ≡ hang
unfolding trim
trim-hang e keep fuel {s} v limited few =
    rw
      (
        not_below s.capacity (pos 0) limited,
        not_below s.buffer_used s.buffer_limit (omega (int_laws, few)),
      )
      (trim_loop-hang e keep fuel v few)
