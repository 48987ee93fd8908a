-- ===== src/Storage/Evict/Progress.antt =====
-- The loop of `trim` in memory_storage.hpp ends where there is enough to evict and time goes on.
use libtorrent_go.Base.{
  subst₂, set, subst, ℕ, zero, suc, ◌+◌, ◌≤◌, ◌<◌, ◌≡◌, refl, ap, ◌∙◌, true, some, ℤ, pos, ◌+ℤ◌,
  ◌-ℤ◌, ltb_ℤ, ◌<ℤ◌, ◌≤ℤ◌, arith, int_laws, ◌⊎◌, inl, inr, ok, get_elem?, Bool-cases,
  get_elem?-set_cases,
}
use libtorrent_go.Buffer.{Buffer, earlier, reset_buffer}
use libtorrent_go.Storage.{Storage, Env}
use libtorrent_go.Storage.Valid.{IsValid}
use libtorrent_go.Storage.Evict.{trim_loop, trim}
use libtorrent_go.Storage.Evict.Evictable.{evictable-Holds, evictable_count, evictable_count_pos}
use libtorrent_go.Storage.Evict.Round.{Evicts, Evicts-IsValid, Idle, trim_round_lem}
use libtorrent_go.Storage.Evict.Trim.{
  Evicts-count, Evicts-used, at_least, below, trim_loop-stop, trim_loop-step, not_below,
}

-- Every buffer in use was touched before any later reading of the clock.
abbrev pub ClockAhead : Env → Storage → Type 0
ClockAhead e s =
    (k i : ℕ) (b : Buffer)
    → s.ticks ≤ k
    → get_elem? s.buffers i ≡ some b
    → b.is_used ≡ true
    → earlier b.accessed (some (e.clock k)) ≡ true

pub ClockAhead-Evicts :
    (e : Env) {keep : ℤ} {s s' : Storage} → Evicts e keep s s' → ClockAhead e s → ClockAhead e s'
unfolding reset_buffer
ClockAhead-Evicts e {keep} {s} {s'} m ahead k i b h here used =
    let ticks : s'.ticks ≡ m.ticks + 1 = ap (λ u. u.ticks) m.result in
    let there : get_elem? (set s.buffers m.i (reset_buffer (e.clock m.ticks) m.buf)) i ≡ some b =
      subst (λ l. get_elem? l i ≡ some b) (ap (λ u. u.buffers) m.result) here in
    elim (get_elem?-set_cases s.buffers m.i _ i there) [
      | inl (_, same) ↦ cc (ap (λ c. c.is_used) same)
      | inr (_, old) ↦ ahead k i b (omega (arith, m.later)) old used
    ]

-- An evictable buffer is found: with the clock ahead no round is idle.
not-Idle :
    (e : Env) (keep : ℤ) (s s' : Storage)
    → ClockAhead e s
    → 0 < evictable_count s keep
    → Idle e keep s s'
    → ⊥
not-Idle e keep s s' ahead some_left (_, all) =
    let (i, b, here, hit) = evictable_count_pos s keep some_left in
    let now_later =
      ahead (s.ticks + 1) i b (omega arith) here
        (evictable-Holds s.reserved_pieces keep b hit).used in
    cc (all i b here hit, now_later)

-- What the loop leaves behind: the counter is below the limit, and no lower than it has to be.
pub record IsTrimmed (s s' : Storage) : Type 0 where
  pub limit : s'.buffer_limit ≡ s.buffer_limit
  pub room : s'.buffer_used <ℤ s'.buffer_limit
  pub least : (s'.buffer_used ≡ s.buffer_used) ⊎ (s'.buffer_used +ℤ pos 1 ≡ s'.buffer_limit)

least_step :
    (u l u' l' u'' l'' : ℤ)
    → u' ≡ u -ℤ pos 1
    → l' ≡ l
    → u'' ≡ u'
    → l'' ≡ l'
    → l ≤ℤ u
    → u'' <ℤ l''
    → u'' +ℤ pos 1 ≡ l''
least_step u l u' l' u'' l'' p q r t h k =
    let z : u -ℤ pos 1 <ℤ l = subst₂ ◌<ℤ◌ (r ∙ p) (t ∙ q) k in
    rw (r, p, t, q) (omega (int_laws, h, z))

pub enough_step :
    (l u l' u' : ℤ) (c c' : ℕ)
    → u' ≡ u -ℤ pos 1
    → l' ≡ l
    → suc c' ≡ c
    → u <ℤ l +ℤ pos c
    → u' <ℤ l' +ℤ pos c'
enough_step l u l' u' c c' p q r h = rw (p, q) (omega (int_laws, h, r))

IsTrimmed-step :
    {e : Env} {keep : ℤ} {s s' s'' : Storage}
    → Evicts e keep s s'
    → s.buffer_limit ≤ℤ s.buffer_used
    → IsTrimmed s' s''
    → IsTrimmed s s''
IsTrimmed-step {s} {s'} {s''} m full t = record {
  limit = t.limit ∙ (Evicts-used m).1;
  room = t.room;
  least = inr (elim t.least [
    | inl same ↦
        least_step s.buffer_used s.buffer_limit s'.buffer_used s'.buffer_limit s''.buffer_used
          s''.buffer_limit (Evicts-used m).0 (Evicts-used m).1 same t.limit full t.room
    | inr exact ↦ exact
  ]);
}

pub trim_loop_total :
    (e : Env) (keep : ℤ) (fuel : ℕ) {s : Storage}
    → IsValid s
    → ClockAhead e s
    → s.buffer_used <ℤ s.buffer_limit +ℤ pos (evictable_count s keep)
    → evictable_count s keep < fuel
    → (s' : Storage) × (trim_loop e keep fuel s ≡ ok s') × IsTrimmed s s'
trim_loop_total e keep zero v ahead enough h = elim h [ ]
trim_loop_total e keep (suc fuel) {s} v ahead enough h =
    elim (Bool-cases (ltb_ℤ s.buffer_used s.buffer_limit)) [
      | inl room ↦ (
        s,
        trim_loop-stop e keep fuel s room,
        record { limit = refl; room = below s.buffer_used s.buffer_limit room; least = inl refl },
      )
      | inr full ↦
          let (s', done, outcome) = trim_round_lem e keep v in
          elim outcome [
            | inl m ↦
                let (s'', rest, t) =
                  trim_loop_total e keep fuel (Evicts-IsValid v m) (ClockAhead-Evicts e m ahead)
                    (enough_step s.buffer_limit s.buffer_used s'.buffer_limit s'.buffer_used _ _
                      (Evicts-used m).0 (Evicts-used m).1 (Evicts-count m) enough)
                    (omega (arith, Evicts-count m)) in
                (
                  s'',
                  trim_loop-step e keep fuel s full done ∙ rest,
                  IsTrimmed-step m (at_least s.buffer_used s.buffer_limit full) t,
                )
            | inr idle ↦ absurd (
                not-Idle e keep s s' ahead
                  (omega (int_laws, enough, at_least s.buffer_used s.buffer_limit full)) idle)
          ]
    ]

-- `trim` ends on a valid storage whose capacity is not negative, where every buffer in use was
-- touched before any later reading of the clock, `buffer_used` is below the limit once all
-- evictable buffers are gone, and the fuel exceeds the number of evictable buffers. The limit is
-- then unchanged, `buffer_used` is below it, and `buffer_used` is as it was or just one below the
-- limit, so no more is evicted than needed.
pub trim_total :
    (e : Env) (keep : ℤ) (fuel : ℕ) {s : Storage}
    → IsValid s
    → ClockAhead e s
    → pos 0 ≤ℤ s.capacity
    → s.buffer_used <ℤ s.buffer_limit +ℤ pos (evictable_count s keep)
    → evictable_count s keep < fuel
    → (s' : Storage) × (trim e fuel s keep ≡ ok s') × IsTrimmed s s'
unfolding trim
trim_total e keep fuel {s} v ahead limited enough h =
    elim (Bool-cases (ltb_ℤ s.buffer_used s.buffer_limit)) [
      | inl room ↦ (
        s,
        rw (not_below s.capacity (pos 0) limited, room) refl,
        record { limit = refl; room = below s.buffer_used s.buffer_limit room; least = inl refl },
      )
      | inr full ↦
          let (s', done, t) = trim_loop_total e keep fuel v ahead enough h in
          (s', rw (not_below s.capacity (pos 0) limited, full) done, t)
    ]
