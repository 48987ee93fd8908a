-- ===== src/Storage/Evict/Ends.antt =====
-- The loop of `trim` in memory_storage.hpp ends where there is enough to evict and the clock passes any time
-- in the end; it may stand still and be set back until then.
use libtorrent_go.Base.{
  ℕ, zero, suc, ◌+◌, ◌≤◌, ◌<◌, ◌≡◌, refl, sym, ap, ◌∙◌, subst, true, false, some, ℤ, pos, ◌+ℤ◌,
  ltb_ℤ, ◌<ℤ◌, ◌≤ℤ◌, arith, int_laws, inl, inr, ok, get_elem?, set, Bool-cases, get_elem?-set_cases,
  ltb-true,
}
use libtorrent_go.Buffer.{Buffer, earlier, reset_buffer}
use libtorrent_go.Storage.{Storage, Env}
use libtorrent_go.Storage.Valid.{IsValid}
use libtorrent_go.Storage.Evict.{trim_round, trim_loop, trim}
use libtorrent_go.Storage.Evict.Evictable.{
  evictable, evictable-Holds, evictable_count, evictable_count_pos,
}
use libtorrent_go.Storage.Evict.Round.{Evicts, Evicts-IsValid, ticks-IsValid, trim_round_lem}
use libtorrent_go.Storage.Evict.Trim.{
  Evicts-count, Evicts-used, Idle-count, at_least, trim_loop-stop, trim_loop-step, not_below,
}
use libtorrent_go.Storage.Evict.Progress.{enough_step}

-- From some reading on, the clock is after the time `t`.
abbrev pub ClockPasses : Env → Type 0
ClockPasses e = (t : ℕ) → (first : ℕ) × ((k : ℕ) → first ≤ k → t < e.clock k)

-- Every buffer in use has a time of its last use.
abbrev pub IsStamped : Storage → Type 0
IsStamped s =
    (i : ℕ) (b : Buffer)
    → get_elem? s.buffers i ≡ some b
    → b.is_used ≡ true
    → (t : ℕ) × (b.accessed ≡ some t)

pub IsStamped-set :
    (s s' : Storage) (i t : ℕ) (y : Buffer)
    → IsStamped s
    → y.accessed ≡ some t
    → s'.buffers ≡ set s.buffers i y
    → IsStamped s'
IsStamped-set s s' i t y h at_t bufs j b here used =
    elim (get_elem?-set_cases s.buffers i y j (subst (λ l. get_elem? l j ≡ some b) bufs here)) [
      | inl (_, same) ↦ (t, sym (ap (λ c. c.accessed) same) ∙ at_t)
      | inr (_, old) ↦ h j b old used
    ]

pub IsStamped-Evicts :
    {e : Env} {keep : ℤ} {s s' : Storage} → Evicts e keep s s' → IsStamped s → IsStamped s'
unfolding reset_buffer
IsStamped-Evicts {e} {keep} {s} {s'} m h =
    IsStamped-set s s' m.i (e.clock m.ticks) (reset_buffer (e.clock m.ticks) m.buf) h refl
      (ap (λ u. u.buffers) m.result)

-- The loop comes to its end.
abbrev pub Ends : Env → ℤ → Storage → Type 0
Ends e keep s = (fuel : ℕ) × (s' : Storage) × (trim_loop e keep fuel s ≡ ok s')

-- Rounds that find nothing go by, until one evicts a piece.
module _ (e : Env) (keep : ℤ) {s : Storage} (v : IsValid s)
    (full : ltb_ℤ s.buffer_used s.buffer_limit ≡ false)
    (next : (k : ℕ) (u : Storage) → Evicts e keep (record s { ticks = k }) u → Ends e keep u)
    (i t first : ℕ) (b : Buffer) (at_i : get_elem? s.buffers i ≡ some b)
    (hit : evictable s.reserved_pieces keep b ≡ true) (at_t : b.accessed ≡ some t)
    (passed : (k : ℕ) → first ≤ k → t < e.clock k) where
  Evicts-Ends :
      (k : ℕ) {u : Storage}
      → trim_round e keep (record s { ticks = k }) ≡ ok u
      → Evicts e keep (record s { ticks = k }) u
      → Ends e keep (record s { ticks = k })
  Evicts-Ends k {u} done m =
      let (fuel, w, rest) = next k u m in
      (suc fuel, w, trim_loop-step e keep fuel (record s { ticks = k }) full done ∙ rest)

  now_later : (k : ℕ) → first ≤ k → earlier b.accessed (some (e.clock k)) ≡ true
  now_later k h = rw at_t (ltb-true t (e.clock k) (passed k h))

  rounds-Ends : (d k : ℕ) → first ≤ k + 1 + d → Ends e keep (record s { ticks = k })
  rounds-Ends zero k soon =
      let (u, done, outcome) = trim_round_lem e keep (ticks-IsValid k v) in
      elim outcome [
        | inl m ↦ Evicts-Ends k done m
        | inr (_, all) ↦ absurd (cc (all i b at_i hit, now_later (k + 1) (omega (arith, soon))))
      ]
  rounds-Ends (suc d) k soon =
      let (u, done, outcome) = trim_round_lem e keep (ticks-IsValid k v) in
      elim outcome [
        | inl m ↦ Evicts-Ends k done m
        | inr (waits, _) ↦
            let (fuel, w, rest) = rounds-Ends d (k + 1 + 1) (omega (arith, soon)) in
            (
              suc fuel,
              w,
              trim_loop-step e keep fuel (record s { ticks = k }) full done
                  ∙ ap (trim_loop e keep fuel) waits
                  ∙ rest,
            )
      ]

pub trim_loop-Ends :
    (e : Env) (keep : ℤ) (n : ℕ) {s : Storage}
    → ClockPasses e
    → IsValid s
    → IsStamped s
    → s.buffer_used <ℤ s.buffer_limit +ℤ pos (evictable_count s keep)
    → evictable_count s keep ≤ n
    → Ends e keep s
trim_loop-Ends e keep zero {s} passes v h enough most =
    elim (Bool-cases (ltb_ℤ s.buffer_used s.buffer_limit)) [
      | inl room ↦ (1, s, trim_loop-stop e keep 0 s room)
      | inr full ↦
          absurd (omega (int_laws, enough, most, at_least s.buffer_used s.buffer_limit full))
    ]
trim_loop-Ends e keep (suc n) {s} passes v h enough most =
    elim (Bool-cases (ltb_ℤ s.buffer_used s.buffer_limit)) [
      | inl room ↦ (1, s, trim_loop-stop e keep 0 s room)
      | inr full ↦
          let reached = at_least s.buffer_used s.buffer_limit full in
          let (i, b, here, hit) = evictable_count_pos s keep (omega (int_laws, enough, reached)) in
          let (t, at_t) = h i b here (evictable-Holds s.reserved_pieces keep b hit).used in
          let (first, passed) = passes t in
          rounds-Ends e keep v full
            (λ k u m.
              let one_less = Evicts-count m ∙ Idle-count s keep k in
              trim_loop-Ends e keep n passes (Evicts-IsValid (ticks-IsValid k v) m)
                (IsStamped-Evicts m h)
                (enough_step s.buffer_limit s.buffer_used u.buffer_limit u.buffer_used _ _
                  (Evicts-used m).0 (Evicts-used m).1 one_less enough)
                (omega (arith, one_less, most)))
            i t first b here hit at_t passed first s.ticks (omega arith)
    ]

pub trim-Ends :
    (e : Env) (keep : ℤ) {s : Storage}
    → ClockPasses e
    → IsValid s
    → IsStamped s
    → pos 0 ≤ℤ s.capacity
    → s.buffer_used <ℤ s.buffer_limit +ℤ pos (evictable_count s keep)
    → (fuel : ℕ) × (u : Storage) × (trim e fuel s keep ≡ ok u)
unfolding trim
trim-Ends e keep {s} passes v h limited enough =
    elim (Bool-cases (ltb_ℤ s.buffer_used s.buffer_limit)) [
      | inl room ↦ (0, s, rw (not_below s.capacity (pos 0) limited, room) refl)
      | inr full ↦
          let (fuel, u, done) =
            trim_loop-Ends e keep (evictable_count s keep) passes v h enough (omega arith) in
          (fuel, u, rw (not_below s.capacity (pos 0) limited, full) done)
    ]
