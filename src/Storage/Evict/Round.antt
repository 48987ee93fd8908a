-- ===== src/Storage/Evict/Round.antt =====
-- One round of the loop of `trim` in memory_storage.hpp: it evicts one piece, or finds none to evict.
use libtorrent_go.Storage.Evict.Chosen.{has_bits, oldest-Chosen}
use libtorrent_go.Base.{
  not, ◌==ℤ◌, minus_one, ◌⊎◌, ap, arith, inl, inr, ℤ, pos, ◌∙◌, ok, List, get_elem?, ℕ, ◌+◌, ◌≤◌,
  ◌≡◌, refl, Bool, true, false, some,
}
use libtorrent_go.Piece.{Piece}
use libtorrent_go.Buffer.{Buffer, Time, earlier}
use libtorrent_go.Storage.{Storage, Env, Call, now, tick}
use libtorrent_go.Storage.Valid.{held_piece, IsValid, counters-IsValid}
use libtorrent_go.Storage.Evict.{find_unread, evict_any, remove_piece, trim_round}
use libtorrent_go.Storage.Evict.Oldest.{Picked, IsOldest, NoneBefore}
use libtorrent_go.Storage.Evict.Safe.{
  evicted, evicted-IsValid, remove_piece_lem, find_last_buffer_lem,
}
use libtorrent_go.Storage.Evict.Evictable.{evictable, is_candidate-evictable}

-- `s'` is `s` after the eviction of an evictable buffer, with some readings of the clock before it.
pub record Evicts (e : Env) (keep : ℤ) (s s' : Storage) : Type 0 where
  pub ticks : ℕ
  pub later : s.ticks ≤ ticks
  pub i : ℕ
  pub p : ℕ
  pub buf : Buffer
  pub piece : Piece
  pub calls : List Call
  pub at_i : get_elem? s.buffers i ≡ some buf
  pub at_p : get_elem? s.pieces p ≡ some piece
  pub held : buf.pi ≡ pos p
  pub chosen : evictable s.reserved_pieces keep buf ≡ true
  pub result : s' ≡ evicted e (record s { ticks = ticks }) i buf p piece calls

-- No evictable buffer was touched before the second reading of the clock in the round.
abbrev pub Idle : Env → ℤ → Storage → Storage → Type 0
Idle e keep s s' =
    (s' ≡ record s { ticks = s.ticks + 1 + 1 })
    × ((i : ℕ) (b : Buffer)
        → get_elem? s.buffers i ≡ some b
        → evictable s.reserved_pieces keep b ≡ true
        → earlier b.accessed (some (e.clock (s.ticks + 1))) ≡ false)

pub ticks-IsValid : {s : Storage} (k : ℕ) → IsValid s → IsValid (record s { ticks = k })
ticks-IsValid {s} k v = counters-IsValid s.buffer_limit s.buffer_used k s.calls v

pub Evicts-IsValid :
    {e : Env} {keep : ℤ} {s s' : Storage} → IsValid s → Evicts e keep s s' → IsValid s'
Evicts-IsValid {e} v m =
    rw m.result (evicted-IsValid e (ticks-IsValid m.ticks v) m.i m.p m.at_i m.at_p m.held m.calls)

-- The test that follows a search which found a buffer.
found_test : (r : ℤ) (i : ℕ) → r ≡ pos i → not (r ==ℤ minus_one) ≡ true
found_test r i q = ground arith

module _ (e : Env) (keep : ℤ) {s : Storage} (v : IsValid s) where
  -- The search found a buffer, and its eviction goes through.
  Found : ℕ → ℤ → Type 0
  Found k r =
      (i : ℕ) × (r ≡ pos i)
      × (s' : Storage) × (remove_piece e (record s { ticks = k }) r ≡ ok s')
      × Evicts e keep s s'

  oldest-Found :
      (k : ℕ) (check_read : Bool) (limit : Time) (r : ℤ) (i : ℕ) (b : Buffer)
      → s.ticks ≤ k
      → r ≡ b.index
      → IsOldest e s keep check_read limit s.buffers i b
      → Found k r
  unfolding Found
  oldest-Found k check_read limit r i b later q o =
      let c = oldest-Chosen e keep v check_read limit r i b q o in
      let (x, at_p, _) = held_piece v c.i c.p c.at_i c.held in
      let (calls, gone) = remove_piece_lem e (ticks-IsValid k v) c.i c.p c.at_i at_p c.held in
      (
        c.i,
        c.index,
        _,
        ap (remove_piece e (record s { ticks = k })) c.index ∙ gone,
        record {
          ticks = k;
          later = later;
          i = c.i;
          p = c.p;
          buf = c.buf;
          piece = x;
          calls = calls;
          at_i = c.at_i;
          at_p = at_p;
          held = c.held;
          chosen = c.chosen;
          result = refl;
        },
      )

  -- The outcome of a search: -1, with no candidate in time, or a buffer that can be evicted.
  search_lem :
      (k : ℕ) (check_read : Bool) (limit : Time) (r : ℤ)
      → s.ticks ≤ k
      → Picked e s keep check_read limit s.buffers minus_one r
      → ((r ≡ minus_one) × NoneBefore e s keep check_read limit s.buffers) ⊎ Found k r
  search_lem k check_read limit r later (inl none_found) = inl none_found
  search_lem k check_read limit r later (inr (i, b, q, o)) =
      inr (oldest-Found k check_read limit r i b later q o)

  evict_any_lem :
      (s' : Storage) × (evict_any e keep s ≡ ok s')
      × (Evicts e keep s s'
          ⊎ ((s' ≡ tick s) × NoneBefore e s keep false (some (now e s)) s.buffers))
  unfolding evict_any Found
  evict_any_lem =
      let (r, q, picked) = find_last_buffer_lem e keep false v in
      elim (search_lem (s.ticks + 1) false (some (now e s)) r (omega arith) picked) [
        | inl (none_found, all) ↦ (tick s, rw (q, none_found) refl, inr (refl, all))
        | inr (i, here, s', gone, evicts) ↦ (s', rw (q, found_test r i here) gone, inl evicts)
      ]

  -- The first half of a round: the search among the pieces that nobody reads.
  find_unread_lem :
      (r : ℤ) × (find_unread e s keep ≡ ok (r, tick s)) × ((r ≡ minus_one) ⊎ Found (s.ticks + 1) r)
  unfolding find_unread
  find_unread_lem =
      let (r, q, picked) = find_last_buffer_lem e keep true v in
      (
        r,
        rw (has_bits s.reader_pieces _ v.readers) q,
        elim (search_lem (s.ticks + 1) true (some (now e s)) r (omega arith) picked) [
          | inl (none_found, _) ↦ inl none_found
          | inr found ↦ inr found
        ],
      )

Evicts-tick : {e : Env} {keep : ℤ} {s s' : Storage} → Evicts e keep (tick s) s' → Evicts e keep s s'
Evicts-tick m = record {
  ticks = m.ticks;
  later = omega (arith, m.later);
  i = m.i;
  p = m.p;
  buf = m.buf;
  piece = m.piece;
  calls = m.calls;
  at_i = m.at_i;
  at_p = m.at_p;
  held = m.held;
  chosen = m.chosen;
  result = m.result;
}

-- A round ends, with an eviction or with nothing to evict.
pub trim_round_lem :
    (e : Env) (keep : ℤ) {s : Storage}
    → IsValid s
    → (s' : Storage) × (trim_round e keep s ≡ ok s') × (Evicts e keep s s' ⊎ Idle e keep s s')
unfolding trim_round Found
trim_round_lem e keep {s} v =
    let (r, q, found) = find_unread_lem e keep v in
    elim found [
      | inl none_found ↦
          let (s', done, outcome) = evict_any_lem e keep (ticks-IsValid (s.ticks + 1) v) in
          (
            s',
            rw (q, none_found) done,
            elim outcome [
              | inl evicts ↦ inl (Evicts-tick evicts)
              | inr (same, all) ↦ inr (
                same,
                λ i b here hit. all i b here (
                    is_candidate-evictable e keep (ticks-IsValid (s.ticks + 1) v) i here
                    ∙ ap ok hit),
              )
            ],
          )
      | inr (i, here, s', gone, evicts) ↦ (s', rw (q, found_test r i here) gone, inl evicts)
    ]
