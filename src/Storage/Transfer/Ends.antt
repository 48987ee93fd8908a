-- ===== src/Storage/Transfer/Ends.antt =====
-- `writev` of memory_storage.hpp ends where `trim` has enough to evict and time goes on in the end.
use libtorrent_go.Base.{
  ℕ, ◌+◌, ◌^◌, ◌≤◌, ◌<◌, ◌≡◌, refl, sym, ap, ◌∙◌, subst, Bool, true, false, some, List, ℤ, pos,
  arith, int_laws, inl, inr, leb_ℤ, ◌+ℤ◌, ◌-ℤ◌, ◌<ℤ◌, ◌≤ℤ◌, get_elem?, Bool-cases, ok, Safe-ok,
  if◌then◌else◌, ◌==ℤ◌, ==ℤ-refl,
}
use libtorrent_go.Base.{if◌then◌else◌}
use libtorrent_go.Storage.Transfer.Parts.{writev-parts}
use libtorrent_go.Piece.{Piece}
use libtorrent_go.Buffer.{Buffer, Iovec, byte_total}
use libtorrent_go.Storage.{Storage, Env, now}
use libtorrent_go.Storage.Valid.{IsValid, bit}
use libtorrent_go.Storage.Evict.Evictable.{evictable, evictable_count, evictable_count-set_same}
use libtorrent_go.Storage.Evict.Ends.{ClockPasses, IsStamped, IsStamped-set, trim-Ends}
use libtorrent_go.Storage.Alloc.{link}
use libtorrent_go.Storage.Alloc.Safe.{Given, held, given}
use libtorrent_go.Storage.Transfer.{trim_after, writev}
use libtorrent_go.Storage.Transfer.Write.{InBuffer, Stored}
use libtorrent_go.Storage.Transfer.RoundTrip.{Written, writev-Safe}

-- What `trim` needs to end: with `slack` more pieces in memory, the evictable buffers still suffice.
pub record HasRoom (keep : ℤ) (slack : ℕ) (s : Storage) : Type 0 where
  pub stamped : IsStamped s
  pub room : s.buffer_used +ℤ pos slack <ℤ s.buffer_limit +ℤ pos (evictable_count s keep)
  pub limited : pos 0 ≤ℤ s.capacity

less_slack : (u l : ℤ) (slack c : ℕ) → u +ℤ pos slack <ℤ l +ℤ pos c → u +ℤ pos 0 <ℤ l +ℤ pos c
less_slack u l slack c h = omega (int_laws, h)

no_slack : (u l : ℤ) (c : ℕ) → u +ℤ pos 0 <ℤ l +ℤ pos c → u <ℤ l +ℤ pos c
no_slack u l c h = omega (int_laws, h)

still_room :
    (u l u' l' : ℤ) (c c' : ℕ)
    → u' ≡ u
    → l' ≡ l
    → c' ≡ c
    → u +ℤ pos 0 <ℤ l +ℤ pos c
    → u' +ℤ pos 0 <ℤ l' +ℤ pos c'
still_room u l u' l' c c' p q r h = rw (p, q, r) h

-- The counter that `link` changes takes the slack.
link_room :
    (r : Bool) (u l : ℤ) (c : ℕ)
    → u +ℤ pos 1 <ℤ l +ℤ pos c
    → (if r then u else u +ℤ pos 1) +ℤ pos 0 <ℤ (if r then l -ℤ pos 1 else l) +ℤ pos c
link_room true u l c h = omega (int_laws, h)
link_room false u l c h = omega (int_laws, h)

-- A buffer that holds the piece `keep` is not evictable, and neither is one that is not in use.
pub kept_buffer :
    (reserved : List Bool) (keep : ℤ) (b : Buffer) → b.pi ≡ keep → evictable reserved keep b ≡ false
unfolding evictable
kept_buffer reserved keep b h = ground (arith, ap (λ z. z ==ℤ keep) h, ==ℤ-refl keep)

unused_buffer :
    (reserved : List Bool) (keep : ℤ) (b : Buffer)
    → b.is_used ≡ false
    → evictable reserved keep b ≡ false
unfolding evictable
unused_buffer reserved keep b h = rw h refl

module _ (e : Env) (piece : ℕ) where
  -- The buffer that a write is given leaves room.
  Given-HasRoom :
      {s s' : Storage}
      → IsValid s
      → Given e s piece true s'
      → HasRoom (pos piece) 1 s
      → HasRoom (pos piece) 0 s'
  unfolding link
  Given-HasRoom {s} v (held p i at_p at_i) r = record {
    stamped = r.stamped;
    room = less_slack s.buffer_used s.buffer_limit 1 (evictable_count s (pos piece)) r.room;
    limited = r.limited;
  }
  Given-HasRoom {s} v (given p i b at_p unbuffered there free before) r =
      let c = record b { is_used = true; pi = pos p.index; accessed = some (now e s) } in
      let marked = bit s.reserved_pieces (pos p.index) in
      let s1 = link e s piece p i b marked in
      let own = ap pos (v.pieces_ok piece p at_p).index in
      let same : evictable_count s1 (pos piece) ≡ evictable_count s (pos piece) =
        evictable_count-set_same s s1 (pos piece) i c there
          (kept_buffer s.reserved_pieces (pos piece) c own
            ∙ sym (unused_buffer s.reserved_pieces (pos piece) b free))
          refl refl in
      record {
        stamped = IsStamped-set s s1 i (now e s) c r.stamped refl refl;
        room =
            subst (λ n. s1.buffer_used +ℤ pos 0 <ℤ s1.buffer_limit +ℤ pos n) (sym same)
              (link_room marked s.buffer_used s.buffer_limit (evictable_count s (pos piece))
                r.room);
        limited = r.limited;
      }

  -- The copy keeps the room.
  Stored-HasRoom :
      {s u : Storage} (b : InBuffer s piece)
      → IsValid s
      → Stored e s piece b u
      → HasRoom (pos piece) 0 s
      → HasRoom (pos piece) 0 u
  unfolding evictable
  Stored-HasRoom {s} {u} b v (bytes, size, q) r =
      let y = record b.y { buffer = bytes; accessed = some (now e s) } in
      let same : evictable_count u (pos piece) ≡ evictable_count s (pos piece) =
        evictable_count-set_same s u (pos piece) b.i y b.at_buffer refl
          (ap (λ w. w.reserved_pieces) q) (ap (λ w. w.buffers) q) in
      record {
        stamped = IsStamped-set s u b.i (now e s) y r.stamped refl (ap (λ w. w.buffers) q);
        room =
            still_room s.buffer_used s.buffer_limit u.buffer_used u.buffer_limit _ _
              (ap (λ w. w.buffer_used) q) (ap (λ w. w.buffer_limit) q) same r.room;
        limited = subst (λ z. pos 0 ≤ℤ z) (sym (ap (λ w. w.capacity) q)) r.limited;
      }

  pub trim_after_total :
      {s : Storage}
      → ClockPasses e
      → IsValid s
      → HasRoom (pos piece) 0 s
      → (fuel : ℕ) × (u : Storage) × (trim_after e fuel s piece ≡ ok u)
  unfolding trim_after
  trim_after_total {s} passes v r = elim (Bool-cases (leb_ℤ s.buffer_limit s.buffer_used)) [
    | inl trims ↦
        let (fuel, u, q) =
          trim-Ends e (pos piece) passes v r.stamped r.limited
            (no_slack s.buffer_used s.buffer_limit (evictable_count s (pos piece)) r.room) in
        (fuel, u, rw trims q)
    | inr stays ↦ (0, s, rw stays refl)
  ]

-- `writev` ends on a valid storage, with a request inside the piece and sizes of less than 2^31,
-- where the clock is after any given time from some reading on (it may stand still or be set back
-- before), every buffer in use has a time of its last use, the capacity is not negative, and
-- `buffer_used` with one more piece is below the limit once all evictable buffers are gone: there
-- is a number of rounds of `trim` with which it does. The storage it leaves is valid, its piece
-- length is the same, and either it answers 0, or it answers the number of all the bytes and they
-- stand in the buffer of the piece.
pub writev-total :
    (e : Env) {s : Storage} (bufs : List Iovec) (piece offset : ℕ) {p : Piece}
    → IsValid s
    → get_elem? s.pieces piece ≡ some p
    → offset + byte_total bufs ≤ p.length
    → p.size + byte_total bufs < 2 ^ 31
    → ClockPasses e
    → HasRoom (pos piece) 1 s
    → (fuel : ℕ) × (n : ℕ) × (u : Storage) × (writev e fuel s bufs piece offset ≡ ok (n, u))
      × Written s piece offset bufs (n, u)
writev-total e {s} bufs piece offset {p} v at_p fits sum passes r =
    let safe = λ (fuel : ℕ). writev-Safe e fuel bufs piece offset v at_p fits sum in
    elim (writev-parts e bufs piece offset v at_p fits sum) [
      | inl refused ↦
          let q = refused.run 0 in
          (0, 0, refused.last, q, Safe-ok (Written s piece offset bufs) (safe 0) q)
      | inr g ↦
          let room = Given-HasRoom e piece v g.how r in
          let (fuel, w, done) =
            trim_after_total e piece passes g.valid
              (Stored-HasRoom e piece g.place g.asked_valid g.stored room) in
          let q = g.run fuel ∙ rw done refl in
          (fuel, byte_total bufs, w, q, Safe-ok (Written s piece offset bufs) (safe fuel) q)
    ]
