-- ===== src/Storage/Alloc/Safe.antt =====
-- `get_buffer` of memory_storage.hpp on a valid storage: it does not fault, it leaves a valid storage,
-- and when it answers yes the piece has a buffer.
use libtorrent_go.Base.{
  ◌<◌, ◌>>=◌, if◌then◌else◌, pos_part, ℕ, ◌+◌, ◌<◌, ◌≡◌, refl, Bool, true, false, not, some, Option,
  inl, inr, arith, List, length, get_elem?, get_elem?-lt, get_elem?_of_lt, Result, ok, Bool-cases,
  ap, ◌∙◌, sym, subst, pos, minus_one, ◌==ℤ◌, at, pos_part,
}
use libtorrent_go.Piece.{Piece, is_buffered}
use libtorrent_go.Buffer.{Buffer}
use libtorrent_go.Storage.{Storage, Env, Call}
use libtorrent_go.Storage.Valid.{IsValid, IsSlot-cases, bit, counters-IsValid}
use libtorrent_go.Storage.Evict.Safe.{restore_piece_lem, is_readered_lem, at_bit}
use libtorrent_go.Storage.Alloc.{
  find_free, link, link_free, allocate, refused, get_locked, get_buffer, get_write_buffer,
  get_read_buffer, is_readered,
}
use libtorrent_go.Storage.Alloc.Free.{AllUsed, find_free_lem, FirstFree}
use libtorrent_go.Storage.Alloc.Link.{link-IsValid, unused-pi}

-- How the buffer of a piece is found for a write.
pub data Given (e : Env) (s : Storage) (piece : ℕ) : Bool → Storage → Type 0 where
  -- it has one
  held :
      (p : Piece) (i : ℕ)
      → get_elem? s.pieces piece ≡ some p
      → p.bi ≡ pos i
      → Given e s piece true s
  -- somebody reads, but not this piece: the torrent is told that it is gone
  refused_by_reader :
      (calls : List Call) → s.is_reading ≡ true → Given e s piece false (record s { calls = calls })
  -- every buffer is in use
  full : AllUsed s.buffers 0 (length s.buffers) → Given e s piece false s
  -- it has none, and the first free buffer is joined to it
  given :
      (p : Piece) (i : ℕ) (b : Buffer)
      → get_elem? s.pieces piece ≡ some p
      → p.bi ≡ minus_one
      → get_elem? s.buffers i ≡ some b
      → b.is_used ≡ false
      → AllUsed s.buffers 0 i
      → Given e s piece true (link e s piece p i b (bit s.reserved_pieces (pos p.index)))

pub is_buffered_lem : (p : Piece) {i : ℕ} → p.bi ≡ pos i → is_buffered p ≡ true
unfolding is_buffered
is_buffered_lem p h = ground arith

pub not_buffered : (p : Piece) → p.bi ≡ minus_one → is_buffered p ≡ false
unfolding is_buffered
not_buffered p h = ground arith

buffered :
    (e : Env) (s : Storage) (piece : ℕ) (w : Bool) {p : Piece} {i : ℕ}
    → get_elem? s.pieces piece ≡ some p
    → p.bi ≡ pos i
    → get_buffer e s piece w ≡ ok (true, s)
unfolding get_buffer is_buffered
buffered e s piece w {p} {i} here at_i =
    let test : not (p.bi ==ℤ minus_one) ≡ true = ground arith in rw (here, test) refl

known :
    (e : Env) (s : Storage) (piece : ℕ) (p : Piece) (i : ℕ) (b : Buffer) {r : Bool}
    → get_elem? s.buffers i ≡ some b
    → at s.reserved_pieces p.index ≡ ok r
    → b.index ≡ pos i
    → link_free e s piece p (some i) ≡ ok (true, link e s piece p i b r)
unfolding link_free
known e s piece p i b {r} there bits index =
    let test : not (b.index ==ℤ minus_one) ≡ true = ground arith in
    rw (there, bits) (ap (λ c. ok (c, link e s piece p i b r)) test)

module _ (e : Env) {s : Storage} (v : IsValid s) (piece : ℕ) {p : Piece}
    (here : get_elem? s.pieces piece ≡ some p) (unbuffered : p.bi ≡ minus_one) where
  Outcome : Result (Bool × Storage) → Type 0
  Outcome m = (r : Bool) × (s' : Storage) × (m ≡ ok (r, s')) × Given e s piece r s' × IsValid s'

  link_free_lem :
      (o : Option ℕ)
      → FirstFree s.buffers 0 (0 + length s.buffers) o
      → Outcome (link_free e s piece p o)
  unfolding Outcome link_free
  link_free_lem o (inl (none_found, all)) =
      subst (λ o. Outcome (link_free e s piece p o)) (sym none_found)
        (
          false,
          s,
          ap (λ c. ok (c, s)) (not_buffered p unbuffered),
          full (λ j b from to there. all j b from (omega arith) there),
          v,
        )
  link_free_lem o (inr (i, b, at_i, there, free, before)) =
      let in_range : p.index < length s.reserved_pieces = omega (
        arith,
        get_elem?-lt s.pieces piece here,
        v.piece_total,
        (v.pieces_ok piece p here).index,
        v.reserved,
      ) in
      let bits = at_bit s.reserved_pieces p.index in_range in
      subst (λ o. Outcome (link_free e s piece p o)) (sym at_i)
        (
          true,
          link e s piece p i b (bit s.reserved_pieces (pos p.index)),
          known e s piece p i b there bits (v.buffers_ok i b there).index,
          given p i b here unbuffered there free before,
          link-IsValid e v piece i here there unbuffered (unused-pi v i b there free) _,
        )

  allocate_lem : Outcome (allocate e s piece p)
  unfolding Outcome allocate
  allocate_lem =
      let (o, q, found) = find_free_lem s.buffers 0 (length s.buffers) (omega arith) in
      let (r, s', done, how, w) = link_free_lem o found in
      (r, s', rw (ap (find_free s.buffers 0) (ap pos_part v.buffer_total) ∙ q) done, how, w)

  refused_lem : (r : Bool) × (refused e s p ≡ ok r) × ((r ≡ true) → s.is_reading ≡ true)
  unfolding refused
  refused_lem = elim (Bool-cases s.is_reading) [
    | inl reading ↦
        let (r, q) = is_readered_lem e (pos p.index) v in
        (
          not r,
          ap (λ c. if c then (is_readered e s (pos p.index) >>= λ b. ok (not b)) else ok false)
                reading
              ∙ rw q refl,
          λ _. reading,
        )
    | inr idle ↦ (
      false,
      ap (λ c. if c then (is_readered e s (pos p.index) >>= λ b. ok (not b)) else ok false) idle,
      λ h. cc h,
    )
  ]

  get_free_lem : Outcome (get_locked e s piece)
  unfolding Outcome get_locked
  get_free_lem =
      let (r, q, reading) = refused_lem in
      elim (Bool-cases r) [
        | inl refuse ↦
            let (c, told) = restore_piece_lem (pos p.index) v in
            (
              false,
              record s { calls = c },
              rw (here, not_buffered p unbuffered, q, refuse, told) refl,
              refused_by_reader c (reading refuse),
              counters-IsValid s.buffer_limit s.buffer_used s.ticks c v,
            )
        | inr go ↦
            let (r', s', done, how, w) = allocate_lem in
            (r', s', rw (here, not_buffered p unbuffered, q, go) done, how, w)
      ]

buffered_locked :
    (e : Env) (s : Storage) (piece : ℕ) {p : Piece} {i : ℕ}
    → get_elem? s.pieces piece ≡ some p
    → p.bi ≡ pos i
    → get_locked e s piece ≡ ok (true, s)
unfolding get_locked
buffered_locked e s piece {p} here at_i = rw (here, is_buffered_lem p at_i) refl

-- What the request does under the lock, whether the piece has a buffer by now or not.
pub get_locked_lem :
    (e : Env) {s : Storage} (piece : ℕ)
    → IsValid s
    → piece < s.piece_count
    → (r : Bool) × (s' : Storage) × (get_locked e s piece ≡ ok (r, s'))
      × Given e s piece r s'
      × IsValid s'
unfolding Outcome
get_locked_lem e {s} piece v h =
    let (p, here) = get_elem?_of_lt s.pieces piece (omega (arith, v.piece_total)) in
    elim (IsSlot-cases p.bi (v.pieces_ok piece p here).bi_slot) [
      | inl free ↦ get_free_lem e v piece here free
      | inr (i, at_i) ↦ (true, s, buffered_locked e s piece here at_i, held p i here at_i, v)
    ]

-- On a valid storage, a write request for a piece in range is answered without a fault and leaves
-- a valid storage, in one of four ways: yes and no change, where the piece has a buffer; no and
-- nothing changed but the log of calls, which happens only while somebody reads; no and no change,
-- where every buffer is in use; yes, where the piece had no buffer, and the first buffer that is
-- free is joined to it.
pub get_write_buffer_lem :
    (e : Env) {s : Storage} (piece : ℕ)
    → IsValid s
    → piece < s.piece_count
    → (r : Bool) × (s' : Storage) × (get_write_buffer e s piece ≡ ok (r, s'))
      × Given e s piece r s'
      × IsValid s'
unfolding get_write_buffer get_buffer Outcome
get_write_buffer_lem e {s} piece v h =
    let (p, here) = get_elem?_of_lt s.pieces piece (omega (arith, v.piece_total)) in
    elim (IsSlot-cases p.bi (v.pieces_ok piece p here).bi_slot) [
      | inl free ↦
          let (r, s', q, how, w) = get_free_lem e v piece here free in
          (r, s', rw (here, not_buffered p free) q, how, w)
      | inr (i, at_i) ↦ (true, s, buffered e s piece true here at_i, held p i here at_i, v)
    ]

-- A read request changes nothing, and is answered by whether the piece has a buffer.
pub get_read_buffer_lem :
    (e : Env) {s : Storage} (piece : ℕ) {p : Piece}
    → get_elem? s.pieces piece ≡ some p
    → get_read_buffer e s piece ≡ ok (is_buffered p, s)
unfolding get_read_buffer get_buffer
get_read_buffer_lem e {s} piece {p} here = rw here (ground arith)
