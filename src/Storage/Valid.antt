-- ===== src/Storage/Valid.antt =====
-- The well-formedness of a storage of memory_storage.hpp, and what it gives its operations.
use libtorrent_go.Base.{
  ◌<◌, ◌/◌, ◌^◌, min, ℕ, zero, suc, ◌+◌, ◌≤◌, ◌≡◌, refl, sym, ◌∙◌, Bool, true, false, not, none,
  some, List, ℤ, pos, ◌⊎◌, inl, inr, negsuc, minus_one, ◌==ℤ◌, length, get_elem?, get_elem?_of_lt,
  Each, ok, arith,
}
use libtorrent_go.Slots.{slot, slot_at, slot-lt, Linked}
use libtorrent_go.Piece.{Piece}
use libtorrent_go.Buffer.{Buffer}
use libtorrent_go.Storage.{Storage, Pointer, indeterminate, null, object, is_null, Call}

-- A slot holds an index or -1.
abbrev pub IsSlot : ℤ → Type 0
IsSlot (pos n) = Unit {0}
IsSlot (negsuc zero) = Unit {0}
IsSlot (negsuc (suc n)) = ⊥

pub record IsPiece (piece_length i : ℕ) (p : Piece) : Type 0 where
  pub index : p.index ≡ i
  pub fits : p.length ≤ piece_length
  pub bi_slot : IsSlot p.bi
  pub not_completed : p.is_completed ≡ false
  pub not_read : p.is_read ≡ false

pub record IsBuffer (piece_length i : ℕ) (b : Buffer) : Type 0 where
  pub index : b.index ≡ pos i
  pub bytes : length b.buffer ≡ piece_length
  pub pi_slot : IsSlot b.pi
  pub used : b.is_used ≡ not (b.pi ==ℤ minus_one)

-- A buffer that holds a piece is in use.
pub IsBuffer-used :
    {piece_length i : ℕ} (b : Buffer) (q : ℕ)
    → IsBuffer piece_length i b
    → b.pi ≡ pos q
    → b.is_used ≡ true
IsBuffer-used b q h holds = ground (arith, h.used, not_free b.pi q holds)
  where
    not_free : (z : ℤ) (n : ℕ) → z ≡ pos n → z ==ℤ minus_one ≡ false
    not_free z n e = rw e (ground arith)

abbrev pub determined : Pointer → Bool
determined indeterminate = false
determined null = true
determined object = true

-- The bit at an index; there is none at -1.
abbrev pub bit : List Bool → ℤ → Bool
bit bits (pos i) = elim (get_elem? bits i) [ none ↦ false | some b ↦ b ]
bit bits (negsuc i) = false

abbrev pub bi_of : Storage → ℕ → ℤ
bi_of s = slot (λ p. p.bi) s.pieces

abbrev pub pi_of : Storage → ℕ → ℤ
pi_of s = slot (λ b. b.pi) s.buffers

-- The number of buffers that goes with the capacity.
abbrev pub HasSize : Storage → ℕ → Type 0
HasSize s n = (c : ℕ) × (s.capacity ≡ pos c) × (n ≡ min (c / s.piece_length + 2) s.piece_count)

pub record IsValid (s : Storage) : Type 0 where
  pub initialized : s.is_initialized ≡ true
  pub handle : determined s.m_handle ≡ true
  pub torrent : determined s.t ≡ true
  pub piece_total : length s.pieces ≡ s.piece_count
  pub buffer_total : s.buffer_size ≡ pos (length s.buffers)
  pub positive : 0 < s.piece_length
  pub small : s.piece_length < 2 ^ 31
  pub sized : HasSize s (length s.buffers)
  pub readers : length s.reader_pieces ≡ s.piece_count + 10
  pub reserved : length s.reserved_pieces ≡ s.piece_count + 10
  pub pieces_ok : Each (IsPiece s.piece_length) s.pieces
  pub buffers_ok : Each (IsBuffer s.piece_length) s.buffers
  pub linked : Linked (bi_of s) (pi_of s)

-- The pointers may be others that are set; the flags, the counters, the clock and the log of calls
-- have no part in it.
pub members-IsValid :
    {s : Storage} (m_handle t : Pointer) (is_logging is_reading : Bool) (limit used : ℤ) (ticks : ℕ)
    (calls : List Call)
    → IsValid s
    → determined m_handle ≡ true
    → determined t ≡ true
    → IsValid (record s {
      m_handle = m_handle;
      t = t;
      is_logging = is_logging;
      is_reading = is_reading;
      buffer_limit = limit;
      buffer_used = used;
      ticks = ticks;
      calls = calls;
    })
members-IsValid m_handle t is_logging is_reading limit used ticks calls v handle torrent = record {
  initialized = v.initialized;
  handle = handle;
  torrent = torrent;
  piece_total = v.piece_total;
  buffer_total = v.buffer_total;
  positive = v.positive;
  small = v.small;
  sized = v.sized;
  readers = v.readers;
  reserved = v.reserved;
  pieces_ok = v.pieces_ok;
  buffers_ok = v.buffers_ok;
  linked = v.linked;
}

pub counters-IsValid :
    {s : Storage} (limit used : ℤ) (ticks : ℕ) (calls : List Call)
    → IsValid s
    → IsValid (record s { buffer_limit = limit; buffer_used = used; ticks = ticks; calls = calls })
counters-IsValid {s} limit used ticks calls v =
    members-IsValid s.m_handle s.t s.is_logging s.is_reading limit used ticks calls v v.handle
      v.torrent

pub is_null_lem : (p : Pointer) → determined p ≡ true → (b : Bool) × (is_null p ≡ ok b)
unfolding is_null
is_null_lem indeterminate h = cc
is_null_lem null h = (true, refl)
is_null_lem object h = (false, refl)

pub IsSlot-cases : (z : ℤ) → IsSlot z → (z ≡ minus_one) ⊎ ((n : ℕ) × (z ≡ pos n))
IsSlot-cases (pos n) h = inr (n, refl)
IsSlot-cases (negsuc zero) h = inl refl
IsSlot-cases (negsuc (suc n)) h = absurd h

module _ {s : Storage} (v : IsValid s) where
  -- A buffer that holds a piece is linked to that piece.
  pub held_piece :
      (b p : ℕ) {y : Buffer}
      → get_elem? s.buffers b ≡ some y
      → y.pi ≡ pos p
      → (x : Piece) × (get_elem? s.pieces p ≡ some x) × (x.bi ≡ pos b)
  held_piece b p e q =
      let back = (v.linked p b).1 (slot_at (λ b. b.pi) s.buffers b e ∙ q) in
      let (x, here) = get_elem?_of_lt s.pieces p (slot-lt (λ p. p.bi) s.pieces p back) in
      (x, here, sym (slot_at (λ p. p.bi) s.pieces p here) ∙ back)

  -- A piece that names a buffer lies in that buffer.
  pub held_buffer :
      (p b : ℕ) {x : Piece}
      → get_elem? s.pieces p ≡ some x
      → x.bi ≡ pos b
      → (y : Buffer) × (get_elem? s.buffers b ≡ some y) × (y.pi ≡ pos p)
  held_buffer p b e q =
      let back = (v.linked p b).0 (slot_at (λ p. p.bi) s.pieces p e ∙ q) in
      let (y, here) = get_elem?_of_lt s.buffers b (slot-lt (λ b. b.pi) s.buffers b back) in
      (y, here, sym (slot_at (λ b. b.pi) s.buffers b here) ∙ back)
