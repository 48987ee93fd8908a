-- ===== src/Storage/Alloc.antt =====
-- memory_storage.hpp: `get_buffer`, which gives a piece its buffer, and its two callers
-- `get_read_buffer` and `get_write_buffer`. A pointer `&pieces[i]` is the index i.
pub mod Free
pub mod Link
pub mod Safe
use libtorrent_go.Base.{
  ℕ, zero, suc, ◌+◌, Bool, true, false, not, Option, none, some, List, pos, ◌+ℤ◌, ◌-ℤ◌, minus_one,
  ◌==ℤ◌, if◌then◌else◌, Result, ok, ◌>>=◌, at, set, pos_part,
}
use libtorrent_go.Piece.{Piece, is_buffered}
use libtorrent_go.Buffer.{Buffer}
use libtorrent_go.Storage.{Storage, Env, now}
use libtorrent_go.Storage.Evict.{is_readered, restore_piece}

-- The loop of `get_buffer` up to its `break`: the first of the buffers i, i + 1, … (`rounds` of them)
-- that is not in use.
unfoldable pub find_free : List Buffer → ℕ → ℕ → Result (Option ℕ)
find_free buffers i zero = ok none
find_free buffers i (suc rounds) = do
  b ← at buffers i
  elim b.is_used [ true ↦ find_free buffers (i + 1) rounds | false ↦ ok (some i) ]

-- The body of the loop for a free buffer `b` at index `i`: both sides of the link, and the counter
-- that the kind of the piece goes by.
unfoldable pub link : Env → Storage → ℕ → Piece → ℕ → Buffer → Bool → Storage
link e s piece p i b reserved = record s {
  buffers =
      set s.buffers i (record b { is_used = true; pi = pos p.index; accessed = some (now e s) });
  pieces = set s.pieces piece (record p { bi = b.index });
  ticks = s.ticks + 1;
  buffer_limit = if reserved then s.buffer_limit -ℤ pos 1 else s.buffer_limit;
  buffer_used = if reserved then s.buffer_used else s.buffer_used +ℤ pos 1;
}

-- The last line is `return p->is_buffered()`, for the index that `link` stores.
unfoldable pub link_free : Env → Storage → ℕ → Piece → Option ℕ → Result (Bool × Storage)
link_free e s piece p none = ok (is_buffered p, s)
link_free e s piece p (some i) = do
  b ← at s.buffers i
  reserved ← at s.reserved_pieces p.index
  ok (not (b.index ==ℤ minus_one), link e s piece p i b reserved)

unfoldable pub allocate : Env → Storage → ℕ → Piece → Result (Bool × Storage)
allocate e s piece p = do
  found ← find_free s.buffers 0 (pos_part s.buffer_size)
  link_free e s piece p found

-- A piece outside the reader's range is not given memory once somebody reads.
unfoldable pub refused : Env → Storage → Piece → Result Bool
refused e s p =
    if s.is_reading then (do r ← is_readered e s (pos p.index); ok (not r)) else ok false

-- `get_buffer` for a write, once `m_mutex` is locked: the piece is tested again, since another write
-- may have come first.
unfoldable pub get_locked : Env → Storage → ℕ → Result (Bool × Storage)
get_locked e s piece = do
  p ← at s.pieces piece
  if is_buffered p then ok (true, s) else (do
    refuse ← refused e s p
    if refuse
        then (do s' ← restore_piece s (pos p.index); ok (false, s'))
        else allocate e s piece p)

unfoldable pub get_buffer : Env → Storage → ℕ → Bool → Result (Bool × Storage)
get_buffer e s piece is_write = do
  p ← at s.pieces piece
  if is_buffered p
      then ok (true, s)
      else (if not is_write then ok (is_buffered p, s) else get_locked e s piece)

unfoldable pub get_read_buffer : Env → Storage → ℕ → Result (Bool × Storage)
get_read_buffer e s piece = get_buffer e s piece false

unfoldable pub get_write_buffer : Env → Storage → ℕ → Result (Bool × Storage)
get_write_buffer e s piece = get_buffer e s piece true
