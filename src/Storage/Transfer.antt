-- ===== src/Storage/Transfer.antt =====
-- memory_storage.hpp: `read`, `readv` and `writev`, the calls that move bytes.
pub mod Write
pub mod RoundTrip
pub mod Ends
pub mod Parts
pub mod Bounds
pub mod Read
pub mod ReadBytes
pub mod ReadVectors
use libtorrent_go.Base.{
  ℕ, ◌+◌, ◌^◌, true, not, ◌&&◌, ◌||◌, some, List, ℤ, pos, minus_one, leb_ℤ, ltb_ℤ, ltb, leb,
  if◌then◌else◌, Result, ok, fault, ◌>>=◌, at, at_int, set, length, pos_part, to_int32, sub_size,
}
use libtorrent_go.Piece.{Piece}
use libtorrent_go.Buffer.{Buffer, Iovec, byte_count, memcpy_from, copy_out, copy_in}
use libtorrent_go.Storage.{Storage, Env, now}
use libtorrent_go.Storage.Evict.{restore_piece, trim}
use libtorrent_go.Storage.Alloc.{get_read_buffer, get_write_buffer}

-- `buffers[pieces[piece].bi].accessed = now()`
unfoldable pub touch : Env → Storage → ℤ → Buffer → Storage
touch e s bi b = record s {
  buffers = set s.buffers (pos_part bi) (record b { accessed = some (now e s) });
  ticks = s.ticks + 1;
}

-- `if (is_completed && end >= size) is_read = true`
unfoldable pub mark_read : Piece → ℕ → Piece
mark_read p end = if p.is_completed && leb p.size end then record p { is_read = true } else p

-- The end of a read of a piece up to the byte `end`.
unfoldable pub finish_read : Env → Storage → ℕ → Piece → Buffer → ℕ → Storage
finish_read e s piece p b end =
    touch e (record s { pieces = set s.pieces piece (mark_read p end) }) p.bi b

-- The early exit of `read`.
unfoldable pub give_up : Storage → ℕ → List ℕ → Result (ℤ × List ℕ × Storage)
give_up s piece read_buf = do s' ← restore_piece s (pos piece); ok (minus_one, read_buf, s')

-- `read` from the place where the piece is known to be complete.
unfoldable pub read_bytes :
    Env → Storage → List ℕ → ℤ → ℕ → Piece → ℕ → Result (ℤ × List ℕ × Storage)
read_bytes e s read_buf size piece p offset = do
  b ← at_int s.buffers p.bi
  let available = to_int32 (sub_size (length b.buffer) offset)
  let wanted = if ltb_ℤ size available then size else available
  if leb_ℤ available (pos 0) then ok (pos 0, read_buf, s) else (do
    n ← byte_count wanted
    filled ← memcpy_from b.buffer offset read_buf n
    ok (size, filled, finish_read e s piece p b (offset + n)))

-- `read` past its first line.
unfoldable pub read_request : Env → Storage → List ℕ → ℤ → ℕ → ℕ → Result (ℤ × List ℕ × Storage)
read_request e s read_buf size piece offset = do
  (buffered, s') ← get_read_buffer e (record s { is_reading = true }) piece
  p ← at s'.pieces piece
  if not buffered || ltb p.size p.length
      then give_up s' piece read_buf
      else read_bytes e s' read_buf size piece p offset

-- The value returned, the memory at `read_buf` and the new state.
unfoldable pub read : Env → Storage → List ℕ → ℤ → ℕ → ℕ → Result (ℤ × List ℕ × Storage)
read e s read_buf size piece offset =
    if not s.is_initialized
    then ok (pos 0, read_buf, s)
    else read_request e s read_buf size piece offset

-- The copy of `readv`, once the piece has a buffer, and what follows it.
unfoldable pub read_vectors : Env → Storage → List Iovec → ℕ → ℕ → Result (ℕ × List Iovec × Storage)
read_vectors e s bufs piece offset = do
  p ← at s.pieces piece
  b ← at_int s.buffers p.bi
  (filled, n) ← copy_out b.buffer offset bufs
  ok (n, filled, finish_read e s piece p b (offset + n))

-- `readv` past its first line.
unfoldable pub readv_request :
    Env → Storage → List Iovec → ℕ → ℕ → Result (ℕ × List Iovec × Storage)
readv_request e s bufs piece offset = do
  (buffered, s') ← get_read_buffer e s piece
  if not buffered then ok (0, bufs, s') else read_vectors e s' bufs piece offset

-- The number returned, the vectors and the new state.
unfoldable pub readv : Env → Storage → List Iovec → ℕ → ℕ → Result (ℕ × List Iovec × Storage)
readv e s bufs piece offset =
    if not s.is_initialized then ok (0, bufs, s) else readv_request e s bufs piece offset

-- `a + b` on `int`: overflow is undefined.
unfoldable pub add_int : ℕ → ℕ → Result ℕ
add_int a b = if ltb (a + b) (2 ^ 31) then ok (a + b) else fault

-- The state once the bytes are copied: `pieces[piece].size` is now `size`.
unfoldable pub store : Env → Storage → ℕ → Piece → Buffer → List ℕ → ℕ → Storage
store e s piece p b bytes size = record s {
  pieces = set s.pieces piece (record p { size = size });
  buffers = set s.buffers (pos_part p.bi) (record b { buffer = bytes; accessed = some (now e s) });
  ticks = s.ticks + 1;
}

-- The copy of `writev`, once the piece has a buffer.
unfoldable pub write_bytes : Env → Storage → List Iovec → ℕ → ℕ → Result (ℕ × Storage)
write_bytes e s bufs piece offset = do
  p ← at s.pieces piece
  b ← at_int s.buffers p.bi
  (bytes, n) ← copy_in p.length b.buffer offset bufs
  size ← add_int p.size n
  ok (n, store e s piece p b bytes size)

-- `if (buffer_used >= buffer_limit) trim(piece);`
unfoldable pub trim_after : Env → ℕ → Storage → ℕ → Result Storage
trim_after e fuel s piece =
    if leb_ℤ s.buffer_limit s.buffer_used then trim e fuel s (pos piece) else ok s

-- `writev` past its first test; `fuel` bounds the rounds of `trim`.
unfoldable pub writev_request : Env → ℕ → Storage → List Iovec → ℕ → ℕ → Result (ℕ × Storage)
writev_request e fuel s bufs piece offset = do
  (buffered, s') ← get_write_buffer e s piece
  if not buffered then ok (0, s') else (do
    (n, stored) ← write_bytes e s' bufs piece offset
    trimmed ← trim_after e fuel stored piece
    ok (n, trimmed))

unfoldable pub writev : Env → ℕ → Storage → List Iovec → ℕ → ℕ → Result (ℕ × Storage)
writev e fuel s bufs piece offset =
    if not s.is_initialized then ok (0, s) else writev_request e fuel s bufs piece offset
