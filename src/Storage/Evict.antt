-- ===== src/Storage/Evict.antt =====
-- memory_storage.hpp: which buffer goes when memory is short (`is_reserved`, `is_readered`,
-- `find_last_buffer`), what its loss means to the torrent (`restore_piece`, `remove_piece`), and the
-- loop that frees buffers until the limit is kept (`trim`).
pub mod Oldest
pub mod Evictable
pub mod Chosen
pub mod Round
pub mod Trim
pub mod Progress
pub mod Ends
pub mod Kept
pub mod Safe
use libtorrent_go.Base.{
  ℕ, zero, suc, ◌+◌, Bool, true, false, not, ◌&&◌, ◌||◌, some, List, [], ◌∷◌, ◌++◌, ℤ, pos, ◌-ℤ◌,
  ◌==ℤ◌, ltb_ℤ, minus_one, if◌then◌else◌, Result, ok, hang, ◌>>=◌, ◌and_then◌, at_int, set, length,
  pos_part, ◌==◌,
}
use libtorrent_go.Piece.{reset_piece}
use libtorrent_go.Buffer.{Buffer, Time, earlier, is_assigned, reset_buffer}
use libtorrent_go.Storage.{
  Storage, Env, is_null, reset_piece_deadline, set_piece_priority, we_dont_have, now, tick,
}

unfoldable pub is_reserved : Storage → ℤ → Result Bool
is_reserved s index = if s.is_initialized then at_int s.reserved_pieces index else ok false

-- Without a handle every piece counts as being read.
unfoldable pub is_readered : Env → Storage → ℤ → Result Bool
is_readered e s index =
    if s.is_initialized
    then (do
      missing ← is_null s.m_handle
      ok (if missing then true else not (e.piece_priority s.ticks s.calls index == 0)))
    else ok false

abbrev negate : Result Bool → Result Bool
negate r = r >>= λ b. ok (not b)

-- The condition of `find_last_buffer` up to the comparison of times.
unfoldable pub is_candidate : Env → Storage → ℤ → Bool → Buffer → Result Bool
is_candidate e s pi check_read b =
    ok b.is_used
    and_then ok (is_assigned b)
    and_then negate (is_reserved s b.pi)
    and_then ok (not (b.pi ==ℤ pi))
    and_then (if check_read then negate (is_readered e s b.pi) else ok true)

-- The loop of `find_last_buffer`, with its variables `bi` and `minTime`.
unfoldable pub scan : Env → Storage → ℤ → Bool → List Buffer → ℤ → Time → Result ℤ
scan e s pi check_read [] bi min_time = ok bi
scan e s pi check_read (b ∷ bs) bi min_time = do
  candidate ← is_candidate e s pi check_read b
  let better = candidate && earlier b.accessed min_time
  scan e s pi check_read bs (if better then b.index else bi)
      (if better then b.accessed else min_time)

unfoldable pub find_last_buffer : Env → Storage → ℤ → Bool → Result (ℤ × Storage)
find_last_buffer e s pi check_read = do
  bi ← scan e s pi check_read s.buffers minus_one (some (now e s))
  ok (bi, tick s)

-- The three calls on the torrent.
unfoldable pub tell : Storage → ℤ → Storage
tell s pi = record s {
  calls = s.calls ++ (reset_piece_deadline pi ∷ set_piece_priority pi 0 ∷ we_dont_have pi ∷ []);
}

unfoldable pub restore_piece : Storage → ℤ → Result Storage
restore_piece s pi = do
  no_handle ← is_null s.m_handle
  if no_handle
      then ok s
      else (do no_torrent ← is_null s.t; ok (if no_torrent then s else tell s pi))

-- `remove_piece` up to the loss of the buffer.
unfoldable pub free_buffer : Env → Storage → ℤ → Buffer → Storage
free_buffer e s bi b = record s {
  buffers = set s.buffers (pos_part bi) (reset_buffer (now e s) b);
  ticks = s.ticks + 1;
  buffer_used = s.buffer_used -ℤ pos 1;
}

-- `pieces[pi].reset(); restore_piece(pi);`
unfoldable pub forget_piece : Storage → ℤ → Result Storage
forget_piece s pi = do
  p ← at_int s.pieces pi
  restore_piece (record s { pieces = set s.pieces (pos_part pi) (reset_piece p) }) pi

unfoldable pub remove_piece : Env → Storage → ℤ → Result Storage
remove_piece e s bi = do
  b ← at_int s.buffers bi
  let s' = free_buffer e s bi b
  if not (b.pi ==ℤ minus_one) && ltb_ℤ b.pi (pos s.piece_count) then forget_piece s' b.pi else ok s'

-- `dynamic_bitset::empty` tells whether the set has no bits at all, set or not.
abbrev has_no_bits : List Bool → Bool
has_no_bits bits = length bits == 0

-- The search for a piece that nobody reads.
unfoldable pub find_unread : Env → Storage → ℤ → Result (ℤ × Storage)
find_unread e s pi =
    if has_no_bits s.reader_pieces then ok (minus_one, s) else find_last_buffer e s pi true

-- The second half of a round: the search among all pieces.
unfoldable pub evict_any : Env → ℤ → Storage → Result Storage
evict_any e pi s = do
  (bi, s') ← find_last_buffer e s pi false
  if not (bi ==ℤ minus_one) then remove_piece e s' bi else ok s'

-- One round of the loop of `trim`.
unfoldable pub trim_round : Env → ℤ → Storage → Result Storage
trim_round e pi s = do
  (bi, s') ← find_unread e s pi
  if not (bi ==ℤ minus_one) then remove_piece e s' bi else evict_any e pi s'

unfoldable pub trim_loop : Env → ℤ → ℕ → Storage → Result Storage
trim_loop e pi zero s = hang
trim_loop e pi (suc fuel) s = elim (ltb_ℤ s.buffer_used s.buffer_limit) [
  | true ↦ ok s
  | false ↦ trim_round e pi s >>= trim_loop e pi fuel
]

unfoldable pub trim : Env → ℕ → Storage → ℤ → Result Storage
trim e fuel s pi =
    if ltb_ℤ s.capacity (pos 0) || ltb_ℤ s.buffer_used s.buffer_limit
    then ok s
    else trim_loop e pi fuel s
