-- ===== src/Storage/Setup.antt =====
-- memory_storage.hpp: the constructor, `set_memory_size`, and the members that only set a field.
pub mod Capacity
pub mod Safe
pub mod Race
pub mod Update
use libtorrent_go.Base.{
  ℕ, zero, suc, ◌+◌, ◌-◌, ◌^◌, Bool, true, false, ◌&&◌, List, [], ◌∷◌, ◌++◌, ℤ, pos, negsuc, ◌+ℤ◌,
  ◌-ℤ◌, ◌/ℤ◌, ltb_ℤ, leb_ℤ, ◌==ℤ◌, ◌==◌, if◌then◌else◌, Result, ok, fault, ◌>>=◌, pos_part,
  replicate, set, at_int,
}
use libtorrent_go.Piece.{Piece, new_piece}
use libtorrent_go.Buffer.{Buffer, new_buffer}
use libtorrent_go.Storage.{Storage, TorrentInfo, Pointer, indeterminate, is_null}

-- A value that is converted from `double` to `int`: out of range, the conversion is undefined.
unfoldable pub as_int : ℤ → Result ℤ
as_int z = if leb_ℤ (negsuc (2 ^ 31 - 1)) z && ltb_ℤ z (pos (2 ^ 31)) then ok z else fault

-- `rint(ceil(capacity/piece_length) + 2)`, then the cap by the number of pieces. The division is on
-- integers, so `ceil` and `rint` get whole numbers, which `double` holds exactly below 2^53.
unfoldable pub max_buffers : ℤ → ℕ → ℕ → Result ℤ
max_buffers capacity piece_length piece_count = if piece_length == 0 then fault else (do
  n ← as_int (capacity /ℤ piece_length +ℤ pos 2)
  ok (if ltb_ℤ (pos piece_count) n then pos piece_count else n))

-- `for (i = first; …) buffers.push_back(memory_buffer(i, piece_length))`, `rounds` times.
unfoldable pub push_buffers : ℕ → ℕ → ℤ → List Buffer → List Buffer
push_buffers piece_length zero first buffers = buffers
push_buffers piece_length (suc rounds) first buffers =
    push_buffers piece_length rounds (first +ℤ pos 1)
      (buffers ++ (new_buffer first piece_length ∷ []))

-- The rounds of `for (i = lo; i < hi; i++)`.
abbrev pub rounds : ℤ → ℤ → ℕ
rounds lo hi = pos_part (hi -ℤ lo)

unfoldable pub push_pieces : (ℕ → ℕ) → ℕ → ℕ → List Piece
push_pieces piece_size i zero = []
push_pieces piece_size i (suc n) = new_piece i (piece_size i) ∷ push_pieces piece_size (i + 1) n

-- The members as the constructor sets them, once the number of buffers is known.
unfoldable pub fresh : ℤ → TorrentInfo → ℤ → Storage
fresh memory_size info size = record {
  reader_pieces = replicate (info.num_pieces + 10) false;
  reserved_pieces = replicate (info.num_pieces + 10) false;
  capacity = memory_size;
  piece_count = info.num_pieces;
  piece_length = info.piece_length;
  pieces = push_pieces info.piece_size 0 info.num_pieces;
  buffer_size = size;
  buffer_limit = size;
  buffer_used = pos 0;
  buffer_reserved = 0;
  buffers = push_buffers info.piece_length (rounds (pos 0) size) (pos 0) [];
  m_handle = indeterminate;
  t = indeterminate;
  is_logging = false;
  is_initialized = true;
  is_reading = false;
  ticks = 0;
  calls = [];
}

-- The constructor, where `memory_size` is the global of that name.
unfoldable pub construct : ℤ → TorrentInfo → Result Storage
construct memory_size info = do
  size ← max_buffers memory_size info.piece_length info.num_pieces
  ok (fresh memory_size info size)

-- `new memory_storage(params)`
unfoldable pub memory_storage_constructor : ℤ → TorrentInfo → Result Storage
memory_storage_constructor memory_size params = construct memory_size params

unfoldable pub get_memory_size : Storage → ℤ
get_memory_size s = s.capacity

-- `set_memory_size` with the new number of buffers, `n`.
unfoldable pub resize : Storage → ℤ → ℤ → Storage
resize s size n =
    let s' = record s { capacity = size; buffer_size = n; buffer_limit = n } in
    if s.buffer_size ==ℤ n then s' else record s' {
      buffers = push_buffers s.piece_length (rounds s.buffer_size n) s.buffer_size s.buffers;
    }

-- `set_memory_size` under the lock.
abbrev pub enlarge : Storage → ℤ → Result Storage
enlarge s size = do n ← max_buffers size s.piece_length s.piece_count; ok (resize s size n)

unfoldable pub set_memory_size : Storage → ℤ → Result Storage
set_memory_size s size = if leb_ℤ size s.capacity then ok s else enlarge s size

-- `h` is the handle and `native` what its `native_handle().get()` is.
unfoldable pub set_torrent_handle : Storage → Pointer → Pointer → Result Storage
set_torrent_handle s h native = do
  missing ← is_null h
  if missing then fault else ok (record s { m_handle = h; t = native })

unfoldable pub enable_logging : Storage → Storage
enable_logging s = record s { is_logging = true }

unfoldable pub disable_logging : Storage → Storage
disable_logging s = record s { is_logging = false }

-- `bits.reset()`
unfoldable pub reset_bits : List Bool → List Bool
reset_bits [] = []
reset_bits (b ∷ bits) = false ∷ reset_bits bits

-- `for (…) bits.set(pieces[i])`
unfoldable pub set_bits : List Bool → List ℤ → Result (List Bool)
set_bits bits [] = ok bits
set_bits bits (i ∷ is) = do _ ← at_int bits i; set_bits (set bits (pos_part i) true) is

unfoldable pub count_bits : List ℤ → ℕ
count_bits [] = 0
count_bits (i ∷ is) = suc (count_bits is)

unfoldable pub update_reader_pieces : Storage → List ℤ → Result Storage
update_reader_pieces s pieces =
    if s.is_initialized
    then (do
      bits ← set_bits (reset_bits s.reader_pieces) pieces
      ok (record s { reader_pieces = bits }))
    else ok s

unfoldable pub update_reserved_pieces : Storage → List ℤ → Result Storage
update_reserved_pieces s pieces =
    if s.is_initialized
    then (do
      bits ← set_bits (reset_bits s.reserved_pieces) pieces
      ok (record s { reserved_pieces = bits; buffer_reserved = count_bits pieces }))
    else ok s
