-- ===== src/Storage.antt =====
-- memory_storage.hpp, struct memory_storage: the state that its operations share. The children
-- model the operations, and below them stand the proofs.
pub mod Evict
pub mod Valid
pub mod Update
pub mod Alloc
pub mod Setup
pub mod Transfer
pub mod Info
pub mod Callbacks
pub mod Memory
pub mod Account
pub mod Machine
pub mod Cache
pub mod Clean
pub mod Threads
use libtorrent_go.Base.{
  ℕ, ◌+◌, Bool, true, false, List, [], ◌∷◌, ◌++◌, ℤ, Result, ok, fault, if◌then◌else◌,
}
use libtorrent_go.Piece.{Piece}
use libtorrent_go.Buffer.{Buffer}

-- What a pointer member holds. The constructor leaves `m_handle` and `t` as they are, and a read
-- of an indeterminate pointer is undefined.
pub data Pointer : Type 0 where
  indeterminate null object : Pointer

-- `!p`
unfoldable pub is_null : Pointer → Result Bool
is_null indeterminate = fault
is_null null = ok true
is_null object = ok false

-- What the storage tells the torrent of libtorrent, through `t` and its piece picker.
pub data Call : Type 0 where
  reset_piece_deadline : ℤ → Call
  set_piece_priority : ℤ → ℕ → Call
  we_dont_have : ℤ → Call

-- What the storage asks of code outside the repository: the k-th reading of the clock, and the
-- priority of a piece at that reading, which the user and the calls made so far may have changed.
pub record Env : Type 0 where
  pub clock : ℕ → ℕ
  pub piece_priority : ℕ → List Call → ℤ → ℕ

-- What the constructor reads of `torrent_info`.
pub record TorrentInfo : Type 0 where
  pub num_pieces : ℕ
  pub piece_length : ℕ
  pub piece_size : ℕ → ℕ

-- The members in their order, less the mutexes, `id`, and the pointers `m_files` and `m_info`, which
-- no operation reads after construction. `ticks` counts the readings of the clock, and `calls`
-- holds the calls made on the torrent, the oldest first. The counters `buffer_limit` and `buffer_used` are of
-- type `int` in the source, and integers of any size here.
pub record Storage : Type 0 where
  pub reader_pieces : List Bool
  pub reserved_pieces : List Bool
  pub capacity : ℤ
  pub piece_count : ℕ
  pub piece_length : ℕ
  pub pieces : List Piece
  pub buffer_size : ℤ
  pub buffer_limit : ℤ
  pub buffer_used : ℤ
  pub buffer_reserved : ℕ
  pub buffers : List Buffer
  pub m_handle : Pointer
  pub t : Pointer
  pub is_logging : Bool
  pub is_initialized : Bool
  pub is_reading : Bool
  pub ticks : ℕ
  pub calls : List Call

-- `now()`
abbrev pub now : Env → Storage → ℕ
now e s = e.clock s.ticks

-- The state after a reading of the clock.
abbrev pub tick : Storage → Storage
tick s = record s { ticks = s.ticks + 1 }
