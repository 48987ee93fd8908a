-- ===== src/Examples/States.antt =====
-- A torrent of three pieces of 4 bytes (the last has 2) in a storage with two buffers, and the states
-- that a few calls on it lead to.
use libtorrent_go.Base.{ℕ, zero, suc, true, false, [], ◌∷◌, pos, some, none, minus_one, List}
use libtorrent_go.Piece.{Piece}
use libtorrent_go.Buffer.{Buffer, Iovec}
use libtorrent_go.Storage.{Storage, Env, TorrentInfo, object}

-- Time goes on by one with every reading. Nobody reads any piece.
abbrev pub env : Env
env = record { clock = λ k. k; piece_priority = λ k calls p. 0 }

abbrev pub sizes : ℕ → ℕ
sizes zero = 4
sizes (suc zero) = 4
sizes (suc (suc n)) = 2

abbrev pub info : TorrentInfo
info = record { num_pieces = 3; piece_length = 4; piece_size = sizes }

abbrev pub piece : ℕ → ℕ → Piece
piece i n = record {
  index = i;
  length = n;
  size = 0;
  bi = minus_one;
  is_completed = false;
  is_read = false;
}

abbrev pub buf : ℕ → Buffer
buf i = record {
  index = pos i;
  length = 4;
  buffer = 0 ∷ 0 ∷ 0 ∷ 0 ∷ [];
  pi = minus_one;
  is_used = false;
  accessed = none;
}

-- After the constructor and `set_torrent_handle`.
abbrev pub start : Storage
start = record {
  reader_pieces =
      false ∷ false ∷ false ∷ false ∷ false ∷ false ∷ false ∷ false ∷ false ∷ false ∷ false ∷ false
      ∷ false ∷ [];
  reserved_pieces =
      false ∷ false ∷ false ∷ false ∷ false ∷ false ∷ false ∷ false ∷ false ∷ false ∷ false ∷ false
      ∷ false ∷ [];
  capacity = pos 0;
  piece_count = 3;
  piece_length = 4;
  pieces = piece 0 4 ∷ piece 1 4 ∷ piece 2 2 ∷ [];
  buffer_size = pos 2;
  buffer_limit = pos 2;
  buffer_used = pos 0;
  buffer_reserved = 0;
  buffers = buf 0 ∷ buf 1 ∷ [];
  m_handle = object;
  t = object;
  is_logging = false;
  is_initialized = true;
  is_reading = false;
  ticks = 0;
  calls = [];
}

abbrev pub bytes : List Iovec
bytes = (1 ∷ 2 ∷ []) ∷ (3 ∷ 4 ∷ []) ∷ []

abbrev pub blank : List Iovec
blank = (0 ∷ 0 ∷ []) ∷ (0 ∷ 0 ∷ []) ∷ []

-- Piece 0 in memory, and its buffer.
abbrev pub piece_0 : Piece
piece_0 = record (piece 0 4) { size = 4; bi = pos 0 }

abbrev pub slot_0 : Buffer
slot_0 = record (buf 0) {
  buffer = 1 ∷ 2 ∷ 3 ∷ 4 ∷ [];
  pi = pos 0;
  is_used = true;
  accessed = some 1;
}

-- After `writev` of all of piece 0.
abbrev pub one : Storage
one = record start {
  pieces = piece_0 ∷ piece 1 4 ∷ piece 2 2 ∷ [];
  buffers =
      record (buf 0) { buffer = 1 ∷ 2 ∷ 3 ∷ 4 ∷ []; pi = pos 0; is_used = true; accessed = some 1 }
      ∷ buf 1
      ∷ [];
  buffer_used = pos 1;
  ticks = 2;
}

-- After a second `get_write_buffer`, for piece 1: the limit is reached.
abbrev pub both : Storage
both = record one {
  pieces =
      record (piece 0 4) { size = 4; bi = pos 0 }
      ∷ record (piece 1 4) { bi = pos 1 }
      ∷ piece 2 2
      ∷ [];
  buffers =
      record (buf 0) { buffer = 1 ∷ 2 ∷ 3 ∷ 4 ∷ []; pi = pos 0; is_used = true; accessed = some 1 }
      ∷ record (buf 1) { pi = pos 1; is_used = true; accessed = some 2 }
      ∷ [];
  buffer_used = pos 2;
  ticks = 3;
}

-- The same with piece 0 reserved.
abbrev pub pinned : Storage
pinned = record both {
  reserved_pieces =
      true ∷ false ∷ false ∷ false ∷ false ∷ false ∷ false ∷ false ∷ false ∷ false ∷ false ∷ false
      ∷ false ∷ [];
  buffer_reserved = 1;
}
