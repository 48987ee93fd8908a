-- ===== src/Storage/Threads/Place.antt =====
-- Where a thread of memory_storage.hpp stands between two steps.
use libtorrent_go.Base.{ℕ, ℤ, Bool, true, false, List}
use libtorrent_go.Buffer.{Iovec}
use libtorrent_go.Storage.{Storage}

-- The calls that go through `get_buffer`, with where their bytes are or go.
pub data Access : Type 0 where
  by_writev : List Iovec → Access
  by_readv : List Iovec → Access
  by_read : List ℕ → Access

abbrev pub is_write : Access → Bool
is_write (by_writev bufs) = true
is_write (by_readv bufs) = false
is_write (by_read read_buf) = false

-- Where a thread stands.
pub data Pc : Type 0 where
  idle : Pc
  -- in `get_buffer`: before the test without the lock, before the lock, and under it
  asking : Access → ℕ → ℕ → Pc
  locking : Access → ℕ → ℕ → Pc
  claiming : Access → ℕ → ℕ → Pc
  -- `read`, before its test of the size, and before the `restore_piece` of its early exits
  measuring : List ℕ → ℕ → ℕ → Pc
  telling : ℕ → Pc
  -- before the copy
  copying : Access → ℕ → ℕ → Pc
  -- before the test of `writev`, before that of `trim`, and before its lock
  testing : ℕ → Pc
  checking : ℕ → Pc
  waiting : ℕ → Pc
  -- under that lock: before the test of the loop, before the second search, and before the removal
  trimming : ℕ → Pc
  searching : ℕ → Pc
  removing : ℕ → ℤ → Pc
  -- `set_memory_size` past its test, before the lock and under it
  sizing : ℕ → Pc
  resizing : ℕ → Pc

-- The thread is in a section that `m_mutex` guards.
abbrev pub is_inside : Pc → Bool
is_inside idle = false
is_inside (asking a piece offset) = false
is_inside (locking a piece offset) = false
is_inside (claiming a piece offset) = true
is_inside (measuring read_buf piece offset) = false
is_inside (telling piece) = false
is_inside (copying a piece offset) = false
is_inside (testing piece) = false
is_inside (checking piece) = false
is_inside (waiting piece) = false
is_inside (trimming piece) = true
is_inside (searching piece) = true
is_inside (removing piece bi) = true
is_inside (sizing n) = false
is_inside (resizing n) = true

-- Where a call goes on that has its buffer, and one that is turned_away.
abbrev pub served : Access → ℕ → ℕ → Pc
served (by_writev bufs) piece offset = copying (by_writev bufs) piece offset
served (by_readv bufs) piece offset = copying (by_readv bufs) piece offset
served (by_read read_buf) piece offset = measuring read_buf piece offset

abbrev pub turned_away : Access → ℕ → Pc
turned_away (by_writev bufs) piece = idle
turned_away (by_readv bufs) piece = idle
turned_away (by_read read_buf) piece = telling piece

-- The state when a call asks for its buffer.
abbrev pub called : Access → Storage → Storage
called (by_writev bufs) s = s
called (by_readv bufs) s = s
called (by_read read_buf) s = record s { is_reading = true }
