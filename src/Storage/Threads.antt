-- ===== src/Storage/Threads.antt =====
-- Threads of memory_storage.hpp: any number of threads that call `writev`, `readv`, `read`, `set_memory_size`,
-- `set_torrent_handle` and the updates, interleaved at their tests, at the locking of `m_mutex`, at their
-- copies, and in the rounds of `trim` between the searches and the removal. A step is what runs between
-- two such points.
pub mod Place
pub mod Lock
pub mod Changes
pub mod Kept
pub mod Sections
pub mod Fit
pub mod Steps
pub mod Bytes
pub mod Safe
pub mod Holder
pub mod Invariant
pub mod Sound
pub mod Clean
pub mod Effects
pub mod Cache
pub mod Alone
pub mod Progress
use libtorrent_go.Base.{
  ℕ, ◌<◌, ◌≡◌, ◌≢◌, true, false, Bool, Option, none, some, List, ℤ, pos, ltb_ℤ, leb_ℤ, ◌||◌, ◌==◌,
  get_elem?, ok, if◌then◌else◌, Result, ◌>>=◌, at, ltb, length, minus_one,
}
use libtorrent_go.Piece.{Piece, is_buffered}
use libtorrent_go.Buffer.{Iovec}
use libtorrent_go.Storage.{Storage, Env}
use libtorrent_go.Storage.Alloc.{get_locked}
use libtorrent_go.Storage.Setup.{enlarge}
use libtorrent_go.Storage.Transfer.{write_bytes, read_vectors, read_bytes}
use libtorrent_go.Storage.Evict.{find_unread, find_last_buffer, remove_piece, restore_piece}
use libtorrent_go.Storage.Machine.{
  Request, perform, IsAllowed, ask_memory, ask_read, ask_readv, ask_writev, ask_handle, ask_logging,
  ask_no_logging, ask_readers, ask_reserved,
}
use libtorrent_go.Storage.Threads.Lock.{Locks}
use libtorrent_go.Storage.Threads.Place.{
  Access, by_writev, by_readv, by_read, is_write, Pc, idle, asking, locking, claiming, measuring,
  telling, copying, testing, checking, waiting, trimming, searching, removing, sizing, resizing,
  is_inside, served, turned_away, called,
}

-- What `get_buffer` does under the lock.
unfoldable pub claim : Env → Storage → Bool → ℕ → Result (Bool × Storage)
claim e s write piece =
    if write then get_locked e s piece else (at s.pieces piece >>= λ p. ok (is_buffered p, s))

-- The calls that are one step: those that do not lock, and the updates, which are a section of `r_mutex`.
abbrev pub IsUpdate : Request → Type 0
IsUpdate (ask_read read_buf piece offset) = ⊥
IsUpdate (ask_readv bufs piece offset) = ⊥
IsUpdate (ask_writev bufs piece offset) = ⊥
IsUpdate (ask_memory n) = ⊥
IsUpdate (ask_handle native) = Unit {0}
IsUpdate ask_logging = Unit {0}
IsUpdate ask_no_logging = Unit {0}
IsUpdate (ask_readers is) = Unit {0}
IsUpdate (ask_reserved is) = Unit {0}

-- A step of thread `i`, where `set_memory_size` is called by the thread `sizer` only. A copy is one step with
-- the updates of size and time that follow it, and has none where it would fault; a buffer that goes to another
-- piece, or a vector that moves, in the middle of a copy is not among these steps.
pub data Move (e : Env) (sizer i : ℕ) (s : Storage) : Pc → Storage → Pc → Type 0 where
  call :
      (a : Access) (piece offset : ℕ)
      → s.is_initialized ≡ true
      → piece < s.piece_count
      → Move e sizer i s idle (called a s) (asking a piece offset)
  find :
      (a : Access) (piece offset : ℕ) (p : Piece)
      → get_elem? s.pieces piece ≡ some p
      → is_buffered p ≡ true
      → Move e sizer i s (asking a piece offset) s (served a piece offset)
  miss :
      (a : Access) (piece offset : ℕ) (p : Piece)
      → get_elem? s.pieces piece ≡ some p
      → is_buffered p ≡ false
      → Move e sizer i s (asking a piece offset) s (locking a piece offset)
  enter :
      (a : Access) (piece offset : ℕ)
      → Move e sizer i s (locking a piece offset) s (claiming a piece offset)
  grant :
      (a : Access) (piece offset : ℕ) (u : Storage)
      → claim e s (is_write a) piece ≡ ok (true, u)
      → Move e sizer i s (claiming a piece offset) u (served a piece offset)
  deny :
      (a : Access) (piece offset : ℕ) (u : Storage)
      → claim e s (is_write a) piece ≡ ok (false, u)
      → Move e sizer i s (claiming a piece offset) u (turned_away a piece)
  less :
      (read_buf : List ℕ) (piece offset : ℕ) (p : Piece)
      → get_elem? s.pieces piece ≡ some p
      → ltb p.size p.length ≡ true
      → Move e sizer i s (measuring read_buf piece offset) s (telling piece)
  whole :
      (read_buf : List ℕ) (piece offset : ℕ) (p : Piece)
      → get_elem? s.pieces piece ≡ some p
      → ltb p.size p.length ≡ false
      → Move e sizer i s
          (measuring read_buf piece offset)
          s
          (copying (by_read read_buf) piece offset)
  tell :
      (piece : ℕ) (u : Storage)
      → restore_piece s (pos piece) ≡ ok u
      → Move e sizer i s (telling piece) u idle
  write :
      (bufs : List Iovec) (piece offset : ℕ) (u : Storage) (n : ℕ)
      → write_bytes e s bufs piece offset ≡ ok (n, u)
      → Move e sizer i s (copying (by_writev bufs) piece offset) u (testing piece)
  fetch :
      (bufs : List Iovec) (piece offset : ℕ) (u : Storage) (n : ℕ) (filled : List Iovec)
      → read_vectors e s bufs piece offset ≡ ok (n, filled, u)
      → Move e sizer i s (copying (by_readv bufs) piece offset) u idle
  load :
      (read_buf : List ℕ) (piece offset : ℕ) (p : Piece) (u : Storage) (r : ℤ) (filled : List ℕ)
      → get_elem? s.pieces piece ≡ some p
      → read_bytes e s read_buf (pos (length read_buf)) piece p offset ≡ ok (r, filled, u)
      → Move e sizer i s (copying (by_read read_buf) piece offset) u idle
  stay :
      (piece : ℕ)
      → leb_ℤ s.buffer_limit s.buffer_used ≡ false
      → Move e sizer i s (testing piece) s idle
  go :
      (piece : ℕ)
      → leb_ℤ s.buffer_limit s.buffer_used ≡ true
      → Move e sizer i s (testing piece) s (checking piece)
  skip :
      (piece : ℕ)
      → ltb_ℤ s.capacity (pos 0) || ltb_ℤ s.buffer_used s.buffer_limit ≡ true
      → Move e sizer i s (checking piece) s idle
  wait :
      (piece : ℕ)
      → ltb_ℤ s.capacity (pos 0) || ltb_ℤ s.buffer_used s.buffer_limit ≡ false
      → Move e sizer i s (checking piece) s (waiting piece)
  begin : (piece : ℕ) → Move e sizer i s (waiting piece) s (trimming piece)
  finish :
      (piece : ℕ)
      → ltb_ℤ s.buffer_used s.buffer_limit ≡ true
      → Move e sizer i s (trimming piece) s idle
  choose :
      (piece : ℕ) (bi : ℤ) (u : Storage)
      → ltb_ℤ s.buffer_used s.buffer_limit ≡ false
      → find_unread e s (pos piece) ≡ ok (bi, u)
      → bi ≢ minus_one
      → Move e sizer i s (trimming piece) u (removing piece bi)
  pass :
      (piece : ℕ) (u : Storage)
      → ltb_ℤ s.buffer_used s.buffer_limit ≡ false
      → find_unread e s (pos piece) ≡ ok (minus_one, u)
      → Move e sizer i s (trimming piece) u (searching piece)
  choose_any :
      (piece : ℕ) (bi : ℤ) (u : Storage)
      → find_last_buffer e s (pos piece) false ≡ ok (bi, u)
      → bi ≢ minus_one
      → Move e sizer i s (searching piece) u (removing piece bi)
  pass_any :
      (piece : ℕ) (u : Storage)
      → find_last_buffer e s (pos piece) false ≡ ok (minus_one, u)
      → Move e sizer i s (searching piece) u (trimming piece)
  remove :
      (piece : ℕ) (bi : ℤ) (u : Storage)
      → remove_piece e s bi ≡ ok u
      → Move e sizer i s (removing piece bi) u (trimming piece)
  size :
      (n : ℕ)
      → i ≡ sizer
      → IsAllowed s (ask_memory n)
      → leb_ℤ (pos n) s.capacity ≡ false
      → Move e sizer i s idle s (sizing n)
  grab : (n : ℕ) → Move e sizer i s (sizing n) s (resizing n)
  extend : (n : ℕ) (u : Storage) → enlarge s (pos n) ≡ ok u → Move e sizer i s (resizing n) u idle
  update :
      (r : Request) (u : Storage)
      → IsUpdate r
      → IsAllowed s r
      → perform e 0 s r ≡ ok u
      → Move e sizer i s idle u idle

pub record System : Type 0 where
  pub mem : Storage
  pub m_mutex : Option ℕ
  pub pc : ℕ → Pc

-- One thread goes on.
abbrev pub at_thread : (ℕ → Pc) → ℕ → Pc → ℕ → Pc
at_thread pc i p j = if i == j then p else pc j

-- The systems that steps lead to, from a storage that no thread is at work on.
pub data Reach (e : Env) (sizer : ℕ) (s : Storage) : System → Type 0 where
  rest : Reach e sizer s (record { mem = s; m_mutex = none; pc = λ _. idle })
  step :
      (i : ℕ) (w : System) (lock : Option ℕ) (u : Storage) (p : Pc)
      → Reach e sizer s w
      → Move e sizer i w.mem (w.pc i) u p
      → Locks i w.m_mutex (is_inside (w.pc i)) (is_inside p) lock
      → Reach e sizer s (record { mem = u; m_mutex = lock; pc = at_thread w.pc i p })
