-- ===== src/Storage/Threads/Progress.antt =====
-- Whom a thread of memory_storage.hpp waits for: only for the holder of the one lock, which can go on.
use libtorrent_go.Base.{
  ◌⊎◌, ◌≢◌, subst₂, sym, ap, ℕ, ◌≡◌, subst, Bool, true, false, none, some, pos, arith,
  get_elem?_of_lt, Option-cases, Bool-cases, inl, inr, ltb_ℤ, leb_ℤ, ltb, ◌||◌,
}
use libtorrent_go.Piece.{is_buffered}
use libtorrent_go.Storage.{Storage, Env}
use libtorrent_go.Storage.Valid.{IsValid}
use libtorrent_go.Storage.Evict.Safe.{restore_piece_lem}
use libtorrent_go.Storage.Threads.Place.{
  by_read, served, is_inside, Pc, idle, asking, locking, claiming, measuring, telling, copying,
  testing, checking, waiting, trimming, searching, removing, sizing, resizing,
}
use libtorrent_go.Storage.Threads.{
  System, Reach, Move, find, miss, enter, less, whole, tell, stay, go, skip, wait, begin, grab,
}
use libtorrent_go.Storage.Threads.Lock.{Locks, outside, taken}
use libtorrent_go.Storage.Threads.Fit.{IsFit}
use libtorrent_go.Storage.Threads.Holder.{CanMove, inside-CanMove}
use libtorrent_go.Storage.Threads.Invariant.{Reach-IsSound}

-- In the middle of a call, and not before its copy.
abbrev pub is_busy : Pc → Bool
is_busy idle = false
is_busy (asking a piece offset) = true
is_busy (locking a piece offset) = true
is_busy (claiming a piece offset) = true
is_busy (measuring read_buf piece offset) = true
is_busy (telling piece) = true
is_busy (copying a piece offset) = false
is_busy (testing piece) = true
is_busy (checking piece) = true
is_busy (waiting piece) = true
is_busy (trimming piece) = true
is_busy (searching piece) = true
is_busy (removing piece bi) = true
is_busy (sizing n) = true
is_busy (resizing n) = true

-- A thread outside of the sections has a step, which may need the lock.
outside-Move :
    (e : Env) (sizer i : ℕ) {s : Storage} (p : Pc)
    → IsValid s
    → IsFit sizer i s p
    → is_busy p ≡ true
    → is_inside p ≡ false
    → (u : Storage) × (p' : Pc) × Move e sizer i s p u p'
outside-Move e sizer i {s} (asking a piece offset) v fit busy h =
    let (p, here) = get_elem?_of_lt s.pieces piece (omega (arith, fit, v.piece_total)) in
    elim (Bool-cases (is_buffered p)) [
      | inl found ↦ (s, served a piece offset, find a piece offset p here found)
      | inr missing ↦ (s, locking a piece offset, miss a piece offset p here missing)
    ]
outside-Move e sizer i {s} (locking a piece offset) v fit busy h =
    (s, claiming a piece offset, enter a piece offset)
outside-Move e sizer i {s} (measuring read_buf piece offset) v fit busy h =
    let (p, here) = get_elem?_of_lt s.pieces piece (omega (arith, fit, v.piece_total)) in
    elim (Bool-cases (ltb p.size p.length)) [
      | inl short ↦ (s, telling piece, less read_buf piece offset p here short)
      | inr full ↦
          (s, copying (by_read read_buf) piece offset, whole read_buf piece offset p here full)
    ]
outside-Move e sizer i {s} (telling piece) v fit busy h =
    let (calls, run) = restore_piece_lem (pos piece) v in
    (record s { calls = calls }, idle, tell piece (record s { calls = calls }) run)
outside-Move e sizer i {s} (testing piece) v fit busy h =
    elim (Bool-cases (leb_ℤ s.buffer_limit s.buffer_used)) [
      | inl reached ↦ (s, checking piece, go piece reached)
      | inr below ↦ (s, idle, stay piece below)
    ]
outside-Move e sizer i {s} (checking piece) v fit busy h =
    elim (Bool-cases (ltb_ℤ s.capacity (pos 0) || ltb_ℤ s.buffer_used s.buffer_limit)) [
      | inl below ↦ (s, idle, skip piece below)
      | inr reached ↦ (s, waiting piece, wait piece reached)
    ]
outside-Move e sizer i {s} (waiting piece) v fit busy h = (s, trimming piece, begin piece)
outside-Move e sizer i {s} (sizing n) v fit busy h = (s, resizing n, grab n)
outside-Move e sizer i idle v fit busy h = cc
outside-Move e sizer i (copying a piece offset) v fit busy h = cc
outside-Move e sizer i (claiming a piece offset) v fit busy h = cc
outside-Move e sizer i (trimming piece) v fit busy h = cc
outside-Move e sizer i (searching piece) v fit busy h = cc
outside-Move e sizer i (removing piece bi) v fit busy h = cc
outside-Move e sizer i (resizing n) v fit busy h = cc

-- A step that stays outside of the sections needs no lock, and one into a section needs it free.
outside-CanMove :
    (e : Env) (sizer i : ℕ) (w : System)
    → IsValid w.mem
    → IsFit sizer i w.mem (w.pc i)
    → is_busy (w.pc i) ≡ true
    → is_inside (w.pc i) ≡ false
    → CanMove e sizer w i ⊎ ((j : ℕ) × (w.m_mutex ≡ some j))
outside-CanMove e sizer i w v fit busy out =
    let (u, p, m) = outside-Move e sizer i (w.pc i) v fit busy out in
    elim (Bool-cases (is_inside p)) [
      | inr stays ↦ inl (
        w.m_mutex,
        u,
        p,
        m,
        subst₂ (λ a b. Locks i w.m_mutex a b w.m_mutex) (sym out) (sym stays) (outside w.m_mutex),
      )
      | inl enters ↦ elim (Option-cases w.m_mutex) [
        | inr held ↦ inr held
        | inl free ↦ inl (
          some i,
          u,
          p,
          m,
          subst (λ l. Locks i l (is_inside (w.pc i)) (is_inside p) (some i)) (sym free)
              (subst₂ (λ a b. Locks i none a b (some i)) (sym out) (sym enters) taken),
        )
      ]
    ]

-- However many threads call `writev`, `readv`, `read`, `set_torrent_handle` and the updates, and
-- one thread `set_memory_size`, with allowed arguments, interleaved in any order at their tests,
-- at the locking of `m_mutex`, at their copies and between the searches and the removals of
-- `trim`, and started on a valid storage: a thread that is in the middle of a call and not about
-- to copy has a step to take itself, or it is outside of the sections, `m_mutex` is held by
-- another thread, and that thread is in a section and has a step to take. That the holder leaves
-- its section at some time is not stated, since `trim` may go on for ever.
pub busy-CanMove :
    (e : Env) (sizer i : ℕ) {s : Storage} {w : System}
    → IsValid s
    → Reach e sizer s w
    → is_busy (w.pc i) ≡ true
    → CanMove e sizer w i
      ⊎ ((j : ℕ) × (is_inside (w.pc i) ≡ false)
          × (w.m_mutex ≡ some j)
          × (i ≢ j)
          × (is_inside (w.pc j) ≡ true)
          × CanMove e sizer w j)
busy-CanMove e sizer i {w = w} v path busy =
    let h = Reach-IsSound e sizer v path in
    elim (Bool-cases (is_inside (w.pc i))) [
      | inl inside ↦ inl (inside-CanMove e sizer i w h.valid (h.fit i) inside)
      | inr out ↦ elim (outside-CanMove e sizer i w h.valid (h.fit i) busy out) [
        | inl goes_on ↦ inl goes_on
        | inr (j, held) ↦
            let inside = h.holder j held in
            inr (
              j,
              out,
              held,
              λ own. cc (ap (λ k. is_inside (w.pc k)) own, out, inside),
              inside,
              inside-CanMove e sizer j w h.valid (h.fit j) inside,
            )
      ]
    ]
