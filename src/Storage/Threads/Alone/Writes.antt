-- ===== src/Storage/Threads/Alone/Writes.antt =====
-- A `writev` of memory_storage.hpp by one thread alone.
use libtorrent_go.Storage.Transfer.Write.{writev-started}
use libtorrent_go.Base.{
  ap, sym, ok-injective, ◌<◌, ◌∙◌, ℕ, pos, ◌≡◌, subst, Bool, true, false, not, none, List, ok,
  ended, Result, ◌>>=◌, Bool-cases, inl, inr, ltb_ℤ, leb_ℤ, ◌||◌, if◌then◌else◌, some, at,
  get_elem?,
}
use libtorrent_go.Storage.Threads.Bytes.{or_fault-ok}
use libtorrent_go.Storage.Valid.{IsValid}
use libtorrent_go.Buffer.{Iovec}
use libtorrent_go.Storage.{Storage, Env}
use libtorrent_go.Storage.Alloc.{get_locked, get_write_buffer, get_buffer}
use libtorrent_go.Storage.Evict.{trim, trim_loop}
use libtorrent_go.Storage.Transfer.{write_bytes, trim_after, writev_request, writev}
use libtorrent_go.Storage.Threads.Place.{Pc, idle, copying, testing, by_writev}
use libtorrent_go.Storage.Threads.{
  write, stay, go, skip, wait, begin, claim, claiming, asking, grant, deny, is_buffered, find, miss,
  enter, call,
}
use libtorrent_go.Storage.Threads.Lock.{outside, taken}
use libtorrent_go.Storage.Threads.Alone.{
  Alone, next, then_branch, else_branch, trim_loop-Alone, given_back, halted,
}

module _ (e : Env) (sizer i : ℕ) where
  -- From a place where the lock is free to the end of the call.
  abbrev ToEnd : Storage → Pc → Storage → Type 0
  ToEnd s p u = Alone e sizer i none s p none u idle

  trim-Alone :
      (fuel piece : ℕ) (s u : Storage)
      → leb_ℤ s.buffer_limit s.buffer_used ≡ true
      → trim e fuel s (pos piece) ≡ ok u
      → ToEnd s (testing piece) u
  unfolding trim
  trim-Alone fuel piece s u reached done =
      elim (Bool-cases (ltb_ℤ s.capacity (pos 0) || ltb_ℤ s.buffer_used s.buffer_limit)) [
        | inl below ↦
            let stays =
              ok-injective (then_branch _ (ok s) (trim_loop e (pos piece) fuel s) below done) in
            next (go piece reached) (outside none)
              (next (skip piece below) (outside none) (halted e sizer i s u stays))
        | inr over ↦
            let loops = else_branch _ (ok s) (trim_loop e (pos piece) fuel s) over done in
            next (go piece reached) (outside none) (
              next (wait piece over) (outside none)
                (next (begin piece) taken (trim_loop-Alone e sizer i piece u fuel s loops)))
      ]

  trim_after-Alone :
      (fuel piece : ℕ) (s u : Storage)
      → trim_after e fuel s piece ≡ ok u
      → ToEnd s (testing piece) u
  unfolding trim_after
  trim_after-Alone fuel piece s u done = elim (Bool-cases (leb_ℤ s.buffer_limit s.buffer_used)) [
    | inl reached ↦
        trim-Alone fuel piece s u reached
          (then_branch _ (trim e fuel s (pos piece)) (ok s) reached done)
    | inr below ↦ next (stay piece below) (outside none) (
        halted e sizer i s u
          (ok-injective (else_branch _ (trim e fuel s (pos piece)) (ok s) below done)))
  ]

  module _ (fuel : ℕ) (bufs : List Iovec) (piece offset n : ℕ) (u : Storage) where
    -- What `writev` does once it knows whether it has a buffer.
    abbrev rest : Bool × Storage → Result (ℕ × Storage)
    rest r =
        if not r.0
        then ok (0, r.1)
        else (write_bytes e r.1 bufs piece offset >>= λ x.
            trim_after e fuel x.1 piece >>= λ y. ok (x.0, y))

    copy-Alone :
        (s : Storage)
        → rest (true, s) ≡ ok (n, u)
        → ToEnd s (copying (by_writev bufs) piece offset) u
    copy-Alone s done =
        let (x, more, ran) = ended (write_bytes e s bufs piece offset) _ (sym done) in
        let (y, last, trimmed) = ended (trim_after e fuel x.1 piece) _ (sym more) in
        next (write bufs piece offset x.1 x.0 ran) (outside none) (
          subst (λ z. ToEnd x.1 (testing piece) z) (ap (λ r. r.1) (ok-injective last))
            (trim_after-Alone fuel piece x.1 y trimmed))

    claim-Alone :
        (s s1 : Storage) (r : Bool)
        → get_locked e s piece ≡ ok (r, s1)
        → rest (r, s1) ≡ ok (n, u)
        → Alone e sizer i (some i) s (claiming (by_writev bufs) piece offset) none u idle
    unfolding claim
    claim-Alone s s1 true ran done =
        next (grant (by_writev bufs) piece offset s1 ran) (given_back (some i)) (copy-Alone s1 done)
    claim-Alone s s1 false ran done =
        next (deny (by_writev bufs) piece offset s1 ran) (given_back (some i))
          (halted e sizer i s1 u (ap (λ x. x.1) (ok-injective done)))

    request-Alone :
        (s : Storage) (r : Bool × Storage)
        → get_write_buffer e s piece ≡ ok r
        → rest r ≡ ok (n, u)
        → ToEnd s (asking (by_writev bufs) piece offset) u
    unfolding get_write_buffer get_buffer
    request-Alone s r ran done =
        let (p, more, at_p) = ended (at s.pieces piece) _ (sym ran) in
        let here = or_fault-ok (get_elem? s.pieces piece) at_p in
        elim (Bool-cases (is_buffered p)) [
          | inl found ↦
              let known =
                ok-injective (then_branch _ (ok (true, s)) (get_locked e s piece) found more) in
              next (find (by_writev bufs) piece offset p here found) (outside none)
                (copy-Alone s (ap rest known ∙ done))
          | inr missing ↦
              let asks = else_branch _ (ok (true, s)) (get_locked e s piece) missing more in
              next (miss (by_writev bufs) piece offset p here missing) (outside none)
                (next (enter (by_writev bufs) piece offset) taken (claim-Alone s r.1 r.0 asks done))
        ]

    pub writev-Alone :
        (s : Storage)
        → IsValid s
        → piece < s.piece_count
        → writev e fuel s bufs piece offset ≡ ok (n, u)
        → Alone e sizer i none s idle none u idle
    unfolding writev_request
    writev-Alone s v below done =
        let begun = sym (writev-started e fuel bufs piece offset v) ∙ done in
        let (r, more, ran) = ended (get_write_buffer e s piece) _ (sym begun) in
        next (call (by_writev bufs) piece offset v.initialized below) (outside none)
          (request-Alone s r ran more)
