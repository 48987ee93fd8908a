-- ===== src/Storage/Threads/Alone/Reads.antt =====
-- A `readv` and a `read` of memory_storage.hpp by one thread alone.
use libtorrent_go.Base.{
  ◌<◌, if◌then◌else◌, not, ◌∙◌, ap, ◌||◌, ℤ, pos, length, ltb, ℕ, ◌≡◌, refl, sym, subst, Bool, true,
  false, none, some, ok, ok-injective, ended, at, Bool-cases, inl, inr, get_elem?, List,
}
use libtorrent_go.Storage.Threads.{
  fetch, less, whole, tell, load, claim, find, miss, enter, deny, call,
}
use libtorrent_go.Storage.Threads.Alone.{halt, halted, Alone, next, then_branch, else_branch}
use libtorrent_go.Storage.Transfer.{
  readv, readv_request, read_vectors, read, read_request, read_bytes, give_up,
}
use libtorrent_go.Buffer.{Iovec}
use libtorrent_go.Piece.{Piece, is_buffered}
use libtorrent_go.Storage.Evict.{restore_piece}
use libtorrent_go.Storage.Threads.Place.{
  copying, measuring, telling, by_readv, by_read, is_inside, Access, is_write, served, turned_away,
  Pc, idle, asking,
}
use libtorrent_go.Storage.Threads.Bytes.{or_fault-ok}
use libtorrent_go.Storage.Valid.{IsValid}
use libtorrent_go.Storage.Threads.Lock.{Locks, outside, taken, given_back}
use libtorrent_go.Storage.{Storage, Env}
use libtorrent_go.Storage.Alloc.{get_read_buffer, get_buffer}

module _ (e : Env) (sizer i : ℕ) where
  abbrev ToEnd : Storage → Pc → Storage → Type 0
  ToEnd s p u = Alone e sizer i none s p none u idle

  -- A read request that is answered, with or without the lock, changes nothing.
  request-Alone :
      (a : Access) (piece offset : ℕ) (s u : Storage) (r : Bool × Storage)
      → is_write a ≡ false
      → get_read_buffer e s piece ≡ ok r
      → (r.0 ≡ true → s ≡ r.1 → ToEnd s (served a piece offset) u)
      → (r.0 ≡ false → s ≡ r.1 → ToEnd s (turned_away a piece) u)
      → is_inside (served a piece offset) ≡ false
      → is_inside (turned_away a piece) ≡ false
      → ToEnd s (asking a piece offset) u
  unfolding get_read_buffer get_buffer claim
  request-Alone a piece offset s u r reads ran yes_k no_k out out' =
      let (p, more, at_p) = ended (at s.pieces piece) _ (sym ran) in
      let here = or_fault-ok (get_elem? s.pieces piece) at_p in
      elim (Bool-cases (is_buffered p)) [
        | inl found ↦
            let known =
              ok-injective (then_branch _ (ok (true, s)) (ok (is_buffered p, s)) found more) in
            next (find a piece offset p here found)
              (subst (λ b. Locks i none false b none) (sym out) (outside none))
              (yes_k (ap (λ x. x.0) (sym known)) (ap (λ x. x.1) known))
        | inr missing ↦
            let known =
              ok-injective (else_branch _ (ok (true, s)) (ok (is_buffered p, s)) missing more) in
            let answer : claim e s (is_write a) piece ≡ ok (false, s) =
              rw (reads, here, missing) refl in
            next (miss a piece offset p here missing) (outside none) (
              next (enter a piece offset) taken (
                next (deny a piece offset s answer)
                  (subst (λ b. Locks i (some i) true b none) (sym out') (given_back (some i)))
                  (no_k (ap (λ x. x.0) (sym known) ∙ missing) (ap (λ x. x.1) known))))
      ]

  pub readv-Alone :
      (bufs : List Iovec) (piece offset n : ℕ) (filled : List Iovec) (s u : Storage)
      → IsValid s
      → piece < s.piece_count
      → readv e s bufs piece offset ≡ ok (n, filled, u)
      → ToEnd s idle u
  unfolding readv readv_request
  readv-Alone bufs piece offset n filled s u v below done =
      let begun =
        else_branch (not s.is_initialized) (ok (0, bufs, s)) (readv_request e s bufs piece offset)
          (ap not v.initialized) done in
      let (r, more, ran) = ended (get_read_buffer e s piece) _ (sym begun) in
      let stop = ok (0, bufs, r.1) in
      let go_on = read_vectors e r.1 bufs piece offset in
      next (call (by_readv bufs) piece offset v.initialized below) (outside none) (
        request-Alone (by_readv bufs) piece offset s u r refl ran
          (λ yes_r same.
            subst (λ x. ToEnd x (copying (by_readv bufs) piece offset) u) (sym same)
              (next
                (fetch bufs piece offset u n filled
                  (else_branch (not r.0) stop go_on (ap not yes_r) more))
                (outside none) (halt none u idle)))
          (λ no_r same. halted e sizer i s u (
            same
            ∙ ap (λ x. x.2) (ok-injective (then_branch (not r.0) stop go_on (ap not no_r) more))))
          refl refl)

  -- The early exits of `read`.
  told-Alone :
      (read_buf out : List ℕ) (res : ℤ) (piece : ℕ) (s u : Storage)
      → give_up s piece read_buf ≡ ok (res, out, u)
      → ToEnd s (telling piece) u
  unfolding give_up
  told-Alone read_buf out res piece s u done =
      let (w, last, ran) = ended (restore_piece s (pos piece)) _ (sym done) in
      next (tell piece w ran) (outside none)
        (halted e sizer i w u (ap (λ x. x.2) (ok-injective last)))

  measured-Alone :
      (read_buf out : List ℕ) (res : ℤ) (piece offset : ℕ) (p : Piece) (s u : Storage)
      → get_elem? s.pieces piece ≡ some p
      → (if ltb p.size p.length
          then give_up s piece read_buf
          else read_bytes e s read_buf (pos (length read_buf)) piece p offset)
        ≡ ok (res, out, u)
      → ToEnd s (measuring read_buf piece offset) u
  measured-Alone read_buf out res piece offset p s u here done =
      let gives = give_up s piece read_buf in
      let loads = read_bytes e s read_buf (pos (length read_buf)) piece p offset in
      elim (Bool-cases (ltb p.size p.length)) [
        | inl short ↦
            next (less read_buf piece offset p here short) (outside none)
              (told-Alone read_buf out res piece s u (then_branch _ gives loads short done))
        | inr full ↦ next (whole read_buf piece offset p here full) (outside none) (
            next (load read_buf piece offset p u res out here (else_branch _ gives loads full done))
              (outside none) (halt none u idle))
      ]

  pub read-Alone :
      (read_buf out : List ℕ) (res : ℤ) (piece offset : ℕ) (s u : Storage)
      → IsValid s
      → piece < s.piece_count
      → read e s read_buf (pos (length read_buf)) piece offset ≡ ok (res, out, u)
      → ToEnd s idle u
  unfolding read read_request
  read-Alone read_buf out res piece offset s u v below done =
      let size = pos (length read_buf) in
      let s1 = record s { is_reading = true } in
      let begun =
        else_branch (not s.is_initialized) (ok (pos 0, read_buf, s))
          (read_request e s read_buf size piece offset) (ap not v.initialized) done in
      let (r, more, ran) = ended (get_read_buffer e s1 piece) _ (sym begun) in
      let (p, more', at_p) = ended (at r.1.pieces piece) _ (sym more) in
      let here = or_fault-ok (get_elem? r.1.pieces piece) at_p in
      let gives = give_up r.1 piece read_buf in
      let loads = read_bytes e r.1 read_buf size piece p offset in
      let branch = λ (b : Bool). if not b || ltb p.size p.length then gives else loads in
      next (call (by_read read_buf) piece offset v.initialized below) (outside none) (
        request-Alone (by_read read_buf) piece offset s1 u r refl ran
          (λ yes_r same.
            subst (λ x. ToEnd x (measuring read_buf piece offset) u) (sym same)
              (measured-Alone read_buf out res piece offset p r.1 u here
                (ap branch (sym yes_r) ∙ more')))
          (λ no_r same.
            subst (λ x. ToEnd x (telling piece) u) (sym same)
              (told-Alone read_buf out res piece r.1 u (ap branch (sym no_r) ∙ more')))
          refl refl)
