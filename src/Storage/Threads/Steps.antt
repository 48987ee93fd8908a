-- ===== src/Storage/Threads/Steps.antt =====
-- The steps of the threads of memory_storage.hpp keep the storage valid, and change it in a way that goes
-- with the place where the thread stands.
use libtorrent_go.Storage.Threads.Fit.{IsFit}
use libtorrent_go.Storage.Threads.Sections.{
  claimed, unread_lem, oldest_lem, removal, extension, told, updated,
}
use libtorrent_go.Storage.Threads.Changes.{Change-IsFixed, Change, Quiet, same, touched, quiet}
use libtorrent_go.Base.{
  ℕ, ℤ, true, pos, minus_one, ok-injective, ◌<◌, ◌≡◌, ◌≢◌, refl, sym, ap, ◌∙◌, subst, inl,
  get_elem?, arith, Safe-ok,
}
use libtorrent_go.Storage.{Storage, Env}
use libtorrent_go.Storage.Valid.{IsValid, members-IsValid}
use libtorrent_go.Storage.Evict.Chosen.{Chosen}
use libtorrent_go.Storage.Machine.{perform-Safe}
use libtorrent_go.Storage.Threads.Place.{
  Access, by_writev, by_readv, by_read, served, turned_away, called, Pc, removing, resizing,
  trimming, searching,
}
use libtorrent_go.Storage.Threads.{
  Move, call, find, miss, enter, grant, deny, less, whole, tell, write, fetch, load, stay, go, skip,
  wait, begin, finish, choose, pass, choose_any, pass_any, remove, size, grab, extend, update,
}
use libtorrent_go.Storage.Threads.Bytes.{copied, fetched, loaded}

served-IsFit :
    (sizer i : ℕ) (s : Storage) (a : Access) (piece offset : ℕ)
    → piece < s.piece_count
    → IsFit sizer i s (served a piece offset)
served-IsFit sizer i s (by_writev bufs) piece offset h = h
served-IsFit sizer i s (by_readv bufs) piece offset h = h
served-IsFit sizer i s (by_read read_buf) piece offset h = h

turned_away-IsFit :
    (sizer i : ℕ) (s : Storage) (a : Access) (piece : ℕ)
    → piece < s.piece_count
    → IsFit sizer i s (turned_away a piece)
turned_away-IsFit sizer i s (by_writev bufs) piece h = tt
turned_away-IsFit sizer i s (by_readv bufs) piece h = tt
turned_away-IsFit sizer i s (by_read read_buf) piece h = h

called-Quiet :
    (e : Env) {s : Storage} (a : Access) → IsValid s → IsValid (called a s) × Quiet e s (called a s)
called-Quiet e (by_writev bufs) v = (v, same)
called-Quiet e (by_readv bufs) v = (v, same)
called-Quiet e {s} (by_read read_buf) v = (
  members-IsValid s.m_handle s.t s.is_logging true s.buffer_limit s.buffer_used s.ticks s.calls v
      v.handle v.torrent,
  touched _ (inl (true, s.calls, refl)),
)

called-count : (s : Storage) (a : Access) → (called a s).piece_count ≡ s.piece_count
called-count s (by_writev bufs) = refl
called-count s (by_readv bufs) = refl
called-count s (by_read read_buf) = refl

-- What a step of thread `i` comes to.
abbrev Steps : Env → ℕ → ℕ → Storage → Pc → Storage → Pc → Type 0
Steps e sizer i s p u p' = IsValid u × Change e s p u × IsFit sizer i u p'

-- A step that is of the quiet kind and stays at its piece.
steps_at :
    {e : Env} {s u : Storage} (p : Pc) (piece : ℕ)
    → piece < s.piece_count
    → IsValid u × Quiet e s u
    → IsValid u × Change e s p u × (piece < u.piece_count)
steps_at {e} {s} {u} p piece below (w, m) =
    let c : Change e s p u = quiet p u m in
    (w, c, subst (λ n. piece < n) (sym (Change-IsFixed c).count) below)

Chosen-IsFit :
    {e : Env} (sizer i : ℕ) {s u : Storage} (p : Pc) (keep bi : ℤ) (piece : ℕ)
    → piece < s.piece_count
    → IsValid u
      × Quiet e s u
      × (s.piece_count ≡ u.piece_count)
      × (s.buffers ≡ u.buffers)
      × (bi ≢ minus_one → Chosen s keep bi)
    → bi ≢ minus_one
    → Steps e sizer i s p u (removing piece bi)
Chosen-IsFit sizer i {u = u} p keep bi piece below (w, m, count, bufs, found) some_bi =
    let c = found some_bi in
    (
      w,
      quiet p u m,
      (
        subst (λ n. piece < n) count below,
        c.p,
        (c.i, c.buf, c.index, ap (λ l. get_elem? l c.i) (sym bufs) ∙ c.at_i, c.held),
      ),
    )

-- Every step keeps the storage valid.
pub Move-Steps :
    {e : Env} {sizer i : ℕ} {s u : Storage} {p p' : Pc}
    → IsValid s
    → Move e sizer i s p u p'
    → IsFit sizer i s p
    → Steps e sizer i s p u p'
Move-Steps {e} {s = s} v (call a piece offset started below) h =
    let (w, m) = called-Quiet e a v in
    (w, quiet _ _ m, subst (λ n. piece < n) (sym (called-count s a)) below)
Move-Steps {sizer = sizer} {i = i} {s = s} v (find a piece offset x here yes_buffered) h =
    (v, quiet _ _ same, served-IsFit sizer i s a piece offset h)
Move-Steps v (miss a piece offset x here not_yet) h = (v, quiet _ _ same, h)
Move-Steps v (enter a piece offset) h = (v, quiet _ _ same, h)
Move-Steps {e} {sizer} {i} {u = u} v (grant a piece offset _ done) h =
    let (w, c, below) = claimed e a piece offset v h done in
    (w, c, served-IsFit sizer i u a piece offset below)
Move-Steps {e} {sizer} {i} {u = u} v (deny a piece offset _ done) h =
    let (w, c, below) = claimed e a piece offset v h done in
    (w, c, turned_away-IsFit sizer i u a piece below)
Move-Steps v (less read_buf piece offset x here short) h = (v, quiet _ _ same, h)
Move-Steps v (whole read_buf piece offset x here full) h = (v, quiet _ _ same, h)
Move-Steps {e} v (tell piece u done) h =
    let (w, m) = told e (pos piece) v done in (w, quiet _ _ m, tt)
Move-Steps {e} v (write bufs piece offset u n done) h =
    steps_at _ piece h (copied e bufs piece offset v done)
Move-Steps {e} v (fetch bufs piece offset u n filled done) h =
    let (w, m) = fetched e bufs piece offset v done in (w, quiet _ _ (touched _ m), tt)
Move-Steps {e} v (load read_buf piece offset x u r filled here done) h =
    let (w, m) = loaded e read_buf piece offset x v here done in (w, quiet _ _ (touched _ m), tt)
Move-Steps v (stay piece below) h = (v, quiet _ _ same, tt)
Move-Steps v (go piece reached) h = (v, quiet _ _ same, h)
Move-Steps v (skip piece below) h = (v, quiet _ _ same, tt)
Move-Steps v (wait piece reached) h = (v, quiet _ _ same, h)
Move-Steps v (begin piece) h = (v, quiet _ _ same, h)
Move-Steps v (finish piece below) h = (v, quiet _ _ same, tt)
Move-Steps {e} {sizer} {i} {s} v (choose piece bi u reached done found) h =
    Chosen-IsFit sizer i {s = s} (trimming piece) (pos piece) bi piece h
      (unread_lem e (pos piece) v done) found
Move-Steps {e} v (pass piece u reached done) h =
    let (w, m, _, _, _) = unread_lem e (pos piece) v done in steps_at _ piece h (w, m)
Move-Steps {e} {sizer} {i} {s} v (choose_any piece bi u done found) h =
    Chosen-IsFit sizer i {s = s} (searching piece) (pos piece) bi piece h
      (oldest_lem e (pos piece) v done) found
Move-Steps {e} v (pass_any piece u done) h =
    let (w, m, _, _, _) = oldest_lem e (pos piece) v done in steps_at _ piece h (w, m)
Move-Steps {e} {s = s} v (remove piece bi u done) (below, q, taken) =
    let (u', run, w, c) = removal e piece bi q v taken in
    let end = ok-injective (sym run ∙ done) in
    let c' = subst (Change e s (removing piece bi)) end c in
    (subst IsValid end w, c', subst (λ n. piece < n) (sym (Change-IsFixed c').count) below)
Move-Steps v (size n own count above) h = (v, quiet _ _ same, (own, ground arith, count))
Move-Steps v (grab n) h = (v, quiet _ _ same, h)
Move-Steps {e} {s = s} v (extend n u done) (own, above, count) =
    let (u', run, w, c) = extension e n v above count in
    let end = ok-injective (sym run ∙ done) in
    (subst IsValid end w, subst (Change e s (resizing n)) end c, tt)
Move-Steps {e} v (update r u fits allowed done) h = (
  Safe-ok IsValid (perform-Safe e 0 r v allowed) done,
  quiet _ _ (updated e r v fits allowed done),
  tt,
)
