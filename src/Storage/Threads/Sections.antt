-- ===== src/Storage/Threads/Sections.antt =====
-- What the threads of memory_storage.hpp do under `m_mutex` (the section of `get_buffer`, the searches and the
-- removal of `trim`, and `set_memory_size`), and the calls that are one step.
use libtorrent_go.Storage.Setup.{enlarge, set_torrent_handle, enable_logging, disable_logging}
use libtorrent_go.Storage.Setup.Race.{enlarge_lem}
use libtorrent_go.Base.{
  ℕ, ℤ, Bool, true, false, pos, minus_one, ok, ok-injective, ◌<◌, ◌≡◌, ◌≢◌, refl, sym, ap, ◌∙◌,
  subst, inl, inr, ◌⊎◌, get_elem?, some, min, ◌≤ℤ◌, ◌/◌, ◌+◌, ◌^◌, Result, at, ended,
}
use libtorrent_go.Piece.{Piece, is_buffered}
use libtorrent_go.Storage.{Storage, Env, tick, is_null}
use libtorrent_go.Storage.Valid.{IsValid, held_piece, members-IsValid}
use libtorrent_go.Storage.Alloc.Safe.{Given, get_locked_lem}
use libtorrent_go.Storage.Evict.{remove_piece, restore_piece, find_unread, find_last_buffer}
use libtorrent_go.Storage.Evict.Round.{ticks-IsValid}
use libtorrent_go.Storage.Evict.Safe.{remove_piece-IsValid, restore_piece_lem, evicted}
use libtorrent_go.Storage.Evict.Chosen.{Chosen, find_unread-Chosen, find_last_buffer-Chosen}
use libtorrent_go.Storage.Setup.Safe.{grown-IsValid, grown}
use libtorrent_go.Storage.Setup.Update.{
  update_reader_pieces-IsValid, update_reserved_pieces-IsValid,
}
use libtorrent_go.Storage.Machine.{
  Request, perform, IsAllowed, ask_read, ask_readv, ask_writev, ask_memory, ask_handle, ask_logging,
  ask_no_logging, ask_readers, ask_reserved,
}
use libtorrent_go.Storage.Threads.Place.{Access, is_write, claiming, removing, resizing}
use libtorrent_go.Storage.Threads.{claim, IsUpdate}
use libtorrent_go.Storage.Threads.Changes.{
  Change, Quiet, IsTaken, same, touched, delayed, handled, logged, wanted, marked, quiet, asked,
  removed, grows, Change-IsFixed,
}
use libtorrent_go.Storage.Threads.Bytes.{or_fault-ok}

-- What `get_buffer` does under the lock: for a write, as the section says, and for a read nothing.
pub claim_lem :
    (e : Env) {s u : Storage} (w : Bool) (piece : ℕ) {r : Bool}
    → IsValid s
    → piece < s.piece_count
    → claim e s w piece ≡ ok (r, u)
    → IsValid u
      × (Given e s piece r u
          ⊎ ((s ≡ u) × (p : Piece) × (get_elem? s.pieces piece ≡ some p) × (is_buffered p ≡ r)))
unfolding claim
claim_lem e {s} {u} true piece {r} v below done =
    let (r', u', ran, how, w) = get_locked_lem e piece v below in
    let end = ok-injective (sym ran ∙ done) in
    (subst IsValid (ap (λ x. x.1) end) w, inl (subst (λ x. Given e s piece x.0 x.1) end how))
claim_lem e {s} {u} false piece {r} v below done =
    let (p, more, at_p) = ended (at s.pieces piece) _ (sym done) in
    let end = ok-injective more in
    let still = ap (λ x. x.1) end in
    (
      subst IsValid still v,
      inr (still, p, or_fault-ok (get_elem? s.pieces piece) at_p, ap (λ x. x.0) end),
    )

pub claimed :
    (e : Env) {s u : Storage} (a : Access) (piece offset : ℕ) {r : Bool}
    → IsValid s
    → piece < s.piece_count
    → claim e s (is_write a) piece ≡ ok (r, u)
    → IsValid u × Change e s (claiming a piece offset) u × (piece < u.piece_count)
claimed e {s} {u} a piece offset {r} v below done =
    let (w, outcome) = claim_lem e (is_write a) piece v below done in
    elim outcome [
      | inl how ↦
          let c : Change e s (claiming a piece offset) u = asked a piece offset r u how in
          (w, c, subst (λ n. piece < n) (sym (Change-IsFixed c).count) below)
      | inr (still, _, _, _) ↦ (
        w,
        quiet (claiming a piece offset) u (subst (Quiet e s) still same),
        subst (λ x. piece < x.piece_count) still below,
      )
    ]

-- A search changes only the clock, and what it answers, if anything, is a buffer that may go.
chosen_lem :
    (e : Env) {s u : Storage} (keep : ℤ) {bi : ℤ} (m : Result (ℤ × Storage))
    → IsValid s
    → (r : ℤ) × (m ≡ ok (r, tick s)) × ((r ≡ minus_one) ⊎ Chosen s keep r)
    → m ≡ ok (bi, u)
    → IsValid u
      × Quiet e s u
      × (s.piece_count ≡ u.piece_count)
      × (s.buffers ≡ u.buffers)
      × (bi ≢ minus_one → Chosen s keep bi)
chosen_lem e {s} {u} keep {bi} m v (r, q, outcome) done =
    let end = ok-injective (sym q ∙ done) in
    let still : tick s ≡ u = ap (λ x. x.1) end in
    (
      subst IsValid still (ticks-IsValid (s.ticks + 1) v),
      subst (Quiet e s) still (delayed (s.ticks + 1)),
      ap (λ w. w.piece_count) still,
      ap (λ w. w.buffers) still,
      λ found. elim outcome [
        | inl none_found ↦ absurd (found (sym (ap (λ x. x.0) end) ∙ none_found))
        | inr c ↦ subst (Chosen s keep) (ap (λ x. x.0) end) c
      ],
    )

pub unread_lem :
    (e : Env) {s u : Storage} (keep : ℤ) {bi : ℤ}
    → IsValid s
    → find_unread e s keep ≡ ok (bi, u)
    → IsValid u
      × Quiet e s u
      × (s.piece_count ≡ u.piece_count)
      × (s.buffers ≡ u.buffers)
      × (bi ≢ minus_one → Chosen s keep bi)
unread_lem e {s} keep v done =
    chosen_lem e keep (find_unread e s keep) v (find_unread-Chosen e keep v) done

pub oldest_lem :
    (e : Env) {s u : Storage} (keep : ℤ) {bi : ℤ}
    → IsValid s
    → find_last_buffer e s keep false ≡ ok (bi, u)
    → IsValid u
      × Quiet e s u
      × (s.piece_count ≡ u.piece_count)
      × (s.buffers ≡ u.buffers)
      × (bi ≢ minus_one → Chosen s keep bi)
oldest_lem e {s} keep v done =
    chosen_lem e keep (find_last_buffer e s keep false) v (find_last_buffer-Chosen e keep v false)
      done

-- The removal of a piece from its buffer.
pub removal :
    (e : Env) {s : Storage} (piece : ℕ) (bi : ℤ) (p : ℕ)
    → IsValid s
    → IsTaken s.buffers bi p
    → (u : Storage) × (remove_piece e s bi ≡ ok u) × IsValid u × Change e s (removing piece bi) u
removal e {s} piece bi p v (i, y, at_bi, there, holds) =
    let (x, at_p, _) = held_piece v i p there holds in
    let (calls, run, w) = remove_piece-IsValid e v i p there at_p holds in
    (
      evicted e s i y p x calls,
      ap (remove_piece e s) at_bi ∙ run,
      w,
      subst (λ z. Change e s (removing piece z) (evicted e s i y p x calls)) (sym at_bi)
          (removed piece i p y x calls there at_p holds),
    )

-- `set_memory_size` under the lock, where the capacity is still below the new size.
pub extension :
    (e : Env) {s : Storage} (n : ℕ)
    → IsValid s
    → s.capacity ≤ℤ pos n
    → n / s.piece_length + 2 < 2 ^ 31
    → (u : Storage) × (enlarge s (pos n) ≡ ok u) × IsValid u × Change e s (resizing n) u
extension e {s} n v above count =
    let k = min (n / s.piece_length + 2) s.piece_count in
    (grown s n k, enlarge_lem n v count, (grown-IsValid n v above).0, grows n k)

pub told :
    (e : Env) {s u : Storage} (pi : ℤ)
    → IsValid s
    → restore_piece s pi ≡ ok u
    → IsValid u × Quiet e s u
told e {s} pi v done =
    let (calls, run) = restore_piece_lem pi v in
    let end = ok-injective (sym run ∙ done) in
    (
      subst IsValid end (
          members-IsValid s.m_handle s.t s.is_logging s.is_reading s.buffer_limit s.buffer_used
            s.ticks calls v v.handle v.torrent),
      subst (Quiet e s) end (touched _ (inl (s.is_reading, calls, refl))),
    )

-- The calls that are one step.
pub updated :
    (e : Env) {s u : Storage} (r : Request)
    → IsValid s
    → IsUpdate r
    → IsAllowed s r
    → perform e 0 s r ≡ ok u
    → Quiet e s u
unfolding perform set_torrent_handle is_null enable_logging disable_logging
updated e (ask_read read_buf piece offset) v h allowed done = absurd h
updated e (ask_readv bufs piece offset) v h allowed done = absurd h
updated e (ask_writev bufs piece offset) v h allowed done = absurd h
updated e (ask_memory n) v h allowed done = absurd h
updated e {s} (ask_handle native) v h allowed done =
    subst (Quiet e s) (ok-injective done) (handled native)
updated e {s} ask_logging v h allowed done = subst (Quiet e s) (ok-injective done) (logged true)
updated e {s} ask_no_logging v h allowed done = subst (Quiet e s) (ok-injective done) (logged false)
updated e {s} (ask_readers is) v h allowed done =
    let (bits, run, _, _) = update_reader_pieces-IsValid is v allowed in
    subst (Quiet e s) (ok-injective (sym run ∙ done)) (wanted bits)
updated e {s} (ask_reserved is) v h allowed done =
    let (bits, run, _, _) = update_reserved_pieces-IsValid is v allowed in
    subst (Quiet e s) (ok-injective (sym run ∙ done)) (marked bits _)
