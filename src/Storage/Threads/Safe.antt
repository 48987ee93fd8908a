-- ===== src/Storage/Threads/Safe.antt =====
-- The threads of memory_storage.hpp and a piece that is reserved at the time of their steps: what they have of
-- it in memory stays, and none of them picks it for removal.
use libtorrent_go.Base.{
  ℕ, ◌<◌, ◌≡◌, refl, sym, ap, ◌∙◌, subst, true, pos, inl, inr, get_elem?, ok, some, ℤ, Bool,
  get_elem?_of_lt, arith,
}
use libtorrent_go.Piece.{Piece, is_buffered}
use libtorrent_go.Storage.{Storage, Env}
use libtorrent_go.Storage.Valid.{IsValid, bit, IsSlot-cases, held_buffer}
use libtorrent_go.Storage.Transfer.Write.{InBuffer, Given-InBuffer}
use libtorrent_go.Storage.Cache.{contents-InBuffer}
use libtorrent_go.Storage.Alloc.Safe.{not_buffered}
use libtorrent_go.Storage.Evict.Chosen.{Chosen}
use libtorrent_go.Storage.Evict.Evictable.{evictable-Holds}
use libtorrent_go.Storage.Threads.Place.{
  Access, by_writev, by_readv, by_read, served, turned_away, is_write, Pc, removing,
}
use libtorrent_go.Storage.Threads.{
  claim, Move, call, find, miss, enter, grant, deny, less, whole, tell, write, fetch, load, stay,
  go, skip, wait, begin, finish, choose, pass, choose_any, pass_any, remove, size, grab, extend,
  update,
}
use libtorrent_go.Storage.Threads.Fit.{IsFit}
use libtorrent_go.Storage.Threads.Kept.{IsSafe, IsHeld}
use libtorrent_go.Storage.Threads.Sections.{claim_lem, unread_lem, oldest_lem}

found_bytes :
    {s : Storage} (piece : ℕ) (x : Piece)
    → IsValid s
    → get_elem? s.pieces piece ≡ some x
    → is_buffered x ≡ true
    → IsHeld s piece
found_bytes {s} piece x v here yes_buffered =
    elim (IsSlot-cases x.bi (v.pieces_ok piece x here).bi_slot) [
      | inl free ↦ absurd (cc (not_buffered x free, yes_buffered))
      | inr (i, at_i) ↦
          let (y, there, _) = held_buffer v piece i here at_i in
          let b : InBuffer s piece = record {
            x = x;
            i = i;
            y = y;
            at_piece = here;
            at_i = at_i;
            at_buffer = there;
          } in
          (y.buffer, contents-InBuffer b)
    ]

claimed_bytes :
    (e : Env) {s u : Storage} (w : Bool) (piece : ℕ)
    → IsValid s
    → piece < s.piece_count
    → claim e s w piece ≡ ok (true, u)
    → IsHeld u piece
claimed_bytes e {s} {u} w piece v below done =
    let (_, outcome) = claim_lem e w piece v below done in
    elim outcome [
      | inl how ↦
          let (p, here) = get_elem?_of_lt s.pieces piece (omega (arith, below, v.piece_total)) in
          let (b, _, _) = Given-InBuffer p how refl v here in (b.y.buffer, contents-InBuffer b)
      | inr (still, p, here, yes_buffered) ↦
          subst (λ x. IsHeld x piece) still (found_bytes piece p v here yes_buffered)
    ]

served-IsSafe :
    (q : ℕ) (s : Storage) (a : Access) (piece offset : ℕ)
    → IsHeld s piece
    → IsSafe q s (served a piece offset)
served-IsSafe q s (by_writev bufs) piece offset h = λ same. subst (IsHeld s) same h
served-IsSafe q s (by_readv bufs) piece offset h = λ same. subst (IsHeld s) same h
served-IsSafe q s (by_read read_buf) piece offset h = λ same. subst (IsHeld s) same h

turned_away-IsSafe :
    (q : ℕ) (s : Storage) (a : Access) (piece : ℕ) → IsSafe q s (turned_away a piece)
turned_away-IsSafe q s (by_writev bufs) piece = tt
turned_away-IsSafe q s (by_readv bufs) piece = tt
turned_away-IsSafe q s (by_read read_buf) piece = tt

-- A buffer that is picked does not hold a reserved piece.
Chosen-IsSafe :
    (s u : Storage) (q : ℕ) (keep bi : ℤ) (piece : ℕ)
    → bit s.reserved_pieces (pos q) ≡ true
    → s.buffers ≡ u.buffers
    → Chosen s keep bi
    → IsSafe q u (removing piece bi)
Chosen-IsSafe s u q keep bi piece marked bufs c = (
  c.p,
  (c.i, c.buf, c.index, ap (λ l. get_elem? l c.i) (sym bufs) ∙ c.at_i, c.held),
  λ own.
      let free = (evictable-Holds s.reserved_pieces keep c.buf c.chosen).unreserved in
      absurd (cc (ap (bit s.reserved_pieces) (c.held ∙ ap pos own), free, marked)),
)

pub Move-IsSafe :
    {e : Env} {sizer i : ℕ} {s u : Storage} {p p' : Pc} (q : ℕ)
    → IsValid s
    → bit s.reserved_pieces (pos q) ≡ true
    → Move e sizer i s p u p'
    → IsFit sizer i s p
    → IsSafe q s p
    → IsSafe q u p'
Move-IsSafe q v marked (call a piece offset started below) fit h = tt
Move-IsSafe {s = s} q v marked (find a piece offset x here yes_buffered) fit h =
    served-IsSafe q s a piece offset (found_bytes piece x v here yes_buffered)
Move-IsSafe q v marked (miss a piece offset x here not_yet) fit h = tt
Move-IsSafe q v marked (enter a piece offset) fit h = tt
Move-IsSafe {e} q v marked (grant a piece offset u done) fit h =
    served-IsSafe q u a piece offset (claimed_bytes e (is_write a) piece v fit done)
Move-IsSafe q v marked (deny a piece offset u done) fit h = turned_away-IsSafe q u a piece
Move-IsSafe q v marked (less read_buf piece offset x here short) fit h = tt
Move-IsSafe q v marked (whole read_buf piece offset x here full) fit h = h
Move-IsSafe q v marked (tell piece u done) fit h = tt
Move-IsSafe q v marked (write bufs piece offset u n done) fit h = tt
Move-IsSafe q v marked (fetch bufs piece offset u n filled done) fit h = tt
Move-IsSafe q v marked (load read_buf piece offset x u r filled here done) fit h = tt
Move-IsSafe q v marked (stay piece below) fit h = tt
Move-IsSafe q v marked (go piece reached) fit h = tt
Move-IsSafe q v marked (skip piece below) fit h = tt
Move-IsSafe q v marked (wait piece reached) fit h = tt
Move-IsSafe q v marked (begin piece) fit h = tt
Move-IsSafe q v marked (finish piece below) fit h = tt
Move-IsSafe {e} {s = s} q v marked (choose piece bi u reached done some_bi) fit h =
    let (_, _, _, bufs, found) = unread_lem e (pos piece) v done in
    Chosen-IsSafe s u q (pos piece) bi piece marked bufs (found some_bi)
Move-IsSafe q v marked (pass piece u reached done) fit h = tt
Move-IsSafe {e} {s = s} q v marked (choose_any piece bi u done some_bi) fit h =
    let (_, _, _, bufs, found) = oldest_lem e (pos piece) v done in
    Chosen-IsSafe s u q (pos piece) bi piece marked bufs (found some_bi)
Move-IsSafe q v marked (pass_any piece u done) fit h = tt
Move-IsSafe q v marked (remove piece bi u done) fit h = tt
Move-IsSafe q v marked (size n own count above) fit h = tt
Move-IsSafe q v marked (grab n) fit h = tt
Move-IsSafe q v marked (extend n u done) fit h = tt
Move-IsSafe q v marked (update r u fits allowed done) fit h = tt
