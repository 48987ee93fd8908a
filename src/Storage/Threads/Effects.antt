-- ===== src/Storage/Threads/Effects.antt =====
-- What the steps of the threads of memory_storage.hpp do to the bytes that are in memory.
use libtorrent_go.Base.{
  fault, ended, at, arith, Bool, ℕ, ℤ, ◌≡◌, ◌≢◌, ◌<◌, ◌⊎◌, refl, sym, ap, ◌∙◌, none, some, List,
  pos_part, get_elem?-set_self, get_elem?-lt, inl, inr, ok, Result, ok-injective, true,
}
use libtorrent_go.Buffer.{Iovec}
use libtorrent_go.Buffer.Copy.{Overlaid}
use libtorrent_go.Storage.{tick, Storage, Env}
use libtorrent_go.Storage.Machine.{
  Request, perform, IsAllowed, ask_writev, ask_handle, ask_logging, ask_no_logging, ask_readers,
  ask_reserved, ask_read, ask_readv, ask_memory,
}
use libtorrent_go.Storage.Cache.Calls.{perform-refines}
use libtorrent_go.Storage.Threads.Place.{
  Access, by_writev, by_readv, by_read, is_write, called, idle, asking, locking, claiming,
  measuring, telling, copying, testing, checking, waiting, trimming, searching, removing, sizing,
  resizing, Pc,
}
use libtorrent_go.Storage.Threads.{claim, IsUpdate}
use libtorrent_go.Storage.Threads.Sections.{claim_lem}
use libtorrent_go.Storage.Threads.Kept.{held_or_free}
use libtorrent_go.Storage.Transfer.{write_bytes}
use libtorrent_go.Storage.Transfer.Write.{write_bytes_lem}
use libtorrent_go.Storage.Evict.{remove_piece}
use libtorrent_go.Storage.Evict.Safe.{remove_piece-IsValid, evicted}
use libtorrent_go.Storage.Valid.{held_piece, IsValid}
use libtorrent_go.Storage.Threads.Changes.{IsTaken}
use libtorrent_go.Piece.{reset_piece}
use libtorrent_go.Storage.Alloc.Safe.{Given, held, given, refused_by_reader, full}
use libtorrent_go.Storage.Cache.{
  Contents, contents, contents-InBuffer, contents-free, contents-apart, Given-contents,
  Stored-contents,
}
use libtorrent_go.Storage.Cache.Refines.{IsSame, Stored-piece}
use libtorrent_go.Storage.Clean.{IsClean, zeros, Given-zeros}

-- All pieces but one are as before.
abbrev pub IsElse : ℕ → Contents → Contents → Type 0
IsElse q c c' = (p : ℕ) → q ≢ p → c' p ≡ c p

-- What a step does to the cache, by the place at which the thread stood: the copy of `writev` puts
-- its bytes into its piece, the section of `get_buffer` may bring the piece of a `writev` into memory, with
-- zero bytes, the removal of `trim` loses the piece of its buffer, and no other step changes any bytes.
abbrev pub MoveEffect : Storage → Pc → Contents → Type 0
MoveEffect s (copying (by_writev bufs) piece offset) c' =
    (before : List ℕ) × (after : List ℕ) × (contents s piece ≡ some before)
    × Overlaid before offset bufs after
    × (c' piece ≡ some after)
    × IsElse piece (contents s) c'
MoveEffect s (claiming (by_writev bufs) piece offset) c' =
    IsSame (contents s) c'
    ⊎ ((contents s piece ≡ none)
        × (c' piece ≡ some (zeros s.piece_length))
        × IsElse piece (contents s) c')
MoveEffect s (removing piece bi) c' =
    (p : ℕ) × IsTaken s.buffers bi p × (c' p ≡ none) × IsElse p (contents s) c'
MoveEffect s (copying (by_readv bufs) piece offset) c' = IsSame (contents s) c'
MoveEffect s (copying (by_read read_buf) piece offset) c' = IsSame (contents s) c'
MoveEffect s (claiming (by_readv bufs) piece offset) c' = IsSame (contents s) c'
MoveEffect s (claiming (by_read read_buf) piece offset) c' = IsSame (contents s) c'
MoveEffect s idle c' = IsSame (contents s) c'
MoveEffect s (asking a piece offset) c' = IsSame (contents s) c'
MoveEffect s (locking a piece offset) c' = IsSame (contents s) c'
MoveEffect s (measuring read_buf piece offset) c' = IsSame (contents s) c'
MoveEffect s (telling piece) c' = IsSame (contents s) c'
MoveEffect s (testing piece) c' = IsSame (contents s) c'
MoveEffect s (checking piece) c' = IsSame (contents s) c'
MoveEffect s (waiting piece) c' = IsSame (contents s) c'
MoveEffect s (trimming piece) c' = IsSame (contents s) c'
MoveEffect s (searching piece) c' = IsSame (contents s) c'
MoveEffect s (sizing n) c' = IsSame (contents s) c'
MoveEffect s (resizing n) c' = IsSame (contents s) c'

pub IsSame-end : {s u : Storage} → s ≡ u → IsSame (contents s) (contents u)
IsSame-end still q = ap (λ w. contents w q) (sym still)

Given-effect :
    {e : Env} {s : Storage} {piece : ℕ} {r : Bool} {u : Storage}
    → IsValid s
    → IsClean s
    → Given e s piece r u
    → IsSame (contents s) (contents u)
      ⊎ ((contents s piece ≡ none)
          × (contents u piece ≡ some (zeros s.piece_length))
          × IsElse piece (contents s) (contents u))
Given-effect v h (held p i at_p at_i) = inl (λ q. refl)
Given-effect v h (refused_by_reader calls reading) = inl (λ q. refl)
Given-effect v h (full all) = inl (λ q. refl)
Given-effect {s = s} {piece = piece} v h (given p i b at_p unbuffered there free before) =
    let missing = contents-free s piece p at_p unbuffered in
    let how = given p i b at_p unbuffered there free before in
    inr (missing, Given-zeros how refl v h missing, λ q apart. Given-contents v q how apart)

-- The section of `get_buffer`.
pub claim-effect :
    (e : Env) {s u : Storage} (a : Access) (piece offset : ℕ) {r : Bool}
    → IsValid s
    → IsClean s
    → piece < s.piece_count
    → claim e s (is_write a) piece ≡ ok (r, u)
    → MoveEffect s (claiming a piece offset) (contents u)
unfolding claim
claim-effect e (by_writev bufs) piece offset v h below done =
    elim (claim_lem e true piece v below done).1 [
      | inl how ↦ Given-effect v h how
      | inr (still, _, _, _) ↦ inl (IsSame-end still)
    ]
claim-effect e {s} (by_readv bufs) piece offset v h below done =
    let (p, more, _) = ended (at s.pieces piece) _ (sym done) in
    IsSame-end (ap (λ x. x.1) (ok-injective more))
claim-effect e {s} (by_read read_buf) piece offset v h below done =
    let (p, more, _) = ended (at s.pieces piece) _ (sym done) in
    IsSame-end (ap (λ x. x.1) (ok-injective more))

-- The copy of `writev`, which ends only where the piece has a buffer.
pub write-effect :
    (e : Env) {s u : Storage} (bufs : List Iovec) (piece offset : ℕ) {n : ℕ}
    → IsValid s
    → IsAllowed s (ask_writev bufs piece offset)
    → write_bytes e s bufs piece offset ≡ ok (n, u)
    → MoveEffect s (copying (by_writev bufs) piece offset) (contents u)
unfolding write_bytes
write-effect e {s} {u} bufs piece offset v (p, here, fits, sum) done =
    elim (held_or_free ⊥ piece p v here (λ no. absurd no)) [
      | inl (b, its) ↦
          let (w, run, _, _, _, (st, over)) =
            write_bytes_lem e v piece b bufs offset v.small
              (omega (arith, fits, ap (λ x. x.length) its))
              (omega (arith, sum, ap (λ x. x.size) its)) in
          let end : w ≡ u = ap (λ r. r.1) (ok-injective (sym run ∙ done)) in
          (
            b.y.buffer,
            st.0,
            contents-InBuffer b,
            over,
            ap (λ x. contents x piece) (sym end) ∙ Stored-piece e b st,
            λ q apart. ap (λ x. contents x q) (sym end) ∙ Stored-contents v e q b st apart,
          )
      | inr (free, _) ↦
          let broken : write_bytes e s bufs piece offset ≡ fault = rw (here, free) refl in
          absurd (cc (broken, done))
    ]

-- A search changes only the clock.
pub search-effect :
    (s : Storage) {u : Storage} {bi : ℤ} (m : Result (ℤ × Storage)) {r : ℤ}
    → m ≡ ok (r, tick s)
    → m ≡ ok (bi, u)
    → IsSame (contents s) (contents u)
search-effect s m q done p = ap (λ x. contents x.1 p) (ok-injective (sym done ∙ q))

pub remove-effect :
    (e : Env) {s u : Storage} (piece : ℕ) (bi : ℤ) (p : ℕ)
    → IsValid s
    → IsTaken s.buffers bi p
    → remove_piece e s bi ≡ ok u
    → MoveEffect s (removing piece bi) (contents u)
unfolding reset_piece
remove-effect e {s} {u} piece bi p v (i, y, at_bi, there, holds) done =
    let (x, at_p, _) = held_piece v i p there holds in
    let (calls, run, _) = remove_piece-IsValid e v i p there at_p holds in
    let w = evicted e s i y p x calls in
    let end : w ≡ u = ok-injective (sym (ap (remove_piece e s) at_bi ∙ run) ∙ done) in
    (
      p,
      (i, y, at_bi, there, holds),
      ap (λ x. contents x p) (sym end)
          ∙ contents-free w p (reset_piece x)
              (get_elem?-set_self s.pieces p (reset_piece x) (get_elem?-lt s.pieces p at_p)) refl,
      λ q apart.
          ap (λ x. contents x q) (sym end)
          ∙ contents-apart v w p i q _ _ apart there (λ own. apart (ap pos_part (sym holds ∙ own)))
              refl refl,
    )

pub called-effect : (s : Storage) (a : Access) → IsSame (contents s) (contents (called a s))
called-effect s (by_writev bufs) q = refl
called-effect s (by_readv bufs) q = refl
called-effect s (by_read read_buf) q = refl

pub update-effect :
    (e : Env) {s u : Storage} (r : Request)
    → IsValid s
    → IsUpdate r
    → IsAllowed s r
    → perform e 0 s r ≡ ok u
    → IsSame (contents s) (contents u)
update-effect e (ask_read read_buf piece offset) v h allowed done = absurd h
update-effect e (ask_readv bufs piece offset) v h allowed done = absurd h
update-effect e (ask_writev bufs piece offset) v h allowed done = absurd h
update-effect e (ask_memory n) v h allowed done = absurd h
update-effect e (ask_handle native) v h allowed done =
    perform-refines e 0 (ask_handle native) v allowed done
update-effect e ask_logging v h allowed done = perform-refines e 0 ask_logging v allowed done
update-effect e ask_no_logging v h allowed done = perform-refines e 0 ask_no_logging v allowed done
update-effect e (ask_readers is) v h allowed done =
    perform-refines e 0 (ask_readers is) v allowed done
update-effect e (ask_reserved is) v h allowed done =
    perform-refines e 0 (ask_reserved is) v allowed done
