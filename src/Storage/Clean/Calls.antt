-- ===== src/Storage/Clean/Calls.antt =====
-- Every call of memory_storage.hpp leaves zero bytes in the buffers that are not in use.
use libtorrent_go.Base.{
  ℕ, ◌+◌, ◌^◌, ◌≤◌, ◌<◌, ◌≡◌, sym, ap, ◌∙◌, subst, some, List, pos, get_elem?, inl, inr, ok,
  ok-injective, Safe, Safe-ok, Safe-bind, Safe-mono, ◌>>=◌, Bool-cases, leb_ℤ,
}
use libtorrent_go.Piece.{Piece}
use libtorrent_go.Buffer.{Iovec, byte_total}
use libtorrent_go.Storage.{Storage, Env, is_null}
use libtorrent_go.Storage.Valid.{IsValid}
use libtorrent_go.Storage.Evict.{trim}
use libtorrent_go.Storage.Evict.Kept.{trim_inv}
use libtorrent_go.Storage.Setup.{set_torrent_handle, enable_logging, disable_logging}
use libtorrent_go.Storage.Setup.Safe.{set_memory_size_lem}
use libtorrent_go.Storage.Setup.Update.{
  update_reader_pieces-IsValid, update_reserved_pieces-IsValid,
}
use libtorrent_go.Storage.Transfer.{trim_after, writev}
use libtorrent_go.Storage.Transfer.Parts.{writev-parts}
use libtorrent_go.Storage.Transfer.Read.{read-answers}
use libtorrent_go.Storage.Transfer.ReadVectors.{readv-answers}
use libtorrent_go.Storage.Machine.{
  Request, perform, IsAllowed, ask_read, ask_readv, ask_writev, ask_memory, ask_handle, ask_logging,
  ask_no_logging, ask_readers, ask_reserved,
}
use libtorrent_go.Storage.Clean.{
  IsClean, Given-IsClean, Stored-IsClean, Evicts-IsClean, ReadStep-IsClean, grown-IsClean,
}

trim_after-IsClean :
    (e : Env) (fuel piece : ℕ) {s : Storage}
    → IsValid s
    → IsClean s
    → Safe IsClean (trim_after e fuel s piece)
unfolding trim_after
trim_after-IsClean e fuel piece {s} v h = elim (Bool-cases (leb_ℤ s.buffer_limit s.buffer_used)) [
  | inl reached ↦ rw reached (
      Safe-mono _ IsClean (trim e fuel s (pos piece))
        (trim_inv e (pos piece) IsClean (λ a w x k m full. Evicts-IsClean m k) (λ a k later x. x)
          fuel v h)
        (λ w k. k.1))
  | inr below ↦ rw below h
]

writev-IsClean :
    (e : Env) (fuel : ℕ) {s : Storage} (bufs : List Iovec) (piece offset : ℕ) {p : Piece}
    → IsValid s
    → get_elem? s.pieces piece ≡ some p
    → offset + byte_total bufs ≤ p.length
    → p.size + byte_total bufs < 2 ^ 31
    → IsClean s
    → Safe (λ r. IsClean r.1) (writev e fuel s bufs piece offset)
writev-IsClean e fuel {s} bufs piece offset v here fits sum h =
    let Clean : ℕ × Storage → Type 0 = λ r. IsClean r.1 in
    elim (writev-parts e bufs piece offset v here fits sum) [
      | inl x ↦ subst (Safe Clean) (sym (x.run fuel)) (Given-IsClean x.how h)
      | inr x ↦ subst (Safe Clean) (sym (x.run fuel)) (
          Safe-bind _ Clean (trim_after e fuel x.copied piece) _
            (trim_after-IsClean e fuel piece x.valid
              (Stored-IsClean e x.place x.asked_valid x.stored (Given-IsClean x.how h)))
            (λ w k. k))
    ]

pub perform-IsClean :
    (e : Env) (fuel : ℕ) {s u : Storage} (r : Request)
    → IsValid s
    → IsAllowed s r
    → perform e fuel s r ≡ ok u
    → IsClean s
    → IsClean u
unfolding perform set_torrent_handle is_null enable_logging disable_logging
perform-IsClean e fuel {s} (ask_read read_buf piece offset) v (h, start) done k =
    let (r, out, w, run, answer, _, step) = read-answers e piece offset read_buf v h start in
    let same = ok-injective (sym (ap (λ m. m >>= λ r. ok r.2) run) ∙ done) in
    subst IsClean same (ReadStep-IsClean e s w step k)
perform-IsClean e fuel {s} (ask_readv bufs piece offset) v (h, fits) done k =
    let (n, filled, w, run, answer, _, step) = readv-answers e bufs piece offset v h fits in
    let same = ok-injective (sym (ap (λ m. m >>= λ r. ok r.2) run) ∙ done) in
    subst IsClean same (ReadStep-IsClean e s w step k)
perform-IsClean e fuel {s} (ask_writev bufs piece offset) v (p, here, fits, sum) done k =
    Safe-ok IsClean
      (Safe-bind _ IsClean (writev e fuel s bufs piece offset) _
        (writev-IsClean e fuel bufs piece offset v here fits sum k) (λ r w. w))
      done
perform-IsClean e fuel {s} (ask_memory n) v count done k = elim (set_memory_size_lem n v count) [
  | inl same ↦ subst IsClean (ok-injective (sym same ∙ done)) k
  | inr (above, run) ↦ subst IsClean (ok-injective (sym run ∙ done)) (grown-IsClean s n _ k)
]
perform-IsClean e fuel (ask_handle native) v h done k = subst IsClean (ok-injective done) k
perform-IsClean e fuel ask_logging v h done k = subst IsClean (ok-injective done) k
perform-IsClean e fuel ask_no_logging v h done k = subst IsClean (ok-injective done) k
perform-IsClean e fuel (ask_readers is) v h done k =
    let (bits, run, w, _) = update_reader_pieces-IsValid is v h in
    subst IsClean (ok-injective (sym run ∙ done)) k
perform-IsClean e fuel (ask_reserved is) v h done k =
    let (bits, run, w, _) = update_reserved_pieces-IsValid is v h in
    subst IsClean (ok-injective (sym run ∙ done)) k
