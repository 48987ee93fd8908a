-- ===== src/Storage/Cache/Calls.antt =====
-- Every call of memory_storage.hpp on the cache: only a write changes bytes, and it loses no reserved piece.
use libtorrent_go.Base.{
  ℕ, zero, suc, ◌-◌, ◌≡◌, refl, sym, ap, ◌∙◌, Bool, some, List, [], ◌∷◌, ◌++◌, ℤ, pos, ◌+ℤ◌, length,
  get_elem?, inl, inr, ok, ok-injective, Safe-ok, Safe-bind, ◌>>=◌, Option-cases,
}
use libtorrent_go.Buffer.{Buffer, new_buffer}
use libtorrent_go.Storage.{Storage, Env, is_null}
use libtorrent_go.Storage.Valid.{IsValid, IsSlot-cases, held_buffer}
use libtorrent_go.Storage.Setup.{push_buffers, set_torrent_handle, enable_logging, disable_logging}
use libtorrent_go.Storage.Setup.Safe.{grown, set_memory_size_lem}
use libtorrent_go.Storage.Setup.Update.{
  update_reader_pieces-IsValid, update_reserved_pieces-IsValid,
}
use libtorrent_go.Storage.Transfer.{writev}
use libtorrent_go.Storage.Transfer.Read.{read-answers}
use libtorrent_go.Storage.Transfer.ReadVectors.{readv-answers}
use libtorrent_go.Storage.Cache.{Contents, contents, ReadStep-contents}
use libtorrent_go.Storage.Cache.Refines.{IsSame, WriteEffect, writev-refines}
use libtorrent_go.Storage.Machine.{
  Request, perform, IsAllowed, ask_read, ask_readv, ask_writev, ask_memory, ask_handle, ask_logging,
  ask_no_logging, ask_readers, ask_reserved,
}

-- What a call does to the cache, where `bits` are the reserved pieces.
abbrev pub Effect : List Bool → Request → Contents → Contents → Type 0
Effect bits (ask_read read_buf piece offset) c c' = IsSame c c'
Effect bits (ask_readv bufs piece offset) c c' = IsSame c c'
Effect bits (ask_writev bufs piece offset) c c' =
    (n : ℕ) × WriteEffect bits piece offset bufs n c c'
Effect bits (ask_memory n) c c' = IsSame c c'
Effect bits (ask_handle native) c c' = IsSame c c'
Effect bits ask_logging c c' = IsSame c c'
Effect bits ask_no_logging c c' = IsSame c c'
Effect bits (ask_readers is) c c' = IsSame c c'
Effect bits (ask_reserved is) c c' = IsSame c c'

get_elem?-append_left :
    (bs : List Buffer) (c : Buffer) (i : ℕ) {b : Buffer}
    → get_elem? bs i ≡ some b
    → get_elem? (bs ++ c ∷ []) i ≡ some b
get_elem?-append_left [] c i h = cc
get_elem?-append_left (x ∷ bs) c zero h = h
get_elem?-append_left (x ∷ bs) c (suc i) h = get_elem?-append_left bs c i h

get_elem?-push_buffers :
    (n rounds : ℕ) (first : ℤ) (bs : List Buffer) (i : ℕ) {b : Buffer}
    → get_elem? bs i ≡ some b
    → get_elem? (push_buffers n rounds first bs) i ≡ some b
unfolding push_buffers
get_elem?-push_buffers n zero first bs i h = h
get_elem?-push_buffers n (suc rounds) first bs i h =
    get_elem?-push_buffers n rounds (first +ℤ pos 1) (bs ++ new_buffer first n ∷ []) i
      (get_elem?-append_left bs (new_buffer first n) i h)

-- New buffers hold nothing.
pub grown-IsSame :
    {s : Storage} (memory n : ℕ) → IsValid s → IsSame (contents s) (contents (grown s memory n))
unfolding grown
grown-IsSame {s} memory n v q = elim (Option-cases (get_elem? s.pieces q)) [
  | inl missing ↦ rw missing refl
  | inr (z, here) ↦ elim (IsSlot-cases z.bi (v.pieces_ok q z here).bi_slot) [
    | inl free ↦ rw (here, free) refl
    | inr (j, at_j) ↦
        let (c, at_c, _) = held_buffer v q j here at_j in
        rw
          (
            here,
            at_j,
            at_c,
            get_elem?-push_buffers s.piece_length (n - length s.buffers) (pos (length s.buffers))
                s.buffers j at_c,
          )
          refl
  ]
]

pub perform-refines :
    (e : Env) (fuel : ℕ) {s u : Storage} (r : Request)
    → IsValid s
    → IsAllowed s r
    → perform e fuel s r ≡ ok u
    → Effect s.reserved_pieces r (contents s) (contents u)
unfolding perform set_torrent_handle is_null enable_logging disable_logging
perform-refines e fuel (ask_read read_buf piece offset) v (h, start) done = λ q.
    let (r, out, w, run, answer, _, step) = read-answers e piece offset read_buf v h start in
    let same = ok-injective (sym (ap (λ m. m >>= λ r. ok r.2) run) ∙ done) in
    ap (λ w. contents w q) (sym same) ∙ ReadStep-contents v e q step
perform-refines e fuel (ask_readv bufs piece offset) v (h, fits) done = λ q.
    let (n, filled, w, run, answer, _, step) = readv-answers e bufs piece offset v h fits in
    let same = ok-injective (sym (ap (λ m. m >>= λ r. ok r.2) run) ∙ done) in
    ap (λ w. contents w q) (sym same) ∙ ReadStep-contents v e q step
perform-refines e fuel {s} (ask_writev bufs piece offset) v (p, here, fits, sum) done =
    let Effected : Storage → Type 0 =
      λ w. Effect s.reserved_pieces (ask_writev bufs piece offset) (contents s) (contents w) in
    Safe-ok Effected
      (Safe-bind _ Effected (writev e fuel s bufs piece offset) _
        (writev-refines e fuel bufs piece offset v here fits sum) (λ r w. (r.0, w)))
      done
perform-refines e fuel {s} (ask_memory n) v count done = λ q. elim (set_memory_size_lem n v count) [
  | inl same ↦ ap (λ w. contents w q) (ok-injective (sym done ∙ same))
  | inr (above, run) ↦ ap (λ w. contents w q) (ok-injective (sym done ∙ run)) ∙ grown-IsSame n _ v q
]
perform-refines e fuel (ask_handle native) v h done =
    λ q. ap (λ w. contents w q) (sym (ok-injective done))
perform-refines e fuel ask_logging v h done = λ q. ap (λ w. contents w q) (sym (ok-injective done))
perform-refines e fuel ask_no_logging v h done =
    λ q. ap (λ w. contents w q) (sym (ok-injective done))
perform-refines e fuel (ask_readers is) v h done = λ q.
    let (bits, run, w, _) = update_reader_pieces-IsValid is v h in
    ap (λ w. contents w q) (ok-injective (sym done ∙ run))
perform-refines e fuel (ask_reserved is) v h done = λ q.
    let (bits, run, w, _) = update_reserved_pieces-IsValid is v h in
    ap (λ w. contents w q) (ok-injective (sym done ∙ run))
