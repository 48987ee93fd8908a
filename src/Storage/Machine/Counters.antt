-- ===== src/Storage/Machine/Counters.antt =====
-- The counters `buffer_limit` and `buffer_used` of memory_storage.hpp, which are of type `int` there and
-- integers of any size here: how far calls move them.
use libtorrent_go.Base.{
  Safe-and, min, ℕ, suc, ◌≡◌, sym, ap, ◌∙◌, subst, true, pos, negsuc, inl, inr, ok, ok-injective,
  Safe, Safe-ok, Safe-bind, ◌>>=◌, ◌+◌, ◌^◌, ◌<◌, ◌≤ℤ◌, ◌<ℤ◌, arith, ◌/◌, ◌-◌,
}
use libtorrent_go.Storage.Setup.{
  fresh, construct, set_torrent_handle, enable_logging, disable_logging,
}
use libtorrent_go.Storage.{Storage, Env, is_null, TorrentInfo, Pointer, object}
use libtorrent_go.Storage.Valid.{IsValid, determined}
use libtorrent_go.Storage.Setup.Safe.{
  grown, set_memory_size_lem, IsInfo, construct-started, started,
}
use libtorrent_go.Storage.Setup.Update.{
  update_reader_pieces-IsValid, update_reserved_pieces-IsValid,
}
use libtorrent_go.Storage.Transfer.{writev}
use libtorrent_go.Storage.Transfer.Read.{read-answers}
use libtorrent_go.Storage.Transfer.ReadVectors.{readv-answers}
use libtorrent_go.Storage.Machine.{
  Request, perform, IsAllowed, ask_read, ask_readv, ask_writev, ask_memory, ask_handle, ask_logging,
  ask_no_logging, ask_readers, ask_reserved, Reaches, here, after, perform-Safe, construct-Reaches,
  Reaches-IsValid,
}
use libtorrent_go.Storage.Machine.Counting.{
  Counting, next_call-IsCounting, ReadStep-Counting, writev-Counting,
}

grown-Counting :
    (s : Storage) (memory k : ℕ) (n : ℕ) → n < 2 ^ 31 → Counting k s → Counting k (grown s memory n)
unfolding grown
grown-Counting s memory k n small h = record {
  limit_low = omega arith;
  limit_high = omega (arith, small);
  used_low = h.used_low;
  used_high = h.used_high;
}

perform-Counting :
    (e : Env) (fuel k : ℕ) {s u : Storage} (r : Request)
    → IsValid s
    → IsAllowed s r
    → perform e fuel s r ≡ ok u
    → Counting k s
    → Counting (suc k) u
unfolding perform set_torrent_handle is_null enable_logging disable_logging
perform-Counting e fuel k {s} (ask_read read_buf piece offset) v (h, start) done c =
    let (r, out, w, run, answer, _, step) = read-answers e piece offset read_buf v h start in
    let end = ok-injective (sym (ap (λ m. m >>= λ r. ok r.2) run) ∙ done) in
    next_call-IsCounting (subst (Counting k) end (ReadStep-Counting e k s w step c))
perform-Counting e fuel k {s} (ask_readv bufs piece offset) v (h, fits) done c =
    let (n, filled, w, run, answer, _, step) = readv-answers e bufs piece offset v h fits in
    let end = ok-injective (sym (ap (λ m. m >>= λ r. ok r.2) run) ∙ done) in
    next_call-IsCounting (subst (Counting k) end (ReadStep-Counting e k s w step c))
perform-Counting e fuel k {s} (ask_writev bufs piece offset) v (p, there, fits, sum) done c =
    Safe-ok (Counting (suc k))
      (Safe-bind _ (Counting (suc k)) (writev e fuel s bufs piece offset) _
        (writev-Counting e fuel k bufs piece offset v there fits sum c) (λ r w. w))
      done
perform-Counting e fuel k {s} (ask_memory n) v count done c = elim (set_memory_size_lem n v count) [
  | inl still ↦ next_call-IsCounting (subst (Counting k) (ok-injective (sym still ∙ done)) c)
  | inr (above, run) ↦ next_call-IsCounting (
      subst (Counting k) (ok-injective (sym run ∙ done)) (
        grown-Counting s n k (min (n / s.piece_length + 2) s.piece_count) (omega (arith, count)) c))
]
perform-Counting e fuel k (ask_handle native) v h done c =
    next_call-IsCounting (subst (Counting k) (ok-injective done) c)
perform-Counting e fuel k ask_logging v h done c =
    next_call-IsCounting (subst (Counting k) (ok-injective done) c)
perform-Counting e fuel k ask_no_logging v h done c =
    next_call-IsCounting (subst (Counting k) (ok-injective done) c)
perform-Counting e fuel k {s} (ask_readers is) v h done c =
    let (bits, run, w, _) = update_reader_pieces-IsValid is v h in
    next_call-IsCounting (subst (Counting k) (ok-injective (sym run ∙ done)) c)
perform-Counting e fuel k (ask_reserved is) v h done c =
    let (bits, run, w, _) = update_reserved_pieces-IsValid is v h in
    next_call-IsCounting (subst (Counting k) (ok-injective (sym run ∙ done)) c)

-- How many calls were made.
unfoldable pub calls_made : {e : Env} {fuel : ℕ} {s u : Storage} → Reaches e fuel s u → ℕ
calls_made here = 0
calls_made (after u w r path allowed q) = suc (calls_made path)

Reaches-Counting :
    (e : Env) (fuel : ℕ) {s u : Storage}
    → IsValid s
    → Counting 0 s
    → (path : Reaches e fuel s u) → Counting (calls_made path) u
unfolding calls_made
Reaches-Counting e fuel v h here = h
Reaches-Counting e fuel v h (after u w r path allowed q) =
    perform-Counting e fuel (calls_made path) r (Reaches-IsValid e fuel v path) allowed q
      (Reaches-Counting e fuel v h path)

-- The counters fit `int`.
abbrev pub FitsInt : Storage → Type 0
FitsInt s =
    (negsuc (2 ^ 31 - 1) ≤ℤ s.buffer_limit)
    × (s.buffer_limit <ℤ pos (2 ^ 31))
    × (negsuc (2 ^ 31 - 1) ≤ℤ s.buffer_used)
    × (s.buffer_used <ℤ pos (2 ^ 31))

Counting-FitsInt : (k : ℕ) (s : Storage) → k < 2 ^ 31 → Counting k s → FitsInt s
Counting-FitsInt k s few c = (
  omega (arith, few, c.limit_low),
  c.limit_high,
  omega (arith, few, c.used_low),
  omega (arith, few, c.used_high),
)

started-Counting :
    (memory : ℕ) (info : TorrentInfo) (native : Pointer) (n : ℕ)
    → n < 2 ^ 31
    → Counting 0 (started memory info native n)
unfolding started fresh
started-Counting memory info native n small = record {
  limit_low = omega arith;
  limit_high = omega (arith, small);
  used_low = omega arith;
  used_high = omega arith;
}

module _ (e : Env) (fuel memory : ℕ) (info : TorrentInfo) (native : Pointer) {s u : Storage}
    (h : IsInfo memory info) (native_set : determined native ≡ true)
    (made : (construct (pos memory) info >>= λ s0. set_torrent_handle s0 object native) ≡ ok s)
    (path : Reaches e fuel s u) where
  construct-Counting : Counting (calls_made path) u
  construct-Counting =
      let first = ok-injective (sym (construct-started memory info native h) ∙ made) in
      let n = min (memory / info.piece_length + 2) info.num_pieces in
      Reaches-Counting e fuel (construct-Reaches e fuel memory info native h native_set made here)
        (subst (Counting 0) first (started-Counting memory info native n (omega (arith, h.count))))
        path

  -- From the constructor on, with a memory size that is not negative and lengths that fit `int`,
  -- and once the torrent handle is set: after any sequence of allowed calls that ended (pieces in
  -- range, requests inside the piece, sizes that fit `int`), and where less than 2^31 calls were
  -- made with the next one, the next allowed call does not fault, and if it ends it leaves a valid
  -- storage whose counters `buffer_limit` and `buffer_used` fit `int`. Faults are reads and writes
  -- out of range, indeterminate pointers, division by zero, and overflow of `int` but for that of
  -- these two counters, which are integers here.
  pub construct-perform :
      (r : Request)
      → IsAllowed u r
      → suc (calls_made path) < 2 ^ 31
      → Safe (λ w. IsValid w × FitsInt w) (perform e fuel u r)
  construct-perform r allowed few =
      let v = construct-Reaches e fuel memory info native h native_set made path in
      Safe-and IsValid FitsInt (perform e fuel u r) (perform-Safe e fuel r v allowed) (λ w done.
        Counting-FitsInt (suc (calls_made path)) w few
          (perform-Counting e fuel (calls_made path) r v allowed done construct-Counting))
