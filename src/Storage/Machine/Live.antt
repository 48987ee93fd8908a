-- ===== src/Storage/Machine/Live.antt =====
-- Every call on a storage of memory_storage.hpp comes back, where no piece is ever reserved, there are two
-- buffers or more, and the clock passes any time in the end.
use libtorrent_go.Base.{
  get_elem?, some, ◌+◌, ◌≤◌, ◌<◌, ◌^◌, ok-injective, ◌∙◌, Safe-bind, Safe-mono, ℕ, ◌≡◌, refl, sym,
  ap, subst, false, List, [], ℤ, pos, negsuc, inl, inr, ok, ◌>>=◌, Safe, Safe-ok, leb_ℤ, Bool,
  Bool-cases, ◌∷◌,
}
use libtorrent_go.Storage.{Storage, Env, is_null}
use libtorrent_go.Storage.Valid.{IsValid, bit}
use libtorrent_go.Storage.Setup.{set_torrent_handle, enable_logging, disable_logging}
use libtorrent_go.Storage.Setup.Safe.{set_memory_size-IsValid, set_memory_size_lem}
use libtorrent_go.Storage.Setup.Update.{
  asked, update_reader_pieces-IsValid, update_reserved_pieces-IsValid,
}
use libtorrent_go.Storage.Transfer.Read.{read-answers}
use libtorrent_go.Storage.Transfer.ReadBytes.{ReadStep}
use libtorrent_go.Storage.Transfer.ReadVectors.{readv-answers}
use libtorrent_go.Storage.Transfer.Parts.{Granted, writev-parts}
use libtorrent_go.Storage.Transfer.Ends.{trim_after_total}
use libtorrent_go.Storage.Transfer.{trim_after, writev}
use libtorrent_go.Storage.Evict.Ends.{ClockPasses}
use libtorrent_go.Storage.Evict.{trim}
use libtorrent_go.Buffer.{Iovec, byte_total}
use libtorrent_go.Piece.{Piece}
use libtorrent_go.Storage.Evict.Kept.{trim_inv}
use libtorrent_go.Storage.Account.Live.{
  IsLive, IsLive-HasRoom, IsLive-same, IsLive-touch, IsLive-ticks, IsLive-Evicts, IsLive-Stored,
  IsLive-Given,
}
use libtorrent_go.Storage.Account.Grown.{grown-IsLive}
use libtorrent_go.Storage.Machine.{
  Request, perform, IsAllowed, ask_read, ask_readv, ask_writev, ask_memory, ask_handle, ask_logging,
  ask_no_logging, ask_readers, ask_reserved,
}

-- The request reserves no piece.
abbrev pub IsUnreserving : Request → Type 0
IsUnreserving (ask_read read_buf piece offset) = Unit {0}
IsUnreserving (ask_readv bufs piece offset) = Unit {0}
IsUnreserving (ask_writev bufs piece offset) = Unit {0}
IsUnreserving (ask_memory n) = Unit {0}
IsUnreserving (ask_handle native) = Unit {0}
IsUnreserving ask_logging = Unit {0}
IsUnreserving ask_no_logging = Unit {0}
IsUnreserving (ask_readers is) = Unit {0}
IsUnreserving (ask_reserved []) = Unit {0}
IsUnreserving (ask_reserved (i ∷ is)) = ⊥

module _ (e : Env) (fuel : ℕ) {s : Storage} where
  IsLive-ReadStep : {u : Storage} → ReadStep e s u → IsLive s → IsLive u
  IsLive-ReadStep (inl (reading, calls, q)) h =
      subst IsLive (sym q) (IsLive-same e h refl refl refl refl refl refl refl refl)
  IsLive-ReadStep (inr (reading, i, b, here, q)) h =
      subst IsLive (sym q)
        (IsLive-touch e i _ h here refl refl refl refl refl refl refl refl refl refl)

  trim_after-IsLive : (piece : ℕ) → IsValid s → IsLive s → Safe IsLive (trim_after e fuel s piece)
  unfolding trim_after
  trim_after-IsLive piece v h = elim (Bool-cases (leb_ℤ s.buffer_limit s.buffer_used)) [
    | inl full ↦ rw full (
        Safe-mono _ IsLive (trim e fuel s (pos piece))
          (trim_inv e (pos piece) IsLive (λ a b w k m full. IsLive-Evicts e m k)
            (λ a k later l. IsLive-ticks e k later l) fuel v h)
          (λ w k. k.1))
    | inr room ↦ rw room h
  ]

none_marked :
    (bits : List Bool) → ((i : ℕ) → bit bits (pos i) ≡ false) → (i : ℤ) → bit bits i ≡ false
none_marked bits h (pos i) = h i
none_marked bits h (negsuc i) = refl

-- What a granted write leaves, before its trim.
copied-IsLive :
    (e : Env) {s : Storage} (bufs : List Iovec) (piece offset : ℕ)
    → (x : Granted e s bufs piece offset) → IsLive s
    → IsLive x.copied
copied-IsLive e bufs piece offset x h = IsLive-Stored e x.place x.stored (IsLive-Given e x.how h)

writev-IsLive :
    (e : Env) (fuel : ℕ) {s : Storage} (bufs : List Iovec) (piece offset : ℕ) {p : Piece}
    → IsValid s
    → get_elem? s.pieces piece ≡ some p
    → offset + byte_total bufs ≤ p.length
    → p.size + byte_total bufs < 2 ^ 31
    → IsLive s
    → Safe (λ r. IsLive r.1) (writev e fuel s bufs piece offset)
writev-IsLive e fuel {s} bufs piece offset v here fits sum h =
    let Lives : ℕ × Storage → Type 0 = λ r. IsLive r.1 in
    elim (writev-parts e bufs piece offset v here fits sum) [
      | inl x ↦ subst (Safe Lives) (sym (x.run fuel)) (IsLive-Given e x.how h)
      | inr x ↦
          let live =
            trim_after-IsLive e fuel piece x.valid (copied-IsLive e bufs piece offset x h) in
          subst (Safe Lives) (sym (x.run fuel))
            (Safe-bind IsLive Lives (trim_after e fuel x.copied piece) _ live (λ w l. l))
    ]

-- A call as described keeps what the later ones need.
pub perform-IsLive :
    (e : Env) (fuel : ℕ) {s u : Storage} (r : Request)
    → IsValid s
    → IsLive s
    → IsAllowed s r
    → IsUnreserving r
    → perform e fuel s r ≡ ok u
    → IsLive u
unfolding perform set_torrent_handle is_null enable_logging disable_logging asked
perform-IsLive e fuel (ask_read read_buf piece offset) v h (below, start) _ done =
    let (r, out, u, q, answer, w, step) = read-answers e piece offset read_buf v below start in
    subst IsLive (ok-injective (sym (ap (λ m. m >>= λ r. ok r.2) q) ∙ done))
      (IsLive-ReadStep e fuel step h)
perform-IsLive e fuel (ask_readv bufs piece offset) v h (below, fits) _ done =
    let (n, filled, u, q, answer, w, step) = readv-answers e bufs piece offset v below fits in
    subst IsLive (ok-injective (sym (ap (λ m. m >>= λ r. ok r.2) q) ∙ done))
      (IsLive-ReadStep e fuel step h)
perform-IsLive e fuel {s} (ask_writev bufs piece offset) v h (p, here, fits, sum) _ done =
    Safe-ok IsLive
      (Safe-bind _ IsLive (writev e fuel s bufs piece offset) _
        (writev-IsLive e fuel bufs piece offset v here fits sum h) (λ r l. l))
      done
perform-IsLive e fuel {s} (ask_memory n) v h count _ done = elim (set_memory_size_lem n v count) [
  | inl same ↦ subst IsLive (ok-injective (sym same ∙ done)) h
  | inr (above, q) ↦ subst IsLive (ok-injective (sym q ∙ done)) (grown-IsLive n v above h)
]
perform-IsLive e fuel (ask_handle native) v h set_now _ done =
    subst IsLive (ok-injective done) (IsLive-same e h refl refl refl refl refl refl refl refl)
perform-IsLive e fuel ask_logging v h _ _ done =
    subst IsLive (ok-injective done) (IsLive-same e h refl refl refl refl refl refl refl refl)
perform-IsLive e fuel ask_no_logging v h _ _ done =
    subst IsLive (ok-injective done) (IsLive-same e h refl refl refl refl refl refl refl refl)
perform-IsLive e fuel (ask_readers is) v h below _ done =
    let (bits, q, w, each) = update_reader_pieces-IsValid is v below in
    subst IsLive (ok-injective (sym q ∙ done))
      (IsLive-same e h refl refl refl refl refl refl refl refl)
perform-IsLive e fuel (ask_reserved []) v h below _ done =
    let (bits, q, w, each) = update_reserved_pieces-IsValid [] v below in
    subst IsLive (ok-injective (sym q ∙ done)) (record {
      counted = record {
        unreserved = none_marked bits each;
        used = h.counted.used;
        limit = h.counted.limit;
      };
      stamped = h.stamped;
      limited = h.limited;
      wide = h.wide;
    })
perform-IsLive e fuel (ask_reserved (i ∷ is)) v h below none done = absurd none

-- And it ends.
pub perform-Ends :
    (e : Env) {s : Storage} (r : Request)
    → ClockPasses e
    → IsValid s
    → IsLive s
    → IsAllowed s r
    → IsUnreserving r
    → (rounds : ℕ) × (u : Storage) × (perform e rounds s r ≡ ok u)
unfolding perform set_torrent_handle is_null enable_logging disable_logging
perform-Ends e (ask_read read_buf piece offset) passes v h (below, start) _ =
    let (r, out, u, q, _, _, _) = read-answers e piece offset read_buf v below start in
    (0, u, rw q refl)
perform-Ends e (ask_readv bufs piece offset) passes v h (below, fits) _ =
    let (n, filled, u, q, _, _, _) = readv-answers e bufs piece offset v below fits in
    (0, u, rw q refl)
perform-Ends e {s} (ask_writev bufs piece offset) passes v h (p, here, fits, sum) _ =
    elim (writev-parts e bufs piece offset v here fits sum) [
      | inl x ↦ (0, x.last, ap (λ m. m >>= λ r. ok r.1) (x.run 0))
      | inr x ↦
          let live = copied-IsLive e bufs piece offset x h in
          let (rounds, u, q) =
            trim_after_total e piece passes x.valid (IsLive-HasRoom e (pos piece) x.valid live) in
          (rounds, u, rw (x.run rounds, q) refl)
    ]
perform-Ends e (ask_memory n) passes v h count _ =
    let (u, q, _, _, _) = set_memory_size-IsValid n v count in (0, u, q)
perform-Ends e (ask_handle native) passes v h set_now _ = (0, _, refl)
perform-Ends e ask_logging passes v h _ _ = (0, _, refl)
perform-Ends e ask_no_logging passes v h _ _ = (0, _, refl)
perform-Ends e (ask_readers is) passes v h below _ =
    let (bits, q, _, _) = update_reader_pieces-IsValid is v below in (0, _, q)
perform-Ends e (ask_reserved is) passes v h below _ =
    let (bits, q, _, _) = update_reserved_pieces-IsValid is v below in (0, _, q)
