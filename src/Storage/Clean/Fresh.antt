-- ===== src/Storage/Clean/Fresh.antt =====
-- What a piece of memory_storage.hpp shows that comes into memory: the bytes of the first write over zeros, and
-- never those of another piece.
use libtorrent_go.Base.{
  true, [], ℕ, ◌+◌, ◌^◌, ◌≤◌, ◌<◌, ◌≡◌, ◌≢◌, refl, sym, ◌∙◌, subst, some, none, List, pos,
  get_elem?, inl, inr, ok, ok-injective, Safe, Safe-ok, Safe-bind, ◌>>=◌, Each-nil, ◌⊎◌,
}
use mathlib.Core.Option.{some-injective}
use libtorrent_go.Piece.{Piece}
use libtorrent_go.Buffer.{Iovec, byte_total}
use libtorrent_go.Buffer.Copy.{Overlaid}
use libtorrent_go.Storage.{Storage, Env, TorrentInfo, Pointer, object}
use libtorrent_go.Storage.Valid.{IsValid, determined}
use libtorrent_go.Storage.Setup.{construct, set_torrent_handle, fresh}
use libtorrent_go.Storage.Setup.Safe.{IsInfo, construct-IsValid, construct-started, started}
use libtorrent_go.Storage.Transfer.{trim_after, writev}
use libtorrent_go.Storage.Transfer.Parts.{writev-parts}
use libtorrent_go.Storage.Cache.{contents, contents-InBuffer}
use libtorrent_go.Storage.Cache.Refines.{trim_after-Trimmed, own_kept, Stored-piece}
use libtorrent_go.Storage.Machine.{Reaches, here, after, Reaches-IsValid}
use libtorrent_go.Storage.Clean.{IsClean, Given-zeros, zeros, push_buffers-IsBlank, IsBlank}
use libtorrent_go.Storage.Clean.Calls.{perform-IsClean}

Reaches-IsClean :
    (e : Env) (fuel : ℕ) {s u : Storage} → IsValid s → IsClean s → Reaches e fuel s u → IsClean u
Reaches-IsClean e fuel v h here = h
Reaches-IsClean e fuel v h (after u w r path allowed q) =
    perform-IsClean e fuel r (Reaches-IsValid e fuel v path) allowed q
      (Reaches-IsClean e fuel v h path)

started-IsClean :
    (memory : ℕ) (info : TorrentInfo) (native : Pointer) (n : ℕ)
    → IsClean (started memory info native n)
unfolding started fresh
started-IsClean memory info native n =
    push_buffers-IsBlank info.piece_length n (pos 0) [] (Each-nil IsBlank)

-- The first write to a piece, and the trim after it.
first_write :
    (e : Env) (fuel : ℕ) {u : Storage} (bufs : List Iovec) (piece offset : ℕ) {p : Piece}
    → IsValid u
    → IsClean u
    → get_elem? u.pieces piece ≡ some p
    → contents u piece ≡ none
    → offset + byte_total bufs ≤ p.length
    → p.size + byte_total bufs < 2 ^ 31
    → Safe
        (λ r.
          (r.0 ≡ 0)
          ⊎ ((l : List ℕ) × (contents r.1 piece ≡ some l)
              × Overlaid (zeros u.piece_length) offset bufs l))
        (writev e fuel u bufs piece offset)
first_write e fuel {u} bufs piece offset v h at_p missing fits sum =
    let Shown : ℕ × Storage → Type 0 = λ r.
      (r.0 ≡ 0)
      ⊎ ((l : List ℕ) × (contents r.1 piece ≡ some l)
          × Overlaid (zeros u.piece_length) offset bufs l) in
    elim (writev-parts e bufs piece offset v at_p fits sum) [
      | inl x ↦ subst (Safe Shown) (sym (x.run fuel)) (inl refl)
      | inr x ↦
          let blank : x.place.y.buffer ≡ zeros u.piece_length =
            some-injective x.place.y.buffer (zeros u.piece_length)
              (sym (contents-InBuffer x.place) ∙ Given-zeros x.how refl v h missing) in
          subst (Safe Shown) (sym (x.run fuel)) (
            Safe-bind _ Shown (trim_after e fuel x.copied piece) _
              (trim_after-Trimmed e fuel piece x.valid)
              (λ w k. inr (
                x.stored.0,
                own_kept x.copied.reserved_pieces k.1.1 ∙ Stored-piece e x.place x.stored,
                subst (λ l. Overlaid l offset bufs x.stored.0) blank x.over,
              )))
    ]

module _ (e : Env) (fuel memory : ℕ) (info : TorrentInfo) (native : Pointer) {s u : Storage}
    (h : IsInfo memory info) (native_set : determined native ≡ true)
    (made : (construct (pos memory) info >>= λ s0. set_torrent_handle s0 object native) ≡ ok s)
    (path : Reaches e fuel s u) where
  construct-IsClean : IsValid u × IsClean u
  construct-IsClean =
      let (s', q, v) = construct-IsValid memory info native h native_set in
      let valid = subst IsValid (ok-injective (sym q ∙ made)) v in
      let same = ok-injective (sym (construct-started memory info native h) ∙ made) in
      let clean = subst IsClean same (started-IsClean memory info native _) in
      (Reaches-IsValid e fuel valid path, Reaches-IsClean e fuel valid clean path)

  -- From the constructor on (under the conditions on its arguments) and with the handle set, after
  -- any sequence of allowed calls that ended: if a `writev` to a piece that is not in memory, with
  -- a request inside the piece and sizes of less than 2^31, ends and answers some bytes, then the
  -- piece holds its vectors over zero bytes, and so nothing of what other pieces held before.
  pub construct-writev_fresh :
      (bufs : List Iovec) (piece offset : ℕ) {p : Piece} {n : ℕ} {w : Storage}
      → get_elem? u.pieces piece ≡ some p
      → contents u piece ≡ none
      → offset + byte_total bufs ≤ p.length
      → p.size + byte_total bufs < 2 ^ 31
      → writev e fuel u bufs piece offset ≡ ok (n, w)
      → n ≢ 0
      → (l : List ℕ) × (contents w piece ≡ some l) × Overlaid (zeros u.piece_length) offset bufs l
  construct-writev_fresh bufs piece offset at_p missing fits sum done some_bytes =
      let (v, clean) = construct-IsClean in
      elim (Safe-ok _ (first_write e fuel bufs piece offset v clean at_p missing fits sum) done) [
        | inl nothing ↦ absurd (some_bytes nothing)
        | inr shown ↦ shown
      ]
