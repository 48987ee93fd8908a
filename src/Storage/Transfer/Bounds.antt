-- ===== src/Storage/Transfer/Bounds.antt =====
-- `writev` of memory_storage.hpp at the end of a piece and behind it.
use libtorrent_go.Base.{
  ℕ, ◌+◌, ◌-◌, ◌^◌, ◌≤◌, ◌<◌, ◌≡◌, refl, sym, ap, ◌∙◌, true, some, List, ◌∷◌, arith, length,
  get_elem?, get_elem?-lt, Bool-cases, inl, inr, ok, fault, ok-injective, ◌>>=◌,
}
use libtorrent_go.Piece.{Piece}
use libtorrent_go.Buffer.{Iovec}
use libtorrent_go.Buffer.Clip.{clip, copy_in-clip, copy_in-fault}
use libtorrent_go.Storage.{Storage, Env}
use libtorrent_go.Storage.Valid.{IsValid}
use libtorrent_go.Storage.Alloc.{get_write_buffer}
use libtorrent_go.Storage.Alloc.Safe.{get_write_buffer_lem}
use libtorrent_go.Storage.Transfer.{write_bytes, writev, writev_request, trim_after}
use libtorrent_go.Storage.Transfer.Write.{
  InBuffer, found_buffer, writev-started, Given-InBuffer, Given-piece_length,
}

module _ (e : Env) {s : Storage} (v : IsValid s) (piece : ℕ) (b : InBuffer s piece) where
  open b use {x, i, y}

  write_bytes-clip :
      (bufs : List Iovec) (offset : ℕ)
      → offset ≤ x.length
      → write_bytes e s (clip (x.length - offset) bufs) piece offset
        ≡ write_bytes e s bufs piece offset
  unfolding write_bytes
  write_bytes-clip bufs offset h =
      let small : x.length < 2 ^ 31 =
        omega (arith, (v.pieces_ok piece x b.at_piece).fits, v.small) in
      rw (b.at_piece, found_buffer b, copy_in-clip x.length bufs y.buffer offset small h) refl

  write_bytes-fault :
      (d : Iovec) (bufs : List Iovec) (offset : ℕ)
      → x.length < offset
      → offset < 2 ^ 31
      → length d < 2 ^ 31
      → s.piece_length < offset + length d
      → write_bytes e s (d ∷ bufs) piece offset ≡ fault
  unfolding write_bytes
  write_bytes-fault d bufs offset h small short out =
      let total = (v.buffers_ok i y b.at_buffer).bytes in
      rw
        (
          b.at_piece,
          found_buffer b,
          copy_in-fault x.length d bufs y.buffer offset h small short (omega (arith, total)),
        )
        refl

-- On a valid storage, for an offset inside the piece or at its end, a `writev` that reaches past
-- the end of the piece does the same as a `writev` of its vectors cut off at that end.
pub writev-clip :
    (e : Env) (fuel : ℕ) {s : Storage} (bufs : List Iovec) (piece offset : ℕ) {p : Piece}
    → IsValid s
    → get_elem? s.pieces piece ≡ some p
    → offset ≤ p.length
    → writev e fuel s bufs piece offset
      ≡ writev e fuel s (clip (p.length - offset) bufs) piece offset
unfolding writev_request
writev-clip e fuel {s} bufs piece offset {p} v here h =
    let (r, s1, asked, how, v1) =
      get_write_buffer_lem e piece v
        (omega (arith, get_elem?-lt s.pieces piece here, v.piece_total)) in
    writev-started e fuel bufs piece offset v
    ∙ elim (Bool-cases r) [
      | inl granted ↦
          let (b, same_length, _) = Given-InBuffer p how granted v here in
          let cut = write_bytes-clip e v1 piece b bufs offset (omega (arith, same_length)) in
          rw (asked, granted)
            (ap (λ m. m >>= λ w. (trim_after e fuel w.1 piece >>= λ u. ok (w.0, u)))
              (sym cut
                ∙ ap (λ k. write_bytes e s1 (clip (k - offset) bufs) piece offset) same_length))
      | inr refused ↦ rw (asked, refused) refl
    ]
    ∙ sym (writev-started e fuel (clip (p.length - offset) bufs) piece offset v)

-- On a valid storage, if a request for a buffer for the piece is granted, a `writev` that starts
-- behind the end of the piece, at an offset and with a first vector of less than 2^31, is a fault
-- where the offset and the length of that vector together exceed the piece length: the room that
-- is left wraps around, and the copy leaves the buffer.
pub writev-fault :
    (e : Env) (fuel : ℕ) {s : Storage} (d : Iovec) (bufs : List Iovec) (piece offset : ℕ)
    {p : Piece} {s1 : Storage}
    → IsValid s
    → get_elem? s.pieces piece ≡ some p
    → get_write_buffer e s piece ≡ ok (true, s1)
    → p.length < offset
    → offset < 2 ^ 31
    → length d < 2 ^ 31
    → s.piece_length < offset + length d
    → writev e fuel s (d ∷ bufs) piece offset ≡ fault
unfolding writev_request
writev-fault e fuel {s} d bufs piece offset {p} v here given h small short out =
    let (r, u, asked, how, v1) =
      get_write_buffer_lem e piece v
        (omega (arith, get_elem?-lt s.pieces piece here, v.piece_total)) in
    let same = ok-injective (sym asked ∙ given) in
    let granted : r ≡ true = ap (λ w. w.0) same in
    let (b, same_length, _) = Given-InBuffer p how granted v here in
    let broken =
      write_bytes-fault e v1 piece b d bufs offset (omega (arith, same_length)) small short
        (omega (arith, Given-piece_length how)) in
    writev-started e fuel (d ∷ bufs) piece offset v ∙ rw (asked, granted, broken) refl
