-- ===== src/Storage/Transfer/ReadVectors.antt =====
-- `readv` of memory_storage.hpp on a valid storage, for any request inside the piece.
use libtorrent_go.Base.{
  ℕ, ◌+◌, ◌≤◌, ◌<◌, ◌≡◌, refl, ap, ◌∙◌, List, minus_one, arith, ◌⊎◌, inl, inr, not, get_elem?,
  get_elem?_of_lt, ok, if◌then◌else◌, some,
}
use libtorrent_go.Piece.{Piece}
use libtorrent_go.Buffer.{Iovec, byte_total}
use libtorrent_go.Buffer.Windows.{windows, copy_out-windows}
use libtorrent_go.Storage.{Storage, Env}
use libtorrent_go.Storage.Valid.{IsValid, IsSlot-cases, held_buffer}
use libtorrent_go.Storage.Alloc.Safe.{get_read_buffer_lem, is_buffered_lem, not_buffered}
use libtorrent_go.Storage.Transfer.{readv, readv_request, read_vectors, finish_read}
use libtorrent_go.Storage.Transfer.Write.{InBuffer, found_buffer}
use libtorrent_go.Storage.Transfer.ReadBytes.{ReadStep, finish_read-ReadStep, finish_read-IsValid}

-- What `readv` answers, and the vectors: nothing if the piece has no buffer, else every byte asked for.
abbrev pub Filled : Storage → ℕ → ℕ → List Iovec → ℕ → List Iovec → Type 0
Filled s piece offset bufs n filled =
    ((x : Piece) × (get_elem? s.pieces piece ≡ some x)
      × (x.bi ≡ minus_one)
      × (n ≡ 0)
      × (filled ≡ bufs))
    ⊎ ((b : InBuffer s piece) × (n ≡ byte_total bufs) × (filled ≡ windows b.y.buffer offset bufs))

-- On a valid storage, for a piece in range and vectors that end inside the length of a piece,
-- `readv` does not fault and leaves a valid storage: it answers 0 and leaves the vectors alone if
-- the piece has no buffer; else each vector is filled with the bytes of the buffer at its place,
-- and the answer is their number. The storage is as before but for the reading flag and the log of
-- calls, or for the reading flag, the clock and the time of the last use of one buffer.
pub readv-answers :
    (e : Env) {s : Storage} (bufs : List Iovec) (piece offset : ℕ)
    → IsValid s
    → piece < s.piece_count
    → offset + byte_total bufs ≤ s.piece_length
    → (n : ℕ) × (filled : List Iovec) × (u : Storage) × (readv e s bufs piece offset
        ≡ ok (n, filled, u))
      × Filled s piece offset bufs n filled
      × IsValid u
      × ReadStep e s u
unfolding readv readv_request read_vectors
readv-answers e {s} bufs piece offset v h fits =
    let (x, here) = get_elem?_of_lt s.pieces piece (omega (arith, v.piece_total)) in
    let started =
      ap (λ c. if not c then ok (0, bufs, s) else readv_request e s bufs piece offset)
        v.initialized in
    let asked = get_read_buffer_lem e {s = s} piece here in
    elim (IsSlot-cases x.bi (v.pieces_ok piece x here).bi_slot) [
      | inl free ↦ (
        0,
        bufs,
        s,
        started ∙ rw (asked, not_buffered x free) refl,
        inl (x, here, free, refl, refl),
        v,
        inl (s.is_reading, s.calls, refl),
      )
      | inr (i, at_i) ↦
          let (y, there, _) = held_buffer v piece i here at_i in
          let total = (v.buffers_ok i y there).bytes in
          let b : InBuffer s piece = record {
            x = x;
            i = i;
            y = y;
            at_piece = here;
            at_i = at_i;
            at_buffer = there;
          } in
          let copied =
            copy_out-windows y.buffer offset bufs (omega (arith, total, v.small))
              (omega (arith, total)) in
          (
            byte_total bufs,
            windows y.buffer offset bufs,
            finish_read e s piece x y (offset + byte_total bufs),
            started ∙ rw (asked, is_buffered_lem x at_i, here, found_buffer b, copied) refl,
            inr (b, refl, refl),
            finish_read-IsValid e v piece b _,
            finish_read-ReadStep e v piece b _,
          )
    ]
