-- ===== src/Storage/Transfer/RoundTrip.antt =====
-- `writev` followed by `readv` of memory_storage.hpp: what is written comes back.
use libtorrent_go.Base.{
  ℕ, ◌+◌, ◌^◌, ◌≤◌, ◌<◌, ◌≡◌, ◌≢◌, refl, sym, ap, ◌∙◌, subst, not, some, List, pos, arith, ◌⊎◌, inl,
  inr, leb_ℤ, length, get_elem?, Bool-cases, ok, Safe, Safe-bind, Safe-ok, map, Safe-mono,
  if◌then◌else◌,
}
use libtorrent_go.Storage.Transfer.Parts.{writev-parts}
use libtorrent_go.Piece.{Piece}
use libtorrent_go.Buffer.{Iovec, byte_total}
use libtorrent_go.Buffer.Copy.{copy_out_lem}
use libtorrent_go.Storage.{Storage, Env}
use libtorrent_go.Storage.Valid.{IsValid}
use libtorrent_go.Storage.Evict.{trim}
use libtorrent_go.Storage.Evict.Kept.{Kept, trim-Kept}
use libtorrent_go.Storage.Alloc.Safe.{get_read_buffer_lem, is_buffered_lem}
use libtorrent_go.Storage.Transfer.{
  finish_read, trim_after, readv, writev, readv_request, read_vectors,
}
use libtorrent_go.Storage.Transfer.Write.{Given-piece_length, Holds, found_buffer}

Kept-Holds :
    {s s' : Storage} {piece : ℕ} (offset : ℕ) (bufs : List Iovec)
    → Kept (pos piece) s s'
    → Holds piece offset bufs s
    → Holds piece offset bufs s'
Kept-Holds {s} {s'} {piece} offset bufs (_, _, keeps) (b, reads) =
    let (here, buffers) = keeps piece b.x b.at_piece (inl refl) in
    (
      record {
        x = b.x;
        i = b.i;
        y = b.y;
        at_piece = here;
        at_i = b.at_i;
        at_buffer = buffers b.i b.y b.at_i b.at_buffer;
      },
      reads,
    )

-- The trimming that may follow a write keeps the piece that was written.
trim_after-Holds :
    (e : Env) (fuel : ℕ) {s : Storage} (piece offset : ℕ) (bufs : List Iovec)
    → IsValid s
    → Holds piece offset bufs s
    → Safe
        (λ u. IsValid u × (u.piece_length ≡ s.piece_length) × Holds piece offset bufs u)
        (trim_after e fuel s piece)
unfolding trim_after
trim_after-Holds e fuel {s} piece offset bufs v h =
    elim (Bool-cases (leb_ℤ s.buffer_limit s.buffer_used)) [
      | inl trims ↦ rw trims (
          Safe-mono (λ u. IsValid u × Kept (pos piece) s u)
            (λ u. IsValid u × (u.piece_length ≡ s.piece_length) × Holds piece offset bufs u)
            (trim e fuel s (pos piece)) (trim-Kept e fuel (pos piece) v)
            (λ u k. (k.0, k.1.1, Kept-Holds offset bufs k.1 h)))
      | inr stays ↦ rw stays (v, refl, h)
    ]

-- What `writev` answers, and what it leaves behind: no memory and nothing written, or every byte
-- written to the buffer of the piece.
abbrev pub Written : Storage → ℕ → ℕ → List Iovec → ℕ × Storage → Type 0
Written s piece offset bufs (n, u) =
    IsValid u
    × (u.piece_length ≡ s.piece_length)
    × ((n ≡ 0) ⊎ ((n ≡ byte_total bufs) × Holds piece offset bufs u))

-- On a valid storage, with a request inside the piece and sizes of less than 2^31, `writev` does
-- not fault; if it ends, the storage is valid, its piece length is the same, and either it answers
-- 0, or it answers the number of all the bytes and they stand in the buffer of the piece.
pub writev-Safe :
    (e : Env) (fuel : ℕ) {s : Storage} (bufs : List Iovec) (piece offset : ℕ) {p : Piece}
    → IsValid s
    → get_elem? s.pieces piece ≡ some p
    → offset + byte_total bufs ≤ p.length
    → p.size + byte_total bufs < 2 ^ 31
    → Safe (Written s piece offset bufs) (writev e fuel s bufs piece offset)
writev-Safe e fuel {s} bufs piece offset {p} v here fits sum =
    elim (writev-parts e bufs piece offset v here fits sum) [
      | inl r ↦
          subst (Safe (Written s piece offset bufs)) (sym (r.run fuel))
            (r.valid, Given-piece_length r.how, inl refl)
      | inr g ↦ subst (Safe (Written s piece offset bufs)) (sym (g.run fuel)) (
          Safe-bind _ (Written s piece offset bufs) (trim_after e fuel g.copied piece) _
            (trim_after-Holds e fuel piece offset bufs g.valid g.holds)
            (λ w k. (k.0, k.1 ∙ g.same, inr (refl, k.2))))
    ]

-- `readv` of vectors of the same lengths then gives the bytes.
pub readv-Holds :
    (e : Env) {s : Storage} (bufs dests : List Iovec) (piece offset : ℕ)
    → IsValid s
    → offset + byte_total bufs ≤ s.piece_length
    → map length dests ≡ map length bufs
    → Holds piece offset bufs s
    → (u : Storage) × (readv e s dests piece offset ≡ ok (byte_total bufs, bufs, u))
unfolding readv readv_request read_vectors
readv-Holds e {s} bufs dests piece offset v fits shape (b, reads) =
    let total = (v.buffers_ok b.i b.y b.at_buffer).bytes in
    let copied =
      copy_out_lem bufs dests b.y.buffer offset (omega (arith, total)) shape (omega (arith, total))
        reads in
    (
      finish_read e s piece b.x b.y (offset + byte_total bufs),
      ap (λ c. if not c then ok (0, dests, s) else readv_request e s dests piece offset)
            v.initialized
          ∙ rw
              (
                get_read_buffer_lem e {s = s} piece b.at_piece,
                is_buffered_lem b.x b.at_i,
                b.at_piece,
                found_buffer b,
                copied,
              )
              refl,
    )

-- What `writev` has written comes back from the next `readv`, also where the write was followed by
-- a trim: on a valid storage, for a request inside the piece whose size stays below 2^31, if
-- `writev` ends and reports some bytes, it reports all of them, and a `readv` of vectors of the
-- same lengths reports as many and fills in those bytes.
pub readv-writev :
    (e : Env) (fuel : ℕ) {s : Storage} (bufs dests : List Iovec) (piece offset : ℕ) {p : Piece}
    {n : ℕ} {s' : Storage}
    → IsValid s
    → get_elem? s.pieces piece ≡ some p
    → offset + byte_total bufs ≤ p.length
    → p.size + byte_total bufs < 2 ^ 31
    → map length dests ≡ map length bufs
    → writev e fuel s bufs piece offset ≡ ok (n, s')
    → n ≢ 0
    → (n ≡ byte_total bufs)
      × ((u : Storage) × (readv e s' dests piece offset ≡ ok (byte_total bufs, bufs, u)))
readv-writev e fuel {s} bufs dests piece offset v here fits sum shape done some_bytes =
    let safe = writev-Safe e fuel bufs piece offset v here fits sum in
    let (v', same, outcome) = Safe-ok (Written s piece offset bufs) safe done in
    elim outcome [
      | inl nothing ↦ absurd (some_bytes nothing)
      | inr (all, holds) ↦ (
        all,
        readv-Holds e bufs dests piece offset v'
            (omega (arith, same, (v.pieces_ok piece _ here).fits)) shape holds,
      )
    ]
