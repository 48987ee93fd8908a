-- ===== src/Storage/Transfer/Parts.antt =====
-- `writev` of memory_storage.hpp taken apart: the request for a buffer, the copy, and the trim.
use libtorrent_go.Base.{
  ℕ, ◌+◌, ◌^◌, ◌≤◌, ◌<◌, ◌≡◌, refl, ◌∙◌, subst, true, false, some, List, arith, ◌⊎◌, inl, inr,
  get_elem?, get_elem?-lt, Bool-cases, ok, ◌>>=◌,
}
use libtorrent_go.Base.{ap}
use libtorrent_go.Storage.Alloc.{get_write_buffer}
use libtorrent_go.Piece.{Piece}
use libtorrent_go.Buffer.{Iovec, byte_total}
use libtorrent_go.Buffer.Copy.{Overlaid}
use libtorrent_go.Storage.{Storage, Env}
use libtorrent_go.Storage.Valid.{IsValid}
use libtorrent_go.Storage.Alloc.Safe.{Given, get_write_buffer_lem}
use libtorrent_go.Storage.Transfer.{writev, writev_request, trim_after}
use libtorrent_go.Storage.Transfer.Write.{
  InBuffer, Stored, Holds, writev-started, Given-InBuffer, Given-piece_length, write_bytes_lem,
}

-- No buffer was given, and the call ends.
pub record Refused (e : Env) (s : Storage) (bufs : List Iovec) (piece offset : ℕ) : Type 0 where
  pub last : Storage
  pub request : get_write_buffer e s piece ≡ ok (false, last)
  pub how : Given e s piece false last
  pub valid : IsValid last
  pub run : (fuel : ℕ) → writev e fuel s bufs piece offset ≡ ok (0, last)

-- A buffer was given, the bytes were copied, and the trim follows.
pub record Granted (e : Env) (s : Storage) (bufs : List Iovec) (piece offset : ℕ) : Type 0 where
  pub asked : Storage
  pub request : get_write_buffer e s piece ≡ ok (true, asked)
  pub how : Given e s piece true asked
  pub asked_valid : IsValid asked
  pub place : InBuffer asked piece
  pub copied : Storage
  pub stored : Stored e asked piece place copied
  pub over : Overlaid place.y.buffer offset bufs stored.0
  pub valid : IsValid copied
  pub same : copied.piece_length ≡ s.piece_length
  pub holds : Holds piece offset bufs copied
  pub run :
      (fuel : ℕ)
      → writev e fuel s bufs piece offset
        ≡ (trim_after e fuel copied piece >>= λ z. ok (byte_total bufs, z))

-- On a valid storage a request inside the piece goes one of these two ways.
pub writev-parts :
    (e : Env) {s : Storage} (bufs : List Iovec) (piece offset : ℕ) {p : Piece}
    → IsValid s
    → get_elem? s.pieces piece ≡ some p
    → offset + byte_total bufs ≤ p.length
    → p.size + byte_total bufs < 2 ^ 31
    → Refused e s bufs piece offset ⊎ Granted e s bufs piece offset
unfolding writev_request
writev-parts e {s} bufs piece offset {p} v here fits sum =
    let (r, s1, q, how, v1) =
      get_write_buffer_lem e piece v
        (omega (arith, get_elem?-lt s.pieces piece here, v.piece_total)) in
    elim (Bool-cases r) [
      | inl granted ↦
          let (b, same_length, same_size) = Given-InBuffer p how granted v here in
          let (u, copied, vu, total, holds, (stored, over)) =
            write_bytes_lem e v1 piece b bufs offset (omega (arith, Given-piece_length how))
              (omega (arith, same_length)) (omega (arith, same_size)) in
          inr (record {
            asked = s1;
            request = q ∙ ap (λ c. ok (c, s1)) granted;
            how = subst (λ c. Given e s piece c s1) granted how;
            asked_valid = v1;
            place = b;
            copied = u;
            stored = stored;
            over = over;
            valid = vu;
            same = total ∙ Given-piece_length how;
            holds = holds;
            run = λ fuel. writev-started e fuel bufs piece offset v ∙ rw (q, granted, copied) refl;
          })
      | inr refused ↦ inl (record {
        last = s1;
        request = q ∙ ap (λ c. ok (c, s1)) refused;
        how = subst (λ c. Given e s piece c s1) refused how;
        valid = v1;
        run = λ fuel. writev-started e fuel bufs piece offset v ∙ rw (q, refused) refl;
      })
    ]
