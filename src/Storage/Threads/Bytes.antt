-- ===== src/Storage/Threads/Bytes.antt =====
-- The copies of `writev`, `readv` and `read` in memory_storage.hpp, by a thread that may find that the piece
-- has lost its buffer: a copy that ends is one into or out of the buffer of the piece.
use libtorrent_go.Storage.Transfer.Write.{store-bytes, InBuffer, store-Stored}
use libtorrent_go.Storage.Transfer.{
  read_vectors, finish_read, write_bytes, store, add_int, read_bytes,
}
use libtorrent_go.Storage.Transfer.ReadBytes.{ReadStep, finish_read-IsValid, finish_read-ReadStep}
use libtorrent_go.Piece.{Piece}
use libtorrent_go.Buffer.{copy_out, Iovec, copy_in, memcpy_to, memcpy_from, to_copy, byte_count}
use libtorrent_go.Base.{
  ℕ, ◌+◌, ◌≡◌, refl, sym, ap, ◌∙◌, subst, Option, none, some, List, [], ◌∷◌, ◌++◌, pos, negsuc, ℤ,
  arith, length, take, drop, leb, Bool-cases, inl, inr, get_elem?, at_int, at, ok, ok-injective,
  or_fault, ended, fault, length-append, length-take, length-drop, Result, ◌>>=◌, to_int32,
  sub_size, ltb_ℤ, leb_ℤ, if◌then◌else◌,
}
use libtorrent_go.Storage.{Storage, Env}
use libtorrent_go.Storage.Valid.{IsValid}
use libtorrent_go.Storage.Threads.Changes.{Quiet, put}

memcpy_to-length :
    (buffer : List ℕ) (offset : ℕ) (src : List ℕ) (n : ℕ) {bytes : List ℕ}
    → memcpy_to buffer offset src n ≡ ok bytes
    → length bytes ≡ length buffer
unfolding memcpy_to
memcpy_to-length buffer offset src n {bytes} done =
    elim (Bool-cases (leb (offset + n) (length buffer))) [
      | inr out ↦
          let broken : memcpy_to buffer offset src n ≡ fault = rw out refl in
          absurd (cc (broken, done))
      | inl fits ↦ elim (Bool-cases (leb n (length src))) [
        | inr short ↦
            let broken : memcpy_to buffer offset src n ≡ fault = rw (fits, short) refl in
            absurd (cc (broken, done))
        | inl enough ↦
            let whole : memcpy_to buffer offset src n
                ≡ ok (take offset buffer ++ take n src ++ drop (offset + n) buffer) =
              rw (fits, enough) refl in
            ap length (sym (ok-injective (sym whole ∙ done)))
            ∙ ground (
              arith,
              length-append (take offset buffer ++ take n src) (drop (offset + n) buffer),
              length-append (take offset buffer) (take n src),
              length-take offset buffer,
              length-take n src,
              length-drop (offset + n) buffer,
            )
      ]
    ]

copy_in-length :
    (room : ℕ) (bufs : List Iovec) (buffer : List ℕ) (offset : ℕ) {r : List ℕ × ℕ}
    → copy_in room buffer offset bufs ≡ ok r
    → length r.0 ≡ length buffer
unfolding copy_in
copy_in-length room [] buffer offset done = ap (λ r. length r.0) (sym (ok-injective done))
copy_in-length room (v ∷ bufs) buffer offset done =
    let (n, more, counted) = ended (to_copy room offset (length v)) _ (sym done) in
    let (next, more', copied) = ended (memcpy_to buffer offset v n) _ (sym more) in
    let (rest, last, gone) = ended (copy_in room next (offset + n) bufs) _ (sym more') in
    ap (λ r. length r.0) (sym (ok-injective last))
    ∙ copy_in-length room bufs next (offset + n) gone
    ∙ memcpy_to-length buffer offset v n copied

pub or_fault-ok : {A : Type 0} (o : Option A) {a : A} → or_fault o ≡ ok a → o ≡ some a
or_fault-ok none h = cc
or_fault-ok (some a) h = ap some (ok-injective h)

at_int-ok :
    {A : Type 0} (l : List A) (z : ℤ) {a : A}
    → at_int l z ≡ ok a
    → (i : ℕ) × (z ≡ pos i) × (get_elem? l i ≡ some a)
at_int-ok l (pos i) h = (i, refl, or_fault-ok (get_elem? l i) h)
at_int-ok l (negsuc i) h = cc

-- A copy that ends is one into the buffer of the piece.
pub copied :
    (e : Env) {s u : Storage} (bufs : List Iovec) (piece offset : ℕ) {n : ℕ}
    → IsValid s
    → write_bytes e s bufs piece offset ≡ ok (n, u)
    → IsValid u × Quiet e s u
unfolding write_bytes
copied e {s} {u} bufs piece offset v done =
    let (p, more, at_p) = ended (at s.pieces piece) _ (sym done) in
    let (b, more', at_b) = ended (at_int s.buffers p.bi) _ (sym more) in
    let (r, more'', ran) = ended (copy_in p.length b.buffer offset bufs) _ (sym more') in
    let (size, last, sum) = ended (add_int p.size r.1) _ (sym more'') in
    let here = or_fault-ok (get_elem? s.pieces piece) at_p in
    let (i, at_i, there) = at_int-ok s.buffers p.bi at_b in
    let place : InBuffer s piece = record {
      x = p;
      i = i;
      y = b;
      at_piece = here;
      at_i = at_i;
      at_buffer = there;
    } in
    let (st, same_bytes) = store-bytes e v piece place r.0 size in
    let (w, _) =
      store-Stored e v piece place r.0 size (copy_in-length p.length bufs b.buffer offset ran) in
    let same_end : store e s piece p b r.0 size ≡ u =
      ap (λ r. r.1) {x = (r.1, store e s piece p b r.0 size)} (ok-injective last) in
    (
      subst IsValid same_end w,
      subst (Quiet e s) same_end (
          put piece (store e s piece p b r.0 size) place st
            (p.length, offset, r.1, bufs, ran ∙ ap (λ l. ok (l, r.1)) (sym same_bytes))),
    )

-- So is one out of it.
pub fetched :
    (e : Env) {s u : Storage} (bufs : List Iovec) (piece offset : ℕ) {n : ℕ} {filled : List Iovec}
    → IsValid s
    → read_vectors e s bufs piece offset ≡ ok (n, filled, u)
    → IsValid u × ReadStep e s u
unfolding read_vectors
fetched e {s} {u} bufs piece offset v done =
    let (p, more, at_p) = ended (at s.pieces piece) _ (sym done) in
    let (b, more', at_b) = ended (at_int s.buffers p.bi) _ (sym more) in
    let (r, last, ran) = ended (copy_out b.buffer offset bufs) _ (sym more') in
    let (i, at_i, there) = at_int-ok s.buffers p.bi at_b in
    let place : InBuffer s piece = record {
      x = p;
      i = i;
      y = b;
      at_piece = or_fault-ok (get_elem? s.pieces piece) at_p;
      at_i = at_i;
      at_buffer = there;
    } in
    let same_end : finish_read e s piece p b (offset + r.1) ≡ u =
      ap (λ r. r.2) (ok-injective last) in
    (
      subst IsValid same_end (finish_read-IsValid e v piece place _),
      subst (ReadStep e s) same_end (finish_read-ReadStep e v piece place _),
    )

-- And one of `read`, which may have nothing to copy.
pub loaded :
    (e : Env) {s u : Storage} (read_buf : List ℕ) (piece offset : ℕ) (p : Piece) {r : ℤ}
    {filled : List ℕ}
    → IsValid s
    → get_elem? s.pieces piece ≡ some p
    → read_bytes e s read_buf (pos (length read_buf)) piece p offset ≡ ok (r, filled, u)
    → IsValid u × ReadStep e s u
unfolding read_bytes
loaded e {s} {u} read_buf piece offset p {r} {filled} v here done =
    let (b, more, at_b) = ended (at_int s.buffers p.bi) _ (sym done) in
    let (i, at_i, there) = at_int-ok s.buffers p.bi at_b in
    let available = to_int32 (sub_size (length b.buffer) offset) in
    let size = pos (length read_buf) in
    let wanted = if ltb_ℤ size available then size else available in
    let rest : Result (ℤ × List ℕ × Storage) = byte_count wanted >>= λ n.
    memcpy_from b.buffer offset read_buf n >>= λ filled.
    ok (size, filled, finish_read e s piece p b (offset + n)) in
    let place : InBuffer s piece = record {
      x = p;
      i = i;
      y = b;
      at_piece = here;
      at_i = at_i;
      at_buffer = there;
    } in
    elim (Bool-cases (leb_ℤ available (pos 0))) [
      | inl nothing ↦
          let same_end : s ≡ u =
            ap (λ x. x.2)
              (ok-injective
                (ap (λ c. if c then ok (pos 0, read_buf, s) else rest) (sym nothing) ∙ more)) in
          (
            subst IsValid same_end v,
            subst (ReadStep e s) same_end (inl (s.is_reading, s.calls, refl)),
          )
      | inr something ↦
          let ran : ok (r, filled, u) ≡ rest =
            sym more ∙ ap (λ c. if c then ok (pos 0, read_buf, s) else rest) something in
          let (n, more', counted) = ended (byte_count wanted) _ ran in
          let (bytes, last, copied) =
            ended (memcpy_from b.buffer offset read_buf n) _ (sym more') in
          let same_end : finish_read e s piece p b (offset + n) ≡ u =
            ap (λ x. x.2) (ok-injective last) in
          (
            subst IsValid same_end (finish_read-IsValid e v piece place _),
            subst (ReadStep e s) same_end (finish_read-ReadStep e v piece place _),
          )
    ]
