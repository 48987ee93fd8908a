-- ===== src/Storage/Transfer/Write.antt =====
-- `writev` of memory_storage.hpp on a valid storage.
use libtorrent_go.Base.{
  pos_part, set, or_fault, ltb-true, ℕ, ◌+◌, ◌^◌, ◌≤◌, ◌<◌, ◌≡◌, refl, sym, ap, ◌∙◌, subst, Bool,
  true, some, List, pos, arith, length, get_elem?, get_elem?-lt, get_elem?-set_self, ok, at_int,
}
use mathlib.Core.Option.{Option, some-injective}
use libtorrent_go.Piece.{Piece}
use libtorrent_go.Buffer.{Buffer, Iovec, byte_total}
use libtorrent_go.Buffer.Copy.{Reads, Overlaid, copy_in_lem}
use libtorrent_go.Storage.{Storage, Env, now}
use libtorrent_go.Storage.Valid.{IsValid, held_buffer}
use libtorrent_go.Storage.Update.{update-IsValid}
use libtorrent_go.Storage.Alloc.{link}
use libtorrent_go.Storage.Alloc.Safe.{Given, held, given, refused_by_reader, full}
use libtorrent_go.Base.{if◌then◌else◌, not}
use libtorrent_go.Storage.Transfer.{writev, writev_request, store, add_int, write_bytes}

-- The piece lies in buffer `i`.
pub record InBuffer (s : Storage) (piece : ℕ) : Type 0 where
  pub x : Piece
  pub i : ℕ
  pub y : Buffer
  pub at_piece : get_elem? s.pieces piece ≡ some x
  pub at_i : x.bi ≡ pos i
  pub at_buffer : get_elem? s.buffers i ≡ some y

-- Its buffer is found by its `bi`.
pub found_buffer :
    {s : Storage} {piece : ℕ} (b : InBuffer s piece) → at_int s.buffers b.x.bi ≡ ok b.y
found_buffer {s} b = ap (at_int s.buffers) b.at_i ∙ ap or_fault b.at_buffer

-- On a valid storage `writev` goes past its first test.
pub writev-started :
    (e : Env) (fuel : ℕ) {s : Storage} (bufs : List Iovec) (piece offset : ℕ)
    → IsValid s
    → writev e fuel s bufs piece offset ≡ writev_request e fuel s bufs piece offset
unfolding writev
writev-started e fuel {s} bufs piece offset v =
    ap (λ c. if not c then ok (0, s) else writev_request e fuel s bufs piece offset) v.initialized

one_piece : {o : Option Piece} {p q : Piece} → o ≡ some p → o ≡ some q → p ≡ q
one_piece {o} {p} {q} h k = some-injective p q (sym h ∙ k)

-- The bytes of the vectors stand in the buffer of the piece, from `offset` on.
abbrev pub Holds : ℕ → ℕ → List Iovec → Storage → Type 0
Holds piece offset bufs u = (b : InBuffer u piece) × Reads b.y.buffer offset bufs

pub Given-piece_length :
    {e : Env} {s : Storage} {piece : ℕ} {r : Bool} {s' : Storage}
    → Given e s piece r s'
    → s'.piece_length ≡ s.piece_length
unfolding link
Given-piece_length (held p i here at_i) = refl
Given-piece_length (refused_by_reader calls reading) = refl
Given-piece_length (full all) = refl
Given-piece_length (given p i b here unbuffered there free before) = refl

-- A write request that was granted: the piece has a buffer, and the rest of its record is as it was.
pub Given-InBuffer :
    {e : Env} {s : Storage} {piece : ℕ} {r : Bool} {s' : Storage} (p : Piece)
    → Given e s piece r s'
    → r ≡ true
    → IsValid s
    → get_elem? s.pieces piece ≡ some p
    → (b : InBuffer s' piece) × (b.x.length ≡ p.length) × (b.x.size ≡ p.size)
unfolding link
Given-InBuffer p (held p' i here at_i) yes_r v same =
    let (y, there, _) = held_buffer v _ i here at_i in
    (
      record { x = p'; i = i; y = y; at_piece = here; at_i = at_i; at_buffer = there },
      ap (λ x. x.length) (one_piece here same),
      ap (λ x. x.size) (one_piece here same),
    )
Given-InBuffer p (refused_by_reader calls reading) yes_r v same = cc
Given-InBuffer p (full all) yes_r v same = cc
Given-InBuffer {s} p (given p' i b here unbuffered there free before) yes_r v same = (
  record {
    x = record p' { bi = b.index };
    i = i;
    y = _;
    at_piece = get_elem?-set_self s.pieces _ _ (get_elem?-lt s.pieces _ here);
    at_i = (v.buffers_ok i b there).index;
    at_buffer = get_elem?-set_self s.buffers i _ (get_elem?-lt s.buffers i there);
  },
  ap (λ x. x.length) (one_piece here same),
  ap (λ x. x.size) (one_piece here same),
)

-- The storage with new bytes in the buffer of the piece.
abbrev pub Stored : (e : Env) (s : Storage) (piece : ℕ) → InBuffer s piece → Storage → Type 0
Stored e s piece b u =
    (bytes : List ℕ) × (size : ℕ) × (u ≡ record s {
      pieces = set s.pieces piece (record b.x { size = size });
      buffers = set s.buffers b.i (record b.y { buffer = bytes; accessed = some (now e s) });
      ticks = s.ticks + 1;
    })

module _ (e : Env) {s : Storage} (v : IsValid s) (piece : ℕ) (b : InBuffer s piece) where
  open b use {x, i, y}

  stored : List ℕ → Buffer
  stored bytes = record y { buffer = bytes; accessed = some (now e s) }

  sized : ℕ → Piece
  sized size = record x { size = size }

  store_lem :
      (bytes : List ℕ) (size : ℕ)
      → store e s piece x y bytes size ≡ record s {
        pieces = set s.pieces piece (sized size);
        buffers = set s.buffers i (stored bytes);
        ticks = s.ticks + 1;
      }
  unfolding store stored sized
  store_lem bytes size =
      ap
        (λ j. record s {
          pieces = set s.pieces piece (sized size);
          buffers = set s.buffers j (stored bytes);
          ticks = s.ticks + 1;
        })
        (ap pos_part b.at_i)

  -- The copy leaves a valid storage,
  store-IsValid :
      (bytes : List ℕ) (size : ℕ)
      → length bytes ≡ length y.buffer
      → IsValid (store e s piece x y bytes size)
  unfolding stored sized
  store-IsValid bytes size same =
      let x_ok = v.pieces_ok piece x b.at_piece in
      let y_ok = v.buffers_ok i y b.at_buffer in
      subst IsValid (sym (store_lem bytes size)) (
        update-IsValid v piece i b.at_piece b.at_buffer (sized size) (stored bytes) (s.ticks + 1)
          (record {
            index = x_ok.index;
            fits = x_ok.fits;
            bi_slot = x_ok.bi_slot;
            not_completed = x_ok.not_completed;
            not_read = x_ok.not_read;
          })
          (record {
            index = y_ok.index;
            bytes = same ∙ y_ok.bytes;
            pi_slot = y_ok.pi_slot;
            used = y_ok.used;
          })
          refl refl)

  -- in which the piece lies in the buffer with the new bytes.
  store-InBuffer :
      (bytes : List ℕ) (size : ℕ)
      → (b' : InBuffer (store e s piece x y bytes size) piece) × (b'.y.buffer ≡ bytes)
  unfolding stored sized
  store-InBuffer bytes size =
      subst (λ u. (b' : InBuffer u piece) × (b'.y.buffer ≡ bytes)) (sym (store_lem bytes size))
        (
          record {
            x = sized size;
            i = i;
            y = stored bytes;
            at_piece = get_elem?-set_self s.pieces piece _ (get_elem?-lt s.pieces piece b.at_piece);
            at_i = b.at_i;
            at_buffer = get_elem?-set_self s.buffers i _ (get_elem?-lt s.buffers i b.at_buffer);
          },
          refl,
        )

  pub store-bytes :
      (bytes : List ℕ) (size : ℕ)
      → (st : Stored e s piece b (store e s piece x y bytes size)) × (st.0 ≡ bytes)
  unfolding stored sized
  store-bytes bytes size = ((bytes, size, store_lem bytes size), refl)

  pub store-Stored :
      (bytes : List ℕ) (size : ℕ)
      → length bytes ≡ length y.buffer
      → IsValid (store e s piece x y bytes size)
        × Stored e s piece b (store e s piece x y bytes size)
  unfolding stored sized
  store-Stored bytes size same =
      (store-IsValid bytes size same, (bytes, size, store_lem bytes size))

  pub write_bytes_lem :
      (bufs : List Iovec) (offset : ℕ)
      → s.piece_length < 2 ^ 31
      → offset + byte_total bufs ≤ x.length
      → x.size + byte_total bufs < 2 ^ 31
      → (u : Storage) × (write_bytes e s bufs piece offset ≡ ok (byte_total bufs, u))
        × IsValid u
        × (u.piece_length ≡ s.piece_length)
        × Holds piece offset bufs u
        × ((st : Stored e s piece b u) × Overlaid y.buffer offset bufs st.0)
  unfolding write_bytes add_int store stored sized
  write_bytes_lem bufs offset small fits sum =
      let x_fits = (v.pieces_ok piece x b.at_piece).fits in
      let y_total = (v.buffers_ok i y b.at_buffer).bytes in
      let (bytes, q, same, before, behind, reads) =
        copy_in_lem x.length bufs y.buffer offset (omega arith) (omega arith) fits in
      let size = x.size + byte_total bufs in
      let (b', here) = store-InBuffer bytes size in
      (
        store e s piece x y bytes size,
        rw (b.at_piece, found_buffer b, q, ltb-true size (2 ^ 31) sum) refl,
        store-IsValid bytes size same,
        refl,
        (b', subst (λ l. Reads l offset bufs) (sym here) reads),
        (
          (bytes, size, store_lem bytes size),
          (
            same,
            before offset (omega arith),
            reads,
            behind (offset + byte_total bufs) (omega arith),
          ),
        ),
      )
