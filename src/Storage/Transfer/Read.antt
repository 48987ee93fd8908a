-- ===== src/Storage/Transfer/Read.antt =====
-- `read` of memory_storage.hpp on a valid storage: what it answers.
use libtorrent_go.Base.{
  ℕ, ◌-◌, ◌^◌, ◌≤◌, ◌<◌, ◌≡◌, refl, ap, ◌∙◌, true, List, pos, arith, min, length, ok, some, take,
  drop, ◌++◌, if◌then◌else◌, ◌||◌, leb, get_elem?, ℤ, Bool-cases, inl, not, minus_one, ◌⊎◌, inr,
  ltb, Bool,
}
use libtorrent_go.Piece.{Piece, is_buffered}
use libtorrent_go.Storage.{Storage, Env}
use libtorrent_go.Storage.Valid.{IsValid, members-IsValid}
use libtorrent_go.Storage.Transfer.{read_bytes, read, give_up, read_request}
use libtorrent_go.Storage.Transfer.Write.{InBuffer}
use libtorrent_go.Base.{Result, get_elem?_of_lt}
use libtorrent_go.Storage.Alloc.Safe.{get_read_buffer_lem, is_buffered_lem, not_buffered}
use libtorrent_go.Storage.Evict.Safe.{restore_piece_lem}
use libtorrent_go.Storage.Valid.{IsSlot-cases, held_buffer, counters-IsValid}
use libtorrent_go.Storage.Transfer.ReadBytes.{
  ReadStep, finish_read-ReadStep, n, past_end, read_inside, finish_read-IsValid,
}

reading-IsValid : {s : Storage} → IsValid s → IsValid (record s { is_reading = true })
reading-IsValid {s} v =
    members-IsValid s.m_handle s.t s.is_logging true s.buffer_limit s.buffer_used s.ticks s.calls v
      v.handle v.torrent

-- What `read` answers, and what is then in the memory at `read_buf`.
pub data Answer (s : Storage) (piece offset : ℕ) (read_buf : List ℕ) : ℤ → List ℕ → Type 0 where
  -- the piece has no buffer or fewer bytes than its length
  gone :
      (x : Piece)
      → get_elem? s.pieces piece ≡ some x
      → (x.bi ≡ minus_one) ⊎ (x.size < x.length)
      → Answer s piece offset read_buf minus_one read_buf
  -- the offset is behind the end
  behind :
      (b : InBuffer s piece)
      → b.x.length ≤ b.x.size
      → s.piece_length ≤ offset
      → Answer s piece offset read_buf (pos 0) read_buf
  -- the bytes up to the end of the buffer or of the request, and the length of the request
  copied :
      (b : InBuffer s piece) (n : ℕ)
      → b.x.length ≤ b.x.size
      → offset < s.piece_length
      → n ≡ min (length read_buf) (s.piece_length - offset)
      → Answer s piece offset read_buf
          (pos (length read_buf))
          (take n (drop offset b.y.buffer) ++ drop n read_buf)

abbrev Answered : Env → Storage → ℕ → ℕ → List ℕ → Result (ℤ × List ℕ × Storage) → Type 0
Answered e s piece offset read_buf m =
    (r : ℤ) × (out : List ℕ) × (u : Storage) × (m ≡ ok (r, out, u))
    × Answer s piece offset read_buf r out
    × IsValid u
    × ReadStep e s u

gone_lem :
    (e : Env) {s : Storage} (v : IsValid s) (piece offset : ℕ) (read_buf : List ℕ) (x : Piece)
    → get_elem? s.pieces piece ≡ some x
    → (x.bi ≡ minus_one) ⊎ (x.size < x.length)
    → Answered e s piece offset read_buf (give_up s piece read_buf)
unfolding give_up
gone_lem e {s} v piece offset read_buf x here why =
    let (c, q) = restore_piece_lem (pos piece) v in
    (
      minus_one,
      read_buf,
      record s { calls = c },
      rw q refl,
      gone x here why,
      counters-IsValid s.buffer_limit s.buffer_used s.ticks c v,
      inl (s.is_reading, c, refl),
    )

bytes_lem :
    (e : Env) {s : Storage} (v : IsValid s) (piece offset : ℕ) (read_buf : List ℕ)
    (b : InBuffer s piece)
    → offset < 2 ^ 31
    → b.x.length ≤ b.x.size
    → Answered e s piece offset read_buf
        (read_bytes e s read_buf (pos (length read_buf)) piece b.x offset)
bytes_lem e {s} v piece offset read_buf b start whole =
    elim (Bool-cases (leb s.piece_length offset)) [
      | inl past ↦ (
        pos 0,
        read_buf,
        s,
        past_end e v piece b read_buf offset start (ground arith),
        behind b whole (ground arith),
        v,
        inl (s.is_reading, s.calls, refl),
      )
      | inr inside ↦
          let here : offset < s.piece_length = ground arith in
          (
            _,
            _,
            _,
            read_inside e v piece b read_buf offset start here,
            copied b _ whole here refl,
            finish_read-IsValid e v piece b _,
            finish_read-ReadStep e v piece b _,
          )
    ]

request_lem :
    (e : Env) {s : Storage} (v : IsValid s) (piece offset : ℕ) (read_buf : List ℕ) (x : Piece)
    → get_elem? s.pieces piece ≡ some x
    → offset < 2 ^ 31
    → Answered e s piece offset read_buf (
        if not (is_buffered x) || ltb x.size x.length
        then give_up s piece read_buf
        else read_bytes e s read_buf (pos (length read_buf)) piece x offset)
request_lem e {s} v piece offset read_buf x here start =
    elim (IsSlot-cases x.bi (v.pieces_ok piece x here).bi_slot) [
      | inl free ↦ rw (not_buffered x free) (gone_lem e v piece offset read_buf x here (inl free))
      | inr (i, at_i) ↦
          let (y, there, _) = held_buffer v piece i here at_i in
          elim (Bool-cases (ltb x.size x.length)) [
            | inl less ↦
                rw (is_buffered_lem x at_i, less)
                  (gone_lem e v piece offset read_buf x here (inr (ground arith)))
            | inr whole ↦
                rw (is_buffered_lem x at_i, whole)
                  (bytes_lem e v piece offset read_buf
                    (record {
                      x = x;
                      i = i;
                      y = y;
                      at_piece = here;
                      at_i = at_i;
                      at_buffer = there;
                    })
                    start (ground arith))
          ]
    ]

module _ {s : Storage} (reading : Bool) where
  InBuffer-reading :
      {piece : ℕ} → InBuffer (record s { is_reading = reading }) piece → InBuffer s piece
  InBuffer-reading b = record {
    x = b.x;
    i = b.i;
    y = b.y;
    at_piece = b.at_piece;
    at_i = b.at_i;
    at_buffer = b.at_buffer;
  }

  Answer-reading :
      {piece offset : ℕ} {read_buf : List ℕ} {r : ℤ} {out : List ℕ}
      → Answer (record s { is_reading = reading }) piece offset read_buf r out
      → Answer s piece offset read_buf r out
  unfolding InBuffer-reading
  Answer-reading (gone x here why) = gone x here why
  Answer-reading (behind b whole past) = behind (InBuffer-reading b) whole past
  Answer-reading (copied b n whole inside size) = copied (InBuffer-reading b) n whole inside size

ReadStep-reading :
    (e : Env) (s : Storage) {u : Storage} (reading : Bool)
    → ReadStep e (record s { is_reading = reading }) u
    → ReadStep e s u
ReadStep-reading e s reading (inl step) = inl step
ReadStep-reading e s reading (inr step) = inr step

-- On a valid storage, for a piece in range and an offset of less than 2^31, `read` into memory of
-- the size asked for ends without a fault in one of three ways, and the storage is valid: -1 and
-- nothing copied if the piece is not whole in a buffer; 0 and nothing copied if the offset is
-- behind the end; else the bytes from the offset up to the end of the buffer or of the request are
-- copied, and the answer is the size asked for, also where fewer bytes were copied. The storage is
-- as before but for the reading flag and the log of calls, or for the reading flag, the clock and
-- the time of the last use of one buffer.
pub read-answers :
    (e : Env) {s : Storage} (piece offset : ℕ) (read_buf : List ℕ)
    → IsValid s
    → piece < s.piece_count
    → offset < 2 ^ 31
    → (r : ℤ) × (out : List ℕ) × (u : Storage) × (read e s read_buf
          (pos (length read_buf))
          piece
          offset
        ≡ ok (r, out, u))
      × Answer s piece offset read_buf r out
      × IsValid u
      × ReadStep e s u
unfolding read read_request
read-answers e {s} piece offset read_buf v h start =
    let (x, here) = get_elem?_of_lt s.pieces piece (omega (arith, v.piece_total)) in
    let s1 = record s { is_reading = true } in
    let (r, out, u, q, answer, w, step) =
      request_lem e (reading-IsValid v) piece offset read_buf x here start in
    (
      r,
      out,
      u,
      ap
            (λ c.
              if not c
              then ok (pos 0, read_buf, s)
              else read_request e s read_buf (pos (length read_buf)) piece offset)
            v.initialized
          ∙ rw (get_read_buffer_lem e {s = s1} piece here, here) q,
      Answer-reading true answer,
      w,
      ReadStep-reading e s true step,
    )
