-- ===== src/Storage/Transfer/ReadBytes.antt =====
-- The copy of `read` in memory_storage.hpp, for a piece that lies in a buffer of a valid storage.
use libtorrent_go.Base.{
  ℕ, ◌+◌, ◌-◌, ◌^◌, ◌≤◌, ◌<◌, ◌≡◌, pos_part, refl, sym, ap, ◌∙◌, subst, true, false, List, pos,
  arith, min, length, set, ok, some, take, drop, sub_ℕ, ltb_ℤ, leb_ℤ, ◌++◌, if◌then◌else◌, to_int32,
  sub_size, to_int32-sub_size, leb,
}
use libtorrent_go.Storage.{Call}
use libtorrent_go.Base.{◌⊎◌, inr, Bool, get_elem?, set-get_elem?}
use libtorrent_go.Piece.{Piece}
use libtorrent_go.Buffer.{Buffer, memcpy_from}
use libtorrent_go.Storage.{Storage, Env, now}
use libtorrent_go.Storage.Valid.{IsValid}
use libtorrent_go.Storage.Update.{update-IsValid}
use libtorrent_go.Storage.Transfer.{read_bytes, finish_read, mark_read, touch}
use libtorrent_go.Storage.Transfer.Write.{InBuffer, found_buffer}
use libtorrent_go.Buffer.Copy.{leb-true}

-- On a valid storage no piece is marked as read.
mark_read_lem : (p : Piece) (end : ℕ) → p.is_completed ≡ false → mark_read p end ≡ p
unfolding mark_read
mark_read_lem p end h = rw h refl

-- What a read may change: the flag and the log of calls, or the flag, the clock and the time at which one
-- buffer was used last.
abbrev pub ReadStep : Env → Storage → Storage → Type 0
ReadStep e s u =
    ((reading : Bool) × (calls : List Call) × (u
        ≡ record s { is_reading = reading; calls = calls }))
    ⊎ ((reading : Bool) × (i : ℕ) × (b : Buffer) × (get_elem? s.buffers i ≡ some b)
        × (u ≡ record s {
          is_reading = reading;
          buffers = set s.buffers i (record b { accessed = some (now e s) });
          ticks = s.ticks + 1;
        }))

module _ (e : Env) {s : Storage} (v : IsValid s) (piece : ℕ) (b : InBuffer s piece) where
  open b use {x, i, y}

  touched : Buffer
  touched = record y { accessed = some (now e s) }

  finish_read_lem :
      (end : ℕ)
      → finish_read e s piece x y end ≡ record s {
        pieces = set s.pieces piece x;
        buffers = set s.buffers i touched;
        ticks = s.ticks + 1;
      }
  unfolding finish_read touch touched
  finish_read_lem end =
      ap
        (λ p. record s {
          pieces = set s.pieces piece p;
          buffers = set s.buffers (pos_part x.bi) touched;
          ticks = s.ticks + 1;
        })
        (mark_read_lem x end (v.pieces_ok piece x b.at_piece).not_completed)
      ∙ ap
          (λ z. record s {
            pieces = set s.pieces piece x;
            buffers = set s.buffers (pos_part z) touched;
            ticks = s.ticks + 1;
          })
          b.at_i

  pub finish_read-ReadStep : (end : ℕ) → ReadStep e s (finish_read e s piece x y end)
  unfolding touched
  finish_read-ReadStep end = inr (
    s.is_reading,
    i,
    y,
    b.at_buffer,
    finish_read_lem end
        ∙ ap (λ l. record s { pieces = l; buffers = set s.buffers i touched; ticks = s.ticks + 1 })
            (set-get_elem? s.pieces piece b.at_piece),
  )

  -- The end of a read leaves a valid storage.
  pub finish_read-IsValid : (end : ℕ) → IsValid (finish_read e s piece x y end)
  unfolding touched
  finish_read-IsValid end =
      let y_ok = v.buffers_ok i y b.at_buffer in
      subst IsValid (sym (finish_read_lem end)) (
        update-IsValid v piece i b.at_piece b.at_buffer x touched (s.ticks + 1)
          (v.pieces_ok piece x b.at_piece)
          (record {
            index = y_ok.index;
            bytes = y_ok.bytes;
            pi_slot = y_ok.pi_slot;
            used = y_ok.used;
          })
          refl refl)

  module _ (read_buf : List ℕ) (offset : ℕ) (start : offset < 2 ^ 31) where
    -- The bytes that the code calls `available`, before the cap.
    available_lem : to_int32 (sub_size (length y.buffer) offset) ≡ sub_ℕ s.piece_length offset
    available_lem =
        let total = (v.buffers_ok i y b.at_buffer).bytes in
        ap (λ k. to_int32 (sub_size k offset)) total
        ∙ to_int32-sub_size s.piece_length offset v.small start

    pub past_end :
        s.piece_length ≤ offset
        → read_bytes e s read_buf (pos (length read_buf)) piece x offset ≡ ok (pos 0, read_buf, s)
    unfolding read_bytes
    past_end h =
        let nothing : leb_ℤ (sub_ℕ s.piece_length offset) (pos 0) ≡ true = ground arith in
        rw (found_buffer b, available_lem, nothing) refl

    abbrev pub n : ℕ
    n = min (length read_buf) (s.piece_length - offset)

    pub read_inside :
        offset < s.piece_length
        → read_bytes e s read_buf (pos (length read_buf)) piece x offset
          ≡ ok (
            pos (length read_buf),
            take n (drop offset y.buffer) ++ drop n read_buf,
            finish_read e s piece x y (offset + n),
          )
    unfolding read_bytes memcpy_from
    read_inside h =
        let total = (v.buffers_ok i y b.at_buffer).bytes in
        let left : sub_ℕ s.piece_length offset ≡ pos (s.piece_length - offset) = ground arith in
        let something : leb_ℤ (pos (s.piece_length - offset)) (pos 0) ≡ false = ground arith in
        let capped : (if ltb_ℤ (pos (length read_buf)) (pos (s.piece_length - offset))
              then pos (length read_buf)
              else pos (s.piece_length - offset))
            ≡ pos n =
          ground arith in
        let inside : leb (offset + n) (length y.buffer) ≡ true =
          leb-true _ _ (omega (arith, total)) in
        let room : leb n (length read_buf) ≡ true = leb-true _ _ (omega arith) in
        rw (found_buffer b, available_lem, left, something, capped, inside, room) refl
