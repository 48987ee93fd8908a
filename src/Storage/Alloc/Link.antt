-- ===== src/Storage/Alloc/Link.antt =====
-- The body of the loop of `get_buffer` in memory_storage.hpp joins a piece and a free buffer of a valid
-- storage.
use libtorrent_go.Base.{
  ℕ, ◌≡◌, Bool, false, some, inl, inr, arith, get_elem?, get_elem?-lt, ap, ◌∙◌, sym, subst, pos,
  minus_one, length-set, Each-set,
}
use libtorrent_go.Slots.{slot_at, Linked-join}
use libtorrent_go.Piece.{Piece}
use libtorrent_go.Buffer.{Buffer}
use libtorrent_go.Storage.{Storage, Env}
use libtorrent_go.Storage.Valid.{HasSize, IsValid, IsPiece, IsBuffer, IsSlot-cases, IsSlot}
use libtorrent_go.Storage.Alloc.{link}

-- A buffer that is not in use holds nothing.
pub unused-pi :
    {s : Storage}
    → IsValid s
    → (i : ℕ) (b : Buffer) → get_elem? s.buffers i ≡ some b
    → b.is_used ≡ false
    → b.pi ≡ minus_one
unused-pi v i b there free = elim (IsSlot-cases b.pi (v.buffers_ok i b there).pi_slot) [
  | inl none_held ↦ none_held
  | inr (n, held) ↦ absurd (ground (arith, (v.buffers_ok i b there).used))
]

module _ (e : Env) {s : Storage} (v : IsValid s) (piece i : ℕ) {p : Piece} {b : Buffer}
    (here : get_elem? s.pieces piece ≡ some p) (there : get_elem? s.buffers i ≡ some b)
    (unbuffered : p.bi ≡ minus_one) (free : b.pi ≡ minus_one) where
  -- A free piece is joined to a free buffer.
  pub link-IsValid : (reserved : Bool) → IsValid (link e s piece p i b reserved)
  unfolding link
  link-IsValid reserved = record {
    initialized = v.initialized;
    handle = v.handle;
    torrent = v.torrent;
    piece_total = length-set s.pieces piece _ ∙ v.piece_total;
    buffer_total = v.buffer_total ∙ ap pos (sym (length-set s.buffers i _));
    positive = v.positive;
    small = v.small;
    sized = subst (HasSize s) (sym (length-set s.buffers i _)) v.sized;
    readers = v.readers;
    reserved = v.reserved;
    pieces_ok = Each-set (IsPiece s.piece_length) s.pieces piece _ v.pieces_ok (record {
      index = piece_ok.index;
      fits = piece_ok.fits;
      bi_slot = subst IsSlot (sym buffer_ok.index) tt;
      not_completed = piece_ok.not_completed;
      not_read = piece_ok.not_read;
    });
    buffers_ok = Each-set (IsBuffer s.piece_length) s.buffers i _ v.buffers_ok (record {
      index = buffer_ok.index;
      bytes = buffer_ok.bytes;
      pi_slot = tt;
      used = ground arith;
    });
    linked =
        Linked-join _ _ s.pieces s.buffers v.linked piece i _ _ (get_elem?-lt s.pieces piece here)
          (get_elem?-lt s.buffers i there) (slot_at _ s.pieces piece here ∙ unbuffered)
          (slot_at _ s.buffers i there ∙ free) buffer_ok.index (ap pos piece_ok.index);
  }
    where
      piece_ok : IsPiece s.piece_length piece p
      piece_ok = v.pieces_ok piece p here

      buffer_ok : IsBuffer s.piece_length i b
      buffer_ok = v.buffers_ok i b there
