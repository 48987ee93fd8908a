-- ===== src/Storage/Update.antt =====
-- A piece and a buffer of a valid storage (memory_storage.hpp) are changed in place, with their link
-- kept.
use libtorrent_go.Base.{
  ℕ, ◌≡◌, sym, ap, ◌∙◌, subst, some, pos, get_elem?, set, length-set, Each-set,
}
use libtorrent_go.Slots.{Linked-set_left, Linked-set_right}
use libtorrent_go.Piece.{Piece}
use libtorrent_go.Buffer.{Buffer}
use libtorrent_go.Storage.{Storage}
use libtorrent_go.Storage.Valid.{HasSize, IsValid, IsPiece, IsBuffer}

module _ {s : Storage} (v : IsValid s) (piece i : ℕ) {x : Piece} {y : Buffer}
    (at_piece : get_elem? s.pieces piece ≡ some x) (at_i : get_elem? s.buffers i ≡ some y) where
  pub update-IsValid :
      (x' : Piece) (y' : Buffer) (ticks : ℕ)
      → IsPiece s.piece_length piece x'
      → IsBuffer s.piece_length i y'
      → x'.bi ≡ x.bi
      → y'.pi ≡ y.pi
      → IsValid
          (record s { pieces = set s.pieces piece x'; buffers = set s.buffers i y'; ticks = ticks })
  update-IsValid x' y' ticks x_ok y_ok same_bi same_pi = record {
    initialized = v.initialized;
    handle = v.handle;
    torrent = v.torrent;
    piece_total = length-set s.pieces piece x' ∙ v.piece_total;
    buffer_total = v.buffer_total ∙ ap pos (sym (length-set s.buffers i y'));
    positive = v.positive;
    small = v.small;
    sized = subst (HasSize s) (sym (length-set s.buffers i y')) v.sized;
    readers = v.readers;
    reserved = v.reserved;
    pieces_ok = Each-set (IsPiece s.piece_length) s.pieces piece x' v.pieces_ok x_ok;
    buffers_ok = Each-set (IsBuffer s.piece_length) s.buffers i y' v.buffers_ok y_ok;
    linked =
        Linked-set_right _ _ (set s.pieces piece x') s.buffers
          (Linked-set_left _ _ s.pieces s.buffers v.linked piece x' at_piece same_bi) i y' at_i
          same_pi;
  }
