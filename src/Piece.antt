-- ===== src/Piece.antt =====
-- memory_storage.hpp, struct memory_piece: what the storage knows of one piece of the torrent.
use libtorrent_go.Base.{ℕ, Bool, false, not, ℤ, ◌==ℤ◌, minus_one}

-- `bi` is the index of the buffer that holds the piece, -1 if none does.
pub record Piece : Type 0 where
  pub index : ℕ
  pub length : ℕ
  pub size : ℕ
  pub bi : ℤ
  pub is_completed : Bool
  pub is_read : Bool

unfoldable pub new_piece : ℕ → ℕ → Piece
new_piece i length = record {
  index = i;
  length = length;
  size = 0;
  bi = minus_one;
  is_completed = false;
  is_read = false;
}

unfoldable pub is_buffered : Piece → Bool
is_buffered p = not (p.bi ==ℤ minus_one)

unfoldable pub reset_piece : Piece → Piece
reset_piece p = record p { bi = minus_one; is_completed = false; is_read = false; size = 0 }
