-- ===== src/Storage/Setup/Capacity.antt =====
-- How many buffers the constructor and `set_memory_size` of memory_storage.hpp ask for, and what they
-- push.
use libtorrent_go.Base.{
  ℕ, zero, suc, ◌+◌, ◌/◌, ◌^◌, ◌≤◌, ◌<◌, ◌≡◌, refl, sym, ap, ◌∙◌, subst, List, [], ◌∷◌, ◌++◌, pos,
  minus_one, arith, min, ◌+ℤ◌, ◌/ℤ◌, length, length-append, length-replicate, Each, Each-snoc,
  Each-cons, Each-nil, ok,
}
use libtorrent_go.Slots.{slot}
use libtorrent_go.Piece.{new_piece}
use libtorrent_go.Buffer.{Buffer, new_buffer}
use libtorrent_go.Storage.Valid.{IsPiece, IsBuffer}
use libtorrent_go.Storage.Setup.{as_int, max_buffers, push_buffers, push_pieces}

-- For memory of `m` bytes and a positive piece length the number of buffers is `m / piece_length`,
-- rounded down, plus 2, and at most the number of pieces, where that sum is below 2^31.
pub max_buffers_lem :
    (m piece_length piece_count : ℕ)
    → 0 < piece_length
    → m / piece_length + 2 < 2 ^ 31
    → max_buffers (pos m) piece_length piece_count
      ≡ ok (pos (min (m / piece_length + 2) piece_count))
unfolding max_buffers as_int ◌+ℤ◌ ◌/ℤ◌
max_buffers_lem m piece_length piece_count h small = ground arith

slot-snoc :
    (bs : List Buffer) (b : Buffer) (i : ℕ)
    → b.pi ≡ minus_one
    → slot (λ b. b.pi) (bs ++ b ∷ []) i ≡ slot (λ b. b.pi) bs i
unfolding slot
slot-snoc [] b zero h = h
slot-snoc [] b (suc i) h = refl
slot-snoc (x ∷ bs) b zero h = refl
slot-snoc (x ∷ bs) b (suc i) h = slot-snoc bs b i h

new_buffer-IsBuffer :
    (piece_length i : ℕ) → IsBuffer piece_length i (new_buffer (pos i) piece_length)
unfolding new_buffer
new_buffer-IsBuffer piece_length i = record {
  index = refl;
  bytes = length-replicate piece_length 0;
  pi_slot = tt;
  used = refl;
}

-- Buffers pushed behind those that are there: each is well formed and free.
pub record Pushed (piece_length : ℕ) (bs bs' : List Buffer) (rounds : ℕ) : Type 0 where
  pub total : length bs' ≡ length bs + rounds
  pub all : Each (IsBuffer piece_length) bs'
  pub slots : (i : ℕ) → slot (λ b. b.pi) bs' i ≡ slot (λ b. b.pi) bs i

next_index : (n : ℕ) → pos n +ℤ pos 1 ≡ pos (suc n)
unfolding ◌+ℤ◌
next_index n = ground arith

pub push_buffers_lem :
    (piece_length rounds : ℕ) (bs : List Buffer)
    → Each (IsBuffer piece_length) bs
    → Pushed piece_length bs (push_buffers piece_length rounds (pos (length bs)) bs) rounds
unfolding push_buffers
push_buffers_lem piece_length zero bs all = record {
  total = omega arith;
  all = all;
  slots = λ i. refl;
}
push_buffers_lem piece_length (suc rounds) bs all =
    let b = new_buffer (pos (length bs)) piece_length in
    let more = bs ++ b ∷ [] in
    let one : length more ≡ suc (length bs) = omega (arith, length-append bs (b ∷ [])) in
    let rest =
      push_buffers_lem piece_length rounds more (
        Each-snoc (IsBuffer piece_length) bs b all
          (new_buffer-IsBuffer piece_length (length bs))) in
    let start = next_index (length bs) ∙ ap pos (sym one) in
    subst (λ z. Pushed piece_length bs (push_buffers piece_length rounds z more) (suc rounds))
      (sym start)
      (record {
        total = omega (arith, rest.total, one);
        all = rest.all;
        slots = λ i. rest.slots i ∙ slot-snoc bs b i (unfold new_buffer in refl);
      })

-- The pieces that the constructor pushes.
pub push_pieces_lem :
    (piece_length : ℕ) (piece_size : ℕ → ℕ) (i n : ℕ)
    → ((k : ℕ) → piece_size k ≤ piece_length)
    → (length (push_pieces piece_size i n) ≡ n)
      × Each (λ k. IsPiece piece_length (i + k)) (push_pieces piece_size i n)
unfolding push_pieces new_piece
push_pieces_lem piece_length piece_size i zero fits = (refl, Each-nil _)
push_pieces_lem piece_length piece_size i (suc n) fits =
    let (total, all) = push_pieces_lem piece_length piece_size (i + 1) n fits in
    (
      ap suc total,
      Each-cons _ _ _
          (record {
            index = omega arith;
            fits = fits i;
            bi_slot = tt;
            not_completed = refl;
            not_read = refl;
          })
          (λ k x e. subst (λ j. IsPiece piece_length j x) (omega arith) (all k x e)),
    )

pub push_pieces-slot :
    (piece_size : ℕ → ℕ) (i n k : ℕ) → slot (λ p. p.bi) (push_pieces piece_size i n) k ≡ minus_one
unfolding push_pieces new_piece slot
push_pieces-slot piece_size i zero k = refl
push_pieces-slot piece_size i (suc n) zero = refl
push_pieces-slot piece_size i (suc n) (suc k) = push_pieces-slot piece_size (i + 1) n k
