-- ===== src/Storage/Memory.antt =====
-- How much memory the buffers of memory_storage.hpp take.
use libtorrent_go.Base.{
  ℕ, zero, suc, ◌+◌, ◌*◌, ◌/◌, ◌≤◌, ◌≡◌, refl, ap, ◌∙◌, List, [], ◌∷◌, pos, pos_part, sym, arith,
  length, Each,
}
use native.Mathlib.Nat.{div-mul-le_self, mul-le-mul_right, add-mul}
use libtorrent_go.Buffer.{Buffer}
use libtorrent_go.Storage.{Storage}
use libtorrent_go.Storage.Valid.{IsValid}

-- The bytes of all the buffers.
unfoldable pub bytes_held : List Buffer → ℕ
bytes_held [] = 0
bytes_held (b ∷ bs) = length b.buffer + bytes_held bs

bytes_held_lem :
    (n : ℕ) (bs : List Buffer)
    → Each (λ _ b. length b.buffer ≡ n) bs
    → bytes_held bs ≡ length bs * n
unfolding bytes_held
bytes_held_lem n [] h = omega arith
bytes_held_lem n (b ∷ bs) h =
    let rest = bytes_held_lem n bs (λ i. h (suc i)) in
    let one = h zero b refl in grind (arith, rest, one)

-- The buffers of a valid storage take no more than its capacity and two pieces on top, and no more
-- than all the pieces at their full length.
pub memory_bound :
    {s : Storage} (c : ℕ)
    → IsValid s
    → s.capacity ≡ pos c
    → (bytes_held s.buffers ≤ c + 2 * s.piece_length)
      × (bytes_held s.buffers ≤ s.piece_count * s.piece_length)
memory_bound {s} c v limit =
    let n = length s.buffers in
    let k = s.piece_length in
    let total = bytes_held_lem k s.buffers (λ i b here. (v.buffers_ok i b here).bytes) in
    let (c', same, size) = v.sized in
    let at_c : c ≡ c' = ap pos_part (sym limit ∙ same) in
    let few : n ≤ c / k + 2 = omega (arith, ap (λ x. x / k) at_c) in
    let divided : (c / k) * k ≤ c = div-mul-le_self c k in
    let by_memory : n * k ≤ (c / k + 2) * k = mul-le-mul_right k few in
    let spread : (c / k + 2) * k ≡ (c / k) * k + 2 * k = add-mul (c / k) 2 k in
    let by_pieces : n * k ≤ s.piece_count * k = mul-le-mul_right k (omega (arith, size)) in
    (omega (arith, total, by_memory, spread, divided), omega (arith, total, by_pieces))
