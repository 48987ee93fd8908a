-- ===== src/Storage/Setup/Race.antt =====
-- Two calls of `set_memory_size` in memory_storage.hpp at once: its test comes before the lock and is not
-- repeated under it.
use libtorrent_go.Base.{
  ◌-◌, ◌≤◌, leb_ℤ, true, false, ℕ, ◌+◌, ◌/◌, ◌^◌, ◌<◌, ◌≡◌, refl, sym, ap, ◌∙◌, pos, arith, min,
  length, ok, pos_part,
}
use libtorrent_go.Storage.Setup.{set_memory_size, enlarge}
use libtorrent_go.Storage.{Storage}
use libtorrent_go.Storage.Valid.{IsValid}
use libtorrent_go.Storage.Setup.Capacity.{max_buffers_lem, push_buffers_lem}
use libtorrent_go.Storage.Setup.Safe.{grown, grown-IsValid, resize_lem}

grown-total :
    {s : Storage} (memory n : ℕ)
    → IsValid s
    → length (grown s memory n).buffers ≡ length s.buffers + (n - length s.buffers)
unfolding grown
grown-total {s} memory n v =
    omega
      (arith, (push_buffers_lem s.piece_length (n - length s.buffers) s.buffers v.buffers_ok).total)

grown-size : (s : Storage) (memory n : ℕ) → (grown s memory n).buffer_size ≡ pos n
unfolding grown
grown-size s memory n = refl

-- `set_memory_size` under the lock, for any size.
pub enlarge_lem :
    {s : Storage} (memory : ℕ)
    → IsValid s
    → memory / s.piece_length + 2 < 2 ^ 31
    → enlarge s (pos memory) ≡ ok (grown s memory (min (memory / s.piece_length + 2) s.piece_count))
enlarge_lem {s} memory v count =
    rw (max_buffers_lem memory s.piece_length s.piece_count v.positive count)
      (ap ok (resize_lem s memory _ v.buffer_total))

grown-sizes :
    (s : Storage) (memory n : ℕ)
    → ((grown s memory n).piece_length ≡ s.piece_length)
      × ((grown s memory n).piece_count ≡ s.piece_count)
      × ((grown s memory n).capacity ≡ pos memory)
unfolding grown
grown-sizes s memory n = (refl, refl, refl)

-- On a valid storage, for two sizes above its capacity whose numbers of buffers fit `int`, the
-- smaller with room for fewer buffers: each of two calls of `set_memory_size` goes on from its
-- test to the lock, and if the one with the larger size locks first, then the other takes back the
-- capacity and the number of buffers but not the buffers, so that the storage is not valid any
-- more. One after the other, the second call changes nothing.
pub race-shrinks :
    {s : Storage} (small big : ℕ)
    → IsValid s
    → leb_ℤ (pos small) s.capacity ≡ false
    → leb_ℤ (pos big) s.capacity ≡ false
    → small ≤ big
    → small / s.piece_length + 2 < 2 ^ 31
    → big / s.piece_length + 2 < 2 ^ 31
    → min (small / s.piece_length + 2) s.piece_count < min (big / s.piece_length + 2) s.piece_count
    → (u w : Storage) × (set_memory_size s (pos small) ≡ enlarge s (pos small))
      × (set_memory_size s (pos big) ≡ ok u)
      × (enlarge u (pos small) ≡ ok w)
      × (w.capacity ≡ pos small)
      × (w.buffer_size ≡ pos (min (small / s.piece_length + 2) s.piece_count))
      × (length w.buffers ≡ min (big / s.piece_length + 2) s.piece_count)
      × (¬ IsValid w)
      × (set_memory_size u (pos small) ≡ ok u)
unfolding set_memory_size grown
race-shrinks {s} small big v passes passes' below fits fits' fewer =
    let n = min (small / s.piece_length + 2) s.piece_count in
    let m = min (big / s.piece_length + 2) s.piece_count in
    let u = grown s big m in
    let w = grown u small n in
    let (valid, _) = grown-IsValid big v (ground arith) in
    let total : length u.buffers ≡ m = ap pos_part (sym valid.buffer_total ∙ grown-size s big m) in
    let all : length w.buffers ≡ m = omega (arith, total, fewer, grown-total small n valid) in
    let not_below : leb_ℤ (pos small) u.capacity ≡ true =
      ap (leb_ℤ (pos small)) (grown-sizes s big m).2 ∙ ground arith in
    (
      u,
      w,
      rw passes refl,
      rw passes' (enlarge_lem big v fits'),
      enlarge_lem small valid fits,
      (grown-sizes u small n).2,
      grown-size u small n,
      all,
      λ k.
          let same : n ≡ m = ap pos_part (sym (grown-size u small n) ∙ k.buffer_total) ∙ all in
          omega (arith, same, fewer),
      rw not_below refl,
    )
