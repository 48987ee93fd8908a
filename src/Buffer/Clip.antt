-- ===== src/Buffer/Clip.antt =====
-- The copying loop of `writev` in memory_storage.hpp for requests that pass the end of the piece, and for
-- requests that start behind it.
use libtorrent_go.Base.{
  take-take, ℕ, ◌+◌, ◌-◌, ◌^◌, ◌≤◌, ◌<◌, ◌≡◌, refl, false, List, [], ◌∷◌, arith, min, length, take,
  length-take, ok, fault, leb, sub_size, sub_size_le, to_int32_small, ◌>>=◌, sub_size_lt,
}
use libtorrent_go.Buffer.{Iovec, to_copy, memcpy_to, copy_in, byte_total}
use libtorrent_go.Buffer.Copy.{leb-true}

-- The vectors cut to `room` bytes in all.
unfoldable pub clip : ℕ → List Iovec → List Iovec
clip room [] = []
clip room (v ∷ bufs) = take (min room (length v)) v ∷ clip (room - length v) bufs

pub byte_total-clip :
    (room : ℕ) (bufs : List Iovec) → byte_total (clip room bufs) ≡ min room (byte_total bufs)
unfolding clip byte_total
byte_total-clip room [] = omega arith
byte_total-clip room (v ∷ bufs) =
    omega (arith, byte_total-clip (room - length v) bufs, length-take (min room (length v)) v)

-- Inside the piece the loop copies what room there is.
to_copy-min :
    (room offset n : ℕ)
    → offset ≤ room
    → room < 2 ^ 31
    → to_copy room offset n ≡ ok (min (room - offset) n)
unfolding to_copy
to_copy-min room offset n h small =
    let whole : sub_size room offset ≡ room - offset = sub_size_le room offset (omega arith) h in
    rw (whole, to_int32_small (min (room - offset) n) (omega arith)) refl

memcpy_to-take :
    (buffer : List ℕ) (offset : ℕ) (v : List ℕ) (n : ℕ)
    → n ≤ length v
    → memcpy_to buffer offset (take n v) n ≡ memcpy_to buffer offset v n
unfolding memcpy_to
memcpy_to-take buffer offset v n h =
    rw
      (
        leb-true n (length (take n v)) (omega (arith, length-take n v)),
        leb-true n (length v) h,
        take-take n n v (omega arith),
      )
      refl

-- A request that starts inside the piece is cut at its end.
pub copy_in-clip :
    (room : ℕ) (bufs : List Iovec) (buffer : List ℕ) (offset : ℕ)
    → room < 2 ^ 31
    → offset ≤ room
    → copy_in room buffer offset (clip (room - offset) bufs) ≡ copy_in room buffer offset bufs
unfolding copy_in clip
copy_in-clip room [] buffer offset small h = refl
copy_in-clip room (v ∷ bufs) buffer offset small h =
    let n = min (room - offset) (length v) in
    let cut : length (take n v) ≡ n = omega (arith, length-take n v) in
    let same : min (room - offset) n ≡ n = omega arith in
    let left : room - offset - length v ≡ room - (offset + n) = omega arith in
    rw
      (
        to_copy-min room offset (length (take n v)) h small,
        to_copy-min room offset (length v) h small,
        cut,
        same,
        memcpy_to-take buffer offset v n (omega arith),
        left,
      )
      (λ i. memcpy_to buffer offset v n >>= λ buffer'.
        (copy_in-clip room bufs buffer' (offset + n) small (omega arith) i >>= λ rest.
        ok (rest.0, n + rest.1)))

-- Behind the end the room is a huge `size_t`, so nothing is cut, and the copy may leave the buffer.
pub copy_in-fault :
    (room : ℕ) (v : Iovec) (bufs : List Iovec) (buffer : List ℕ) (offset : ℕ)
    → room < offset
    → offset < 2 ^ 31
    → length v < 2 ^ 31
    → length buffer < offset + length v
    → copy_in room buffer offset (v ∷ bufs) ≡ fault
unfolding copy_in to_copy memcpy_to
copy_in-fault room v bufs buffer offset h small short out =
    let huge : min (sub_size room offset) (length v) ≡ length v =
      omega (arith, sub_size_lt room offset h small) in
    let past : leb (offset + length v) (length buffer) ≡ false = ground arith in
    rw (huge, to_int32_small (length v) short, past) refl
