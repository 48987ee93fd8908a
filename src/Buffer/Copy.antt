-- ===== src/Buffer/Copy.antt =====
-- The copying loops of `readv` and `writev` in memory_storage.hpp, within the bounds of the buffer:
-- what is copied in is what is copied out.
use libtorrent_go.Base.{
  take-all, drop-all, take-append, drop-append, take-take, take-append_le, take-drop,
  drop-append_add, drop-drop, map, ℕ, ◌+◌, ◌-◌, ◌^◌, ◌≤◌, ◌<◌, ◌≡◌, refl, sym, ap, ◌∙◌, true, List,
  [], ◌∷◌, ◌++◌, arith, min, length, take, drop, length-append, length-take, length-drop, ok,
  sub_size, sub_size_le, to_int32_small, leb,
}
use mathlib.Core.List.{append-nil}
use libtorrent_go.Buffer.{Iovec, to_copy, memcpy_from, memcpy_to, copy_out, copy_in, byte_total}

-- The bytes with `v` written over them at `offset`.
abbrev splice : List ℕ → ℕ → List ℕ → List ℕ
splice buffer offset v = take offset buffer ++ v ++ drop (offset + length v) buffer

module _ (buffer : List ℕ) (offset : ℕ) (v : List ℕ)
    (fits : offset + length v ≤ length buffer) where
  length-splice : length (splice buffer offset v) ≡ length buffer
  length-splice = omega (
    arith,
    length-append (take offset buffer ++ v) (drop (offset + length v) buffer),
    length-append (take offset buffer) v,
    length-take offset buffer,
    length-drop (offset + length v) buffer,
  )

  length-prefix : length (take offset buffer) ≡ offset
  length-prefix = omega (arith, length-take offset buffer)

  take-splice : (k : ℕ) → k ≤ offset → take k (splice buffer offset v) ≡ take k buffer
  take-splice k h =
      take-append_le k (take offset buffer ++ v) _
        (omega (arith, length-prefix, length-append (take offset buffer) v))
      ∙ take-append_le k (take offset buffer) v (omega (arith, length-prefix))
      ∙ take-take k offset buffer h

  window-splice : take (length v) (drop offset (splice buffer offset v)) ≡ v
  window-splice =
      let front = take offset buffer ++ v in
      take-drop (length v) offset (length front) (splice buffer offset v)
        (omega (arith, length-prefix, length-append (take offset buffer) v))
      ∙ ap (drop offset) (take-append front (drop (offset + length v) buffer))
      ∙ ap (λ k. drop k front) (sym length-prefix)
      ∙ drop-append (take offset buffer) v

  drop-splice : (k : ℕ) → offset + length v ≤ k → drop k (splice buffer offset v) ≡ drop k buffer
  drop-splice k h =
      let front = take offset buffer ++ v in
      let total : length front ≡ offset + length v =
        omega (arith, length-prefix, length-append (take offset buffer) v) in
      ap (λ n. drop n (splice buffer offset v)) (omega (arith, total))
      ∙ drop-append_add front (drop (offset + length v) buffer) (k - (offset + length v))
      ∙ drop-drop (k - (offset + length v)) (offset + length v) buffer
      ∙ ap (λ n. drop n buffer) (omega arith)

pub leb-true : (a b : ℕ) → a ≤ b → leb a b ≡ true
leb-true a b h = ground arith

to_copy_lem : (room offset n : ℕ) → offset + n ≤ room → room < 2 ^ 31 → to_copy room offset n ≡ ok n
unfolding to_copy
to_copy_lem room offset n h small =
    let whole : sub_size room offset ≡ room - offset =
      sub_size_le room offset (omega arith) (omega arith) in
    let least : min (sub_size room offset) n ≡ n = rw whole (omega arith) in
    rw (least, to_int32_small n (omega arith)) refl

memcpy_to_lem :
    (buffer : List ℕ) (offset : ℕ) (v : List ℕ)
    → offset + length v ≤ length buffer
    → memcpy_to buffer offset v (length v) ≡ ok (splice buffer offset v)
unfolding memcpy_to
memcpy_to_lem buffer offset v h =
    rw (leb-true _ _ h, leb-true (length v) (length v) (omega arith), take-all v) refl

memcpy_from_lem :
    (buffer : List ℕ) (offset : ℕ) (dest : List ℕ)
    → offset + length dest ≤ length buffer
    → memcpy_from buffer offset dest (length dest) ≡ ok (take (length dest) (drop offset buffer))
unfolding memcpy_from
memcpy_from_lem buffer offset dest h =
    rw (leb-true _ _ h, leb-true (length dest) (length dest) (omega arith), drop-all dest)
      (ap ok (append-nil _))

window_of_prefix :
    (xs ys : List ℕ) (m n : ℕ)
    → take (m + n) xs ≡ take (m + n) ys
    → take n (drop m xs) ≡ take n (drop m ys)
window_of_prefix xs ys m n e =
    take-drop n m (m + n) xs refl ∙ ap (drop m) e ∙ sym (take-drop n m (m + n) ys refl)

-- The vectors stand in the buffer, one after the other from `offset` on.
abbrev pub Reads : List ℕ → ℕ → List Iovec → Type 0
Reads buffer offset [] = Unit {0}
Reads buffer offset (v ∷ bufs) =
    (take (length v) (drop offset buffer) ≡ v) × Reads buffer (offset + length v) bufs

-- The bytes with the vectors written over them from `offset` on.
abbrev pub Overlaid : List ℕ → ℕ → List Iovec → List ℕ → Type 0
Overlaid buffer offset bufs bytes =
    (length bytes ≡ length buffer)
    × (take offset bytes ≡ take offset buffer)
    × Reads bytes offset bufs
    × (drop (offset + byte_total bufs) bytes ≡ drop (offset + byte_total bufs) buffer)

-- Within the length of the piece the loop of `writev` copies every byte, and keeps the length of the
-- buffer and what stands before the offset and behind the end.
pub copy_in_lem :
    (room : ℕ) (bufs : List Iovec) (buffer : List ℕ) (offset : ℕ)
    → room < 2 ^ 31
    → room ≤ length buffer
    → offset + byte_total bufs ≤ room
    → (bytes : List ℕ) × (copy_in room buffer offset bufs ≡ ok (bytes, byte_total bufs))
      × (length bytes ≡ length buffer)
      × ((k : ℕ) → k ≤ offset → take k bytes ≡ take k buffer)
      × ((k : ℕ) → offset + byte_total bufs ≤ k → drop k bytes ≡ drop k buffer)
      × Reads bytes offset bufs
unfolding copy_in byte_total
copy_in_lem room [] buffer offset small fits h =
    (buffer, refl, refl, λ k below. refl, λ k above. refl, tt)
copy_in_lem room (v ∷ bufs) buffer offset small fits h =
    let next = splice buffer offset v in
    let inside : offset + length v ≤ length buffer = omega arith in
    let same = length-splice buffer offset v inside in
    let (bytes, q, total, before, behind, reads) =
      copy_in_lem room bufs next (offset + length v) small (omega (arith, same)) (omega arith) in
    (
      bytes,
      rw
          (
            to_copy_lem room offset (length v) (omega arith) small,
            memcpy_to_lem buffer offset v inside,
            q,
          )
          refl,
      total ∙ same,
      λ k below. before k (omega arith) ∙ take-splice buffer offset v inside k below,
      λ k above. behind k (omega arith) ∙ drop-splice buffer offset v inside k (omega arith),
      (
        window_of_prefix bytes next offset (length v) (before (offset + length v) (omega arith))
            ∙ window-splice buffer offset v inside,
        reads,
      ),
    )

-- Within the buffer the loop of `readv` fills vectors of the same lengths with what stands there.
pub copy_out_lem :
    (bufs dests : List Iovec) (buffer : List ℕ) (offset : ℕ)
    → length buffer < 2 ^ 31
    → map length dests ≡ map length bufs
    → offset + byte_total bufs ≤ length buffer
    → Reads buffer offset bufs
    → copy_out buffer offset dests ≡ ok (bufs, byte_total bufs)
unfolding copy_out byte_total
copy_out_lem [] [] buffer offset small shape h reads = refl
copy_out_lem [] (d ∷ dests) buffer offset small shape h reads = cc
copy_out_lem (v ∷ bufs) [] buffer offset small shape h reads = cc
copy_out_lem (v ∷ bufs) (d ∷ dests) buffer offset small shape h (here, reads) =
    let same : length d ≡ length v = cc in
    let rest : map length dests ≡ map length bufs = cc in
    let inside : offset + length d ≤ length buffer = omega arith in
    let go = copy_out_lem bufs dests buffer (offset + length v) small rest (omega arith) reads in
    rw
      (
        to_copy_lem (length buffer) offset (length d) inside small,
        memcpy_from_lem buffer offset d inside,
        same,
        go,
        here,
      )
      refl
