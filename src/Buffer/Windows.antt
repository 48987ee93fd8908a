-- ===== src/Buffer/Windows.antt =====
-- The copying loop of `readv` in memory_storage.hpp, for any vectors that fit: each is filled with the
-- bytes that stand in the buffer at its place.
use libtorrent_go.Base.{
  map, ℕ, ◌+◌, ◌^◌, ◌≤◌, ◌<◌, ◌≡◌, refl, ap, ◌∙◌, List, [], ◌∷◌, arith, length, take, drop,
  length-take, length-drop, ok, sym,
}
use libtorrent_go.Buffer.{Iovec, copy_out, byte_total}
use libtorrent_go.Buffer.Copy.{Reads, copy_out_lem}

-- The bytes of the buffer, from `offset` on, cut to the lengths of the vectors.
unfoldable pub windows : List ℕ → ℕ → List Iovec → List Iovec
windows buffer offset [] = []
windows buffer offset (v ∷ bufs) =
    take (length v) (drop offset buffer) ∷ windows buffer (offset + length v) bufs

window-length :
    (buffer : List ℕ) (offset : ℕ) (v : Iovec)
    → offset + length v ≤ length buffer
    → length (take (length v) (drop offset buffer)) ≡ length v
window-length buffer offset v h =
    omega (arith, length-take (length v) (drop offset buffer), length-drop offset buffer)

windows-lengths :
    (buffer : List ℕ) (offset : ℕ) (bufs : List Iovec)
    → offset + byte_total bufs ≤ length buffer
    → map length (windows buffer offset bufs) ≡ map length bufs
unfolding windows byte_total
windows-lengths buffer offset [] h = refl
windows-lengths buffer offset (v ∷ bufs) h =
    rw
      (
        window-length buffer offset v (omega arith),
        windows-lengths buffer (offset + length v) bufs (omega arith),
      )
      refl

byte_total-lengths :
    (bufs bufs' : List Iovec)
    → map length bufs ≡ map length bufs'
    → byte_total bufs ≡ byte_total bufs'
unfolding byte_total
byte_total-lengths [] [] h = refl
byte_total-lengths [] (v' ∷ bufs') h = cc
byte_total-lengths (v ∷ bufs) [] h = cc
byte_total-lengths (v ∷ bufs) (v' ∷ bufs') h =
    let same : length v ≡ length v' = cc in
    let rest : map length bufs ≡ map length bufs' = cc in
    omega (arith, same, byte_total-lengths bufs bufs' rest)

windows-Reads :
    (buffer : List ℕ) (offset : ℕ) (bufs : List Iovec)
    → offset + byte_total bufs ≤ length buffer
    → Reads buffer offset (windows buffer offset bufs)
unfolding windows byte_total
windows-Reads buffer offset [] h = tt
windows-Reads buffer offset (v ∷ bufs) h =
    let same = window-length buffer offset v (omega arith) in
    (
      ap (λ k. take k (drop offset buffer)) same,
      rw same (windows-Reads buffer (offset + length v) bufs (omega arith)),
    )

-- The loop fills the vectors with the bytes at their places.
pub copy_out-windows :
    (buffer : List ℕ) (offset : ℕ) (bufs : List Iovec)
    → length buffer < 2 ^ 31
    → offset + byte_total bufs ≤ length buffer
    → copy_out buffer offset bufs ≡ ok (windows buffer offset bufs, byte_total bufs)
copy_out-windows buffer offset bufs small h =
    let same = windows-lengths buffer offset bufs h in
    let size = byte_total-lengths (windows buffer offset bufs) bufs same in
    copy_out_lem (windows buffer offset bufs) bufs buffer offset small (sym same)
      (omega (arith, size)) (windows-Reads buffer offset bufs h)
    ∙ ap (λ k. ok (windows buffer offset bufs, k)) size
