-- ===== src/Storage/Threads/Fit.antt =====
-- What holds of the threads of memory_storage.hpp where they stand: their pieces are in range, a buffer that is
-- about to be emptied holds a piece, and a new size is above the capacity.
use libtorrent_go.Base.{
  ℕ, ◌<◌, ◌≡◌, ◌≢◌, refl, sym, ◌∙◌, subst, true, false, pos, ◌≤ℤ◌, ◌/◌, ◌+◌, ◌^◌,
}
use libtorrent_go.Storage.{Storage, Env}
use libtorrent_go.Storage.Threads.Place.{
  Pc, is_inside, idle, asking, locking, claiming, measuring, telling, copying, testing, checking,
  waiting, trimming, searching, removing, sizing, resizing,
}
use libtorrent_go.Storage.Threads.Changes.{
  Change, IsTaken, Change-IsFixed, Change-capacity, Quiet-IsTaken, Change-Quiet,
}

-- What holds of thread `i` where it stands.
abbrev pub IsFit : ℕ → ℕ → Storage → Pc → Type 0
IsFit sizer i s idle = Unit {0}
IsFit sizer i s (asking a piece offset) = piece < s.piece_count
IsFit sizer i s (locking a piece offset) = piece < s.piece_count
IsFit sizer i s (claiming a piece offset) = piece < s.piece_count
IsFit sizer i s (measuring read_buf piece offset) = piece < s.piece_count
IsFit sizer i s (telling piece) = piece < s.piece_count
IsFit sizer i s (copying a piece offset) = piece < s.piece_count
IsFit sizer i s (testing piece) = piece < s.piece_count
IsFit sizer i s (checking piece) = piece < s.piece_count
IsFit sizer i s (waiting piece) = piece < s.piece_count
IsFit sizer i s (trimming piece) = piece < s.piece_count
IsFit sizer i s (searching piece) = piece < s.piece_count
IsFit sizer i s (removing piece bi) = (piece < s.piece_count) × (p : ℕ) × IsTaken s.buffers bi p
IsFit sizer i s (sizing n) = (i ≡ sizer) × (s.capacity ≤ℤ pos n) × (n / s.piece_length + 2 < 2 ^ 31)
IsFit sizer i s (resizing n) =
    (i ≡ sizer) × (s.capacity ≤ℤ pos n) × (n / s.piece_length + 2 < 2 ^ 31)

-- A change of the capacity by another thread, where only one calls `set_memory_size`.
resized_apart :
    {e : Env} (sizer i : ℕ) {j : ℕ} (s u : Storage) (p : Pc) (n : ℕ)
    → i ≢ j
    → IsFit sizer i s p
    → Change e s p u
    → (j ≡ sizer) × (s.capacity ≤ℤ pos n) × (n / s.piece_length + 2 < 2 ^ 31)
    → (j ≡ sizer) × (u.capacity ≤ℤ pos n) × (n / u.piece_length + 2 < 2 ^ 31)
resized_apart sizer i {j} s u p n apart own c (mine, above, count) =
    let away : (k : ℕ) → p ≢ resizing k =
      λ k q. let (his, _, _) = subst (IsFit sizer i s) q own in apart (his ∙ sym mine) in
    (
      mine,
      subst (λ z. z ≤ℤ pos n) (sym (Change-capacity c away)) above,
      subst (λ k. n / k + 2 < 2 ^ 31) (sym (Change-IsFixed c).length) count,
    )

-- Where the other threads stand stays as it was: one that is in a section keeps this one out, and
-- only one of them calls `set_memory_size`.
pub other-IsFit :
    {e : Env} (sizer i : ℕ) {j : ℕ} (s u : Storage) (p p' : Pc)
    → i ≢ j
    → IsFit sizer i s p
    → Change e s p u
    → (is_inside p' ≡ true → is_inside p ≡ false)
    → IsFit sizer j s p'
    → IsFit sizer j u p'
other-IsFit sizer i s u p idle apart own c out h = tt
other-IsFit sizer i s u p (removing piece bi) apart own c out (h, q, taken) = (
  subst (λ n. piece < n) (sym (Change-IsFixed c).count) h,
  q,
  Quiet-IsTaken bi q (Change-Quiet c (out refl)) taken,
)
other-IsFit sizer i s u p (sizing n) apart own c out h = resized_apart sizer i s u p n apart own c h
other-IsFit sizer i s u p (resizing n) apart own c out h =
    resized_apart sizer i s u p n apart own c h
other-IsFit sizer i s u p (asking a piece offset) apart own c out h =
    subst (λ n. piece < n) (sym (Change-IsFixed c).count) h
other-IsFit sizer i s u p (locking a piece offset) apart own c out h =
    subst (λ n. piece < n) (sym (Change-IsFixed c).count) h
other-IsFit sizer i s u p (claiming a piece offset) apart own c out h =
    subst (λ n. piece < n) (sym (Change-IsFixed c).count) h
other-IsFit sizer i s u p (measuring read_buf piece offset) apart own c out h =
    subst (λ n. piece < n) (sym (Change-IsFixed c).count) h
other-IsFit sizer i s u p (telling piece) apart own c out h =
    subst (λ n. piece < n) (sym (Change-IsFixed c).count) h
other-IsFit sizer i s u p (copying a piece offset) apart own c out h =
    subst (λ n. piece < n) (sym (Change-IsFixed c).count) h
other-IsFit sizer i s u p (testing piece) apart own c out h =
    subst (λ n. piece < n) (sym (Change-IsFixed c).count) h
other-IsFit sizer i s u p (checking piece) apart own c out h =
    subst (λ n. piece < n) (sym (Change-IsFixed c).count) h
other-IsFit sizer i s u p (waiting piece) apart own c out h =
    subst (λ n. piece < n) (sym (Change-IsFixed c).count) h
other-IsFit sizer i s u p (trimming piece) apart own c out h =
    subst (λ n. piece < n) (sym (Change-IsFixed c).count) h
other-IsFit sizer i s u p (searching piece) apart own c out h =
    subst (λ n. piece < n) (sym (Change-IsFixed c).count) h
