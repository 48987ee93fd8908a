-- ===== src/Storage/Threads/Sound.antt =====
-- What holds in any interleaving of threads of memory_storage.hpp.
use libtorrent_go.Storage.Threads.Kept.{IsSafe}
use libtorrent_go.Storage.Threads.Changes.{same_piece, IsTaken}
use libtorrent_go.Storage.Threads.Place.{removing, is_inside}
use libtorrent_go.Storage.Threads.{System, Reach}
use libtorrent_go.Storage.Threads.Fit.{IsFit}
use libtorrent_go.Storage.Threads.Sections.{removal}
use libtorrent_go.Storage.Evict.{remove_piece}
use libtorrent_go.Base.{ℕ, ◌≡◌, sym, ◌∙◌, subst, true, some, ok, ℤ}
use mathlib.Core.Option.{some-injective}
use libtorrent_go.Storage.{Storage, Env}
use libtorrent_go.Storage.Valid.{IsValid}
use libtorrent_go.Storage.Threads.Holder.{CanMove, inside-CanMove}
use libtorrent_go.Storage.Threads.Invariant.{Reach-IsSound, Reach-IsSafe, Stays}

-- However many threads call `writev`, `readv`, `read`, `set_torrent_handle` and the updates, and
-- one thread `set_memory_size`, with allowed arguments, interleaved in any order at their tests,
-- at the locking of `m_mutex`, at their copies and between the searches and the removals of
-- `trim`, and started on a valid storage: after any number of steps the storage is valid, so that
-- no piece has two buffers and no buffer two pieces, and at most one thread is in a section that
-- `m_mutex` guards.
pub threads-IsValid :
    (e : Env) (sizer : ℕ) {s : Storage} {w : System}
    → IsValid s
    → Reach e sizer s w
    → IsValid w.mem × ((i j : ℕ) → is_inside (w.pc i) ≡ true → is_inside (w.pc j) ≡ true → i ≡ j)
threads-IsValid e sizer v path =
    let h = Reach-IsSound e sizer v path in
    (h.valid, λ i j a b. some-injective i j (sym (h.inside i a) ∙ h.inside j b))

-- However many threads call `writev`, `readv`, `read`, `set_torrent_handle` and the updates, and
-- one thread `set_memory_size`, with allowed arguments, interleaved in any order at their tests,
-- at the locking of `m_mutex`, at their copies and between the searches and the removals of
-- `trim`, and started on a valid storage: at any time the thread that holds `m_mutex`, if there is
-- one, is in a section that it guards, and has a step to take.
pub holder-CanMove :
    (e : Env) (sizer i : ℕ) {s : Storage} {w : System}
    → IsValid s
    → Reach e sizer s w
    → w.m_mutex ≡ some i
    → (is_inside (w.pc i) ≡ true) × CanMove e sizer w i
holder-CanMove e sizer i {w = w} v path q =
    let h = Reach-IsSound e sizer v path in
    let inside = h.holder i q in (inside, inside-CanMove e sizer i w h.valid (h.fit i) inside)

-- However many threads call `writev`, `readv`, `read`, `set_torrent_handle` and the updates, and
-- one thread `set_memory_size`, with allowed arguments, interleaved in any order at their tests,
-- at the locking of `m_mutex`, at their copies and between the searches and the removals of
-- `trim`, and started on a valid storage: a thread that is about to remove the piece of a buffer
-- finds one there, the removal goes through, and the piece is one that was not reserved all along.
pub removers-take :
    (e : Env) (sizer i piece : ℕ) (bi : ℤ) {s : Storage} {w : System}
    → IsValid s
    → (path : Reach e sizer s w) → w.pc i ≡ removing piece bi
    → (p : ℕ) × IsTaken w.mem.buffers bi p
      × ((u : Storage) × (remove_piece e w.mem bi ≡ ok u))
      × (¬ Stays p path)
removers-take e sizer i piece bi {w = w} v path now =
    let h = Reach-IsSound e sizer v path in
    let (_, p, taken) = subst (IsFit sizer i w.mem) now (h.fit i) in
    let (u, run, _, _) = removal e piece bi p h.valid taken in
    (
      p,
      taken,
      (u, run),
      λ kept.
          let (p', taken', other) =
            subst (IsSafe p w.mem) now (Reach-IsSafe e sizer p v path kept i) in
          other (same_piece w.mem.buffers bi taken' taken),
    )
