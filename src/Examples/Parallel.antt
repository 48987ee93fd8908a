-- ===== src/Examples/Parallel.antt =====
-- What holds of the threads of memory_storage.hpp, at the runs of `Examples.Interleaved`.
use libtorrent_go.Base.{◌≢◌, none, ℕ, ◌≡◌, refl, arith, true, some, pos, ok, fault}
use libtorrent_go.Storage.Threads.{Reach, rest, step, at_thread, call}
use libtorrent_go.Storage.Threads.Lock.{outside}
use libtorrent_go.Storage.Threads.Place.{Pc, idle, asking, by_readv, is_inside}
use libtorrent_go.Storage.Threads.Alone.Calls.{perform-Reach}
use libtorrent_go.Storage.Machine.{ask_writev}
use libtorrent_go.Examples.Later.{two, two_run}
use libtorrent_go.Examples.States.{one, piece, blank, env, bytes}
use libtorrent_go.Examples.Interleaved.{picked, lost, pcs, race_before, race}
use libtorrent_go.Storage.Threads.Sound.{threads-IsValid, holder-CanMove, removers-take}
use libtorrent_go.Storage.Threads.Changes.{IsTaken}
use libtorrent_go.Storage.Threads.Invariant.{Stays}
use libtorrent_go.Storage.Threads.Holder.{CanMove}
use libtorrent_go.Storage.Transfer.{read_vectors, write_bytes}
use libtorrent_go.Buffer.{byte_total}
use libtorrent_go.Storage.{Storage}
use libtorrent_go.Storage.Valid.{IsValid}
use libtorrent_go.Storage.Evict.{remove_piece}
use libtorrent_go.Examples.Runs.{one-IsValid}

threads-IsValid_example :
    IsValid lost × ((i j : ℕ) → is_inside (pcs i) ≡ true → is_inside (pcs j) ≡ true → i ≡ j)
threads-IsValid_example = threads-IsValid env 4 one-IsValid race

holder-CanMove_example :
    (is_inside (pcs 1) ≡ true) × CanMove env 4 (record { mem = lost; m_mutex = some 1; pc = pcs }) 1
holder-CanMove_example = holder-CanMove env 4 1 one-IsValid race refl

-- Two of the threads of `race` are about to copy, with a piece that is gone by then.
race_fault : write_bytes env lost bytes 0 0 ≡ fault
unfolding write_bytes
race_fault = refl

race_read_fault : read_vectors env lost blank 0 0 ≡ fault
unfolding read_vectors
race_read_fault = refl

removers-take_example :
    (p : ℕ) × IsTaken picked.buffers (pos 0) p
    × ((u : Storage) × (remove_piece env picked (pos 0) ≡ ok u))
    × (¬ Stays p race_before)
removers-take_example = removers-take env 4 1 1 (pos 0) one-IsValid race_before refl

-- A reader in `get_buffer`, while another thread writes.
abbrev pcs_asking : ℕ → Pc
pcs_asking = at_thread (λ _. idle) 2 (asking (by_readv blank) 0 0)

reader : Reach env 0 one (record { mem = one; m_mutex = none; pc = pcs_asking })
reader = step 2 _ _ _ _ rest (call (by_readv blank) 0 0 refl (omega arith)) (outside none)

perform-Reach_example :
    (pc : ℕ → Pc) × Reach env 0 one (record { mem = two; m_mutex = none; pc = pc })
    × (pc 0 ≡ idle)
    × ((j : ℕ) → 0 ≢ j → pc j ≡ pcs_asking j)
unfolding byte_total
perform-Reach_example =
    perform-Reach env 4 0 (ask_writev bytes 1 0) one-IsValid reader refl refl
      (piece 1 4, refl, omega arith, omega arith) two_run
