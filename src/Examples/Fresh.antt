-- ===== src/Examples/Fresh.antt =====
-- Pieces of memory_storage.hpp that come into memory, at concrete inputs.
use libtorrent_go.Base.{
  true, false, ◌≢◌, ◌⊎◌, some, ℕ, ◌≡◌, refl, List, ok, arith, ◌-ℤ◌, ◌+ℤ◌, sub_size, to_int32,
}
use libtorrent_go.Storage.Threads.Place.{is_inside}
use libtorrent_go.Buffer.{byte_total, copy_in, to_copy, memcpy_to, is_assigned, reset_buffer}
use libtorrent_go.Buffer.Copy.{Overlaid}
use libtorrent_go.Piece.{is_buffered, reset_piece}
use libtorrent_go.Storage.{is_null, object}
use libtorrent_go.Storage.Alloc.{
  get_write_buffer, get_buffer, get_locked, refused, allocate, find_free, link_free, link,
}
use libtorrent_go.Storage.Transfer.{writev, writev_request, write_bytes, add_int, trim_after, store}
use libtorrent_go.Storage.Evict.{
  trim, trim_loop, trim_round, find_unread, find_last_buffer, scan, is_candidate, is_reserved,
  evict_any, is_readered, remove_piece, free_buffer, forget_piece, restore_piece, tell,
}
use libtorrent_go.Storage.Cache.{contents}
use libtorrent_go.Storage.Clean.{zeros}
use libtorrent_go.Storage.Clean.Fresh.{construct-writev_fresh}
use libtorrent_go.Storage.Threads.Progress.{busy-CanMove}
use libtorrent_go.Storage.Threads.Holder.{CanMove}
use libtorrent_go.Examples.States.{env, info, one, bytes}
use libtorrent_go.Examples.Runs.{one-IsValid, start_run, info-IsInfo, one-Reaches}
use libtorrent_go.Examples.Later.{two}
use libtorrent_go.Examples.Interleaved.{lost, race, pcs}

two_written : writev env 3 one bytes 1 0 ≡ ok (4, two)
unfolding writev writev_request get_write_buffer get_buffer get_locked is_buffered refused allocate
    find_free link_free link ◌+ℤ◌ ◌-ℤ◌ write_bytes copy_in to_copy to_int32 sub_size memcpy_to
    add_int trim_after store trim trim_loop trim_round find_unread find_last_buffer scan
    is_candidate is_reserved is_assigned evict_any is_readered remove_piece free_buffer forget_piece
    restore_piece tell reset_piece reset_buffer is_null
two_written = refl

construct-writev_fresh_example :
    (l : List ℕ) × (contents two 1 ≡ some l) × Overlaid (zeros 4) 0 bytes l
unfolding byte_total
construct-writev_fresh_example =
    construct-writev_fresh env 3 0 info object info-IsInfo refl start_run one-Reaches bytes 1 0 refl
      refl (omega arith) (omega arith) two_written (λ h. cc h)

busy-CanMove_example :
    CanMove env 4 (record { mem = lost; m_mutex = some 1; pc = pcs }) 4
    ⊎ ((j : ℕ) × (is_inside (pcs 4) ≡ false)
        × (some 1 ≡ some j)
        × (4 ≢ j)
        × (is_inside (pcs j) ≡ true)
        × CanMove env 4 (record { mem = lost; m_mutex = some 1; pc = pcs }) j)
busy-CanMove_example = busy-CanMove env 4 4 one-IsValid race refl
