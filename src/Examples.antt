-- ===== src/Examples.antt =====
-- Each statement about the storage of memory_storage.hpp at a concrete input, and upload_plugin.cxx.
pub mod States
pub mod Runs
pub mod Later
pub mod Interleaved
pub mod Parallel
pub mod Fresh
use libtorrent_go.Base.{
  none, true, false, refl, zero, suc, ◌+ℤ◌, ◌-ℤ◌, ◌/ℤ◌, ℕ, pos, ◌>>=◌, arith, ◌≤◌, subst, ◌≡◌, ok,
  ok-injective, sym, ◌∙◌, ◌∷◌, Safe-ok, [], ltb-true, hang, ◌≤ℤ◌, Safe, ℤ, Bool, List, length, some,
  minus_one, map, ◌*◌, fault, ◌⊎◌, negsuc, ap, ◌+◌, to_int32, sub_size,
}
use libtorrent_go.UploadPlugin.{
  UploadPlugin, UploadPeerPlugin, create_upload_plugin, new_connection, new_peer_plugin,
}
use libtorrent_go.Storage.Setup.{
  construct, set_torrent_handle, fresh, as_int, max_buffers, push_buffers, push_pieces,
  update_reserved_pieces, reset_bits, set_bits, count_bits, set_memory_size, update_reader_pieces,
}
use libtorrent_go.Examples.States.{
  env, sizes, info, start, one, both, pinned, bytes, blank, piece, slot_0, piece_0, buf,
}
use libtorrent_go.Piece.{new_piece, is_buffered}
use libtorrent_go.Buffer.{new_buffer, byte_total, copy_in, to_copy, memcpy_to, earlier, Iovec}
use libtorrent_go.Storage.{is_null, Storage, object, tick, Call}
use libtorrent_go.Storage.Setup.Safe.{construct-IsValid, IsInfo, set_memory_size-IsValid}
use libtorrent_go.Storage.Alloc.{
  get_write_buffer, get_buffer, get_locked, refused, allocate, find_free, link_free, link,
}
use libtorrent_go.Storage.Alloc.Safe.{get_write_buffer_lem, Given}
use libtorrent_go.Storage.Setup.Update.{
  update_reserved_pieces-IsValid, update_reader_pieces-IsValid, asked,
}
use libtorrent_go.Storage.Transfer.{
  readv, read, writev, writev_request, write_bytes, add_int, trim_after, store,
}
use libtorrent_go.Storage.Transfer.RoundTrip.{readv-writev, writev-Safe, Written}
use libtorrent_go.Storage.Evict.{trim, find_last_buffer, remove_piece}
use libtorrent_go.Storage.Evict.Progress.{ClockAhead, IsTrimmed, trim_total}
use libtorrent_go.Storage.Evict.Trim.{trim-hang}
use libtorrent_go.Storage.Evict.Kept.{Kept, trim-Kept}
use libtorrent_go.Storage.Evict.Oldest.{Picked}
use libtorrent_go.Storage.Evict.Evictable.{evictable_count, evictable, count_if}
use libtorrent_go.Storage.Evict.Safe.{find_last_buffer_lem, remove_piece-IsValid, evicted}
use libtorrent_go.Storage.Setup.Capacity.{max_buffers_lem}
use mathlib.Core.Option.{some-injective}
use libtorrent_go.Storage.Transfer.Read.{Answer, read-answers}
use libtorrent_go.Storage.Transfer.ReadVectors.{Filled, readv-answers}
use libtorrent_go.Storage.Info.{get_buffer_info, entry, unwords, get_buffer_info_lem}
use libtorrent_go.Storage.Memory.{bytes_held}
use libtorrent_go.Storage.Machine.Counters.{construct-perform, FitsInt, calls_made}
use libtorrent_go.Storage.Machine.{perform, ask_writev, Reaches, here, after, construct-bytes_held}
use libtorrent_go.Storage.Transfer.Ends.{writev-total}
use libtorrent_go.Storage.Transfer.ReadBytes.{ReadStep}
use libtorrent_go.Storage.Valid.{bit, IsValid}
use libtorrent_go.Examples.Runs.{
  one-HasRoom, start_run, info-IsInfo, start-IsValid, one_run, one-IsValid, both-IsValid,
  pinned-IsValid, both-ClockAhead, env-passes, one-Reaches, one-Reaches_count,
}

construct-IsValid_example :
    (s : Storage) × ((construct (pos 0) info >>= λ s0. set_torrent_handle s0 object object) ≡ ok s)
    × IsValid s
construct-IsValid_example = construct-IsValid 0 info object info-IsInfo refl

readv-writev_example :
    (4 ≡ byte_total bytes)
    × ((u : Storage) × (readv env one blank 0 0 ≡ ok (byte_total bytes, bytes, u)))
unfolding byte_total
readv-writev_example =
    readv-writev env 3 bytes blank 0 0 start-IsValid refl (omega arith) (omega arith) refl one_run
      (λ h. cc h)

writev-Safe_example : Safe (Written one 1 0 bytes) (writev env 3 one bytes 1 0)
unfolding byte_total
writev-Safe_example = writev-Safe env 3 bytes 1 0 one-IsValid refl (omega arith) (omega arith)

trim_total_example : (s' : Storage) × (trim env 2 both (pos 1) ≡ ok s') × IsTrimmed both s'
unfolding evictable_count count_if evictable ◌+ℤ◌
trim_total_example =
    trim_total env (pos 1) 2 both-IsValid both-ClockAhead (omega arith) (omega arith) (omega arith)

trim-hang_example : trim env 100 pinned (pos 1) ≡ hang
unfolding evictable_count count_if evictable ◌+ℤ◌
trim-hang_example = trim-hang env (pos 1) 100 pinned-IsValid (omega arith) (omega arith)

trim-Kept_example : Safe (λ s'. IsValid s' × Kept (pos 1) both s') (trim env 2 both (pos 1))
trim-Kept_example = trim-Kept env 2 (pos 1) both-IsValid

find_last_buffer_lem_example :
    (r : ℤ) × (find_last_buffer env both (pos 1) true ≡ ok (r, tick both))
    × Picked env both (pos 1) true (some 3) both.buffers minus_one r
find_last_buffer_lem_example = find_last_buffer_lem env (pos 1) true both-IsValid

get_write_buffer_lem_example :
    (r : Bool) × (s' : Storage) × (get_write_buffer env one 1 ≡ ok (r, s'))
    × Given env one 1 r s'
    × IsValid s'
get_write_buffer_lem_example = get_write_buffer_lem env 1 one-IsValid (omega arith)

remove_piece-IsValid_example :
    (restored : List Call) × (remove_piece env one (pos 0)
      ≡ ok (evicted env one 0 (slot_0) 0 piece_0 restored))
    × IsValid (evicted env one 0 slot_0 0 piece_0 restored)
remove_piece-IsValid_example = remove_piece-IsValid env one-IsValid 0 0 refl refl refl

set_memory_size-IsValid_example :
    (s' : Storage) × (set_memory_size one (pos 4) ≡ ok s')
    × IsValid s'
    × (one.capacity ≤ℤ s'.capacity)
    × (2 ≤ length s'.buffers)
set_memory_size-IsValid_example = set_memory_size-IsValid 4 one-IsValid (omega arith)

update_reserved_pieces-IsValid_example :
    (bits : List Bool) × (update_reserved_pieces both (pos 0 ∷ [])
      ≡ ok (record both { reserved_pieces = bits; buffer_reserved = 1 }))
    × IsValid (record both { reserved_pieces = bits; buffer_reserved = 1 })
    × ((i : ℕ) → bit bits (pos i) ≡ asked i (pos 0 ∷ []))
unfolding count_bits
update_reserved_pieces-IsValid_example =
    update_reserved_pieces-IsValid (pos 0 ∷ []) both-IsValid (omega arith, tt)

update_reader_pieces-IsValid_example :
    (bits : List Bool) × (update_reader_pieces both (pos 2 ∷ pos 1 ∷ [])
      ≡ ok (record both { reader_pieces = bits }))
    × IsValid (record both { reader_pieces = bits })
    × ((i : ℕ) → bit bits (pos i) ≡ asked i (pos 2 ∷ pos 1 ∷ []))
update_reader_pieces-IsValid_example =
    update_reader_pieces-IsValid (pos 2 ∷ pos 1 ∷ []) both-IsValid (omega arith, (omega arith, tt))

read-answers_example :
    (r : ℤ) × (out : List ℕ) × (u : Storage) × (read env one (9 ∷ 9 ∷ 9 ∷ []) (pos 3) 0 2
      ≡ ok (r, out, u))
    × Answer one 0 2 (9 ∷ 9 ∷ 9 ∷ []) r out
    × IsValid u
    × ReadStep env one u
read-answers_example = read-answers env 0 2 (9 ∷ 9 ∷ 9 ∷ []) one-IsValid (omega arith) (omega arith)

readv-answers_example :
    (n : ℕ) × (filled : List Iovec) × (u : Storage) × (readv env one blank 0 0 ≡ ok (n, filled, u))
    × Filled one 0 0 blank n filled
    × IsValid u
    × ReadStep env one u
unfolding byte_total
readv-answers_example = readv-answers env blank 0 0 one-IsValid (omega arith) (omega arith)

abbrev digit : ℤ → List ℕ
digit (pos n) = (48 + n) ∷ []
digit (negsuc n) = b'-' ∷ (49 + n) ∷ []

get_buffer_info_lem_example : get_buffer_info digit one ≡ unwords (map (entry digit) one.buffers)
get_buffer_info_lem_example = get_buffer_info_lem digit one

construct-perform_example :
    Safe (λ w. IsValid w × FitsInt w) (perform env 3 one (ask_writev bytes 1 0))
unfolding byte_total
construct-perform_example =
    construct-perform env 3 0 info object info-IsInfo refl start_run one-Reaches
      (ask_writev bytes 1 0) (piece 1 4, refl, omega arith, omega arith)
      (omega (arith, one-Reaches_count))

construct-bytes_held_example :
    (bytes_held one.buffers ≤ 0 + 2 * 4) × (bytes_held one.buffers ≤ 3 * 4)
construct-bytes_held_example =
    construct-bytes_held env 3 0 info object info-IsInfo refl start_run one-Reaches 0 refl

writev-total_example :
    (fuel : ℕ) × (n : ℕ) × (u : Storage) × (writev env fuel one bytes 1 0 ≡ ok (n, u))
    × Written one 1 0 bytes (n, u)
unfolding byte_total
writev-total_example =
    writev-total env bytes 1 0 one-IsValid refl (omega arith) (omega arith) env-passes one-HasRoom

abbrev plugin : UploadPlugin ℕ
plugin = record { m_torrent = 7 }

-- The plugin of upload_plugin.cxx for a torrent, at a BitTorrent connection and at another one.
created_plugin : create_upload_plugin (λ (torrent : ℕ). some torrent) 7 ≡ ok plugin
unfolding create_upload_plugin
created_plugin = refl

peer_plugin :
    new_connection (λ (connection : ℕ). ok true) (λ connection. some connection) plugin 5
    ≡ ok (some (record { m_torrent = 7; m_pc = 5; m_tp = plugin }))
unfolding new_connection new_peer_plugin
peer_plugin = refl

other_connection :
    new_connection (λ (connection : ℕ). ok false) (λ connection. some connection) plugin 5 ≡ ok none
unfolding new_connection
other_connection = refl
