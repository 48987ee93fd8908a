-- ===== src/Examples/Runs.antt =====
-- How the states of `Examples.States` are reached by calls of memory_storage.hpp, and that they are
-- valid.
use libtorrent_go.Storage.Evict.Ends.{ClockPasses, IsStamped}
use libtorrent_go.Base.{
  ap, sym, ◌+◌, refl, zero, suc, ◌+ℤ◌, ◌-ℤ◌, ◌/ℤ◌, ℕ, pos, ◌>>=◌, arith, ◌≤◌, subst, ◌≡◌, ok,
  ok-injective, ◌∙◌, true, ◌∷◌, Safe-ok, [], ltb-true, hang, some, to_int32, sub_size, length,
}
use libtorrent_go.Storage.Machine.Counters.{calls_made}
use libtorrent_go.Storage.Setup.Race.{race-shrinks}
use libtorrent_go.Storage.Setup.{
  set_memory_size, enlarge, construct, set_torrent_handle, fresh, as_int, max_buffers, push_buffers,
  push_pieces, update_reserved_pieces, reset_bits, set_bits, count_bits,
}
use libtorrent_go.Examples.States.{
  env, sizes, info, start, one, both, pinned, bytes, piece, slot_0, buf,
}
use libtorrent_go.Piece.{new_piece, is_buffered}
use libtorrent_go.Buffer.{new_buffer, byte_total, copy_in, to_copy, memcpy_to, earlier, is_assigned}
use libtorrent_go.Storage.{is_null, object, Storage}
use libtorrent_go.Storage.Setup.Safe.{construct-IsValid, IsInfo}
use libtorrent_go.Storage.Alloc.{
  get_write_buffer, get_buffer, get_locked, refused, allocate, find_free, link_free, link,
}
use libtorrent_go.Storage.Alloc.Safe.{get_write_buffer_lem}
use libtorrent_go.Storage.Setup.Update.{update_reserved_pieces-IsValid}
use libtorrent_go.Storage.Evict.Progress.{ClockAhead}
use mathlib.Core.Option.{some-injective}
use libtorrent_go.Storage.Machine.{perform, ask_writev, Reaches, here, after}
use libtorrent_go.Storage.Transfer.Ends.{HasRoom}
use libtorrent_go.Storage.Evict.Evictable.{evictable_count, count_if, evictable}
use libtorrent_go.Storage.Evict.{
  trim, trim_loop, trim_round, find_unread, find_last_buffer, scan, is_candidate, is_reserved,
  evict_any, is_readered,
}
use libtorrent_go.Storage.Valid.{IsValid}
use libtorrent_go.Storage.Transfer.{writev, writev_request, write_bytes, add_int, trim_after, store}
use libtorrent_go.Storage.Transfer.RoundTrip.{writev-Safe, Written}

pub start_run : (construct (pos 0) info >>= λ s. set_torrent_handle s object object) ≡ ok start
unfolding construct set_torrent_handle fresh as_int max_buffers push_buffers push_pieces new_piece
    new_buffer is_null ◌+ℤ◌ ◌-ℤ◌ ◌/ℤ◌
start_run = refl

pub sizes-le : (k : ℕ) → sizes k ≤ 4
sizes-le zero = omega arith
sizes-le (suc zero) = omega arith
sizes-le (suc (suc n)) = omega arith

pub info-IsInfo : IsInfo 0 info
info-IsInfo = record {
  positive = omega arith;
  small = omega arith;
  fits = sizes-le;
  count = omega arith;
}

pub start-IsValid : IsValid start
start-IsValid =
    let (s, run, v) = construct-IsValid 0 info object info-IsInfo refl in
    subst IsValid (ok-injective (sym run ∙ start_run)) v

pub one_run : writev env 3 start bytes 0 0 ≡ ok (4, one)
unfolding writev writev_request get_write_buffer get_buffer get_locked is_buffered refused allocate
    find_free link_free link ◌+ℤ◌ write_bytes copy_in to_copy to_int32 sub_size memcpy_to add_int
    trim_after store
one_run = refl

pub one-IsValid : IsValid one
unfolding byte_total
one-IsValid =
    (Safe-ok (Written start 0 0 bytes)
      (writev-Safe env 3 bytes 0 0 start-IsValid refl (omega arith) (omega arith)) one_run).0

pub both_run : get_write_buffer env one 1 ≡ ok (true, both)
unfolding get_write_buffer get_buffer get_locked is_buffered refused allocate find_free link_free
    link ◌+ℤ◌
both_run = refl

pub both-IsValid : IsValid both
both-IsValid =
    let (r, s, run, how, v) = get_write_buffer_lem env 1 one-IsValid (omega arith) in
    subst (λ x. IsValid x.1) (ok-injective (sym run ∙ both_run)) v

pub pinned_run : update_reserved_pieces both (pos 0 ∷ []) ≡ ok pinned
unfolding update_reserved_pieces reset_bits set_bits count_bits
pinned_run = refl

pub pinned-IsValid : IsValid pinned
pinned-IsValid =
    let (bits, run, v, each) =
      update_reserved_pieces-IsValid (pos 0 ∷ []) both-IsValid (omega arith, tt) in
    subst IsValid (ok-injective (sym run ∙ pinned_run)) v

pub both-ClockAhead : ClockAhead env both
both-ClockAhead k zero b h found used =
    subst (λ y. earlier y.accessed (some k) ≡ true) (some-injective slot_0 b found)
      (ltb-true 1 k (omega (arith, h)))
both-ClockAhead k (suc zero) b h found used =
    subst (λ y. earlier y.accessed (some k) ≡ true)
      (some-injective (record (buf 1) { pi = pos 1; is_used = true; accessed = some 2 }) b found)
      (ltb-true 2 k (omega (arith, h)))
both-ClockAhead k (suc (suc i)) b h found used = cc found

pub written : perform env 3 start (ask_writev bytes 0 0) ≡ ok one
unfolding perform
written = ap (λ m. m >>= λ r. ok r.1) one_run

pub one-Reaches : Reaches env 3 start one
unfolding byte_total
one-Reaches =
    after start one (ask_writev bytes 0 0) here (piece 0 4, refl, omega arith, omega arith) written

pub one-Reaches_count : calls_made one-Reaches ≡ 1
unfolding calls_made one-Reaches
one-Reaches_count = refl

one-IsStamped : IsStamped one
one-IsStamped zero b found used = (1, sym (ap (λ y. y.accessed) (some-injective slot_0 b found)))
one-IsStamped (suc zero) b found used =
    cc (ap (λ y. y.is_used) (some-injective (buf 1) b found), used)
one-IsStamped (suc (suc i)) b found used = cc found

pub one-HasRoom : HasRoom (pos 1) 1 one
unfolding evictable_count count_if evictable ◌+ℤ◌
one-HasRoom = record { stamped = one-IsStamped; room = omega arith; limited = omega arith }

pub env-passes : ClockPasses env
env-passes t = (t + 1, λ k h. omega (arith, h))

-- A torrent of one piece, with its one buffer: the first write does not end.
abbrev single : Storage
single = record start {
  piece_count = 1;
  pieces = piece 0 4 ∷ [];
  buffer_size = pos 1;
  buffer_limit = pos 1;
  buffers = buf 0 ∷ [];
}

single_run : writev env 9 single bytes 0 0 ≡ hang
unfolding writev writev_request get_write_buffer get_buffer get_locked is_buffered refused allocate
    find_free link_free write_bytes link copy_in to_copy to_int32 sub_size memcpy_to add_int
    trim_after store trim trim_loop trim_round find_unread find_last_buffer scan is_candidate
    is_reserved is_assigned evict_any is_readered ◌+ℤ◌
single_run = refl

race-shrinks_example :
    (u w : Storage) × (set_memory_size start (pos 1) ≡ enlarge start (pos 1))
    × (set_memory_size start (pos 4) ≡ ok u)
    × (enlarge u (pos 1) ≡ ok w)
    × (w.capacity ≡ pos 1)
    × (w.buffer_size ≡ pos 2)
    × (length w.buffers ≡ 3)
    × (¬ IsValid w)
    × (set_memory_size u (pos 1) ≡ ok u)
race-shrinks_example =
    race-shrinks 1 4 start-IsValid refl refl (omega arith) (omega arith) (omega arith) (omega arith)
