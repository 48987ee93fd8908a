-- ===== src/Examples/Later.antt =====
-- Statements about sequences of calls of memory_storage.hpp, and about requests at the bounds, at concrete
-- inputs.
use libtorrent_go.Storage.Setup.{
  construct, set_torrent_handle, fresh, as_int, max_buffers, push_buffers, push_pieces,
  update_reserved_pieces, reset_bits, set_bits, count_bits, enable_logging,
}
use libtorrent_go.Base.{
  ℕ, ◌≡◌, refl, ◌-◌, ◌>>=◌, ◌+ℤ◌, ◌-ℤ◌, ◌⊎◌, arith, true, false, ◌∷◌, [], List, some, pos, ap, ok,
  hang, fault, sub_size, to_int32, ok-injective, sym, ◌∙◌, subst, ◌/ℤ◌,
}
use libtorrent_go.Piece.{is_buffered, reset_piece, new_piece}
use libtorrent_go.Buffer.{
  Iovec, byte_total, copy_in, to_copy, memcpy_to, is_assigned, reset_buffer, new_buffer,
}
use libtorrent_go.Buffer.Clip.{clip}
use libtorrent_go.Storage.{
  Storage, TorrentInfo, object, is_null, reset_piece_deadline, set_piece_priority, we_dont_have,
}
use libtorrent_go.Storage.Valid.{IsValid}
use libtorrent_go.Storage.Alloc.{
  get_write_buffer, get_buffer, get_locked, refused, allocate, find_free, link_free, link,
}
use libtorrent_go.Storage.Transfer.{
  readv, writev, writev_request, write_bytes, add_int, trim_after, store,
}
use libtorrent_go.Storage.Transfer.Bounds.{writev-clip, writev-fault}
use libtorrent_go.Storage.Evict.{
  trim, trim_loop, trim_round, find_unread, find_last_buffer, scan, is_candidate, is_reserved,
  evict_any, is_readered, remove_piece, free_buffer, forget_piece, restore_piece, tell,
}
use libtorrent_go.Storage.Setup.Update.{update_reserved_pieces-IsValid}
use libtorrent_go.Storage.Account.Single.{one_piece-hang}
use libtorrent_go.Storage.Machine.{perform, start, next, ask_writev, ask_logging}
use libtorrent_go.Storage.Machine.Total.{IsPlain, construct-perform_total}
use libtorrent_go.Storage.Cache.Lasting.{readv-later, readv-reserved}
use libtorrent_go.Storage.Setup.Safe.{IsInfo}
use libtorrent_go.Examples.States.{env, sizes, info, one, bytes, blank, piece, buf}
use libtorrent_go.Examples.Runs.{start-IsValid, env-passes, start_run, info-IsInfo, sizes-le}

abbrev begun : Storage
begun = libtorrent_go.Examples.States.start

-- After `writev` of all of piece 1 on top of piece 0: piece 0 was evicted.
abbrev pub two : Storage
two = record one {
  pieces = piece 0 4 ∷ record (piece 1 4) { size = 4; bi = pos 1 } ∷ piece 2 2 ∷ [];
  buffers =
      record (buf 0) { accessed = some 5 }
      ∷ record (buf 1) {
        buffer = 1 ∷ 2 ∷ 3 ∷ 4 ∷ [];
        pi = pos 1;
        is_used = true;
        accessed = some 3;
      }
      ∷ [];
  ticks = 6;
  calls = reset_piece_deadline (pos 0) ∷ set_piece_priority (pos 0) 0 ∷ we_dont_have (pos 0) ∷ [];
}

pub two_run : perform env 4 one (ask_writev bytes 1 0) ≡ ok two
unfolding perform writev writev_request get_write_buffer get_buffer get_locked is_buffered refused
    allocate find_free link_free link ◌+ℤ◌ ◌-ℤ◌ write_bytes copy_in to_copy to_int32 sub_size
    memcpy_to add_int trim_after store trim trim_loop trim_round find_unread find_last_buffer scan
    is_candidate is_reserved is_assigned evict_any is_readered remove_piece free_buffer forget_piece
    restore_piece tell reset_piece reset_buffer is_null
two_run = refl

-- The new storage with piece 0 reserved, and then written.
abbrev marked : Storage
marked = record begun {
  reserved_pieces =
      true ∷ false ∷ false ∷ false ∷ false ∷ false ∷ false ∷ false ∷ false ∷ false ∷ false ∷ false
      ∷ false ∷ [];
  buffer_reserved = 1;
}

marked_run : update_reserved_pieces begun (pos 0 ∷ []) ≡ ok marked
unfolding update_reserved_pieces reset_bits set_bits count_bits
marked_run = refl

marked-IsValid : IsValid marked
marked-IsValid =
    let (bits, run, v, each) =
      update_reserved_pieces-IsValid (pos 0 ∷ []) start-IsValid (omega arith, tt) in
    subst IsValid (ok-injective (sym run ∙ marked_run)) v

abbrev kept : Storage
kept = record one {
  reserved_pieces =
      true ∷ false ∷ false ∷ false ∷ false ∷ false ∷ false ∷ false ∷ false ∷ false ∷ false ∷ false
      ∷ false ∷ [];
  buffer_reserved = 1;
  buffer_limit = pos 1;
  buffer_used = pos 0;
}

kept_run : writev env 4 marked bytes 0 0 ≡ ok (4, kept)
unfolding writev writev_request get_write_buffer get_buffer get_locked is_buffered refused allocate
    find_free link_free link ◌+ℤ◌ ◌-ℤ◌ write_bytes copy_in to_copy to_int32 sub_size memcpy_to
    add_int trim_after store
kept_run = refl

first_writev : writev env 4 begun bytes 0 0 ≡ ok (4, one)
unfolding writev writev_request get_write_buffer get_buffer get_locked is_buffered refused allocate
    find_free link_free link ◌+ℤ◌ write_bytes copy_in to_copy to_int32 sub_size memcpy_to add_int
    trim_after store
first_writev = refl

first_run : perform env 4 begun (ask_writev bytes 0 0) ≡ ok one
unfolding perform
first_run = ap (λ m. m >>= λ r. ok r.1) first_writev

info-IsPlain : IsPlain env 0 info
info-IsPlain = record { sound = info-IsInfo; several = omega arith; passes = env-passes }

construct-perform_total_example :
    (rounds : ℕ) × (w : Storage) × (perform env rounds two (ask_writev bytes 0 0) ≡ ok w)
    × IsValid w
unfolding byte_total
construct-perform_total_example =
    construct-perform_total env 4 0 info object info-IsPlain refl start_run
      (next one two (ask_writev bytes 1 0)
        (next begun one (ask_writev bytes 0 0) start (piece 0 4, refl, omega arith, omega arith) tt
          first_run)
        (piece 1 4, refl, omega arith, omega arith) tt two_run)
      (ask_writev bytes 0 0) (piece 0 4, refl, omega arith, omega arith) tt

readv-later_example :
    (m : ℕ) × (filled : List Iovec) × (w : Storage) × (readv env two blank 0 0 ≡ ok (m, filled, w))
    × (((m ≡ 0) × (filled ≡ blank)) ⊎ ((m ≡ 4) × (filled ≡ bytes)))
unfolding byte_total
readv-later_example =
    readv-later env 4 bytes blank 0 0 start-IsValid refl (omega arith) (omega arith) refl
      first_writev (λ h. omega (arith, h))
      (next one two (ask_writev bytes 1 0) start (piece 1 4, refl, omega arith, omega arith)
        (λ h. omega (arith, h)) two_run)

readv-reserved_example :
    (w : Storage) × (readv env (record kept { is_logging = true }) blank 0 0 ≡ ok (4, bytes, w))
unfolding byte_total perform enable_logging
readv-reserved_example =
    readv-reserved env 4 bytes blank 0 0 marked-IsValid refl (omega arith) (omega arith) refl
      kept_run (λ h. omega (arith, h)) refl
      (next kept (record kept { is_logging = true }) ask_logging start tt (tt, tt) refl)

writev-clip_example :
    writev env 3 begun ((1 ∷ 2 ∷ 3 ∷ []) ∷ []) 2 0
    ≡ writev env 3 begun (clip (2 - 0) ((1 ∷ 2 ∷ 3 ∷ []) ∷ [])) 2 0
writev-clip_example = writev-clip env 3 ((1 ∷ 2 ∷ 3 ∷ []) ∷ []) 2 0 start-IsValid refl (omega arith)

abbrev asked : Storage
asked = record begun {
  pieces = piece 0 4 ∷ piece 1 4 ∷ record (piece 2 2) { bi = pos 0 } ∷ [];
  buffers = record (buf 0) { pi = pos 2; is_used = true; accessed = some 0 } ∷ buf 1 ∷ [];
  buffer_used = pos 1;
  ticks = 1;
}

asked_run : get_write_buffer env begun 2 ≡ ok (true, asked)
unfolding get_write_buffer get_buffer get_locked is_buffered refused allocate find_free link_free
    link ◌+ℤ◌
asked_run = refl

writev-fault_example : writev env 3 begun ((1 ∷ 2 ∷ []) ∷ []) 2 3 ≡ fault
writev-fault_example =
    writev-fault env 3 (1 ∷ 2 ∷ []) [] 2 3 start-IsValid refl asked_run (omega arith) (omega arith)
      (omega arith) (omega arith)

-- A torrent of one piece.
abbrev small : TorrentInfo
small = record info { num_pieces = 1 }

abbrev lone : Storage
lone = record begun {
  reader_pieces =
      false ∷ false ∷ false ∷ false ∷ false ∷ false ∷ false ∷ false ∷ false ∷ false ∷ false ∷ [];
  reserved_pieces =
      false ∷ false ∷ false ∷ false ∷ false ∷ false ∷ false ∷ false ∷ false ∷ false ∷ false ∷ [];
  piece_count = 1;
  pieces = piece 0 4 ∷ [];
  buffer_size = pos 1;
  buffer_limit = pos 1;
  buffers = buf 0 ∷ [];
}

small-IsInfo : IsInfo 0 small
small-IsInfo = record {
  positive = omega arith;
  small = omega arith;
  fits = sizes-le;
  count = omega arith;
}

lone_run : (construct (pos 0) small >>= λ s. set_torrent_handle s object object) ≡ ok lone
unfolding construct set_torrent_handle fresh as_int max_buffers push_buffers push_pieces new_piece
    new_buffer is_null ◌+ℤ◌ ◌-ℤ◌ ◌/ℤ◌
lone_run = refl

one_piece-hang_example : writev env 9 lone bytes 0 0 ≡ hang
unfolding byte_total
one_piece-hang_example =
    one_piece-hang env 0 small object small-IsInfo refl bytes 0 refl lone_run (omega arith)
      (omega arith) 9
