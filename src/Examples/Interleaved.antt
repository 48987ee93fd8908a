-- ===== src/Examples/Interleaved.antt =====
-- Five threads of memory_storage.hpp at once: one is about to write to piece 0 and one to read it, while
-- another evicts it for piece 1; a fourth reserves it after the search and before the removal; a fifth asks for
-- more memory.
use libtorrent_go.Storage.Threads.Place.{
  Pc, idle, copying, asking, locking, claiming, testing, checking, waiting, trimming, removing,
  sizing, by_writev, by_readv,
}
use libtorrent_go.Storage.Threads.{
  at_thread, Reach, rest, step, claim, call, find, miss, enter, grant, write, go, wait, begin,
  choose, remove, update, size,
}
use libtorrent_go.Storage.Threads.Lock.{outside, taken, given_back, held}
use libtorrent_go.Storage.Machine.{perform, ask_reserved}
use libtorrent_go.Storage.Setup.{update_reserved_pieces, reset_bits, set_bits, count_bits}
use libtorrent_go.Storage.Transfer.{write_bytes, add_int, store}
use libtorrent_go.Base.{
  ℕ, ◌≡◌, refl, ◌+ℤ◌, ◌-ℤ◌, arith, true, ◌∷◌, [], some, none, pos, ok, sub_size, to_int32,
}
use libtorrent_go.Examples.States.{blank, env, one, both, bytes, piece, piece_0, buf, pinned}
use libtorrent_go.Piece.{is_buffered, reset_piece}
use libtorrent_go.Buffer.{copy_in, to_copy, memcpy_to, is_assigned, reset_buffer}
use libtorrent_go.Storage.{Storage, is_null}
use libtorrent_go.Storage.Alloc.{get_locked, refused, allocate, find_free, link_free, link}
use libtorrent_go.Storage.Evict.{
  find_unread, find_last_buffer, scan, is_candidate, is_reserved, is_readered, remove_piece,
  free_buffer, forget_piece, restore_piece, tell,
}
use libtorrent_go.Examples.Later.{two}

-- Once the second writer has copied.
abbrev pub stored : Storage
stored = record both {
  pieces = piece_0 ∷ record (piece 1 4) { size = 4; bi = pos 1 } ∷ piece 2 2 ∷ [];
  buffers =
      record (buf 0) { buffer = 1 ∷ 2 ∷ 3 ∷ 4 ∷ []; pi = pos 0; is_used = true; accessed = some 1 }
      ∷ record (buf 1) {
        buffer = 1 ∷ 2 ∷ 3 ∷ 4 ∷ [];
        pi = pos 1;
        is_used = true;
        accessed = some 3;
      }
      ∷ [];
  ticks = 4;
}

granted_run : get_locked env one 1 ≡ ok (true, both)
unfolding get_locked is_buffered refused allocate find_free link_free link ◌+ℤ◌
granted_run = refl

copied : write_bytes env both bytes 1 0 ≡ ok (4, stored)
unfolding write_bytes copy_in to_copy to_int32 sub_size memcpy_to add_int store
copied = refl

-- Once the trim has picked the buffer of piece 0.
abbrev pub picked : Storage
picked = record stored { ticks = 5 }

found : find_unread env stored (pos 1) ≡ ok (pos 0, picked)
unfolding find_unread find_last_buffer scan is_candidate is_reserved is_assigned is_readered is_null
found = refl

-- Piece 0 is reserved too late.
abbrev pub warned : Storage
warned = record picked { reserved_pieces = pinned.reserved_pieces; buffer_reserved = 1 }

reserves : perform env 0 picked (ask_reserved (pos 0 ∷ [])) ≡ ok warned
unfolding perform update_reserved_pieces reset_bits set_bits count_bits
reserves = refl

abbrev pub lost : Storage
lost = record two { reserved_pieces = pinned.reserved_pieces; buffer_reserved = 1 }

pub removed_run : remove_piece env warned (pos 0) ≡ ok lost
unfolding remove_piece free_buffer forget_piece restore_piece tell reset_piece reset_buffer is_null
    ◌-ℤ◌
removed_run = refl

abbrev pub pcs_before : ℕ → Pc
pcs_before =
    at_thread
      (at_thread
        (at_thread
          (at_thread
            (at_thread
              (at_thread
                (at_thread
                  (at_thread
                    (at_thread
                      (at_thread
                        (at_thread
                          (at_thread (at_thread (λ _. idle) 0 (asking (by_writev bytes) 0 0)) 0
                            (copying (by_writev bytes) 0 0))
                          2 (asking (by_readv blank) 0 0))
                        2 (copying (by_readv blank) 0 0))
                      1 (asking (by_writev bytes) 1 0))
                    1 (locking (by_writev bytes) 1 0))
                  1 (claiming (by_writev bytes) 1 0))
                1 (copying (by_writev bytes) 1 0))
              1 (testing 1))
            1 (checking 1))
          1 (waiting 1))
        1 (trimming 1))
      1 (removing 1 (pos 0))

pub race_before : Reach env 4 one (record { mem = picked; m_mutex = some 1; pc = pcs_before })
unfolding is_buffered claim
race_before =
    step 1 _ _ _ _
      (step 1 _ _ _ _
        (step 1 _ _ _ _
          (step 1 _ _ _ _
            (step 1 _ _ _ _
              (step 1 _ _ _ _
                (step 1 _ _ _ _
                  (step 1 _ _ _ _
                    (step 1 _ _ _ _
                      (step 2 _ _ _ _
                        (step 2 _ _ _ _
                          (step 0 _ _ _ _
                            (step 0 _ _ _ _ (rest) (call (by_writev bytes) 0 0 refl (omega arith))
                              (outside none))
                            (find (by_writev bytes) 0 0 piece_0 refl refl) (outside none))
                          (call (by_readv blank) 0 0 refl (omega arith)) (outside none))
                        (find (by_readv blank) 0 0 piece_0 refl refl) (outside none))
                      (call (by_writev bytes) 1 0 refl (omega arith)) (outside none))
                    (miss (by_writev bytes) 1 0 (piece 1 4) refl refl) (outside none))
                  (enter (by_writev bytes) 1 0) taken)
                (grant (by_writev bytes) 1 0 both granted_run) (given_back (some 1)))
              (write bytes 1 0 stored 4 copied) (outside none))
            (go 1 refl) (outside none))
          (wait 1 refl) (outside none))
        (begin 1) taken)
      (choose 1 (pos 0) picked refl found (λ q. cc q)) (held (some 1))

abbrev pub pcs_warned : ℕ → Pc
pcs_warned = at_thread (at_thread (pcs_before) 3 idle) 4 (sizing 8)

pub race_warned : Reach env 4 one (record { mem = warned; m_mutex = some 1; pc = pcs_warned })
race_warned =
    step 4 _ _ _ _
      (step 3 _ _ _ _ (race_before)
        (update (ask_reserved (pos 0 ∷ [])) warned tt (omega arith, tt) reserves)
        (outside (some 1)))
      (size 8 refl (omega arith) refl) (outside (some 1))

abbrev pub pcs : ℕ → Pc
pcs = at_thread pcs_warned 1 (trimming 1)

pub race : Reach env 4 one (record { mem = lost; m_mutex = some 1; pc = pcs })
race = step 1 _ _ _ _ race_warned (remove 1 (pos 0) lost removed_run) (held (some 1))
