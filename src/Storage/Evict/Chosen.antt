-- ===== src/Storage/Evict/Chosen.antt =====
-- What `find_last_buffer` of memory_storage.hpp answers to `trim`, in each of its two searches: -1, or the
-- index of a buffer that holds a piece which may go.
use libtorrent_go.Storage.{Storage, Env, now, tick}
use libtorrent_go.Buffer.{Buffer, Time}
use libtorrent_go.Storage.Evict.{has_no_bits, find_unread, find_last_buffer}
use libtorrent_go.Storage.Valid.{IsValid}
use libtorrent_go.Storage.Evict.Evictable.{
  evictable, is_candidate-evictable, is_candidate-any, evictable-piece,
}
use libtorrent_go.Storage.Evict.Safe.{find_last_buffer_lem}
use libtorrent_go.Storage.Evict.Oldest.{Picked, IsOldest}
use libtorrent_go.Base.{
  ℕ, List, Bool, length, ◌≡◌, ◌+◌, ℤ, false, minus_one, pos, ok-injective, arith, ok, get_elem?,
  ◌⊎◌, sym, true, some, ◌∙◌, inl, inr,
}

-- The buffer at `r` holds a piece that is neither reserved nor `keep`.
pub record Chosen (s : Storage) (keep r : ℤ) : Type 0 where
  pub i : ℕ
  pub p : ℕ
  pub buf : Buffer
  pub index : r ≡ pos i
  pub at_i : get_elem? s.buffers i ≡ some buf
  pub held : buf.pi ≡ pos p
  pub chosen : evictable s.reserved_pieces keep buf ≡ true

pub has_bits : (bits : List Bool) (n : ℕ) → length bits ≡ n + 10 → has_no_bits bits ≡ false
has_bits bits n h = ground arith

module _ (e : Env) (keep : ℤ) {s : Storage} (v : IsValid s) where
  pub oldest-Chosen :
      (check_read : Bool) (limit : Time) (r : ℤ) (i : ℕ) (b : Buffer)
      → r ≡ b.index
      → IsOldest e s keep check_read limit s.buffers i b
      → Chosen s keep r
  oldest-Chosen check_read limit r i b q o =
      let any = is_candidate-any e s keep check_read b o.candidate in
      let chosen = ok-injective (sym (is_candidate-evictable e keep v i o.here) ∙ any) in
      let (p, held) = evictable-piece keep v i o.here chosen in
      record {
        i = i;
        p = p;
        buf = b;
        index = q ∙ (v.buffers_ok i b o.here).index;
        at_i = o.here;
        held = held;
        chosen = chosen;
      }

  Picked-Chosen :
      (check_read : Bool) (limit : Time) (r : ℤ)
      → Picked e s keep check_read limit s.buffers minus_one r
      → (r ≡ minus_one) ⊎ Chosen s keep r
  Picked-Chosen check_read limit r (inl (none_found, _)) = inl none_found
  Picked-Chosen check_read limit r (inr (i, b, q, o)) =
      inr (oldest-Chosen check_read limit r i b q o)

  pub find_last_buffer-Chosen :
      (check_read : Bool)
      → (r : ℤ) × (find_last_buffer e s keep check_read ≡ ok (r, tick s))
        × ((r ≡ minus_one) ⊎ Chosen s keep r)
  find_last_buffer-Chosen check_read =
      let (r, q, picked) = find_last_buffer_lem e keep check_read v in
      (r, q, Picked-Chosen check_read (some (now e s)) r picked)

  pub find_unread-Chosen :
      (r : ℤ) × (find_unread e s keep ≡ ok (r, tick s)) × ((r ≡ minus_one) ⊎ Chosen s keep r)
  unfolding find_unread
  find_unread-Chosen =
      let (r, q, outcome) = find_last_buffer-Chosen true in
      (r, rw (has_bits s.reader_pieces _ v.readers) q, outcome)
