-- ===== src/Storage/Account/Live.antt =====
-- While no piece is reserved and there are two buffers or more, every call of memory_storage.hpp ends: what
-- its steps keep.
use libtorrent_go.Base.{
  ℕ, ◌+◌, ◌≤◌, ◌≡◌, refl, sym, ap, ◌∙◌, subst, subst₂, Bool, true, some, ℤ, pos, ◌+ℤ◌, ◌<ℤ◌, ◌≤ℤ◌,
  arith, int_laws, length, length-set, get_elem?, set,
}
use libtorrent_go.Buffer.{Buffer, reset_buffer}
use libtorrent_go.Storage.{Storage, Env, now}
use libtorrent_go.Storage.Valid.{IsValid, bit}
use libtorrent_go.Storage.Evict.Evictable.{count_if-set_same, evictable, evictable_count}
use libtorrent_go.Storage.Evict.Round.{Evicts}
use libtorrent_go.Storage.Evict.Ends.{IsStamped, IsStamped-set, IsStamped-Evicts}
use libtorrent_go.Storage.Alloc.{link}
use libtorrent_go.Storage.Alloc.Safe.{Given, held, given, refused_by_reader, full}
use libtorrent_go.Storage.Transfer.Write.{InBuffer, Stored}
use libtorrent_go.Storage.Transfer.Ends.{HasRoom}
use libtorrent_go.Storage.Account.{used_count, IsCounted, IsCounted-same, used-le-evictable}
use libtorrent_go.Storage.Account.Count.{count_if-le-length}
use libtorrent_go.Storage.Account.Steps.{Given-IsCounted, Evicts-IsCounted}

-- The counters are right, and every buffer in use has a time of its last use.
pub record IsLive (s : Storage) : Type 0 where
  pub counted : IsCounted s
  pub stamped : IsStamped s
  pub limited : pos 0 ≤ℤ s.capacity
  pub wide : 2 ≤ length s.buffers

enough_room : (n l m : ℕ) → n ≤ m + 1 → 2 ≤ l → pos n +ℤ pos 0 <ℤ pos l +ℤ pos m
enough_room n l m h k = omega int_laws

module _ (e : Env) {s : Storage} where
  pub IsLive-HasRoom : (keep : ℤ) → IsValid s → IsLive s → HasRoom keep 0 s
  unfolding evictable_count
  IsLive-HasRoom keep v h =
      let (c, at_c, size) = v.sized in
      let few = count_if-le-length (evictable s.reserved_pieces keep) s.buffers in
      record {
        stamped = h.stamped;
        room =
            subst₂ (λ u l. u +ℤ pos 0 <ℤ l +ℤ pos (evictable_count s keep)) (sym h.counted.used)
              (sym (h.counted.limit ∙ v.buffer_total))
              (enough_room (used_count s.buffers) (length s.buffers) (evictable_count s keep)
                (used-le-evictable v h.counted keep) h.wide);
        limited = h.limited;
      }

  -- What does not change the buffers, the counters and the clock.
  pub IsLive-same :
      {u : Storage}
      → IsLive s
      → u.reserved_pieces ≡ s.reserved_pieces
      → u.buffers ≡ s.buffers
      → u.ticks ≡ s.ticks
      → u.buffer_used ≡ s.buffer_used
      → u.buffer_limit ≡ s.buffer_limit
      → u.buffer_size ≡ s.buffer_size
      → u.capacity ≡ s.capacity
      → u.piece_count ≡ s.piece_count
      → IsLive u
  IsLive-same {u} h bits bufs ticks used limit size capacity count = record {
    counted = IsCounted-same h.counted bits (ap used_count bufs) used limit size;
    stamped =
        subst
          (λ l.
            (i : ℕ) (b : Buffer)
            → get_elem? l i ≡ some b
            → b.is_used ≡ true
            → (t : ℕ) × (b.accessed ≡ some t))
          (sym bufs) h.stamped;
    limited = subst (λ z. pos 0 ≤ℤ z) (sym capacity) h.limited;
    wide = subst (λ l. 2 ≤ length l) (sym bufs) h.wide;
  }

  -- A buffer is touched.
  pub IsLive-touch :
      {u : Storage} (i : ℕ) (y : Buffer) {b : Buffer}
      → IsLive s
      → get_elem? s.buffers i ≡ some b
      → y.is_used ≡ b.is_used
      → y.accessed ≡ some (now e s)
      → u.buffers ≡ set s.buffers i y
      → u.ticks ≡ s.ticks + 1
      → u.reserved_pieces ≡ s.reserved_pieces
      → u.buffer_used ≡ s.buffer_used
      → u.buffer_limit ≡ s.buffer_limit
      → u.buffer_size ≡ s.buffer_size
      → u.capacity ≡ s.capacity
      → u.piece_count ≡ s.piece_count
      → IsLive u
  IsLive-touch {u} i y h here same at_now bufs ticks bits used limit size capacity count = record {
    counted =
        IsCounted-same h.counted bits
          (ap used_count bufs ∙ count_if-set_same (λ b. b.is_used) s.buffers i y here same) used
          limit size;
    stamped = IsStamped-set s u i (now e s) y h.stamped at_now bufs;
    limited = subst (λ z. pos 0 ≤ℤ z) (sym capacity) h.limited;
    wide = omega (arith, ap length bufs, length-set s.buffers i y, h.wide);
  }

  -- Time goes on.
  pub IsLive-ticks : (k : ℕ) → s.ticks ≤ k → IsLive s → IsLive (record s { ticks = k })
  IsLive-ticks k later h = record {
    counted = IsCounted-same h.counted refl refl refl refl refl;
    stamped = h.stamped;
    limited = h.limited;
    wide = h.wide;
  }

  pub IsLive-Evicts : {keep : ℤ} {u : Storage} → Evicts e keep s u → IsLive s → IsLive u
  IsLive-Evicts {keep} {u} m h = record {
    counted = Evicts-IsCounted m h.counted;
    stamped = IsStamped-Evicts m h.stamped;
    limited = subst (λ w. pos 0 ≤ℤ w.capacity) (sym m.result) h.limited;
    wide =
        subst (λ w. 2 ≤ length w.buffers) (sym m.result)
          (omega (arith, length-set s.buffers m.i (reset_buffer (e.clock m.ticks) m.buf), h.wide));
  }

  pub IsLive-Stored :
      {piece : ℕ} {u : Storage} (b : InBuffer s piece) → Stored e s piece b u → IsLive s → IsLive u
  IsLive-Stored {piece} {u} b (bytes, size, q) h =
      IsLive-touch b.i (record b.y { buffer = bytes; accessed = some (now e s) }) h b.at_buffer refl
        refl (ap (λ w. w.buffers) q) (ap (λ w. w.ticks) q) (ap (λ w. w.reserved_pieces) q)
        (ap (λ w. w.buffer_used) q) (ap (λ w. w.buffer_limit) q) (ap (λ w. w.buffer_size) q)
        (ap (λ w. w.capacity) q) (ap (λ w. w.piece_count) q)

  pub IsLive-Given :
      {piece : ℕ} {r : Bool} {u : Storage} → Given e s piece r u → IsLive s → IsLive u
  unfolding link
  IsLive-Given (held p i at_p at_i) h = h
  IsLive-Given (refused_by_reader calls reading) h =
      IsLive-same h refl refl refl refl refl refl refl refl
  IsLive-Given (full all) h = h
  IsLive-Given {piece} (given p i b at_p unbuffered there free before) h =
      let y = record b { is_used = true; pi = pos p.index; accessed = some (now e s) } in
      let s1 = link e s piece p i b (bit s.reserved_pieces (pos p.index)) in
      record {
        counted = Given-IsCounted {e = e} (given p i b at_p unbuffered there free before) h.counted;
        stamped = IsStamped-set s s1 i (now e s) y h.stamped refl refl;
        limited = h.limited;
        wide = omega (arith, length-set s.buffers i y, h.wide);
      }
