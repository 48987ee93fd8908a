-- ===== src/Storage/Account/Single.antt =====
-- A torrent of one piece in memory_storage.hpp: its storage has one buffer, and its first write never ends.
use libtorrent_go.Base.{
  ℕ, ◌+◌, ◌/◌, ◌^◌, ◌≤◌, ◌<◌, ◌≡◌, refl, sym, ap, ◌∙◌, subst, Bool, true, false, some, List, [], ℤ,
  pos, ◌+ℤ◌, ◌≤ℤ◌, leb_ℤ, arith, int_laws, length, get_elem?, get_elem?-lt, get_elem?_of_lt,
  Each-nil, inl, inr, ok, ok-injective, hang, ◌>>=◌, min, pos_part,
}
use libtorrent_go.Piece.{new_piece, Piece}
use libtorrent_go.Buffer.{Iovec, byte_total}
use libtorrent_go.Storage.{Storage, Env, Pointer, object, TorrentInfo}
use libtorrent_go.Storage.Valid.{IsBuffer-used, IsValid, held_buffer, determined}
use libtorrent_go.Storage.Setup.{construct, set_torrent_handle, fresh, push_pieces}
use libtorrent_go.Storage.Setup.Safe.{IsInfo, construct-IsValid, construct-started, started}
use libtorrent_go.Storage.Setup.Capacity.{push_buffers_lem}
use libtorrent_go.Storage.Evict.Evictable.{count_if, count_if-set, evictable, evictable_count}
use libtorrent_go.Storage.Evict.Trim.{TooFew, trim-hang}
use libtorrent_go.Storage.Alloc.{link}
use libtorrent_go.Storage.Alloc.Safe.{Given, held, given, refused_by_reader, full}
use libtorrent_go.Storage.Transfer.{writev, trim_after}
use libtorrent_go.Storage.Transfer.Ends.{kept_buffer}
use libtorrent_go.Storage.Transfer.Parts.{writev-parts}
use libtorrent_go.Storage.Transfer.Write.{InBuffer, Stored}
use libtorrent_go.Storage.Account.{used_count, IsCounted, IsCounted-same, some-injective}
use libtorrent_go.Storage.Account.Count.{count_if_none}
use libtorrent_go.Storage.Account.Steps.{Given-IsCounted, Stored-IsCounted}
use libtorrent_go.Storage.Account.Grown.{used_count-push_buffers, used-push_buffers}
use libtorrent_go.Storage.Machine.Total.{none_in_replicate}

-- There is one buffer, and the counters are right.
record IsLone (s : Storage) : Type 0 where
  counted : IsCounted s
  single : s.buffer_size ≡ pos 1
  limited : pos 0 ≤ℤ s.capacity

Given-IsLone :
    {e : Env} {s s' : Storage} {piece : ℕ} {r : Bool} → Given e s piece r s' → IsLone s → IsLone s'
unfolding link
Given-IsLone (held p i at_p at_i) h = h
Given-IsLone (refused_by_reader calls reading) h = record {
  counted = IsCounted-same h.counted refl refl refl refl refl;
  single = h.single;
  limited = h.limited;
}
Given-IsLone (full all) h = h
Given-IsLone {e} (given p i b at_p unbuffered there free before) h = record {
  counted = Given-IsCounted {e = e} (given p i b at_p unbuffered there free before) h.counted;
  single = h.single;
  limited = h.limited;
}

Stored-IsLone :
    (e : Env) {s u : Storage} {piece : ℕ} (b : InBuffer s piece)
    → Stored e s piece b u
    → IsLone s
    → IsLone u
Stored-IsLone e b (bytes, size, q) h = record {
  counted = Stored-IsCounted e b (bytes, size, q) h.counted;
  single = ap (λ w. w.buffer_size) q ∙ h.single;
  limited = subst (λ w. pos 0 ≤ℤ w.capacity) (sym q) h.limited;
}

only_place : {i j n : ℕ} → i < n → j < n → n ≡ 1 → i ≡ j
only_place h k q = omega arith

crowded : (n : ℕ) (l u : ℤ) → 0 < n → l ≡ pos 1 → u ≡ pos n → l +ℤ pos 0 ≤ℤ u
crowded n l u h p q = rw (p, q) (omega int_laws)

no_more : (l u : ℤ) → l +ℤ pos 0 ≤ℤ u → l ≤ℤ u
no_more l u h = omega (int_laws, h)

over : (l u : ℤ) → l +ℤ pos 0 ≤ℤ u → leb_ℤ l u ≡ true
over l u h = ground (arith, no_more l u h)

module _ (e : Env) (fuel piece : ℕ) {s : Storage} (v : IsValid s) (h : IsLone s)
    (b : InBuffer s piece) where
  one_buffer : length s.buffers ≡ 1
  one_buffer = ap pos_part (sym v.buffer_total ∙ h.single)

  -- The one buffer holds the piece that was written.
  none_evictable : evictable_count s (pos piece) ≡ 0
  unfolding evictable_count
  none_evictable =
      let (y, there, holds) = held_buffer v piece b.i b.at_piece b.at_i in
      count_if_none (evictable s.reserved_pieces (pos piece)) s.buffers (λ j c here.
        let same =
          only_place (get_elem?-lt s.buffers b.i there) (get_elem?-lt s.buffers j here)
            one_buffer in
        let one = some-injective y c (sym there ∙ ap (get_elem? s.buffers) same ∙ here) in
        kept_buffer s.reserved_pieces (pos piece) c (sym (ap (λ x. x.pi) one) ∙ holds))

  one_used : 0 < used_count s.buffers
  one_used =
      let (y, there, holds) = held_buffer v piece b.i b.at_piece b.at_i in
      let used : y.is_used ≡ true = IsBuffer-used y piece (v.buffers_ok b.i y there) holds in
      omega (
        arith,
        count_if-set (λ b. b.is_used) s.buffers b.i (record y { is_used = false }) there used refl,
      )

  lone_few : TooFew s (pos piece)
  lone_few =
      subst (λ n. s.buffer_limit +ℤ pos n ≤ℤ s.buffer_used) (sym none_evictable)
        (crowded (used_count s.buffers) s.buffer_limit s.buffer_used one_used
          (h.counted.limit ∙ h.single) h.counted.used)

  trim_after-hang : trim_after e fuel s piece ≡ hang
  unfolding trim_after
  trim_after-hang =
      rw
        (over s.buffer_limit s.buffer_used (
          crowded (used_count s.buffers) s.buffer_limit s.buffer_used one_used
            (h.counted.limit ∙ h.single) h.counted.used))
        (trim-hang e (pos piece) fuel v h.limited lone_few)

-- With one buffer, a write that is given it does not end.
lone-hang :
    (e : Env) (fuel : ℕ) {s : Storage} (bufs : List Iovec) (piece offset : ℕ) {p : Piece}
    → IsValid s
    → IsLone s
    → get_elem? s.pieces piece ≡ some p
    → offset + byte_total bufs ≤ p.length
    → p.size + byte_total bufs < 2 ^ 31
    → ((last : Storage) → Given e s piece false last → ⊥)
    → writev e fuel s bufs piece offset ≡ hang
lone-hang e fuel bufs piece offset v h here fits sum never =
    elim (writev-parts e bufs piece offset v here fits sum) [
      | inl x ↦ absurd (never x.last x.how)
      | inr x ↦
          let lone = Stored-IsLone e x.place x.stored (Given-IsLone x.how h) in
          x.run fuel ∙ rw (trim_after-hang e fuel piece x.valid lone x.holds.0) refl
    ]

module _ (e : Env) (memory : ℕ) (info : TorrentInfo) (native : Pointer) (h : IsInfo memory info)
    (one_piece : info.num_pieces ≡ 1) where
  abbrev first : Storage
  first = started memory info native (min (memory / info.piece_length + 2) info.num_pieces)

  first-IsLone : IsLone first
  unfolding started fresh count_if
  first-IsLone =
      let n = min (memory / info.piece_length + 2) info.num_pieces in
      record {
        counted = record {
          unreserved = none_in_replicate (info.num_pieces + 10);
          used = ap pos (sym (used_count-push_buffers info.piece_length n (pos 0) []));
          limit = refl;
        };
        single = ap pos (omega (arith, one_piece));
        limited = omega int_laws;
      }

  first-granted : (last : Storage) → Given e first 0 false last → ⊥
  unfolding started fresh
  first-granted last (refused_by_reader calls reading) = absurd (cc reading)
  first-granted last (full all) =
      let n = min (memory / info.piece_length + 2) info.num_pieces in
      let pushed = push_buffers_lem info.piece_length n [] (Each-nil _) in
      let (b, there) = get_elem?_of_lt first.buffers 0 (omega (arith, pushed.total, one_piece)) in
      let used = all 0 b (omega arith) (get_elem?-lt first.buffers 0 there) there in
      absurd (cc (used-push_buffers info.piece_length n (pos 0) [] 0 there used))

  first_piece : get_elem? first.pieces 0 ≡ some (new_piece 0 (info.piece_size 0))
  unfolding started fresh push_pieces
  first_piece = ap (λ n. get_elem? (push_pieces info.piece_size 0 n) 0) one_piece

  -- For a torrent of one piece, from the constructor on, with a memory size that is not negative
  -- and lengths that fit `int`, and once the torrent handle is set, the first `writev` of any
  -- bytes inside the piece does not end, whatever the clock and the priorities show.
  pub one_piece-hang :
      {s : Storage} (bufs : List Iovec) (offset : ℕ)
      → determined native ≡ true
      → (construct (pos memory) info >>= λ s0. set_torrent_handle s0 object native) ≡ ok s
      → offset + byte_total bufs ≤ info.piece_size 0
      → byte_total bufs < 2 ^ 31
      → (fuel : ℕ) → writev e fuel s bufs 0 offset ≡ hang
  unfolding new_piece
  one_piece-hang {s} bufs offset native_set made fits small fuel =
      let (s', q, v) = construct-IsValid memory info native h native_set in
      let same = ok-injective (sym (construct-started memory info native h) ∙ made) in
      let valid = subst IsValid (ok-injective (sym q ∙ made) ∙ sym same) v in
      subst (λ w. writev e fuel w bufs 0 offset ≡ hang) same
        (lone-hang e fuel bufs 0 offset valid first-IsLone first_piece fits (omega (arith, small))
          first-granted)
