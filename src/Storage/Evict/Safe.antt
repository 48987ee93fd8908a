-- ===== src/Storage/Evict/Safe.antt =====
-- The operations of `Storage.Evict` (memory_storage.hpp) on a valid storage: none of them reads
-- out of range, and each leaves a valid storage.
use libtorrent_go.Base.{
  at_int, [], ◌∷◌, zero, suc, ℕ, ◌+◌, ◌<◌, ◌≡◌, refl, sym, ◌∙◌, ap, subst, Bool, true, false, not,
  ◌&&◌, inl, inr, some, List, ℤ, pos, minus_one, ◌==ℤ◌, ◌-ℤ◌, ltb_ℤ, arith, length, get_elem?, set,
  length-set, length-replicate, get_elem?-lt, Each, Each-set, if◌then◌else◌, Bool-cases, Result, ok,
  ◌>>=◌, Total, and_then-Total, ◌==◌,
}
use libtorrent_go.Slots.{slot_at, Linked-cut}
use libtorrent_go.Piece.{Piece, reset_piece}
use libtorrent_go.Buffer.{Buffer, is_assigned, reset_buffer}
use libtorrent_go.Storage.{Storage, Env, Call, now, tick}
use libtorrent_go.Storage.Valid.{
  HasSize, bit, IsValid, IsPiece, IsBuffer, IsSlot-cases, is_null_lem, held_piece,
}
use libtorrent_go.Storage.Evict.{
  is_reserved, is_readered, is_candidate, find_last_buffer, restore_piece, tell, free_buffer,
  forget_piece, remove_piece,
}
use libtorrent_go.Storage.Evict.Oldest.{Picked, scan_lem}

tell_lem : (s : Storage) (pi : ℤ) → ok (tell s pi) ≡ ok (record s { calls = (tell s pi).calls })
unfolding tell
tell_lem s pi = refl

-- Only the log of calls changes.
pub restore_piece_lem :
    {s : Storage} (pi : ℤ)
    → IsValid s
    → (c : List Call) × (restore_piece s pi ≡ ok (record s { calls = c }))
unfolding restore_piece
restore_piece_lem {s} pi v =
    let (a, p) = is_null_lem s.m_handle v.handle in
    let (b, q) = is_null_lem s.t v.torrent in
    elim (Bool-cases a) [
      | inl yes_a ↦ (s.calls, rw (p, yes_a) refl)
      | inr no_a ↦ elim (Bool-cases b) [
        | inl yes_b ↦ (s.calls, rw (p, no_a, q, yes_b) refl)
        | inr no_b ↦ ((tell s pi).calls, rw (p, no_a, q, no_b) (tell_lem s pi))
      ]
    ]

pub is_readered_lem :
    (e : Env) {s : Storage} (pi : ℤ) → IsValid s → (r : Bool) × (is_readered e s pi ≡ ok r)
unfolding is_readered
is_readered_lem e {s} pi v =
    let (a, p) = is_null_lem s.m_handle v.handle in
    (if a then true else not (e.piece_priority s.ticks s.calls pi == 0), rw (v.initialized, p) refl)

pub at_bit :
    (bits : List Bool) (i : ℕ) → i < length bits → at_int bits (pos i) ≡ ok (bit bits (pos i))
at_bit [] i h = elim h [ ]
at_bit (b ∷ bits) zero h = refl
at_bit (b ∷ bits) (suc i) h = at_bit bits i (omega arith)

pub is_reserved_lem :
    {s : Storage} (p : ℕ)
    → IsValid s
    → p < s.piece_count
    → is_reserved s (pos p) ≡ ok (bit s.reserved_pieces (pos p))
unfolding is_reserved
is_reserved_lem {s} p v h =
    rw v.initialized (at_bit s.reserved_pieces p (omega (arith, v.reserved)))

pub held-lt :
    {s : Storage}
    → IsValid s
    → (i p : ℕ) {b : Buffer} → get_elem? s.buffers i ≡ some b
    → b.pi ≡ pos p
    → p < s.piece_count
held-lt {s} v i p h q =
    let (x, here, _) = held_piece v i p h q in
    omega (arith, get_elem?-lt s.pieces p here, v.piece_total)

search_Total :
    (check_read : Bool) (m : Result Bool) (r : Bool)
    → m ≡ ok r
    → Total (if check_read then (m >>= λ b. ok (not b)) else ok true)
search_Total true m r q = (not r, rw q refl)
search_Total false m r q = (true, refl)

-- The condition of the search can be evaluated at every buffer.
pub is_candidate_lem :
    (e : Env) {s : Storage} (pi : ℤ) (check_read : Bool) (v : IsValid s)
    → Each (λ _ b. (c : Bool) × (is_candidate e s pi check_read b ≡ ok c)) s.buffers
unfolding is_candidate is_assigned
is_candidate_lem e {s} pi check_read v i b h =
    elim (IsSlot-cases b.pi (v.buffers_ok i b h).pi_slot) [
      | inl free ↦ (false, rw ((v.buffers_ok i b h).used, free) refl)
      | inr (p, held) ↦
          let q = is_reserved_lem p v (held-lt v i p h held) in
          let (r', q') = is_readered_lem e b.pi v in
          and_then-Total _ _ (b.is_used, refl)
            (and_then-Total _ _ (is_assigned b, refl)
              (and_then-Total _ _ (not (bit s.reserved_pieces (pos p)), rw (held, q) refl)
                (and_then-Total _ _ (not (b.pi ==ℤ pi), refl) (search_Total check_read _ r' q'))))
    ]

-- On a valid storage the search for a buffer does not fault and reads the clock once. It answers
-- -1, and then no buffer that qualifies was touched before that reading; or it answers the index
-- of a buffer that qualifies and was touched before it, and no buffer that qualifies was touched
-- earlier.
pub find_last_buffer_lem :
    (e : Env) {s : Storage} (pi : ℤ) (check_read : Bool)
    → IsValid s
    → (r : ℤ) × (find_last_buffer e s pi check_read ≡ ok (r, tick s))
      × Picked e s pi check_read (some (now e s)) s.buffers minus_one r
unfolding find_last_buffer
find_last_buffer_lem e {s} pi check_read v =
    let all = is_candidate_lem e pi check_read v in
    let (r, q, p) = scan_lem e s pi check_read s.buffers minus_one (some (now e s)) all in
    (r, rw q refl, p)

test_lem : (p n : ℕ) → p < n → (not (pos p ==ℤ minus_one) && ltb_ℤ (pos p) (pos n)) ≡ true
test_lem p n h = ground arith

-- A storage whose buffer `b`, at `i`, and piece `x`, at `p`, have been reset.
abbrev pub evicted : Env → Storage → ℕ → Buffer → ℕ → Piece → List Call → Storage
evicted e s i b p x calls = record s {
  pieces = set s.pieces p (reset_piece x);
  buffers = set s.buffers i (reset_buffer (now e s) b);
  buffer_used = s.buffer_used -ℤ pos 1;
  ticks = s.ticks + 1;
  calls = calls;
}

module _ (e : Env) {s : Storage} (v : IsValid s) (i p : ℕ) {b : Buffer} {x : Piece}
    (at_i : get_elem? s.buffers i ≡ some b) (at_p : get_elem? s.pieces p ≡ some x)
    (held : b.pi ≡ pos p) where
  pub evicted-IsValid : (calls : List Call) → IsValid (evicted e s i b p x calls)
  unfolding reset_piece reset_buffer
  evicted-IsValid calls = record {
    initialized = v.initialized;
    handle = v.handle;
    torrent = v.torrent;
    piece_total = length-set s.pieces p _ ∙ v.piece_total;
    buffer_total = v.buffer_total ∙ ap pos (sym (length-set s.buffers i _));
    positive = v.positive;
    small = v.small;
    sized = subst (HasSize s) (sym (length-set s.buffers i (reset_buffer (now e s) b))) v.sized;
    readers = v.readers;
    reserved = v.reserved;
    pieces_ok = Each-set (IsPiece s.piece_length) s.pieces p _ v.pieces_ok (record {
      index = (v.pieces_ok p x at_p).index;
      fits = (v.pieces_ok p x at_p).fits;
      bi_slot = tt;
      not_completed = refl;
      not_read = refl;
    });
    buffers_ok = Each-set (IsBuffer s.piece_length) s.buffers i _ v.buffers_ok (record {
      index = (v.buffers_ok i b at_i).index;
      bytes = length-replicate (length b.buffer) 0 ∙ (v.buffers_ok i b at_i).bytes;
      pi_slot = tt;
      used = refl;
    });
    linked =
        Linked-cut _ _ s.pieces s.buffers v.linked p i _ _ (get_elem?-lt s.pieces p at_p)
          (get_elem?-lt s.buffers i at_i) (slot_at _ s.buffers i at_i ∙ held) refl refl;
  }

  forget_piece_lem :
      (restored : List Call) × (forget_piece (free_buffer e s (pos i) b) (pos p)
        ≡ ok (evicted e s i b p x restored))
  unfolding forget_piece free_buffer
  forget_piece_lem =
      let (c, q) = restore_piece_lem (pos p) (evicted-IsValid s.calls) in (c, rw at_p q)

  -- Eviction resets the buffer and its piece, and nothing else but the counter and the log.
  pub remove_piece_lem :
      (restored : List Call) × (remove_piece e s (pos i) ≡ ok (evicted e s i b p x restored))
  unfolding remove_piece
  remove_piece_lem =
      let (c, q) = forget_piece_lem in
      let in_range = held-lt v i p at_i held in
      let known =
        subst (λ z. (not (z ==ℤ minus_one) && ltb_ℤ z (pos s.piece_count)) ≡ true) (sym held)
          (test_lem p s.piece_count in_range) in
      (
        c,
        rw (at_i, known)
            (subst (λ z. forget_piece (free_buffer e s (pos i) b) z ≡ ok (evicted e s i b p x c))
              (sym held) q),
      )

  -- On a valid storage, the removal of the piece in buffer `i` does not fault: it resets that
  -- buffer and that piece, takes one from `buffer_used`, changes nothing else but the clock and
  -- the log of calls, and leaves a valid storage.
  pub remove_piece-IsValid :
      (restored : List Call) × (remove_piece e s (pos i) ≡ ok (evicted e s i b p x restored))
      × IsValid (evicted e s i b p x restored)
  remove_piece-IsValid =
      let (restored, q) = remove_piece_lem in (restored, q, evicted-IsValid restored)
