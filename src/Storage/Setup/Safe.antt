-- ===== src/Storage/Setup/Safe.antt =====
-- The constructor, `set_torrent_handle`, `set_memory_size` and the updates of memory_storage.hpp: they
-- make and keep valid storages.
use libtorrent_go.Base.{
  neg_part, int_laws, ℕ, ◌+◌, ◌-◌, ◌/◌, ◌^◌, ◌≤◌, ◌<◌, ◌≡◌, refl, sym, ap, ◌∙◌, subst, true, [],
  pos, minus_one, arith, min, ◌-ℤ◌, leb_ℤ, ◌==ℤ◌, ==ℤ-sound, length, length-replicate, Each-nil, ok,
  ◌>>=◌, pos_part, Bool-cases, inl, inr, ◌≤ℤ◌,
}
use native.Mathlib.Nat.{le-div_iff_mul-le, le_trans, div-mul-le_self}
use libtorrent_go.Base.{◌⊎◌}
use libtorrent_go.Slots.{slot}
use libtorrent_go.Buffer.{Buffer}
use libtorrent_go.Storage.{Storage, TorrentInfo, Pointer, object, is_null}
use libtorrent_go.Storage.Valid.{IsValid, IsPiece, determined}
use libtorrent_go.Storage.Setup.{
  resize, fresh, push_buffers, rounds, construct, set_memory_size, set_torrent_handle,
}
use libtorrent_go.Storage.Setup.Capacity.{
  max_buffers_lem, push_buffers_lem, push_pieces_lem, push_pieces-slot,
}

rounds_lem : (a b : ℕ) → rounds (pos a) (pos b) ≡ b - a
unfolding ◌-ℤ◌
rounds_lem a b = ground arith

-- What the constructor needs of the torrent.
pub record IsInfo (memory : ℕ) (info : TorrentInfo) : Type 0 where
  pub positive : 0 < info.piece_length
  pub small : info.piece_length < 2 ^ 31
  pub fits : (k : ℕ) → info.piece_size k ≤ info.piece_length
  pub count : memory / info.piece_length + 2 < 2 ^ 31

no_pieces-slot : (i : ℕ) → slot (λ (b : Buffer). b.pi) [] i ≡ minus_one
unfolding slot
no_pieces-slot i = refl

-- The storage with its handle, where the rounds of the loop are counted out.
unfoldable pub started : ℕ → TorrentInfo → Pointer → ℕ → Storage
unfolding fresh
started memory info native n = record (fresh (pos memory) info (pos n)) {
  buffers = push_buffers info.piece_length n (pos 0) [];
  m_handle = object;
  t = native;
}

started-IsValid :
    (memory : ℕ) (info : TorrentInfo) (native : Pointer)
    → IsInfo memory info
    → determined native ≡ true
    → IsValid (started memory info native (min (memory / info.piece_length + 2) info.num_pieces))
unfolding started
started-IsValid memory info native h native_set =
    let n = min (memory / info.piece_length + 2) info.num_pieces in
    let pushed = push_buffers_lem info.piece_length n [] (Each-nil _) in
    let (total, all) = push_pieces_lem info.piece_length info.piece_size 0 info.num_pieces h.fits in
    record {
      initialized = refl;
      handle = refl;
      torrent = native_set;
      piece_total = total;
      buffer_total = ap pos (omega (arith, pushed.total));
      positive = h.positive;
      small = h.small;
      sized = (memory, refl, omega (arith, pushed.total));
      readers = length-replicate _ _;
      reserved = length-replicate _ _;
      pieces_ok = λ i x e. subst (λ j. IsPiece info.piece_length j x) (omega arith) (all i x e);
      buffers_ok = pushed.all;
      linked = λ p b. (
        λ here. cc (here, push_pieces-slot info.piece_size 0 info.num_pieces p),
        λ here. cc (here, pushed.slots b, no_pieces-slot b),
      );
    }

pub construct-started :
    (memory : ℕ) (info : TorrentInfo) (native : Pointer)
    → IsInfo memory info
    → (construct (pos memory) info >>= λ s0. set_torrent_handle s0 object native)
      ≡ ok (started memory info native (min (memory / info.piece_length + 2) info.num_pieces))
unfolding construct set_torrent_handle is_null started fresh
construct-started memory info native h =
    let n = min (memory / info.piece_length + 2) info.num_pieces in
    rw (max_buffers_lem memory info.piece_length info.num_pieces h.positive h.count) (
      ap
        (λ k. ok (record (started memory info native n) {
          buffers = push_buffers info.piece_length k (pos 0) [];
        }))
        (rounds_lem 0 n ∙ omega arith))

-- For a memory size that is not negative, a piece length that is positive and below 2^31, no piece
-- longer than it, and a number of buffers that fits `int`: the constructor, with
-- `set_torrent_handle` after it, does not fault, and the storage is valid.
pub construct-IsValid :
    (memory : ℕ) (info : TorrentInfo) (native : Pointer)
    → IsInfo memory info
    → determined native ≡ true
    → (s : Storage) × ((construct (pos memory) info >>= λ s0. set_torrent_handle s0 object native)
        ≡ ok s)
      × IsValid s
construct-IsValid memory info native h native_set =
    (_, construct-started memory info native h, started-IsValid memory info native h native_set)

-- The storage with buffers pushed up to the number `n`.
unfoldable pub grown : Storage → ℕ → ℕ → Storage
grown s memory n = record s {
  capacity = pos memory;
  buffer_size = pos n;
  buffer_limit = pos n;
  buffers = push_buffers s.piece_length (n - length s.buffers) (pos (length s.buffers)) s.buffers;
}

pub resize_lem :
    (s : Storage) (memory n : ℕ)
    → s.buffer_size ≡ pos (length s.buffers)
    → resize s (pos memory) (pos n) ≡ grown s memory n
unfolding resize grown push_buffers
resize_lem s memory n total =
    let s' = record s { capacity = pos memory; buffer_size = pos n; buffer_limit = pos n } in
    elim (Bool-cases (s.buffer_size ==ℤ pos n)) [
      | inl same ↦
          let q : length s.buffers ≡ n =
            ap pos_part (sym total ∙ ==ℤ-sound s.buffer_size (pos n) same) in
          let none_left : 0 ≡ n - length s.buffers = omega (arith, q) in
          rw same (
            ap
              (λ k. record s' {
                buffers = push_buffers s.piece_length k (pos (length s.buffers)) s.buffers;
              })
              none_left)
      | inr grows ↦ rw grows (
          ap
            (λ z. record s' {
              buffers = push_buffers s.piece_length (rounds z (pos n)) z s.buffers;
            })
            total
          ∙ ap
              (λ k. record s' {
                buffers = push_buffers s.piece_length k (pos (length s.buffers)) s.buffers;
              })
              (rounds_lem (length s.buffers) n))
    ]

div_mono : (a b k : ℕ) → a ≤ b → 0 < k → a / k ≤ b / k
div_mono a b k h p = (le-div_iff_mul-le p).1 (le_trans (div-mul-le_self a k) h)

pub grown-IsValid :
    {s : Storage} (memory : ℕ)
    → IsValid s
    → s.capacity ≤ℤ pos memory
    → let n = min (memory / s.piece_length + 2) s.piece_count in
      IsValid (grown s memory n) × (length s.buffers ≤ length (grown s memory n).buffers)
unfolding grown
grown-IsValid {s} memory v more =
    let n = min (memory / s.piece_length + 2) s.piece_count in
    let old = length s.buffers in
    let pushed = push_buffers_lem s.piece_length (n - old) s.buffers v.buffers_ok in
    let (c, at_c, size) = v.sized in
    let below : c ≤ memory = omega (arith, ap pos_part at_c, ap neg_part at_c) in
    let at_most : old ≤ n =
      omega (arith, size, div_mono c memory s.piece_length below v.positive) in
    (
      record {
        initialized = v.initialized;
        handle = v.handle;
        torrent = v.torrent;
        piece_total = v.piece_total;
        buffer_total = ap pos (omega (arith, pushed.total));
        positive = v.positive;
        small = v.small;
        sized = (memory, refl, omega (arith, pushed.total));
        readers = v.readers;
        reserved = v.reserved;
        pieces_ok = v.pieces_ok;
        buffers_ok = pushed.all;
        linked = λ p b. (
          λ here. pushed.slots b ∙ (v.linked p b).0 here,
          λ here. (v.linked p b).1 (sym (pushed.slots b) ∙ here),
        );
      },
      omega (arith, pushed.total),
    )

-- What `set_memory_size` does: nothing, or more buffers.
pub set_memory_size_lem :
    {s : Storage} (memory : ℕ)
    → IsValid s
    → memory / s.piece_length + 2 < 2 ^ 31
    → let n = min (memory / s.piece_length + 2) s.piece_count in
      (set_memory_size s (pos memory) ≡ ok s)
      ⊎ ((s.capacity ≤ℤ pos memory) × (set_memory_size s (pos memory) ≡ ok (grown s memory n)))
unfolding set_memory_size
set_memory_size_lem {s} memory v count = elim (Bool-cases (leb_ℤ (pos memory) s.capacity)) [
  | inl enough ↦ inl (rw enough refl)
  | inr more ↦
      let n = min (memory / s.piece_length + 2) s.piece_count in
      let size = max_buffers_lem memory s.piece_length s.piece_count v.positive count in
      inr (ground arith, rw (more, size) (ap ok (resize_lem s memory n v.buffer_total)))
]

-- On a valid storage, for a size that is not negative and whose number of buffers fits `int`,
-- `set_memory_size` does not fault and leaves a valid storage with no less capacity and no fewer
-- buffers.
pub set_memory_size-IsValid :
    {s : Storage} (memory : ℕ)
    → IsValid s
    → memory / s.piece_length + 2 < 2 ^ 31
    → (s' : Storage) × (set_memory_size s (pos memory) ≡ ok s')
      × IsValid s'
      × (s.capacity ≤ℤ s'.capacity)
      × (length s.buffers ≤ length s'.buffers)
unfolding grown
set_memory_size-IsValid {s} memory v count = elim (set_memory_size_lem memory v count) [
  | inl same ↦ (s, same, v, omega int_laws, omega arith)
  | inr (above, q) ↦
      let (w, longer) = grown-IsValid memory v above in
      (grown s memory (min (memory / s.piece_length + 2) s.piece_count), q, w, above, longer)
]
