-- ===== src/Storage/Setup/Update.antt =====
-- `update_reader_pieces` and `update_reserved_pieces` of memory_storage.hpp.
use libtorrent_go.Base.{
  ℕ, zero, suc, ◌+◌, ◌<◌, ◌≡◌, refl, sym, ap, ◌∙◌, subst, Bool, true, false, List, [], ◌∷◌, ℤ, pos,
  negsuc, arith, ◌==◌, ◌||◌, if◌then◌else◌, length, ok, ◌>>=◌, set, length-set, get_elem?_of_lt,
}
use libtorrent_go.Storage.{Storage}
use libtorrent_go.Storage.Valid.{IsValid, bit}
use libtorrent_go.Storage.Setup.{
  reset_bits, set_bits, count_bits, update_reader_pieces, update_reserved_pieces,
}

-- The indices of a request, all of them below `n`.
abbrev pub AllBelow : ℕ → List ℤ → Type 0
AllBelow n [] = Unit {0}
AllBelow n (pos i ∷ is) = (i < n) × AllBelow n is
AllBelow n (negsuc i ∷ is) = ⊥

-- Whether an index is in the request.
unfoldable pub asked : ℕ → List ℤ → Bool
asked i [] = false
asked i (pos j ∷ is) = j == i || asked i is
asked i (negsuc j ∷ is) = asked i is

length-reset_bits : (bits : List Bool) → length (reset_bits bits) ≡ length bits
unfolding reset_bits
length-reset_bits [] = refl
length-reset_bits (b ∷ bits) = ap suc (length-reset_bits bits)

bit-reset_bits : (bits : List Bool) (i : ℕ) → bit (reset_bits bits) (pos i) ≡ false
unfolding reset_bits
bit-reset_bits [] i = refl
bit-reset_bits (b ∷ bits) zero = refl
bit-reset_bits (b ∷ bits) (suc i) = bit-reset_bits bits i

bit-set :
    (bits : List Bool) (j i : ℕ)
    → j < length bits
    → bit (set bits j true) (pos i) ≡ (j == i || bit bits (pos i))
bit-set [] j i h = elim h [ ]
bit-set (b ∷ bits) zero zero h = refl
bit-set (b ∷ bits) zero (suc i) h = ground arith
bit-set (b ∷ bits) (suc j) zero h = ground arith
bit-set (b ∷ bits) (suc j) (suc i) h = ground (arith, bit-set bits j i)

set_bits_lem :
    (bits : List Bool) (is : List ℤ)
    → AllBelow (length bits) is
    → (bits' : List Bool) × (set_bits bits is ≡ ok bits')
      × (length bits' ≡ length bits)
      × ((i : ℕ) → bit bits' (pos i) ≡ (asked i is || bit bits (pos i)))
unfolding set_bits asked
set_bits_lem bits [] h = (bits, refl, refl, λ i. refl)
set_bits_lem bits (pos j ∷ is) (here, h) =
    let (b, there) = get_elem?_of_lt bits j here in
    let same = length-set bits j true in
    let (bits', q, total, each) =
      set_bits_lem (set bits j true) is (subst (λ n. AllBelow n is) (sym same) h) in
    (bits', rw there q, total ∙ same, λ i. each i ∙ ground (arith, bit-set bits j i here))
set_bits_lem bits (negsuc j ∷ is) h = absurd h

-- On a valid storage, for indices inside the set of bits, `update_reserved_pieces` does not fault
-- and leaves a valid storage in which nothing changed but the set of reserved pieces and
-- `buffer_reserved`; afterwards the reserved pieces are exactly those asked for, and
-- `buffer_reserved` is what `count_bits` makes of them.
pub update_reserved_pieces-IsValid :
    {s : Storage} (is : List ℤ)
    → IsValid s
    → AllBelow (s.piece_count + 10) is
    → (bits : List Bool) × (update_reserved_pieces s is
        ≡ ok (record s { reserved_pieces = bits; buffer_reserved = count_bits is }))
      × IsValid (record s { reserved_pieces = bits; buffer_reserved = count_bits is })
      × ((i : ℕ) → bit bits (pos i) ≡ asked i is)
unfolding update_reserved_pieces
update_reserved_pieces-IsValid {s} is v h =
    let clean = reset_bits s.reserved_pieces in
    let size = length-reset_bits s.reserved_pieces ∙ v.reserved in
    let (bits, q, total, each) = set_bits_lem clean is (subst (λ n. AllBelow n is) (sym size) h) in
    (
      bits,
      ap
            (λ c.
              if c
              then (set_bits clean is >>= λ bits.
                  ok (record s { reserved_pieces = bits; buffer_reserved = count_bits is }))
              else ok s)
            v.initialized
          ∙ rw q refl,
      record {
        initialized = v.initialized;
        handle = v.handle;
        torrent = v.torrent;
        piece_total = v.piece_total;
        buffer_total = v.buffer_total;
        positive = v.positive;
        small = v.small;
        sized = v.sized;
        readers = v.readers;
        reserved = total ∙ size;
        pieces_ok = v.pieces_ok;
        buffers_ok = v.buffers_ok;
        linked = v.linked;
      },
      λ i. each i ∙ ground (arith, bit-reset_bits s.reserved_pieces i),
    )

-- On a valid storage, for indices inside the set of bits, `update_reader_pieces` does not fault
-- and leaves a valid storage in which nothing changed but the set of the reader's pieces;
-- afterwards these are exactly those asked for.
pub update_reader_pieces-IsValid :
    {s : Storage} (is : List ℤ)
    → IsValid s
    → AllBelow (s.piece_count + 10) is
    → (bits : List Bool) × (update_reader_pieces s is ≡ ok (record s { reader_pieces = bits }))
      × IsValid (record s { reader_pieces = bits })
      × ((i : ℕ) → bit bits (pos i) ≡ asked i is)
unfolding update_reader_pieces
update_reader_pieces-IsValid {s} is v h =
    let clean = reset_bits s.reader_pieces in
    let size = length-reset_bits s.reader_pieces ∙ v.readers in
    let (bits, q, total, each) = set_bits_lem clean is (subst (λ n. AllBelow n is) (sym size) h) in
    (
      bits,
      ap
            (λ c.
              if c
              then (set_bits clean is >>= λ bits. ok (record s { reader_pieces = bits }))
              else ok s)
            v.initialized
          ∙ rw q refl,
      record {
        initialized = v.initialized;
        handle = v.handle;
        torrent = v.torrent;
        piece_total = v.piece_total;
        buffer_total = v.buffer_total;
        positive = v.positive;
        small = v.small;
        sized = v.sized;
        readers = total ∙ size;
        reserved = v.reserved;
        pieces_ok = v.pieces_ok;
        buffers_ok = v.buffers_ok;
        linked = v.linked;
      },
      λ i. each i ∙ ground (arith, bit-reset_bits s.reader_pieces i),
    )
