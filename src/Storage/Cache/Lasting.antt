-- ===== src/Storage/Cache/Lasting.antt =====
-- How long the bytes last that `writev` of memory_storage.hpp has written: until the piece is written again
-- or evicted, and a reserved piece is not evicted.
use libtorrent_go.Buffer.{Iovec, byte_total}
use mathlib.Core.Option.{some-injective}
use libtorrent_go.Buffer.Copy.{Reads}
use libtorrent_go.Storage.Valid.{IsSlot-cases, held_buffer}
use libtorrent_go.Storage.Transfer.Write.{InBuffer, Holds}
use libtorrent_go.Storage.Cache.{contents-free, contents-InBuffer}
use libtorrent_go.Storage.Transfer.{writev, readv}
use libtorrent_go.Storage.Transfer.ReadVectors.{readv-answers}
use libtorrent_go.Storage.Transfer.RoundTrip.{readv-Holds, writev-Safe, Written}
use libtorrent_go.Piece.{Piece}
use libtorrent_go.Base.{
  ℕ, ◌≡◌, ◌≢◌, refl, ap, ◌∙◌, true, false, none, List, pos, length, inl, inr, ◌⊎◌, Bool, some,
  get_elem?, Option-cases, sym, subst, map, [], ◌∷◌, ◌+◌, ◌^◌, ◌≤◌, ◌<◌, arith, ok, Safe-ok,
  get_elem?-lt,
}
use libtorrent_go.Storage.{Storage, Env}
use libtorrent_go.Storage.Valid.{IsValid, bit}
use libtorrent_go.Storage.Cache.{Contents, contents}
use libtorrent_go.Storage.Cache.Calls.{Effect, perform-refines}
use libtorrent_go.Storage.Machine.{
  Request, Runs, start, next, Runs-IsValid, ask_read, ask_readv, ask_writev, ask_memory, ask_handle,
  ask_logging, ask_no_logging, ask_readers, ask_reserved,
}
use libtorrent_go.Storage.Machine.Frame.{IsSteady, perform-frame}

-- The request does not write to the piece.
abbrev pub IsElsewhere : ℕ → Request → Type 0
IsElsewhere piece (ask_read read_buf p offset) = Unit {0}
IsElsewhere piece (ask_readv bufs p offset) = Unit {0}
IsElsewhere piece (ask_writev bufs p offset) = p ≢ piece
IsElsewhere piece (ask_memory n) = Unit {0}
IsElsewhere piece (ask_handle native) = Unit {0}
IsElsewhere piece ask_logging = Unit {0}
IsElsewhere piece ask_no_logging = Unit {0}
IsElsewhere piece (ask_readers is) = Unit {0}
IsElsewhere piece (ask_reserved is) = Unit {0}

-- The contents of a piece that no call writes to: unchanged, or lost, where it is not reserved.
elsewhere :
    (bits : List Bool) (piece : ℕ) (r : Request) (c c' : Contents)
    → IsElsewhere piece r
    → Effect bits r c c'
    → (c' piece ≡ c piece) ⊎ ((c' piece ≡ none) × (bit bits (pos piece) ≡ false))
elsewhere bits piece (ask_read read_buf p offset) c c' away same = inl (same piece)
elsewhere bits piece (ask_readv bufs p offset) c c' away same = inl (same piece)
elsewhere bits piece (ask_writev bufs p offset) c c' away (n, inl (none_done, same)) =
    inl (same piece)
elsewhere bits piece (ask_writev bufs p offset) c c' away
      (n, inr (total, before, after, there, over, here, others)) =
    others piece away
elsewhere bits piece (ask_memory n) c c' away same = inl (same piece)
elsewhere bits piece (ask_handle native) c c' away same = inl (same piece)
elsewhere bits piece ask_logging c c' away same = inl (same piece)
elsewhere bits piece ask_no_logging c c' away same = inl (same piece)
elsewhere bits piece (ask_readers is) c c' away same = inl (same piece)
elsewhere bits piece (ask_reserved is) c c' away same = inl (same piece)

-- A run that leaves a piece alone.
record HasLasted (s u : Storage) (piece : ℕ) : Type 0 where
  length : u.piece_length ≡ s.piece_length
  count : u.piece_count ≡ s.piece_count
  kept : (contents u piece ≡ contents s piece) ⊎ (contents u piece ≡ none)

Runs-HasLasted :
    (e : Env) (fuel piece : ℕ) {s u : Storage}
    → IsValid s
    → Runs e fuel (IsElsewhere piece) s u
    → HasLasted s u piece
Runs-HasLasted e fuel piece v start = record { length = refl; count = refl; kept = inl refl }
Runs-HasLasted e fuel piece {s} {u} v (next a w r path allowed away q) =
    let h = Runs-HasLasted e fuel piece v path in
    let va = Runs-IsValid v path in
    let (length, count, _) = perform-frame e fuel r va allowed q in
    let effect = perform-refines e fuel r va allowed q in
    record {
      length = length ∙ h.length;
      count = count ∙ h.count;
      kept = elim (elsewhere a.reserved_pieces piece r _ _ away effect) [
        | inl same ↦ elim h.kept [ inl before ↦ inl (same ∙ before) | inr lost ↦ inr (same ∙ lost) ]
        | inr (lost, _) ↦ inr lost
      ];
    }

-- The same where the piece is reserved all the time.
Runs-reserved :
    (e : Env) (fuel piece : ℕ) {s u : Storage}
    → IsValid s
    → bit s.reserved_pieces (pos piece) ≡ true
    → Runs e fuel (λ r. IsElsewhere piece r × IsSteady r) s u
    → (u.piece_length ≡ s.piece_length)
      × (u.reserved_pieces ≡ s.reserved_pieces)
      × (contents u piece ≡ contents s piece)
Runs-reserved e fuel piece v marked start = (refl, refl, refl)
Runs-reserved e fuel piece {s} v marked (next a w r path allowed (away, steady) q) =
    let (length, bits, same) = Runs-reserved e fuel piece v marked path in
    let va = Runs-IsValid v path in
    let (length', _, bits') = perform-frame e fuel r va allowed q in
    (
      length' ∙ length,
      bits' steady ∙ bits,
      elim (elsewhere a.reserved_pieces piece r _ _ away (perform-refines e fuel r va allowed q)) [
        | inl still ↦ still ∙ same
        | inr (lost, free) ↦ absurd (cc (ap (λ l. bit l (pos piece)) bits, marked, free))
      ],
    )

pub contents-some :
    {s : Storage} (piece : ℕ) {l : List ℕ}
    → IsValid s
    → contents s piece ≡ some l
    → (b : InBuffer s piece) × (b.y.buffer ≡ l)
contents-some {s} piece {l} v h = elim (Option-cases (get_elem? s.pieces piece)) [
  | inl missing ↦ absurd (cc (none_there missing, h))
  | inr (x, here) ↦ elim (IsSlot-cases x.bi (v.pieces_ok piece x here).bi_slot) [
    | inl free ↦ absurd (cc (contents-free s piece x here free, h))
    | inr (i, at_i) ↦
        let (y, there, _) = held_buffer v piece i here at_i in
        let b : InBuffer s piece = record {
          x = x;
          i = i;
          y = y;
          at_piece = here;
          at_i = at_i;
          at_buffer = there;
        } in
        (b, some-injective _ _ (sym (contents-InBuffer b) ∙ h))
  ]
]
  where
    none_there : get_elem? s.pieces piece ≡ none → contents s piece ≡ none
    none_there missing = rw missing refl

byte_total-shape :
    (dests bufs : List Iovec)
    → map length dests ≡ map length bufs
    → byte_total dests ≡ byte_total bufs
unfolding byte_total
byte_total-shape [] [] h = refl
byte_total-shape [] (v ∷ bufs) h = cc
byte_total-shape (d ∷ dests) [] h = cc
byte_total-shape (d ∷ dests) (v ∷ bufs) h =
    let same : length d ≡ length v = cc in
    let rest : map length dests ≡ map length bufs = cc in
    omega (arith, same, byte_total-shape dests bufs rest)

still-Holds :
    {s u : Storage} {piece : ℕ} (offset : ℕ) (bufs : List Iovec)
    → IsValid u
    → Holds piece offset bufs s
    → contents u piece ≡ contents s piece
    → Holds piece offset bufs u
still-Holds {piece = piece} offset bufs v (b, reads) same =
    let (b', bytes) = contents-some piece v (same ∙ contents-InBuffer b) in
    (b', subst (λ l. Reads l offset bufs) (sym bytes) reads)

module _ (e : Env) (fuel : ℕ) {s : Storage} (bufs dests : List Iovec) (piece offset : ℕ) {p : Piece}
    {n : ℕ} {s1 : Storage} (v : IsValid s) (here : get_elem? s.pieces piece ≡ some p)
    (fits : offset + byte_total bufs ≤ p.length) (sum : p.size + byte_total bufs < 2 ^ 31)
    (shape : map length dests ≡ map length bufs)
    (done : writev e fuel s bufs piece offset ≡ ok (n, s1)) (some_bytes : n ≢ 0) where
  written : IsValid s1 × (offset + byte_total bufs ≤ s1.piece_length) × Holds piece offset bufs s1
  written =
      let safe = writev-Safe e fuel bufs piece offset v here fits sum in
      let (v1, same, outcome) = Safe-ok (Written s piece offset bufs) safe done in
      (
        v1,
        omega (arith, same, (v.pieces_ok piece p here).fits),
        elim outcome [ inl nothing ↦ absurd (some_bytes nothing) | inr (all, holds) ↦ holds ],
      )

  -- On a valid storage, for a request inside the piece whose size stays below 2^31: if `writev`
  -- ends and answers some bytes, then after any sequence of allowed calls that ended and did not
  -- write to this piece, a `readv` of vectors of the same lengths at the same place ends, and
  -- either answers 0 and leaves its vectors alone, or answers the number of all the bytes and
  -- fills in those that were written.
  pub readv-later :
      {u : Storage}
      → Runs e fuel (IsElsewhere piece) s1 u
      → (m : ℕ) × (filled : List Iovec) × (w : Storage) × (readv e u dests piece offset
          ≡ ok (m, filled, w))
        × (((m ≡ 0) × (filled ≡ dests)) ⊎ ((m ≡ byte_total bufs) × (filled ≡ bufs)))
  readv-later path =
      let (v1, inside, holds) = written in
      let h = Runs-HasLasted e fuel piece v1 path in
      let vu = Runs-IsValid v1 path in
      elim h.kept [
        | inl same ↦
            let (w, q) =
              readv-Holds e bufs dests piece offset vu (omega (arith, h.length, inside)) shape
                (still-Holds offset bufs vu holds same) in
            (byte_total bufs, bufs, w, q, inr (refl, refl))
        | inr lost ↦
            let below = get_elem?-lt s1.pieces piece holds.0.at_piece in
            let (m, filled, w, q, answer, _, _) =
              readv-answers e dests piece offset vu (omega (arith, h.count, below, v1.piece_total))
                (omega (arith, h.length, inside, byte_total-shape dests bufs shape)) in
            (
              m,
              filled,
              w,
              q,
              elim answer [
                | inl (x, at_x, free, nothing, same) ↦ inl (nothing, same)
                | inr (b, total, same) ↦ absurd (cc (contents-InBuffer b, lost))
              ],
            )
      ]

  -- On a valid storage, for a request inside the piece whose size stays below 2^31: if `writev`
  -- ends and answers some bytes, and the piece is then reserved, then after any sequence of
  -- allowed calls that ended, did not write to this piece and did not set the reserved pieces, a
  -- `readv` of vectors of the same lengths at the same place answers the number of all the bytes
  -- and fills in those that were written.
  pub readv-reserved :
      {u : Storage}
      → bit s1.reserved_pieces (pos piece) ≡ true
      → Runs e fuel (λ r. IsElsewhere piece r × IsSteady r) s1 u
      → (w : Storage) × (readv e u dests piece offset ≡ ok (byte_total bufs, bufs, w))
  readv-reserved marked path =
      let (v1, inside, holds) = written in
      let (length, _, same) = Runs-reserved e fuel piece v1 marked path in
      let vu = Runs-IsValid v1 path in
      readv-Holds e bufs dests piece offset vu (omega (arith, length, inside)) shape
        (still-Holds offset bufs vu holds same)
