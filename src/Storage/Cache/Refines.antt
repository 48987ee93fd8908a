-- ===== src/Storage/Cache/Refines.antt =====
-- The calls of memory_storage.hpp refine those of a lossy cache: a write puts its bytes into its piece or
-- does nothing, pieces that are not reserved may get lost with it, and no other call changes any bytes.
use libtorrent_go.Base.{
  ℕ, ◌+◌, ◌^◌, ◌≤◌, ◌<◌, ◌≡◌, ◌≢◌, refl, sym, ap, ◌∙◌, subst, Bool, true, false, none, some, List,
  ℤ, pos, get_elem?, get_elem?-set_self, get_elem?-lt, inl, inr, ◌⊎◌, Safe, Safe-bind, Bool-cases,
  leb_ℤ,
}
use libtorrent_go.Piece.{Piece}
use libtorrent_go.Buffer.{Iovec, byte_total}
use libtorrent_go.Buffer.Copy.{Overlaid}
use libtorrent_go.Storage.{Storage, Env, now}
use libtorrent_go.Storage.Valid.{IsValid, bit}
use libtorrent_go.Storage.Evict.Evictable.{evictable-Holds}
use libtorrent_go.Storage.Evict.Kept.{trim_inv}
use libtorrent_go.Storage.Evict.Round.{Evicts}
use libtorrent_go.Storage.Alloc.Safe.{Given, held, given, refused_by_reader, full}
use libtorrent_go.Storage.Alloc.{link}
use libtorrent_go.Storage.Transfer.{trim_after, writev}
use libtorrent_go.Storage.Transfer.Parts.{writev-parts}
use libtorrent_go.Storage.Transfer.Write.{InBuffer, Stored}
use libtorrent_go.Storage.Cache.{
  Contents, contents, contents-InBuffer, contents-free, Given-contents, Stored-contents,
  Evicts-contents,
}

abbrev pub IsSame : Contents → Contents → Type 0
IsSame c c' = (q : ℕ) → c' q ≡ c q

-- Some pieces may be lost, but not a reserved one and not `keep`.
abbrev pub IsLossy : List Bool → ℤ → Contents → Contents → Type 0
IsLossy bits keep c c' =
    (q : ℕ) → (c' q ≡ c q) ⊎ ((c' q ≡ none) × (bit bits (pos q) ≡ false) × (pos q ≢ keep))

-- What `writev` does, where it answers `n`.
abbrev pub WriteEffect : List Bool → ℕ → ℕ → List Iovec → ℕ → Contents → Contents → Type 0
WriteEffect bits piece offset bufs n c c' =
    ((n ≡ 0) × IsSame c c')
    ⊎ ((n ≡ byte_total bufs)
        × (before : List ℕ) × (after : List ℕ) × ((c piece ≡ none) ⊎ (c piece ≡ some before))
        × Overlaid before offset bufs after
        × (c' piece ≡ some after)
        × ((q : ℕ) → piece ≢ q → (c' q ≡ c q) ⊎ ((c' q ≡ none) × (bit bits (pos q) ≡ false))))

abbrev Trimmed : ℤ → Storage → Storage → Type 0
Trimmed keep s w =
    (w.reserved_pieces ≡ s.reserved_pieces)
    × IsLossy s.reserved_pieces keep (contents s) (contents w)

Evicts-Trimmed :
    {e : Env} (keep : ℤ) (s a w : Storage)
    → IsValid a
    → Trimmed keep s a
    → Evicts e keep a w
    → Trimmed keep s w
Evicts-Trimmed keep s a w v (bits, lossy) m = (
  ap (λ u. u.reserved_pieces) m.result ∙ bits,
  λ q. elim (Evicts-contents v m q) [
    | inl (here, lost) ↦
        let h = evictable-Holds a.reserved_pieces keep m.buf m.chosen in
        let at_q : m.buf.pi ≡ pos q = m.held ∙ ap pos here in
        inr (
          lost,
          ap (λ l. bit l (pos q)) (sym bits) ∙ ap (bit a.reserved_pieces) (sym at_q) ∙ h.unreserved,
          λ own. h.other (at_q ∙ own),
        )
    | inr same ↦ elim (lossy q) [
      | inl before ↦ inl (same ∙ before)
      | inr (lost, free, other) ↦ inr (same ∙ lost, free, other)
    ]
  ],
)

-- The trim after a write may lose other pieces.
pub trim_after-Trimmed :
    (e : Env) (fuel piece : ℕ) {s : Storage}
    → IsValid s
    → Safe (λ w. IsValid w × Trimmed (pos piece) s w) (trim_after e fuel s piece)
unfolding trim_after
trim_after-Trimmed e fuel piece {s} v = elim (Bool-cases (leb_ℤ s.buffer_limit s.buffer_used)) [
  | inl reached ↦ rw reached (
      trim_inv e (pos piece) (Trimmed (pos piece) s)
        (λ a w x h m full. Evicts-Trimmed (pos piece) s a w x h m) (λ a k later h. h) fuel v
        (refl, λ q. inl refl))
  | inr below ↦ rw below (v, (refl, λ q. inl refl))
]

-- What stood in the piece when the request for a buffer was granted.
before_write :
    {e : Env} {s : Storage} {piece : ℕ} {r : Bool} {u : Storage}
    → Given e s piece r u
    → r ≡ true
    → (b : InBuffer u piece) → (contents s piece ≡ none) ⊎ (contents s piece ≡ some b.y.buffer)
before_write (held p i at_p at_i) yes_r b = inr (contents-InBuffer b)
before_write (refused_by_reader calls reading) yes_r b = cc
before_write (full all) yes_r b = cc
before_write {s = s} {piece = piece} (given p i c at_p unbuffered there free before) yes_r b =
    inl (contents-free s piece p at_p unbuffered)

pub no_buffer-IsSame :
    {e : Env} {s : Storage} {piece : ℕ} {r : Bool} {u : Storage}
    → Given e s piece r u
    → r ≡ false
    → IsSame (contents s) (contents u)
no_buffer-IsSame (held p i at_p at_i) no_r q = refl
no_buffer-IsSame (refused_by_reader calls reading) no_r q = refl
no_buffer-IsSame (full all) no_r q = refl
no_buffer-IsSame (given p i c at_p unbuffered there free before) no_r q = cc

Given-reserved :
    {e : Env} {s : Storage} {piece : ℕ} {r : Bool} {u : Storage}
    → Given e s piece r u
    → u.reserved_pieces ≡ s.reserved_pieces
unfolding link
Given-reserved (held p i at_p at_i) = refl
Given-reserved (refused_by_reader calls reading) = refl
Given-reserved (full all) = refl
Given-reserved (given p i c at_p unbuffered there free before) = refl

-- The piece that was written holds the new bytes.
pub Stored-piece :
    (e : Env) {s u : Storage} {piece : ℕ} (b : InBuffer s piece) (st : Stored e s piece b u)
    → contents u piece ≡ some st.0
Stored-piece e {s} {u} {piece} b (bytes, size, same) =
    rw
      (
        same,
        get_elem?-set_self s.pieces piece (record b.x { size = size })
            (get_elem?-lt s.pieces piece b.at_piece),
        b.at_i,
        get_elem?-set_self s.buffers b.i (record b.y { buffer = bytes; accessed = some (now e s) })
            (get_elem?-lt s.buffers b.i b.at_buffer),
      )
      refl

pub own_kept :
    (bits : List Bool) {piece : ℕ} {c c' : Contents}
    → IsLossy bits (pos piece) c c'
    → c' piece ≡ c piece
own_kept bits {piece = piece} lossy = elim (lossy piece) [
  | inl same ↦ same
  | inr (lost, free, other) ↦ absurd (other refl)
]

pub writev-refines :
    (e : Env) (fuel : ℕ) {s : Storage} (bufs : List Iovec) (piece offset : ℕ) {p : Piece}
    → IsValid s
    → get_elem? s.pieces piece ≡ some p
    → offset + byte_total bufs ≤ p.length
    → p.size + byte_total bufs < 2 ^ 31
    → Safe
        (λ r. WriteEffect s.reserved_pieces piece offset bufs r.0 (contents s) (contents r.1))
        (writev e fuel s bufs piece offset)
writev-refines e fuel {s} bufs piece offset v here fits sum =
    let Effect : ℕ × Storage → Type 0 =
      λ r. WriteEffect s.reserved_pieces piece offset bufs r.0 (contents s) (contents r.1) in
    elim (writev-parts e bufs piece offset v here fits sum) [
      | inl x ↦ subst (Safe Effect) (sym (x.run fuel)) (inl (refl, no_buffer-IsSame x.how refl))
      | inr x ↦
          let bits = ap (λ w. w.reserved_pieces) x.stored.2 ∙ Given-reserved x.how in
          subst (Safe Effect) (sym (x.run fuel)) (
            Safe-bind _ Effect (trim_after e fuel x.copied piece) _
              (trim_after-Trimmed e fuel piece x.valid)
              (λ w k. inr (
                refl,
                x.place.y.buffer,
                x.stored.0,
                before_write x.how refl x.place,
                x.over,
                own_kept x.copied.reserved_pieces k.1.1 ∙ Stored-piece e x.place x.stored,
                λ q apart.
                    let same =
                      Stored-contents x.asked_valid e q x.place x.stored apart
                      ∙ Given-contents v q x.how apart in
                    elim (k.1.1 q) [
                      | inl kept ↦ inl (kept ∙ same)
                      | inr (lost, free, other) ↦
                          inr (lost, ap (λ l. bit l (pos q)) (sym bits) ∙ free)
                    ],
              )))
    ]
