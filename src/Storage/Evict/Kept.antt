-- ===== src/Storage/Evict/Kept.antt =====
-- What `trim` of memory_storage.hpp leaves alone: it never faults on a valid storage, and the pieces
-- that are reserved, and the one that it makes room for, stay in memory with their bytes.
use libtorrent_go.Base.{
  ℕ, zero, suc, ◌+◌, ◌≡◌, ◌≢◌, refl, sym, ap, ◌∙◌, subst, true, some, ℤ, pos, ltb_ℤ, ◌||◌, ◌⊎◌, inl,
  inr, Result, Safe, get_elem?, Bool-cases, get_elem?-set_ne, List,
}
use libtorrent_go.Base.{◌≤◌, ◌≤ℤ◌, arith}
use mathlib.Core.Option.{some-injective}
use libtorrent_go.Piece.{Piece}
use libtorrent_go.Buffer.{Buffer}
use libtorrent_go.Storage.{Storage, Env}
use libtorrent_go.Storage.Valid.{IsValid, bit, held_buffer}
use libtorrent_go.Storage.Evict.{trim_loop, trim}
use libtorrent_go.Storage.Evict.Evictable.{evictable-Holds}
use libtorrent_go.Storage.Evict.Round.{Evicts, Evicts-IsValid, ticks-IsValid, trim_round_lem}
use libtorrent_go.Storage.Evict.Trim.{at_least, trim_loop-stop, trim_loop-step}

-- What evictions and readings of the clock keep, the loop keeps; and the loop does not fault.
module _ (e : Env) (keep : ℤ) (P : Storage → Type 0)
    (evicting : (s s' : Storage)
      → IsValid s
      → P s
      → Evicts e keep s s'
      → s.buffer_limit ≤ℤ s.buffer_used
      → P s')
    (waiting : (s : Storage) (k : ℕ) → s.ticks ≤ k → P s → P (record s { ticks = k })) where
  abbrev Good : Result Storage → Type 0
  Good = Safe (λ s'. IsValid s' × P s')

  trim_loop_inv :
      (fuel : ℕ) {s : Storage}
      → IsValid s
      → P s
      → Safe (λ s'. IsValid s' × P s') (trim_loop e keep fuel s)
  trim_loop_inv zero v h = unfold trim_loop in tt
  trim_loop_inv (suc fuel) {s} v h = elim (Bool-cases (ltb_ℤ s.buffer_used s.buffer_limit)) [
    | inl room ↦ subst Good (sym (trim_loop-stop e keep fuel s room)) (v, h)
    | inr full ↦
        let (s', done, outcome) = trim_round_lem e keep v in
        subst Good (sym (trim_loop-step e keep fuel s full done)) (elim outcome [
          | inl m ↦
              trim_loop_inv fuel (Evicts-IsValid v m)
                (evicting s s' v h m (at_least s.buffer_used s.buffer_limit full))
          | inr (same, _) ↦
              subst (λ u. Good (trim_loop e keep fuel u)) (sym same)
                (trim_loop_inv fuel (ticks-IsValid (s.ticks + 1 + 1) v)
                  (waiting s _ (omega arith) h))
        ])
  ]

  pub trim_inv :
      (fuel : ℕ) {s : Storage}
      → IsValid s
      → P s
      → Safe (λ s'. IsValid s' × P s') (trim e fuel s keep)
  unfolding trim
  trim_inv fuel {s} v h =
      elim (Bool-cases (ltb_ℤ s.capacity (pos 0) || ltb_ℤ s.buffer_used s.buffer_limit)) [
        | inl stop ↦ rw stop (v, h)
        | inr go ↦ rw go (trim_loop_inv fuel v h)
      ]

-- The pieces that are reserved, and the piece `keep`, are as they were, and so are their buffers.
abbrev pub Kept : ℤ → Storage → Storage → Type 0
Kept keep s s' =
    (s'.reserved_pieces ≡ s.reserved_pieces)
    × (s'.piece_length ≡ s.piece_length)
    × ((q : ℕ) (x : Piece)
        → get_elem? s.pieces q ≡ some x
        → (pos q ≡ keep) ⊎ (bit s.reserved_pieces (pos q) ≡ true)
        → (get_elem? s'.pieces q ≡ some x)
          × ((b : ℕ) (y : Buffer)
              → x.bi ≡ pos b
              → get_elem? s.buffers b ≡ some y
              → get_elem? s'.buffers b ≡ some y))

Kept-trans : (keep : ℤ) (s s' s'' : Storage) → Kept keep s s' → Kept keep s' s'' → Kept keep s s''
Kept-trans keep s s' s'' (same, total, h) (same', total', h') = (
  same' ∙ same,
  total' ∙ total,
  λ q x here safe.
      let (here', bufs) = h q x here safe in
      let (here'', bufs') =
        h' q x here' (subst (λ l. (pos q ≡ keep) ⊎ (bit l (pos q) ≡ true)) (sym same) safe) in
      (here'', λ b y at_b there. bufs' b y at_b (bufs b y at_b there)),
)

-- The piece of an evicted buffer is neither reserved nor `keep`.
not_chosen :
    {e : Env} {keep : ℤ} {s s' : Storage} {q : ℕ}
    → (m : Evicts e keep s s') → (pos q ≡ keep) ⊎ (bit s.reserved_pieces (pos q) ≡ true)
    → m.p ≢ q
not_chosen {e} {keep} {s} {s'} {q} m safe same =
    let h = evictable-Holds s.reserved_pieces keep m.buf m.chosen in
    let there : m.buf.pi ≡ pos q = m.held ∙ ap pos same in
    elim safe [
      | inl own ↦ h.other (there ∙ own)
      | inr marked ↦ cc (h.unreserved, ap (bit s.reserved_pieces) there, marked)
    ]

-- A buffer holds one piece.
one_piece :
    (bs : List Buffer) {i b p q : ℕ} {y y' : Buffer}
    → get_elem? bs i ≡ some y
    → get_elem? bs b ≡ some y'
    → i ≡ b
    → y.pi ≡ pos p
    → y'.pi ≡ pos q
    → p ≡ q
one_piece bs h h' same at_p at_q =
    let one = some-injective _ _ (sym h ∙ ap (get_elem? bs) same ∙ h') in
    cc (sym at_p ∙ ap (λ y. y.pi) one ∙ at_q)

Evicts-Kept :
    (e : Env) (keep : ℤ) (s s' : Storage) → IsValid s → Evicts e keep s s' → Kept keep s s'
Evicts-Kept e keep s s' v m = (
  ap (λ u. u.reserved_pieces) m.result,
  ap (λ u. u.piece_length) m.result,
  λ q x here safe.
      let apart : m.p ≢ q = not_chosen m safe in
      (
        ap (λ u. get_elem? u.pieces q) m.result ∙ get_elem?-set_ne s.pieces _ apart ∙ here,
        λ b y at_b there.
            let (y', here', held') = held_buffer v q b here at_b in
            let away : m.i ≢ b =
              λ same. apart (one_piece s.buffers m.at_i here' same m.held held') in
            ap (λ u. get_elem? u.buffers b) m.result ∙ get_elem?-set_ne s.buffers _ away ∙ there,
      ),
)

-- On a valid storage `trim` does not fault. If it ends, the storage is valid, and each reserved
-- piece and the piece that room is made for are as they were, and so is the buffer that holds
-- them; the reserved pieces and the piece length are the same too.
pub trim-Kept :
    (e : Env) (fuel : ℕ) {s : Storage} (keep : ℤ)
    → IsValid s
    → Safe (λ s'. IsValid s' × Kept keep s s') (trim e fuel s keep)
trim-Kept e fuel {s} keep v =
    trim_inv e keep (Kept keep s)
      (λ u w u_valid h m full. Kept-trans keep s u w h (Evicts-Kept e keep u w u_valid m))
      (λ u k later h. h) fuel v (refl, refl, λ q x here safe. (here, λ b y at_b there. there))
