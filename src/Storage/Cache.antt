-- ===== src/Storage/Cache.antt =====
-- The storage of memory_storage.hpp seen from outside: a cache from pieces to their bytes, which loses
-- pieces as it likes. What the steps of the storage do to it.

pub mod Refines
pub mod Calls
pub mod Lasting
use libtorrent_go.Base.{
  ℕ, ◌≡◌, ◌≢◌, refl, sym, ap, ◌∙◌, subst, Bool, Option, none, some, List, ℤ, pos, negsuc, minus_one,
  pos_part, get_elem?, get_elem?-set_ne, get_elem?-set_self, get_elem?-lt, set, Option-cases, inl,
  inr, ◌⊎◌,
}
use mathlib.Core.Option.{some-injective}
use native.Mathlib.Decide.{ℕ_discrete}
use libtorrent_go.Piece.{Piece, reset_piece}
use libtorrent_go.Buffer.{Buffer, reset_buffer}
use libtorrent_go.Storage.{Storage, Env}
use libtorrent_go.Storage.Valid.{IsBuffer-used, IsValid, IsSlot-cases, held_buffer, bit}
use libtorrent_go.Storage.Evict.Round.{Evicts}
use libtorrent_go.Storage.Alloc.{link}
use libtorrent_go.Storage.Alloc.Safe.{Given, held, given, refused_by_reader, full}
use libtorrent_go.Storage.Transfer.Write.{InBuffer, Stored}
use libtorrent_go.Storage.Transfer.ReadBytes.{ReadStep}

abbrev pub Contents : Type 0
Contents = ℕ → Option (List ℕ)

abbrev buffer_bytes : Option Buffer → Option (List ℕ)
buffer_bytes none = none
buffer_bytes (some b) = some b.buffer

abbrev slot_bytes : List Buffer → ℤ → Option (List ℕ)
slot_bytes bs (pos i) = buffer_bytes (get_elem? bs i)
slot_bytes bs (negsuc i) = none

abbrev piece_bytes : List Buffer → Option Piece → Option (List ℕ)
piece_bytes bs none = none
piece_bytes bs (some x) = slot_bytes bs x.bi

-- The bytes of a piece: those of its buffer, if it has one.
abbrev pub contents : Storage → Contents
contents s q = piece_bytes s.buffers (get_elem? s.pieces q)

pub contents-InBuffer :
    {s : Storage} {piece : ℕ} (b : InBuffer s piece) → contents s piece ≡ some b.y.buffer
contents-InBuffer b = rw (b.at_piece, b.at_i, b.at_buffer) refl

pub contents-free :
    (s : Storage) (piece : ℕ) (x : Piece)
    → get_elem? s.pieces piece ≡ some x
    → x.bi ≡ minus_one
    → contents s piece ≡ none
contents-free s piece x here free = rw (here, free) refl

touched_bytes :
    (bs : List Buffer) (i : ℕ) (c : Buffer) {b : Buffer}
    → get_elem? bs i ≡ some b
    → c.buffer ≡ b.buffer
    → (o : Option Piece) → piece_bytes (set bs i c) o ≡ piece_bytes bs o
touched_bytes bs i c here same none = refl
touched_bytes bs i c here same (some x) = at_slot x.bi
  where
    at_slot : (z : ℤ) → slot_bytes (set bs i c) z ≡ slot_bytes bs z
    at_slot (negsuc n) = refl
    at_slot (pos j) = elim (ℕ_discrete i j) [
      | yes e ↦
          subst (λ k. buffer_bytes (get_elem? (set bs i c) k) ≡ buffer_bytes (get_elem? bs k)) e
            (rw (get_elem?-set_self bs i c (get_elem?-lt bs i here), here) (ap some same))
      | no apart ↦ ap buffer_bytes (get_elem?-set_ne bs c apart)
    ]

same_slot :
    (bs : List Buffer) (i j : ℕ) {b c : Buffer}
    → get_elem? bs i ≡ some b
    → get_elem? bs j ≡ some c
    → i ≡ j
    → b.pi ≡ c.pi
same_slot bs i j {b} {c} h k e =
    ap (λ x. x.pi) (some-injective b c (sym h ∙ ap (get_elem? bs) e ∙ k))

module _ {s : Storage} (v : IsValid s) where
  -- A change to one piece and to a buffer of another piece is not seen.
  pub contents-apart :
      (u : Storage) (p i q : ℕ) (x : Piece) (y : Buffer) {b : Buffer}
      → p ≢ q
      → get_elem? s.buffers i ≡ some b
      → b.pi ≢ pos q
      → u.pieces ≡ set s.pieces p x
      → u.buffers ≡ set s.buffers i y
      → contents u q ≡ contents s q
  contents-apart u p i q x y {b} apart there other pieces bufs =
      rw (pieces, bufs, get_elem?-set_ne s.pieces x apart)
        (elim (Option-cases (get_elem? s.pieces q)) [
          | inl missing ↦ rw missing refl
          | inr (z, here) ↦ elim (IsSlot-cases z.bi (v.pieces_ok q z here).bi_slot) [
            | inl free ↦ rw (here, free) refl
            | inr (j, at_j) ↦
                let (c, at_c, back) = held_buffer v q j here at_j in
                let away : i ≢ j = λ same. other (same_slot s.buffers i j there at_c same ∙ back) in
                rw (here, at_j, get_elem?-set_ne s.buffers y away) refl
          ]
        ])

  -- The request for a buffer shows at most in the piece it is for.
  pub Given-contents :
      {e : Env} {piece : ℕ} {r : Bool} {u : Storage} (q : ℕ)
      → Given e s piece r u
      → piece ≢ q
      → contents u q ≡ contents s q
  unfolding link
  Given-contents q (held p i at_p at_i) apart = refl
  Given-contents q (refused_by_reader calls reading) apart = refl
  Given-contents q (full all) apart = refl
  Given-contents {e} {piece} q (given p i b at_p unbuffered there free before) apart =
      contents-apart (link e s piece p i b (bit s.reserved_pieces (pos p.index))) piece i q _ _
        apart there (λ holds. absurd (cc (IsBuffer-used b q (v.buffers_ok i b there) holds, free)))
        refl refl

  -- Nor is the writing of bytes seen in other pieces.
  pub Stored-contents :
      (e : Env) {piece : ℕ} {u : Storage} (q : ℕ) (b : InBuffer s piece)
      → Stored e s piece b u
      → piece ≢ q
      → contents u q ≡ contents s q
  Stored-contents e {piece} {u} q b (bytes, size, same) apart =
      let (y, there, back) = held_buffer v piece b.i b.at_piece b.at_i in
      contents-apart u piece b.i q _ _ apart there (λ holds. apart (ap pos_part (sym back ∙ holds)))
        (ap (λ w. w.pieces) same) (ap (λ w. w.buffers) same)

  -- An eviction takes one piece away.
  pub Evicts-contents :
      {e : Env} {keep : ℤ} {u : Storage} (m : Evicts e keep s u) (q : ℕ)
      → ((m.p ≡ q) × (contents u q ≡ none)) ⊎ (contents u q ≡ contents s q)
  unfolding reset_piece reset_buffer
  Evicts-contents {e} {keep} {u} m q = elim (ℕ_discrete m.p q) [
    | yes same ↦
        let here =
          ap (λ w. get_elem? w.pieces m.p) m.result
          ∙ get_elem?-set_self s.pieces m.p _ (get_elem?-lt s.pieces m.p m.at_p) in
        inl (
          same,
          subst (λ k. contents u k ≡ none) same
              (contents-free u m.p (reset_piece m.piece) here refl),
        )
    | no apart ↦ inr (
        contents-apart u m.p m.i q _ _ apart m.at_i
          (λ holds. apart (ap pos_part (sym m.held ∙ holds))) (ap (λ w. w.pieces) m.result)
          (ap (λ w. w.buffers) m.result))
  ]

  -- A read changes no bytes.
  pub ReadStep-contents :
      (e : Env) {u : Storage} (q : ℕ) → ReadStep e s u → contents u q ≡ contents s q
  ReadStep-contents e q (inl (reading, calls, same)) = ap (λ w. contents w q) same
  ReadStep-contents e q (inr (reading, i, b, here, same)) =
      ap (λ w. contents w q) same ∙ touched_bytes s.buffers i _ here refl (get_elem? s.pieces q)
