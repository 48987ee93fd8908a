-- ===== src/Storage/Machine/Frame.antt =====
-- What the calls of memory_storage.hpp leave alone: the piece length, the number of pieces, and all but one
-- the set of reserved pieces.
use libtorrent_go.Base.{
  ℕ, ◌≡◌, refl, sym, ap, ◌∙◌, subst, Bool, List, pos, inl, inr, ok, ok-injective, Safe, Safe-ok,
  Safe-bind, Safe-mono, ◌⊎◌, ℤ, ◌>>=◌, Bool-cases, leb_ℤ, ◌+◌, ◌^◌, ◌≤◌, ◌<◌, get_elem?, some,
}
use libtorrent_go.Piece.{Piece}
use libtorrent_go.Buffer.{Iovec, byte_total}
use libtorrent_go.Storage.{Storage, Env, is_null}
use libtorrent_go.Storage.Valid.{IsValid}
use libtorrent_go.Storage.Evict.{trim}
use libtorrent_go.Storage.Evict.Round.{Evicts}
use libtorrent_go.Storage.Transfer.Write.{InBuffer, Stored}
use libtorrent_go.Storage.Evict.Kept.{trim_inv}
use libtorrent_go.Storage.Alloc.{link}
use libtorrent_go.Storage.Alloc.Safe.{Given, held, given, refused_by_reader, full}
use libtorrent_go.Storage.Setup.{set_torrent_handle, enable_logging, disable_logging}
use libtorrent_go.Storage.Setup.Safe.{grown, set_memory_size_lem}
use libtorrent_go.Storage.Setup.Update.{
  update_reader_pieces-IsValid, update_reserved_pieces-IsValid,
}
use libtorrent_go.Storage.Transfer.{trim_after, writev}
use libtorrent_go.Storage.Transfer.Parts.{writev-parts}
use libtorrent_go.Storage.Transfer.Read.{read-answers}
use libtorrent_go.Storage.Transfer.ReadBytes.{ReadStep}
use libtorrent_go.Storage.Transfer.ReadVectors.{readv-answers}
use libtorrent_go.Storage.Machine.{
  Request, perform, IsAllowed, ask_read, ask_readv, ask_writev, ask_memory, ask_handle, ask_logging,
  ask_no_logging, ask_readers, ask_reserved,
}

-- The request does not set the reserved pieces.
abbrev pub IsSteady : Request → Type 0
IsSteady (ask_read read_buf piece offset) = Unit {0}
IsSteady (ask_readv bufs piece offset) = Unit {0}
IsSteady (ask_writev bufs piece offset) = Unit {0}
IsSteady (ask_memory n) = Unit {0}
IsSteady (ask_handle native) = Unit {0}
IsSteady ask_logging = Unit {0}
IsSteady ask_no_logging = Unit {0}
IsSteady (ask_readers is) = Unit {0}
IsSteady (ask_reserved is) = ⊥

pub record IsFramed (s u : Storage) : Type 0 where
  pub length : u.piece_length ≡ s.piece_length
  pub count : u.piece_count ≡ s.piece_count
  pub reserved : u.reserved_pieces ≡ s.reserved_pieces

pub framed :
    {s u : Storage}
    → u.piece_length ≡ s.piece_length
    → u.piece_count ≡ s.piece_count
    → u.reserved_pieces ≡ s.reserved_pieces
    → IsFramed s u
framed a b c = record { length = a; count = b; reserved = c }

pub IsFramed-eq : {s u : Storage} → u ≡ s → IsFramed s u
IsFramed-eq q =
    framed (ap (λ w. w.piece_length) q) (ap (λ w. w.piece_count) q) (ap (λ w. w.reserved_pieces) q)

pub IsFramed-trans : {s u w : Storage} → IsFramed s u → IsFramed u w → IsFramed s w
IsFramed-trans h k = framed (k.length ∙ h.length) (k.count ∙ h.count) (k.reserved ∙ h.reserved)

pub ReadStep-IsFramed : (e : Env) {s u : Storage} → ReadStep e s u → IsFramed s u
ReadStep-IsFramed e (inl (reading, calls, q)) =
    IsFramed-trans (framed refl refl refl) (IsFramed-eq q)
ReadStep-IsFramed e (inr (reading, i, b, here, q)) =
    IsFramed-trans (framed refl refl refl) (IsFramed-eq q)

pub Given-IsFramed :
    {e : Env} {s : Storage} {piece : ℕ} {r : Bool} {u : Storage}
    → Given e s piece r u
    → IsFramed s u
unfolding link
Given-IsFramed (held p i at_p at_i) = framed refl refl refl
Given-IsFramed (refused_by_reader calls reading) = framed refl refl refl
Given-IsFramed (full all) = framed refl refl refl
Given-IsFramed (given p i c at_p unbuffered there free before) = framed refl refl refl

pub Stored-IsFramed :
    (e : Env) {s u : Storage} {piece : ℕ} (b : InBuffer s piece)
    → Stored e s piece b u
    → IsFramed s u
Stored-IsFramed e b (bytes, size, q) =
    framed (ap (λ w. w.piece_length) q) (ap (λ w. w.piece_count) q) (ap (λ w. w.reserved_pieces) q)

pub Evicts-IsFramed : {e : Env} {keep : ℤ} {s u : Storage} → Evicts e keep s u → IsFramed s u
Evicts-IsFramed m =
    framed (ap (λ w. w.piece_length) m.result) (ap (λ w. w.piece_count) m.result)
      (ap (λ w. w.reserved_pieces) m.result)

trim_after-IsFramed :
    (e : Env) (fuel piece : ℕ) {s : Storage}
    → IsValid s
    → Safe (IsFramed s) (trim_after e fuel s piece)
unfolding trim_after
trim_after-IsFramed e fuel piece {s} v = elim (Bool-cases (leb_ℤ s.buffer_limit s.buffer_used)) [
  | inl reached ↦ rw reached (
      Safe-mono _ (IsFramed s) (trim e fuel s (pos piece))
        (trim_inv e (pos piece) (IsFramed s)
          (λ a w x h m full. IsFramed-trans h (Evicts-IsFramed m))
          (λ a k later h. framed h.length h.count h.reserved) fuel v (framed refl refl refl))
        (λ w k. k.1))
  | inr below ↦ rw below (framed refl refl refl)
]

writev-IsFramed :
    (e : Env) (fuel : ℕ) {s : Storage} (bufs : List Iovec) (piece offset : ℕ) {p : Piece}
    → IsValid s
    → get_elem? s.pieces piece ≡ some p
    → offset + byte_total bufs ≤ p.length
    → p.size + byte_total bufs < 2 ^ 31
    → Safe (λ r. IsFramed s r.1) (writev e fuel s bufs piece offset)
writev-IsFramed e fuel {s} bufs piece offset v here fits sum =
    let Framed : ℕ × Storage → Type 0 = λ r. IsFramed s r.1 in
    elim (writev-parts e bufs piece offset v here fits sum) [
      | inl x ↦ subst (Safe Framed) (sym (x.run fuel)) (Given-IsFramed x.how)
      | inr x ↦ subst (Safe Framed) (sym (x.run fuel)) (
          Safe-bind _ Framed (trim_after e fuel x.copied piece) _
            (trim_after-IsFramed e fuel piece x.valid)
            (λ w k.
              IsFramed-trans (Given-IsFramed x.how)
                (IsFramed-trans (Stored-IsFramed e x.place x.stored) k)))
    ]

-- A call that does not set them.
steady-IsFramed :
    (e : Env) (fuel : ℕ) {s u : Storage} (r : Request)
    → IsValid s
    → IsAllowed s r
    → IsSteady r
    → perform e fuel s r ≡ ok u
    → IsFramed s u
unfolding perform set_torrent_handle is_null enable_logging disable_logging grown
steady-IsFramed e fuel (ask_read read_buf piece offset) v (h, start) _ done =
    let (r, out, w, run, answer, _, step) = read-answers e piece offset read_buf v h start in
    let same = ok-injective (sym (ap (λ m. m >>= λ r. ok r.2) run) ∙ done) in
    IsFramed-trans (ReadStep-IsFramed e step) (IsFramed-eq (sym same))
steady-IsFramed e fuel (ask_readv bufs piece offset) v (h, fits) _ done =
    let (n, filled, w, run, answer, _, step) = readv-answers e bufs piece offset v h fits in
    let same = ok-injective (sym (ap (λ m. m >>= λ r. ok r.2) run) ∙ done) in
    IsFramed-trans (ReadStep-IsFramed e step) (IsFramed-eq (sym same))
steady-IsFramed e fuel {s} (ask_writev bufs piece offset) v (p, here, fits, sum) _ done =
    Safe-ok (IsFramed s)
      (Safe-bind _ (IsFramed s) (writev e fuel s bufs piece offset) _
        (writev-IsFramed e fuel bufs piece offset v here fits sum) (λ r w. w))
      done
steady-IsFramed e fuel (ask_memory n) v count _ done = elim (set_memory_size_lem n v count) [
  | inl same ↦ IsFramed-eq (ok-injective (sym done ∙ same))
  | inr (above, run) ↦
      IsFramed-trans (framed refl refl refl) (IsFramed-eq (ok-injective (sym done ∙ run)))
]
steady-IsFramed e fuel (ask_handle native) v h _ done =
    IsFramed-trans (framed refl refl refl) (IsFramed-eq (sym (ok-injective done)))
steady-IsFramed e fuel ask_logging v h _ done =
    IsFramed-trans (framed refl refl refl) (IsFramed-eq (sym (ok-injective done)))
steady-IsFramed e fuel ask_no_logging v h _ done =
    IsFramed-trans (framed refl refl refl) (IsFramed-eq (sym (ok-injective done)))
steady-IsFramed e fuel (ask_readers is) v h _ done =
    let (bits, run, w, _) = update_reader_pieces-IsValid is v h in
    IsFramed-trans (framed refl refl refl) (IsFramed-eq (ok-injective (sym done ∙ run)))
steady-IsFramed e fuel (ask_reserved is) v h steady done = absurd steady

IsSteady-or_reserved : (r : Request) → IsSteady r ⊎ ((is : List ℤ) × (r ≡ ask_reserved is))
IsSteady-or_reserved (ask_read read_buf piece offset) = inl tt
IsSteady-or_reserved (ask_readv bufs piece offset) = inl tt
IsSteady-or_reserved (ask_writev bufs piece offset) = inl tt
IsSteady-or_reserved (ask_memory n) = inl tt
IsSteady-or_reserved (ask_handle native) = inl tt
IsSteady-or_reserved ask_logging = inl tt
IsSteady-or_reserved ask_no_logging = inl tt
IsSteady-or_reserved (ask_readers is) = inl tt
IsSteady-or_reserved (ask_reserved is) = inr (is, refl)

pub perform-frame :
    (e : Env) (fuel : ℕ) {s u : Storage} (r : Request)
    → IsValid s
    → IsAllowed s r
    → perform e fuel s r ≡ ok u
    → (u.piece_length ≡ s.piece_length)
      × (u.piece_count ≡ s.piece_count)
      × (IsSteady r → u.reserved_pieces ≡ s.reserved_pieces)
unfolding perform
perform-frame e fuel {s} {u} r v allowed done = elim (IsSteady-or_reserved r) [
  | inl steady ↦
      let h = steady-IsFramed e fuel r v allowed steady done in (h.length, h.count, λ _. h.reserved)
  | inr (is, q) ↦
      let (bits, run, w, _) = update_reserved_pieces-IsValid is v (subst (IsAllowed s) q allowed) in
      let same = ok-injective (sym (subst (λ r. perform e fuel s r ≡ ok u) q done) ∙ run) in
      (
        ap (λ w. w.piece_length) same,
        ap (λ w. w.piece_count) same,
        λ steady. absurd (subst IsSteady q steady),
      )
]
