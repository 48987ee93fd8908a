-- ===== src/Storage/Threads/Kept.antt =====
-- The pieces that the threads of memory_storage.hpp have in memory, and the steps that keep them there.
use libtorrent_go.Base.{
  ◌⊎◌, minus_one, pos_part, ℕ, ◌≡◌, ◌≢◌, refl, sym, ap, ◌∙◌, subst, true, false, List, some,
  get_elem?, Bool, Bool-cases, inl, inr, pos,
}
use libtorrent_go.Storage.Valid.{IsSlot-cases, held_buffer, IsValid}
use libtorrent_go.Storage.Cache.{
  contents-free, contents, contents-InBuffer, contents-apart, Given-contents, Stored-contents,
  ReadStep-contents,
}
use libtorrent_go.Storage.{Call, Storage, Env}
use libtorrent_go.Piece.{Piece}
use libtorrent_go.Buffer.{Buffer}
use mathlib.Core.Option.{some-injective}
use native.Mathlib.Decide.{ℕ_discrete}
use libtorrent_go.Storage.Threads.Place.{
  Pc, is_inside, idle, asking, locking, claiming, measuring, telling, copying, testing, checking,
  waiting, trimming, searching, removing, sizing, resizing,
}
use libtorrent_go.Storage.Threads.Changes.{
  Change, Quiet, IsTaken, Quiet-IsTaken, Change-Quiet, same, put, touched, delayed, handled, logged,
  wanted, marked, quiet, asked, removed, grows,
}
use libtorrent_go.Storage.Alloc.Safe.{Given}
use libtorrent_go.Storage.Transfer.Write.{Given-InBuffer, InBuffer}
use libtorrent_go.Storage.Cache.Refines.{no_buffer-IsSame, Stored-piece}
use libtorrent_go.Storage.Cache.Calls.{grown-IsSame}
use libtorrent_go.Storage.Cache.Lasting.{contents-some}
use libtorrent_go.Storage.Evict.Safe.{evicted}

-- The piece has bytes in memory.
abbrev pub IsHeld : Storage → ℕ → Type 0
IsHeld s q = (l : List ℕ) × (contents s q ≡ some l)

Given-IsHeld :
    {e : Env} {s : Storage} {piece : ℕ} {r : Bool} {u : Storage} {l : List ℕ} (q : ℕ)
    → IsValid s
    → Given e s piece r u
    → contents s q ≡ some l
    → IsHeld u q
Given-IsHeld {s = s} {piece = piece} {r = r} {u = u} {l = l} q v how h = elim (ℕ_discrete piece q) [
  | no apart ↦ (l, Given-contents v q how apart ∙ h)
  | yes own ↦ elim (Bool-cases r) [
    | inr refused ↦ (l, no_buffer-IsSame how refused q ∙ h)
    | inl granted ↦
        let (b, _) = contents-some q v h in
        let (b', _, _) =
          Given-InBuffer b.x how granted v
            (subst (λ k. get_elem? s.pieces k ≡ some b.x) (sym own) b.at_piece) in
        (b'.y.buffer, subst (λ k. contents u k ≡ some b'.y.buffer) own (contents-InBuffer b'))
  ]
]

Quiet-IsHeld : {e : Env} {s u : Storage} (q : ℕ) → IsValid s → Quiet e s u → IsHeld s q → IsHeld u q
Quiet-IsHeld q v same h = h
Quiet-IsHeld {e} {u = u} q v (put piece _ b st ran) (l, h) = elim (ℕ_discrete piece q) [
  | yes own ↦ (st.0, subst (λ k. contents u k ≡ some st.0) own (Stored-piece e b st))
  | no apart ↦ (l, Stored-contents v e q b st apart ∙ h)
]
Quiet-IsHeld {e} q v (touched u m) (l, h) = (l, ReadStep-contents v e q m ∙ h)
Quiet-IsHeld q v (delayed k) h = h
Quiet-IsHeld q v (handled native) h = h
Quiet-IsHeld q v (logged b) h = h
Quiet-IsHeld q v (wanted bits) h = h
Quiet-IsHeld q v (marked bits n) h = h

-- What a thread relies on, and what can be relied on of it, where piece `q` is reserved.
abbrev pub IsSafe : ℕ → Storage → Pc → Type 0
IsSafe q s idle = Unit {0}
IsSafe q s (asking a piece offset) = Unit {0}
IsSafe q s (locking a piece offset) = Unit {0}
IsSafe q s (claiming a piece offset) = Unit {0}
IsSafe q s (measuring read_buf piece offset) = piece ≡ q → IsHeld s q
IsSafe q s (telling piece) = Unit {0}
IsSafe q s (copying a piece offset) = piece ≡ q → IsHeld s q
IsSafe q s (testing piece) = Unit {0}
IsSafe q s (checking piece) = Unit {0}
IsSafe q s (waiting piece) = Unit {0}
IsSafe q s (trimming piece) = Unit {0}
IsSafe q s (searching piece) = Unit {0}
IsSafe q s (removing piece bi) = (p : ℕ) × IsTaken s.buffers bi p × (p ≢ q)
IsSafe q s (sizing n) = Unit {0}
IsSafe q s (resizing n) = Unit {0}

-- A removal takes away the piece of the buffer only.
removed-IsHeld :
    (e : Env) {s : Storage} (q i p : ℕ) (b : Buffer) (x : Piece) (calls : List Call)
    → IsValid s
    → get_elem? s.buffers i ≡ some b
    → b.pi ≡ pos p
    → (p' : ℕ) × IsTaken s.buffers (pos i) p' × (p' ≢ q)
    → IsHeld s q
    → IsHeld (evicted e s i b p x calls) q
removed-IsHeld e {s} q i p b x calls v at_i holds (p', (j, y, at_j, there, holds'), other) (l, h) =
    let same_buffer : some y ≡ some b =
      sym there ∙ ap (get_elem? s.buffers) (sym (ap pos_part at_j)) ∙ at_i in
    let same_piece : p' ≡ p =
      ap pos_part (sym holds' ∙ ap (λ c. c.pi) (some-injective y b same_buffer) ∙ holds) in
    let away : p ≢ q = λ own. other (same_piece ∙ own) in
    (
      l,
      contents-apart v (evicted e s i b p x calls) p i q _ _ away at_i
            (λ own. away (ap pos_part (sym holds ∙ own))) refl refl
          ∙ h,
    )

-- A thread that is safe for the piece does not take it away.
pub Change-IsHeld :
    {e : Env} {s u : Storage} {p : Pc} (q : ℕ)
    → IsValid s
    → Change e s p u
    → IsSafe q s p
    → IsHeld s q
    → IsHeld u q
Change-IsHeld q v (quiet p u m) safe h = Quiet-IsHeld q v m h
Change-IsHeld q v (asked a piece offset r u how) safe (l, h) = Given-IsHeld q v how h
Change-IsHeld {e} q v (removed piece i p b x calls at_i at_p holds) safe h =
    removed-IsHeld e q i p b x calls v at_i holds safe h
Change-IsHeld q v (grows n k) safe (l, h) = (l, grown-IsSame n k v q ∙ h)

-- The other threads stay safe: a thread that is in a section while this one steps keeps the others
-- out.
pub other-IsSafe :
    {e : Env} {s u : Storage} {p : Pc} (q : ℕ) (p' : Pc)
    → IsValid s
    → IsSafe q s p
    → Change e s p u
    → (is_inside p' ≡ true → is_inside p ≡ false)
    → IsSafe q s p'
    → IsSafe q u p'
other-IsSafe q (measuring read_buf piece offset) v own c apart h =
    λ here. Change-IsHeld q v c own (h here)
other-IsSafe q (copying a piece offset) v own c apart h = λ here. Change-IsHeld q v c own (h here)
other-IsSafe q (removing piece bi) v own c apart (p, taken, other) =
    (p, Quiet-IsTaken bi p (Change-Quiet c (apart refl)) taken, other)
other-IsSafe q idle v own c apart h = tt
other-IsSafe q (asking a piece offset) v own c apart h = tt
other-IsSafe q (locking a piece offset) v own c apart h = tt
other-IsSafe q (claiming a piece offset) v own c apart h = tt
other-IsSafe q (telling piece) v own c apart h = tt
other-IsSafe q (testing piece) v own c apart h = tt
other-IsSafe q (checking piece) v own c apart h = tt
other-IsSafe q (waiting piece) v own c apart h = tt
other-IsSafe q (trimming piece) v own c apart h = tt
other-IsSafe q (searching piece) v own c apart h = tt
other-IsSafe q (sizing n) v own c apart h = tt
other-IsSafe q (resizing n) v own c apart h = tt

-- The piece is in memory, or it is not and what would keep it there does not hold.
pub held_or_free :
    {s : Storage} (Keeps : Type 0) (piece : ℕ) (p : Piece)
    → IsValid s
    → get_elem? s.pieces piece ≡ some p
    → (Keeps → IsHeld s piece)
    → ((b : InBuffer s piece) × (b.x ≡ p)) ⊎ ((p.bi ≡ minus_one) × (¬ Keeps))
held_or_free {s} Keeps piece p v here ready =
    elim (IsSlot-cases p.bi (v.pieces_ok piece p here).bi_slot) [
      | inr (j, at_j) ↦
          let (y, there, _) = held_buffer v piece j here at_j in
          inl
            (record { x = p; i = j; y = y; at_piece = here; at_i = at_j; at_buffer = there }, refl)
      | inl free ↦
          inr (
            free,
            λ kept. let (l, held) = ready kept in cc (contents-free s piece p here free, held),
          )
    ]
