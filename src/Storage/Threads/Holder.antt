-- ===== src/Storage/Threads/Holder.antt =====
-- The holder of `m_mutex` in memory_storage.hpp, and what it can do.
use libtorrent_go.Base.{
  ℕ, ◌<◌, ◌≡◌, refl, sym, ap, ◌∙◌, subst, Bool, true, false, Option, none, pos, ok, arith,
  get_elem?_of_lt, Bool-cases, inl, inr, ltb_ℤ,
}
use libtorrent_go.Piece.{is_buffered}
use libtorrent_go.Storage.{Storage, Env, tick}
use libtorrent_go.Storage.Valid.{IsValid}
use libtorrent_go.Storage.Alloc.Safe.{get_locked_lem}
use libtorrent_go.Storage.Evict.Chosen.{find_unread-Chosen, find_last_buffer-Chosen}
use libtorrent_go.Storage.Threads.Place.{
  is_write, served, turned_away, is_inside, Pc, idle, asking, locking, claiming, measuring, telling,
  copying, testing, checking, waiting, trimming, searching, removing, sizing, resizing,
}
use libtorrent_go.Storage.Threads.{
  claim, Move, System, grant, deny, finish, choose, pass, choose_any, pass_any, remove, extend,
}
use libtorrent_go.Storage.Threads.Lock.{Locks, held, given_back}
use libtorrent_go.Storage.Threads.Fit.{IsFit}
use libtorrent_go.Storage.Threads.Sections.{removal, extension}

-- Some step of thread `i` is possible.
abbrev pub CanMove : Env → ℕ → System → ℕ → Type 0
CanMove e sizer w i =
    (lock : Option ℕ) × (u : Storage) × (p : Pc) × Move e sizer i w.mem (w.pc i) u p
    × Locks i w.m_mutex (is_inside (w.pc i)) (is_inside p) lock

claim_total :
    (e : Env) {s : Storage} (w : Bool) (piece : ℕ)
    → IsValid s
    → piece < s.piece_count
    → (r : Bool) × (u : Storage) × (claim e s w piece ≡ ok (r, u))
unfolding claim
claim_total e true piece v below =
    let (r, u, ran, _, _) = get_locked_lem e piece v below in (r, u, ran)
claim_total e {s} false piece v below =
    let (p, here) = get_elem?_of_lt s.pieces piece (omega (arith, below, v.piece_total)) in
    (is_buffered p, s, rw here refl)

-- A thread in a section can go on.
inside-Move :
    (e : Env) (sizer i : ℕ) {s : Storage} (p : Pc)
    → IsValid s
    → IsFit sizer i s p
    → is_inside p ≡ true
    → (u : Storage) × (p' : Pc) × Move e sizer i s p u p'
inside-Move e sizer i {s} (claiming a piece offset) v fit h =
    let (r, u, ran) = claim_total e (is_write a) piece v fit in
    elim (Bool-cases r) [
      | inl yes_r ↦
          (u, served a piece offset, grant a piece offset u (ran ∙ ap (λ c. ok (c, u)) yes_r))
      | inr no_r ↦ (u, turned_away a piece, deny a piece offset u (ran ∙ ap (λ c. ok (c, u)) no_r))
    ]
inside-Move e sizer i {s} (trimming piece) v fit h =
    elim (Bool-cases (ltb_ℤ s.buffer_used s.buffer_limit)) [
      | inl below ↦ (s, idle, finish piece below)
      | inr reached ↦
          let (r, ran, outcome) = find_unread-Chosen e (pos piece) v in
          elim outcome [
            | inl none_found ↦ (
              tick s,
              searching piece,
              pass piece (tick s) reached (ran ∙ ap (λ z. ok (z, tick s)) none_found),
            )
            | inr c ↦ (
              tick s,
              removing piece r,
              choose piece r (tick s) reached ran (λ none_found. cc (none_found, c.index)),
            )
          ]
    ]
inside-Move e sizer i {s} (searching piece) v fit h =
    let (r, ran, outcome) = find_last_buffer-Chosen e (pos piece) v false in
    elim outcome [
      | inl none_found ↦ (
        tick s,
        trimming piece,
        pass_any piece (tick s) (ran ∙ ap (λ z. ok (z, tick s)) none_found),
      )
      | inr c ↦ (
        tick s,
        removing piece r,
        choose_any piece r (tick s) ran (λ none_found. cc (none_found, c.index)),
      )
    ]
inside-Move e sizer i (removing piece bi) v (below, q, taken) h =
    let (u, run, _, _) = removal e piece bi q v taken in (u, trimming piece, remove piece bi u run)
inside-Move e sizer i (resizing n) v (own, above, count) h =
    let (u, run, _, _) = extension e n v above count in (u, idle, extend n u run)
inside-Move e sizer i idle v fit h = cc
inside-Move e sizer i (asking a piece offset) v fit h = cc
inside-Move e sizer i (locking a piece offset) v fit h = cc
inside-Move e sizer i (measuring read_buf piece offset) v fit h = cc
inside-Move e sizer i (telling piece) v fit h = cc
inside-Move e sizer i (copying a piece offset) v fit h = cc
inside-Move e sizer i (testing piece) v fit h = cc
inside-Move e sizer i (checking piece) v fit h = cc
inside-Move e sizer i (waiting piece) v fit h = cc
inside-Move e sizer i (sizing n) v fit h = cc

-- A thread in a section keeps the lock, or gives it back.
onward : (i : ℕ) (lock : Option ℕ) (b : Bool) → (lock' : Option ℕ) × Locks i lock true b lock'
onward i lock true = (lock, held lock)
onward i lock false = (none, given_back lock)

pub inside-CanMove :
    (e : Env) (sizer i : ℕ) (w : System)
    → IsValid w.mem
    → IsFit sizer i w.mem (w.pc i)
    → is_inside (w.pc i) ≡ true
    → CanMove e sizer w i
inside-CanMove e sizer i w v fit h =
    let (u, p, m) = inside-Move e sizer i (w.pc i) v fit h in
    let (lock, kept) = onward i w.m_mutex (is_inside p) in
    (lock, u, p, m, subst (λ b. Locks i w.m_mutex b (is_inside p) lock) (sym h) kept)
