-- ===== src/Storage/Threads/Alone.antt =====
-- One thread of memory_storage.hpp by itself: the steps of a call, one after the other, come to what the call
-- does. Here the rounds of `trim`; the calls are in the modules below.
pub mod Reads
pub mod Writes
pub mod Calls
use libtorrent_go.Storage.Evict.Trim.{trim_loop-stop}
use libtorrent_go.Base.{
  ℕ, zero, suc, ℤ, pos, minus_one, ◌≡◌, ◌≢◌, refl, sym, ap, ◌∙◌, subst, Bool, true, false, not,
  Option, none, some, ok, ok-injective, ended, Result, ◌>>=◌, Bool-cases, inl, inr, ltb_ℤ, ◌==ℤ◌,
  ==ℤ-sound, if◌then◌else◌, arith,
}
use libtorrent_go.Storage.{Storage, Env}
use libtorrent_go.Storage.Evict.{
  trim_loop, trim_round, evict_any, find_unread, find_last_buffer, remove_piece,
}
use libtorrent_go.Storage.Threads.Place.{Pc, idle, is_inside, trimming, searching, removing}
use libtorrent_go.Storage.Threads.{Move, finish, choose, pass, choose_any, pass_any, remove}
use libtorrent_go.Storage.Threads.Lock.{Locks, held, given_back}

-- Steps of thread `i` in a row: the holder of the lock, the storage and the place before and after.
pub data Alone (e : Env) (sizer i : ℕ)
    : Option ℕ → Storage → Pc → Option ℕ → Storage → Pc → Type 0 where
  halt : (l : Option ℕ) (s : Storage) (p : Pc) → Alone e sizer i l s p l s p
  next :
      {l l' l'' : Option ℕ} {s u w : Storage} {p p' p'' : Pc}
      → Move e sizer i s p u p'
      → Locks i l (is_inside p) (is_inside p') l'
      → Alone e sizer i l' u p' l'' w p''
      → Alone e sizer i l s p l'' w p''

-- The end of a call.
pub halted :
    (e : Env) (sizer i : ℕ) (s u : Storage) → s ≡ u → Alone e sizer i none s idle none u idle
halted e sizer i s u same =
    subst (λ x. Alone e sizer i none s idle none x idle) same (halt none s idle)

pub then_branch :
    {A : Type 0} (c : Bool) (x y : Result A) {r : Result A}
    → c ≡ true
    → (if c then x else y) ≡ r
    → x ≡ r
then_branch c x y q h = ap (λ b. if b then x else y) (sym q) ∙ h

pub else_branch :
    {A : Type 0} (c : Bool) (x y : Result A) {r : Result A}
    → c ≡ false
    → (if c then x else y) ≡ r
    → y ≡ r
else_branch c x y q h = ap (λ b. if b then x else y) (sym q) ∙ h

found_bi : (bi : ℤ) → not (bi ==ℤ minus_one) ≡ true → bi ≢ minus_one
found_bi bi h same = ground (arith, ap (λ z. z ==ℤ minus_one) same)

no_bi : (bi : ℤ) → not (bi ==ℤ minus_one) ≡ false → bi ≡ minus_one
no_bi bi h = ==ℤ-sound bi minus_one (ground arith)

module _ (e : Env) (sizer i piece : ℕ) (u : Storage) where
  -- From a place in the loop of `trim` to the end of the call.
  abbrev Rest : Storage → Pc → Type 0
  Rest s p = Alone e sizer i (some i) s p none u idle

  search_alone :
      (s : Storage) {s1 : Storage}
      → evict_any e (pos piece) s ≡ ok s1
      → Rest s1 (trimming piece)
      → Rest s (searching piece)
  unfolding evict_any
  search_alone s {s1} done rest =
      let (r, more, ran) = ended (find_last_buffer e s (pos piece) false) _ (sym done) in
      elim (Bool-cases (not (r.0 ==ℤ minus_one))) [
        | inl found ↦
            let gone = then_branch _ (remove_piece e r.1 r.0) (ok r.1) found more in
            next (choose_any piece r.0 r.1 ran (found_bi r.0 found)) (held (some i))
              (next (remove piece r.0 s1 gone) (held (some i)) rest)
        | inr missing ↦
            let stays =
              ok-injective (else_branch _ (remove_piece e r.1 r.0) (ok r.1) missing more) in
            next
              (pass_any piece s1 (
                ran
                ∙ ap (λ z. ok (z, r.1)) (no_bi r.0 missing)
                ∙ ap (λ x. ok (minus_one, x)) stays))
              (held (some i)) rest
      ]

  round_alone :
      (s : Storage) {s1 : Storage}
      → ltb_ℤ s.buffer_used s.buffer_limit ≡ false
      → trim_round e (pos piece) s ≡ ok s1
      → Rest s1 (trimming piece)
      → Rest s (trimming piece)
  unfolding trim_round
  round_alone s {s1} reached done rest =
      let (r, more, ran) = ended (find_unread e s (pos piece)) _ (sym done) in
      elim (Bool-cases (not (r.0 ==ℤ minus_one))) [
        | inl found ↦
            let gone =
              then_branch _ (remove_piece e r.1 r.0) (evict_any e (pos piece) r.1) found more in
            next (choose piece r.0 r.1 reached ran (found_bi r.0 found)) (held (some i))
              (next (remove piece r.0 s1 gone) (held (some i)) rest)
        | inr missing ↦
            let others =
              else_branch _ (remove_piece e r.1 r.0) (evict_any e (pos piece) r.1) missing more in
            next (pass piece r.1 reached (ran ∙ ap (λ z. ok (z, r.1)) (no_bi r.0 missing)))
              (held (some i)) (search_alone r.1 others rest)
      ]

  -- The loop of `trim`, if it ends.
  pub trim_loop-Alone :
      (fuel : ℕ) (s : Storage) → trim_loop e (pos piece) fuel s ≡ ok u → Rest s (trimming piece)
  unfolding trim_loop
  trim_loop-Alone zero s done = cc
  trim_loop-Alone (suc fuel) s done = elim (Bool-cases (ltb_ℤ s.buffer_used s.buffer_limit)) [
    | inl below ↦
        let stays = ok-injective (sym (trim_loop-stop e (pos piece) fuel s below) ∙ done) in
        next (finish piece below) (given_back (some i)) (halted e sizer i s u stays)
    | inr reached ↦
        let goes : trim_loop e (pos piece) (suc fuel) s
            ≡ (trim_round e (pos piece) s >>= trim_loop e (pos piece) fuel) =
          rw (reached, trim_loop) refl in
        let (s1, more, ran) =
          ended (trim_round e (pos piece) s) (trim_loop e (pos piece) fuel) (sym done ∙ goes) in
        round_alone s reached ran (trim_loop-Alone fuel s1 more)
  ]
