-- ===== src/Storage/Threads/Invariant.antt =====
-- What always holds of the threads of memory_storage.hpp: the storage is valid, every thread fits where it
-- stands, and `m_mutex` is with the thread that is in a section, if one is.
use libtorrent_go.Base.{
  ℕ, ◌≡◌, ◌≢◌, sym, ap, ◌∙◌, subst, true, false, some, pos, Bool-cases, inl, inr, ◌==◌, ==_iff,
  if◌then◌else◌,
}
use mathlib.Core.Option.{some-injective}
use libtorrent_go.Storage.{Storage, Env}
use libtorrent_go.Storage.Valid.{IsValid, bit}
use libtorrent_go.Storage.Threads.Place.{Pc, is_inside}
use libtorrent_go.Storage.Threads.{System, Reach, rest, step, at_thread}
use libtorrent_go.Storage.Threads.Lock.{Locks-inside, Locks-other, Locks-holder}
use libtorrent_go.Storage.Threads.Fit.{IsFit, other-IsFit}
use libtorrent_go.Storage.Threads.Kept.{IsSafe, other-IsSafe}
use libtorrent_go.Storage.Threads.Steps.{Move-Steps}
use libtorrent_go.Storage.Threads.Safe.{Move-IsSafe}

pub record IsSound (sizer : ℕ) (w : System) : Type 0 where
  pub valid : IsValid w.mem
  pub fit : (i : ℕ) → IsFit sizer i w.mem (w.pc i)
  pub inside : (i : ℕ) → is_inside (w.pc i) ≡ true → w.m_mutex ≡ some i
  pub holder : (i : ℕ) → w.m_mutex ≡ some i → is_inside (w.pc i) ≡ true

pub at_thread_lem :
    (P : Pc → Type 0) (pc : ℕ → Pc) (i : ℕ) (p : Pc) (j : ℕ)
    → (i ≡ j → P p)
    → (i ≢ j → P (pc j))
    → P (at_thread pc i p j)
at_thread_lem P pc i p j h k = elim (Bool-cases (i == j)) [
  | inl same ↦ subst (λ c. P (if c then p else pc j)) (sym same) (h ((==_iff i j).0 same))
  | inr other ↦
      subst (λ c. P (if c then p else pc j)) (sym other) (k (λ e. cc ((==_iff i j).1 e, other)))
]

-- A thread in a section keeps the others out of theirs.
keeps_out :
    {sizer : ℕ} {w : System} (i j : ℕ)
    → IsSound sizer w
    → i ≢ j
    → is_inside (w.pc j) ≡ true
    → is_inside (w.pc i) ≡ false
keeps_out {w = w} i j h apart k = elim (Bool-cases (is_inside (w.pc i))) [
  | inl also ↦ absurd (apart (some-injective i j (sym (h.inside i also) ∙ h.inside j k)))
  | inr out ↦ out
]

pub Reach-IsSound :
    (e : Env) (sizer : ℕ) {s : Storage} {w : System}
    → IsValid s
    → Reach e sizer s w
    → IsSound sizer w
Reach-IsSound e sizer v rest = record {
  valid = v;
  fit = λ i. tt;
  inside = λ i h. cc;
  holder = λ i q. cc q;
}
Reach-IsSound e sizer v (step i w lock u p path m turn) =
    let h = Reach-IsSound e sizer v path in
    let (valid, change, own) = Move-Steps h.valid m (h.fit i) in
    record {
      valid = valid;
      fit = λ j.
          at_thread_lem (IsFit sizer j u) w.pc i p j
            (λ same. subst (λ k. IsFit sizer k u p) same own)
            (λ apart.
              other-IsFit sizer i w.mem u (w.pc i) (w.pc j) apart (h.fit i) change
                (keeps_out i j h apart) (h.fit j));
      inside = λ j.
          at_thread_lem (λ q. is_inside q ≡ true → lock ≡ some j) w.pc i p j
            (λ same inside. Locks-inside turn (h.inside i) inside ∙ ap some same)
            (λ apart inside. Locks-other turn (h.inside i) j apart (h.inside j inside));
      holder = λ j q.
          let (own_section, other) = Locks-holder turn (h.holder i) j q in
          at_thread_lem (λ x. is_inside x ≡ true) w.pc i p j own_section
            (λ apart. h.holder j (other apart));
    }

-- The piece is reserved all along.
abbrev pub Stays : {e : Env} {sizer : ℕ} {s : Storage} {w : System} → ℕ → Reach e sizer s w → Type 0
Stays {s = s} q rest = bit s.reserved_pieces (pos q) ≡ true
Stays q (step i w lock u p path m turn) = (bit u.reserved_pieces (pos q) ≡ true) × Stays q path

Stays-now :
    {e : Env} {sizer : ℕ} {s : Storage} {w : System} (q : ℕ) (path : Reach e sizer s w)
    → Stays q path
    → bit w.mem.reserved_pieces (pos q) ≡ true
Stays-now q rest h = h
Stays-now q (step i w lock u p path m turn) (h, _) = h

-- Then what a thread has of it in memory stays there.
pub Reach-IsSafe :
    (e : Env) (sizer q : ℕ) {s : Storage} {w : System}
    → IsValid s
    → (path : Reach e sizer s w) → Stays q path
    → (i : ℕ) → IsSafe q w.mem (w.pc i)
Reach-IsSafe e sizer q v rest marked i = tt
Reach-IsSafe e sizer q v (step i w lock u p path m turn) (_, marked) j =
    let h = Reach-IsSound e sizer v path in
    let before = Reach-IsSafe e sizer q v path marked in
    let (valid, change, own) = Move-Steps h.valid m (h.fit i) in
    at_thread_lem (IsSafe q u) w.pc i p j
      (λ _. Move-IsSafe q h.valid (Stays-now q path marked) m (h.fit i) (before i))
      (λ apart.
        other-IsSafe q (w.pc j) h.valid (before i) change (keeps_out i j h apart) (before j))
