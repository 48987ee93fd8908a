-- ===== src/Storage/Threads/Alone/Calls.antt =====
-- Any call of memory_storage.hpp by one thread alone: the model of threads and that of calls agree.
use libtorrent_go.Base.{
  ◌∙◌, sym, ◌≢◌, Option, refl, ℕ, pos, ◌≡◌, subst, Bool-cases, inl, inr, none, length, ok,
  ok-injective, ended, leb_ℤ, arith, get_elem?-lt,
}
use libtorrent_go.Storage.Threads.Place.{Pc, is_inside, idle}
use libtorrent_go.Storage.Threads.{Move, Reach, System, step, at_thread, size, grab, extend, update}
use libtorrent_go.Storage.Threads.Lock.{Locks, outside, taken, given_back}
use libtorrent_go.Storage.Threads.Alone.{halt, Alone, halted, next, then_branch, else_branch}
use libtorrent_go.Storage.Threads.Invariant.{Reach-IsSound, at_thread_lem}
use libtorrent_go.Storage.{Storage, Env}
use libtorrent_go.Storage.Valid.{IsValid}
use libtorrent_go.Storage.Setup.{set_memory_size, enlarge}
use libtorrent_go.Storage.Transfer.{read, readv, writev}
use libtorrent_go.Storage.Machine.{
  Request, perform, IsAllowed, ask_read, ask_readv, ask_writev, ask_memory, ask_handle, ask_logging,
  ask_no_logging, ask_readers, ask_reserved,
}
use libtorrent_go.Storage.Threads.Alone.Writes.{writev-Alone}
use libtorrent_go.Storage.Threads.Alone.Reads.{read-Alone, readv-Alone}

resized-Alone :
    (e : Env) (sizer n : ℕ) (s u : Storage)
    → IsAllowed s (ask_memory n)
    → set_memory_size s (pos n) ≡ ok u
    → Alone e sizer sizer none s idle none u idle
unfolding set_memory_size
resized-Alone e sizer n s u allowed done = elim (Bool-cases (leb_ℤ (pos n) s.capacity)) [
  | inl enough ↦
      halted e sizer sizer s u (ok-injective (then_branch _ (ok s) (enlarge s (pos n)) enough done))
  | inr more ↦ next (size n refl allowed more) (outside none) (
      next (grab n) taken (
        next (extend n u (else_branch _ (ok s) (enlarge s (pos n)) more done)) (given_back _)
          (halted e sizer sizer u u refl)))
]

-- On a valid storage, an allowed call that ends goes, where one thread makes it and no other runs,
-- through the steps of the model of threads: from a free lock to a free lock, from the start of a
-- call to its end, and to the storage that the call leaves. The thread is the one that may call
-- `set_memory_size`.
pub perform-Alone :
    (e : Env) (fuel i : ℕ) {s u : Storage} (r : Request)
    → IsValid s
    → IsAllowed s r
    → perform e fuel s r ≡ ok u
    → Alone e i i none s idle none u idle
unfolding perform
perform-Alone e fuel i {s} {u} (ask_read read_buf piece offset) v (below, start) done =
    let (r, last, ran) =
      ended (read e s read_buf (pos (length read_buf)) piece offset) _ (sym done) in
    subst (λ x. Alone e i i none s idle none x idle) (ok-injective last)
      (read-Alone e i i read_buf r.1 r.0 piece offset s r.2 v below ran)
perform-Alone e fuel i {s} {u} (ask_readv bufs piece offset) v (below, fits) done =
    let (r, last, ran) = ended (readv e s bufs piece offset) _ (sym done) in
    subst (λ x. Alone e i i none s idle none x idle) (ok-injective last)
      (readv-Alone e i i bufs piece offset r.0 r.1 s r.2 v below ran)
perform-Alone e fuel i {s} {u} (ask_writev bufs piece offset) v (p, here, fits, sum) done =
    let (r, last, ran) = ended (writev e fuel s bufs piece offset) _ (sym done) in
    subst (λ x. Alone e i i none s idle none x idle) (ok-injective last)
      (writev-Alone e i i fuel bufs piece offset r.0 r.1 s v
        (omega (arith, get_elem?-lt s.pieces piece here, v.piece_total)) ran)
perform-Alone e fuel i {s} {u} (ask_memory n) v allowed done = resized-Alone e i n s u allowed done
perform-Alone e fuel i {s} {u} (ask_handle native) v allowed done =
    next (update (ask_handle native) u tt allowed done) (outside none) (halted e i i u u refl)
perform-Alone e fuel i {s} {u} ask_logging v allowed done =
    next (update ask_logging u tt allowed done) (outside none) (halted e i i u u refl)
perform-Alone e fuel i {s} {u} ask_no_logging v allowed done =
    next (update ask_no_logging u tt allowed done) (outside none) (halted e i i u u refl)
perform-Alone e fuel i {s} {u} (ask_readers is) v allowed done =
    next (update (ask_readers is) u tt allowed done) (outside none) (halted e i i u u refl)
perform-Alone e fuel i {s} {u} (ask_reserved is) v allowed done =
    next (update (ask_reserved is) u tt allowed done) (outside none) (halted e i i u u refl)

-- Steps of one thread in a row go on a run.
Alone-Reach :
    {e : Env} {sizer i : ℕ} {s0 : Storage} {l l' : Option ℕ} {s u : Storage} {p p' : Pc}
    → Alone e sizer i l s p l' u p'
    → (pc : ℕ → Pc) → pc i ≡ p
    → Reach e sizer s0 (record { mem = s; m_mutex = l; pc = pc })
    → (pc' : ℕ → Pc) × Reach e sizer s0 (record { mem = u; m_mutex = l'; pc = pc' })
      × (pc' i ≡ p')
      × ((j : ℕ) → i ≢ j → pc' j ≡ pc j)
Alone-Reach (halt l s p) pc here path = (pc, path, here, λ j apart. refl)
Alone-Reach {e} {sizer} {i} (next {l = l} {l' = m} {s = s} {u = w} {p = p} {p' = q} move turn more)
      pc here path =
    let move' = subst (λ x. Move e sizer i s x w q) (sym here) move in
    let turn' = subst (λ x. Locks i l (is_inside x) (is_inside q) m) (sym here) turn in
    let moved = at_thread pc i q in
    let there = at_thread_lem (λ x. x ≡ q) pc i q i (λ _. refl) (λ apart. absurd (apart refl)) in
    let (pc', run, own, others) =
      Alone-Reach more moved there
        (step i (record { mem = s; m_mutex = l; pc = pc }) m w q path move' turn') in
    (
      pc',
      run,
      own,
      λ j apart.
          others j apart
          ∙ at_thread_lem (λ x. x ≡ pc j) pc i q j (λ same. absurd (apart same)) (λ _. refl),
    )

-- However many threads are at work on a storage that was valid at the start: at a time when no
-- thread holds `m_mutex` and thread `i`, the one that may call `set_memory_size`, is in no call,
-- any allowed call of thread `i` that ends by itself can run from its start to its end without the
-- others. It leaves the storage that the call leaves, the lock free, the thread in no call, and
-- the others where they stood.
pub perform-Reach :
    (e : Env) (fuel i : ℕ) {s u : Storage} {w : System} (r : Request)
    → IsValid s
    → Reach e i s w
    → w.m_mutex ≡ none
    → w.pc i ≡ idle
    → IsAllowed w.mem r
    → perform e fuel w.mem r ≡ ok u
    → (pc : ℕ → Pc) × Reach e i s (record { mem = u; m_mutex = none; pc = pc })
      × (pc i ≡ idle)
      × ((j : ℕ) → i ≢ j → pc j ≡ w.pc j)
perform-Reach e fuel i {s} {w = w} r v path free here allowed done =
    let h = Reach-IsSound e i v path in
    let start =
      subst (λ l. Reach e i s (record { mem = w.mem; m_mutex = l; pc = w.pc })) free path in
    Alone-Reach (perform-Alone e fuel i r h.valid allowed done) w.pc here start
