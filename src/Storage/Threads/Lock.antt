-- ===== src/Storage/Threads/Lock.antt =====
-- `m_mutex` of memory_storage.hpp: a thread that goes into a section waits until no thread holds the lock,
-- and gives it back when it leaves.
use libtorrent_go.Base.{ℕ, ◌≡◌, ◌≢◌, refl, sym, ap, ◌∙◌, Bool, true, false, Option, none, some}
use mathlib.Core.Option.{some-injective}

-- The holder of the lock before and after a step of thread `i`, by whether the thread is in a section.
pub data Locks (i : ℕ) : Option ℕ → Bool → Bool → Option ℕ → Type 0 where
  outside : (lock : Option ℕ) → Locks i lock false false lock
  taken : Locks i none false true (some i)
  held : (lock : Option ℕ) → Locks i lock true true lock
  given_back : (lock : Option ℕ) → Locks i lock true false none

-- A thread in a section has the lock.
pub Locks-inside :
    {i : ℕ} {lock lock' : Option ℕ} {a b : Bool}
    → Locks i lock a b lock'
    → (a ≡ true → lock ≡ some i)
    → b ≡ true
    → lock' ≡ some i
Locks-inside (outside lock) h k = cc
Locks-inside taken h k = refl
Locks-inside (held lock) h k = h refl
Locks-inside (given_back lock) h k = cc

-- The lock of another thread stays with it.
pub Locks-other :
    {i : ℕ} {lock lock' : Option ℕ} {a b : Bool}
    → Locks i lock a b lock'
    → (a ≡ true → lock ≡ some i)
    → (j : ℕ) → i ≢ j
    → lock ≡ some j
    → lock' ≡ some j
Locks-other (outside lock) h j apart k = k
Locks-other taken h j apart k = cc
Locks-other (held lock) h j apart k = k
Locks-other {i = i} (given_back lock) h j apart k =
    absurd (apart (some-injective i j (sym (h refl) ∙ k)))

-- After a step the lock is with this thread in a section, or with another thread as before.
pub Locks-holder :
    {i : ℕ} {lock lock' : Option ℕ} {a b : Bool}
    → Locks i lock a b lock'
    → (lock ≡ some i → a ≡ true)
    → (j : ℕ) → lock' ≡ some j
    → (i ≡ j → b ≡ true) × (i ≢ j → lock ≡ some j)
Locks-holder (outside lock) h j k = (λ same. h (k ∙ ap some (sym same)), λ apart. k)
Locks-holder {i = i} taken h j k = (λ same. refl, λ apart. absurd (apart (some-injective i j k)))
Locks-holder (held lock) h j k = (λ same. refl, λ apart. k)
Locks-holder (given_back lock) h j k = cc
