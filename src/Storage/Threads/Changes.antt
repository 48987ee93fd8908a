-- ===== src/Storage/Threads/Changes.antt =====
-- How the storage that all threads of memory_storage.hpp share changes in a step.
use libtorrent_go.Buffer.{Iovec, copy_in, Buffer}
use libtorrent_go.Base.{
  ok, pos_part, ◌≡◌, ◌≢◌, refl, sym, ap, ◌∙◌, subst, get_elem?, some, pos, set, false,
  get_elem?-set_ne, get_elem?-set_self, get_elem?-lt, ℕ, ℤ, Bool, List, inl, inr,
}
use libtorrent_go.Storage.{Storage, Env, Call, Pointer, object}
use libtorrent_go.Piece.{Piece}
use libtorrent_go.Storage.Threads.Place.{Access, resizing, is_inside, Pc, removing, claiming}
use libtorrent_go.Storage.Alloc.Safe.{Given, held, given, refused_by_reader, full}
use libtorrent_go.Storage.Machine.Frame.{
  ReadStep-IsFramed, Stored-IsFramed, Given-IsFramed, IsFramed,
}
use libtorrent_go.Storage.Transfer.Write.{InBuffer, Stored}
use libtorrent_go.Storage.Transfer.ReadBytes.{ReadStep}
use libtorrent_go.Storage.Evict.Safe.{evicted}
use libtorrent_go.Storage.Setup.Safe.{grown}
use libtorrent_go.Storage.Alloc.{link}
use mathlib.Core.Option.{some-injective}
use native.Mathlib.Decide.{ℕ_discrete}

-- The second bytes are the first with those of some vectors copied over them.
abbrev pub IsCopy : List ℕ → List ℕ → Type 0
IsCopy before after =
    (room : ℕ) × (offset : ℕ) × (n : ℕ) × (bufs : List Iovec) × (copy_in room before offset bufs
      ≡ ok (after, n))

-- What a step does that needs no lock.
pub data Quiet (e : Env) (s : Storage) : Storage → Type 0 where
  same : Quiet e s s
  put :
      (piece : ℕ) (u : Storage) (b : InBuffer s piece) (st : Stored e s piece b u)
      → IsCopy b.y.buffer st.0
      → Quiet e s u
  touched : (u : Storage) → ReadStep e s u → Quiet e s u
  delayed : (k : ℕ) → Quiet e s (record s { ticks = k })
  handled : (native : Pointer) → Quiet e s (record s { m_handle = object; t = native })
  logged : (b : Bool) → Quiet e s (record s { is_logging = b })
  wanted : (bits : List Bool) → Quiet e s (record s { reader_pieces = bits })
  marked :
      (bits : List Bool) (n : ℕ)
      → Quiet e s (record s { reserved_pieces = bits; buffer_reserved = n })

-- What a step does, by the place at which the thread stands.
pub data Change (e : Env) (s : Storage) : Pc → Storage → Type 0 where
  quiet : (p : Pc) (u : Storage) → Quiet e s u → Change e s p u
  asked :
      (a : Access) (piece offset : ℕ) (r : Bool) (u : Storage)
      → Given e s piece r u
      → Change e s (claiming a piece offset) u
  removed :
      (piece i p : ℕ) (b : Buffer) (x : Piece) (calls : List Call)
      → get_elem? s.buffers i ≡ some b
      → get_elem? s.pieces p ≡ some x
      → b.pi ≡ pos p
      → Change e s (removing piece (pos i)) (evicted e s i b p x calls)
  grows : (n k : ℕ) → Change e s (resizing n) (grown s n k)

-- A step outside of the sections is of the first kind.
pub Change-Quiet :
    {e : Env} {s u : Storage} {p : Pc} → Change e s p u → is_inside p ≡ false → Quiet e s u
Change-Quiet (quiet p u m) h = m
Change-Quiet (asked a piece offset r u how) h = cc
Change-Quiet (removed piece i p b x calls at_i at_p holds) h = cc
Change-Quiet (grows n k) h = cc

-- What stays.
pub record IsFixed (s u : Storage) : Type 0 where
  pub length : u.piece_length ≡ s.piece_length
  pub count : u.piece_count ≡ s.piece_count

fixed :
    {s u : Storage} → u.piece_length ≡ s.piece_length → u.piece_count ≡ s.piece_count → IsFixed s u
fixed a b = record { length = a; count = b }

framed-IsFixed : {s u : Storage} → IsFramed s u → IsFixed s u
framed-IsFixed h = fixed h.length h.count

Quiet-IsFixed : {e : Env} {s u : Storage} → Quiet e s u → IsFixed s u
Quiet-IsFixed same = fixed refl refl
Quiet-IsFixed {e} (put piece u b st ran) = framed-IsFixed (Stored-IsFramed e b st)
Quiet-IsFixed {e} (touched u m) = framed-IsFixed (ReadStep-IsFramed e m)
Quiet-IsFixed (delayed k) = fixed refl refl
Quiet-IsFixed (handled native) = fixed refl refl
Quiet-IsFixed (logged b) = fixed refl refl
Quiet-IsFixed (wanted bits) = fixed refl refl
Quiet-IsFixed (marked bits n) = fixed refl refl

pub Change-IsFixed : {e : Env} {s u : Storage} {p : Pc} → Change e s p u → IsFixed s u
unfolding grown
Change-IsFixed (quiet p u m) = Quiet-IsFixed m
Change-IsFixed (asked a piece offset r u how) = framed-IsFixed (Given-IsFramed how)
Change-IsFixed (removed piece i p b x calls at_i at_p holds) = fixed refl refl
Change-IsFixed (grows n k) = fixed refl refl

ReadStep-capacity : (e : Env) (s u : Storage) → ReadStep e s u → u.capacity ≡ s.capacity
ReadStep-capacity e s u (inl (reading, calls, q)) = ap (λ w. w.capacity) q
ReadStep-capacity e s u (inr (reading, i, b, here, q)) = ap (λ w. w.capacity) q

Given-capacity :
    {e : Env} {s : Storage} {piece : ℕ} {r : Bool} {u : Storage}
    → Given e s piece r u
    → u.capacity ≡ s.capacity
unfolding link
Given-capacity (held p i at_p at_i) = refl
Given-capacity (refused_by_reader calls reading) = refl
Given-capacity (full all) = refl
Given-capacity (given p i c at_p unbuffered there free before) = refl

Quiet-capacity : {e : Env} {s u : Storage} → Quiet e s u → u.capacity ≡ s.capacity
Quiet-capacity same = refl
Quiet-capacity (put piece u b (bytes, size, q) ran) = ap (λ w. w.capacity) q
Quiet-capacity {e} {s} (touched u m) = ReadStep-capacity e s u m
Quiet-capacity (delayed k) = refl
Quiet-capacity (handled native) = refl
Quiet-capacity (logged b) = refl
Quiet-capacity (wanted bits) = refl
Quiet-capacity (marked bits n) = refl

-- Only `set_memory_size` changes the capacity.
pub Change-capacity :
    {e : Env} {s u : Storage} {p : Pc}
    → Change e s p u
    → ((n : ℕ) → p ≢ resizing n)
    → u.capacity ≡ s.capacity
Change-capacity (quiet p u m) away = Quiet-capacity m
Change-capacity (asked a piece offset r u how) away = Given-capacity how
Change-capacity (removed piece i p b x calls at_i at_p holds) away = refl
Change-capacity (grows n k) away = absurd (away n refl)

-- The buffer at `bi` holds piece `p`.
abbrev pub IsTaken : List Buffer → ℤ → ℕ → Type 0
IsTaken bs bi p = (i : ℕ) × (y : Buffer) × (bi ≡ pos i) × (get_elem? bs i ≡ some y) × (y.pi ≡ pos p)

-- A change to a buffer that leaves its piece.
set-IsTaken :
    (bs : List Buffer) {bs' : List Buffer} (bi : ℤ) (p j : ℕ) {x : Buffer} (y : Buffer)
    → bs' ≡ set bs j y
    → get_elem? bs j ≡ some x
    → y.pi ≡ x.pi
    → IsTaken bs bi p
    → IsTaken bs' bi p
set-IsTaken bs {bs'} bi p j {x} y bufs here kept (i, b, q, at_i, holds) = elim (ℕ_discrete j i) [
  | no apart ↦ (i, b, q, ap (λ l. get_elem? l i) bufs ∙ get_elem?-set_ne bs y apart ∙ at_i, holds)
  | yes own ↦
      let at_j : get_elem? bs' j ≡ some y =
        ap (λ l. get_elem? l j) bufs ∙ get_elem?-set_self bs j y (get_elem?-lt bs j here) in
      let was : x ≡ b = some-injective x b (sym here ∙ ap (get_elem? bs) own ∙ at_i) in
      (i, y, q, ap (get_elem? bs') (sym own) ∙ at_j, kept ∙ ap (λ c. c.pi) was ∙ holds)
]

-- No step without the lock takes a buffer from its piece.
pub Quiet-IsTaken :
    {e : Env} {s u : Storage} (bi : ℤ) (p : ℕ)
    → Quiet e s u
    → IsTaken s.buffers bi p
    → IsTaken u.buffers bi p
Quiet-IsTaken bi p same h = h
Quiet-IsTaken {s = s} bi p (put piece u b (bytes, size, q) ran) h =
    set-IsTaken s.buffers bi p b.i _ (ap (λ w. w.buffers) q) b.at_buffer refl h
Quiet-IsTaken bi p (touched _ (inl (reading, calls, q))) h =
    subst (λ w. IsTaken w.buffers bi p) (sym q) h
Quiet-IsTaken {s = s} bi p (touched _ (inr (reading, i, b, here, q))) h =
    set-IsTaken s.buffers bi p i _ (ap (λ w. w.buffers) q) here refl h
Quiet-IsTaken bi p (delayed k) h = h
Quiet-IsTaken bi p (handled native) h = h
Quiet-IsTaken bi p (logged b) h = h
Quiet-IsTaken bi p (wanted bits) h = h
Quiet-IsTaken bi p (marked bits n) h = h

-- A buffer holds one piece.
pub same_piece : (bs : List Buffer) (bi : ℤ) {p q : ℕ} → IsTaken bs bi p → IsTaken bs bi q → p ≡ q
same_piece bs bi (i, y, at_i, there, holds) (j, z, at_j, there', holds') =
    let same_slot : i ≡ j = ap pos_part (sym at_i ∙ at_j) in
    let same_buffer : some y ≡ some z = sym there ∙ ap (get_elem? bs) same_slot ∙ there' in
    ap pos_part (sym holds ∙ ap (λ c. c.pi) (some-injective y z same_buffer) ∙ holds')
