-- ===== src/Storage/Account/Grown.antt =====
-- The counters of memory_storage.hpp when `set_memory_size` adds buffers.
use libtorrent_go.Base.{
  ℕ, zero, suc, ◌+◌, ◌-◌, ◌/◌, ◌≡◌, refl, sym, ap, ◌∙◌, ◌⊎◌, inl, inr, true, false, some, List, [],
  ◌∷◌, ◌++◌, ℤ, pos, ◌+ℤ◌, ◌≤ℤ◌, arith, length, get_elem?, min,
}
use mathlib.Core.Option.{some-injective}
use libtorrent_go.Buffer.{Buffer, new_buffer}
use libtorrent_go.Storage.{Storage}
use libtorrent_go.Storage.Valid.{IsValid}
use libtorrent_go.Storage.Setup.{push_buffers}
use libtorrent_go.Storage.Setup.Safe.{grown, grown-IsValid}
use libtorrent_go.Storage.Account.{used_count}
use libtorrent_go.Storage.Account.Count.{count_if-snoc}
use libtorrent_go.Storage.Account.Live.{IsLive}

new_buffer-unused : (first : ℤ) (n : ℕ) → (new_buffer first n).is_used ≡ false
unfolding new_buffer
new_buffer-unused first n = refl

pub used_count-push_buffers :
    (n rounds : ℕ) (first : ℤ) (bs : List Buffer)
    → used_count (push_buffers n rounds first bs) ≡ used_count bs
unfolding push_buffers
used_count-push_buffers n zero first bs = refl
used_count-push_buffers n (suc rounds) first bs =
    used_count-push_buffers n rounds (first +ℤ pos 1) (bs ++ new_buffer first n ∷ [])
    ∙ count_if-snoc (λ b. b.is_used) bs (new_buffer first n) (new_buffer-unused first n)

get_elem?-snoc :
    (bs : List Buffer) (c : Buffer) (i : ℕ) {b : Buffer}
    → get_elem? (bs ++ c ∷ []) i ≡ some b
    → (get_elem? bs i ≡ some b) ⊎ (c ≡ b)
get_elem?-snoc [] c zero {b} h = inr (some-injective c b h)
get_elem?-snoc [] c (suc i) h = cc
get_elem?-snoc (x ∷ bs) c zero h = inl h
get_elem?-snoc (x ∷ bs) c (suc i) h = get_elem?-snoc bs c i h

-- A buffer in use was there before.
pub used-push_buffers :
    (n rounds : ℕ) (first : ℤ) (bs : List Buffer) (i : ℕ) {b : Buffer}
    → get_elem? (push_buffers n rounds first bs) i ≡ some b
    → b.is_used ≡ true
    → get_elem? bs i ≡ some b
unfolding push_buffers
used-push_buffers n zero first bs i h used = h
used-push_buffers n (suc rounds) first bs i {b} h used =
    let c = new_buffer first n in
    let before = used-push_buffers n rounds (first +ℤ pos 1) (bs ++ c ∷ []) i h used in
    elim (get_elem?-snoc bs c i before) [
      | inl old ↦ old
      | inr new ↦ absurd (cc (new-unused c b new (new_buffer-unused first n), used))
    ]
  where
    new-unused : (c b : Buffer) → c ≡ b → c.is_used ≡ false → b.is_used ≡ false
    new-unused c b same h = sym (ap (λ x. x.is_used) same) ∙ h

pub grown-IsLive :
    {s : Storage} (memory : ℕ)
    → IsValid s
    → s.capacity ≤ℤ pos memory
    → IsLive s
    → IsLive (grown s memory (min (memory / s.piece_length + 2) s.piece_count))
unfolding grown
grown-IsLive {s} memory v above h =
    let n = min (memory / s.piece_length + 2) s.piece_count in
    let (w, longer) = grown-IsValid memory v above in
    let rounds = n - length s.buffers in
    let first = pos (length s.buffers) in
    record {
      counted = record {
        unreserved = h.counted.unreserved;
        used =
            h.counted.used
            ∙ ap pos (sym (used_count-push_buffers s.piece_length rounds first s.buffers));
        limit = refl;
      };
      stamped = λ i b here used.
          h.stamped i b (used-push_buffers s.piece_length rounds first s.buffers i here used) used;
      limited = omega arith;
      wide = omega (arith, longer, h.wide);
    }
