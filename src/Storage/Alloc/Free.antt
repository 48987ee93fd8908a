-- ===== src/Storage/Alloc/Free.antt =====
-- The search of `get_buffer` in memory_storage.hpp for a buffer that is not in use.
use libtorrent_go.Base.{
  ℕ, zero, suc, ◌+◌, ◌≤◌, ◌<◌, ◌≡◌, refl, true, false, some, none, Option, ◌⊎◌, inl, inr, arith,
  List, length, get_elem?, get_elem?_of_lt, ok, Bool-cases, ap, ◌∙◌, sym,
}
use native.Mathlib.Decide.{ℕ_discrete}
use mathlib.Core.Option.{some-injective}
use libtorrent_go.Buffer.{Buffer}
use libtorrent_go.Storage.Alloc.{find_free}

-- The buffers from `lo` up to `hi` are all in use.
abbrev pub AllUsed : List Buffer → ℕ → ℕ → Type 0
AllUsed bs lo hi =
    (j : ℕ) (b : Buffer) → lo ≤ j → j < hi → get_elem? bs j ≡ some b → b.is_used ≡ true

-- The first free buffer of a range, or none if there is none.
abbrev pub FirstFree : List Buffer → ℕ → ℕ → Option ℕ → Type 0
FirstFree bs lo hi o =
    ((o ≡ none) × AllUsed bs lo hi)
    ⊎ ((j : ℕ) × (b : Buffer) × (o ≡ some j)
        × (get_elem? bs j ≡ some b)
        × (b.is_used ≡ false)
        × AllUsed bs lo j)

AllUsed-cons :
    (bs : List Buffer) (lo hi : ℕ) (b : Buffer)
    → get_elem? bs lo ≡ some b
    → b.is_used ≡ true
    → AllUsed bs (lo + 1) hi
    → AllUsed bs lo hi
AllUsed-cons bs lo hi b here used rest j c from to there = elim (ℕ_discrete lo j) [
  | yes same ↦
      ap (λ y. y.is_used) (some-injective c b (sym there ∙ ap (get_elem? bs) (sym same) ∙ here))
      ∙ used
  | no other ↦ rest j c (omega arith) to there
]

find_free-used :
    (bs : List Buffer) (i rounds : ℕ) (b : Buffer)
    → get_elem? bs i ≡ some b
    → b.is_used ≡ true
    → find_free bs i (suc rounds) ≡ find_free bs (i + 1) rounds
unfolding find_free
find_free-used bs i rounds b here used = rw (here, used, find_free) refl

find_free-free :
    (bs : List Buffer) (i rounds : ℕ) (b : Buffer)
    → get_elem? bs i ≡ some b
    → b.is_used ≡ false
    → find_free bs i (suc rounds) ≡ ok (some i)
unfolding find_free
find_free-free bs i rounds b here free = rw (here, free, find_free) refl

-- The search ends with the first free buffer of its range, or with none.
pub find_free_lem :
    (bs : List Buffer) (i rounds : ℕ)
    → i + rounds ≤ length bs
    → (o : Option ℕ) × (find_free bs i rounds ≡ ok o) × FirstFree bs i (i + rounds) o
unfolding find_free
find_free_lem bs i zero h = (none, refl, inl (refl, λ j b from to there. absurd (omega arith)))
find_free_lem bs i (suc rounds) h =
    let (b, here) = get_elem?_of_lt bs i (omega arith) in
    elim (Bool-cases b.is_used) [
      | inl used ↦
          let (o, q, found) = find_free_lem bs (i + 1) rounds (omega arith) in
          (
            o,
            find_free-used bs i rounds b here used ∙ q,
            elim found [
              | inl (none_found, all) ↦ inl (
                none_found,
                AllUsed-cons bs i (i + suc rounds) b here used
                    (λ j c from to there. all j c from (omega arith) there),
              )
              | inr (j, c, at_j, there, free, before) ↦
                  inr (j, c, at_j, there, free, AllUsed-cons bs i j b here used before)
            ],
          )
      | inr free ↦ (
        some i,
        find_free-free bs i rounds b here free,
        inr (i, b, refl, here, free, λ j c from to there. absurd (omega arith)),
      )
    ]
