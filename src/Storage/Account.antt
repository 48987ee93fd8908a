-- ===== src/Storage/Account.antt =====
-- The counters of memory_storage.hpp while no piece is reserved: `buffer_used` is the number of buffers in
-- use, and `buffer_limit` the number of buffers.
pub mod Count
pub mod Steps
pub mod Live
pub mod Grown
pub mod Single
use libtorrent_go.Base.{
  ℕ, suc, ◌+◌, ◌≤◌, ◌<◌, ◌≡◌, refl, sym, ap, ◌∙◌, subst, Bool, true, false, not, ◌&&◌, ◌⊎◌, inl,
  inr, some, List, ℤ, pos, minus_one, ◌==ℤ◌, ==ℤ-sound, arith, length, get_elem?, Bool-cases, Each,
  or_fault, pos_part,
}
use mathlib.Core.Option.{some-injective}
use libtorrent_go.Buffer.{Buffer}
use libtorrent_go.Storage.{Storage, Env}
use libtorrent_go.Storage.Valid.{IsValid, bit, IsSlot-cases, held_piece}
use libtorrent_go.Storage.Evict.Evictable.{count_if, evictable, evictable_count}
use libtorrent_go.Storage.Account.Count.{count_if_cover, count_if_unique, count_if-le-length}

abbrev pub used_count : List Buffer → ℕ
used_count bs = count_if (λ b. b.is_used) bs

pub record IsCounted (s : Storage) : Type 0 where
  pub unreserved : (i : ℤ) → bit s.reserved_pieces i ≡ false
  pub used : s.buffer_used ≡ pos (used_count s.buffers)
  pub limit : s.buffer_limit ≡ s.buffer_size

-- The fields that it reads.
pub IsCounted-same :
    {s u : Storage}
    → IsCounted s
    → u.reserved_pieces ≡ s.reserved_pieces
    → used_count u.buffers ≡ used_count s.buffers
    → u.buffer_used ≡ s.buffer_used
    → u.buffer_limit ≡ s.buffer_limit
    → u.buffer_size ≡ s.buffer_size
    → IsCounted u
IsCounted-same {s} {u} c bits count used limit size = record {
  unreserved = subst (λ l. (i : ℤ) → bit l i ≡ false) (sym bits) c.unreserved;
  used = used ∙ c.used ∙ ap pos (sym count);
  limit = limit ∙ c.limit ∙ sym size;
}

abbrev holds : ℤ → Buffer → Bool
holds keep b = b.pi ==ℤ keep && b.is_used

module _ {s : Storage} (v : IsValid s) where
  -- Two buffers in use do not hold the same piece.
  one_holder :
      (keep : ℤ) (i j : ℕ) (b c : Buffer)
      → get_elem? s.buffers i ≡ some b
      → get_elem? s.buffers j ≡ some c
      → holds keep b ≡ true
      → holds keep c ≡ true
      → i ≡ j
  one_holder keep i j b c at_i at_j hb hc =
      elim (IsSlot-cases b.pi (v.buffers_ok i b at_i).pi_slot) [
        | inl free ↦ absurd (ground (arith, (v.buffers_ok i b at_i).used))
        | inr (p, at_p) ↦
            let same_b : b.pi ≡ keep = ==ℤ-sound b.pi keep (ground arith) in
            let same_c : c.pi ≡ keep = ==ℤ-sound c.pi keep (ground arith) in
            let (x, here, back) = held_piece v i p at_i at_p in
            let (x', here', back') = held_piece v j p at_j (same_c ∙ sym same_b ∙ at_p) in
            let one : x ≡ x' = some-injective x x' (sym here ∙ here') in
            ap pos_part (sym back ∙ ap (λ x. x.bi) one ∙ back')
      ]

  -- All buffers in use but the one that holds `keep` may be evicted.
  pub used-le-evictable :
      IsCounted s → (keep : ℤ) → used_count s.buffers ≤ evictable_count s keep + 1
  unfolding evictable_count evictable
  used-le-evictable c keep =
      let cover =
        count_if_cover (λ b. b.is_used) (evictable s.reserved_pieces keep) (holds keep) s.buffers
          (λ i b here used. elim (Bool-cases (b.pi ==ℤ keep)) [
            | inl same ↦ inr (ground arith)
            | inr other ↦ inl (ground (arith, (v.buffers_ok i b here).used, c.unreserved b.pi))
          ]) in
      omega (arith, cover, count_if_unique (holds keep) s.buffers (one_holder keep))

  pub used-le-size : used_count s.buffers ≤ length s.buffers
  used-le-size = count_if-le-length (λ b. b.is_used) s.buffers
