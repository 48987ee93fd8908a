-- ===== src/Storage/Machine/Counting.antt =====
-- How far the steps of a call of memory_storage.hpp move the counters `buffer_limit` and `buffer_used`.
use libtorrent_go.Base.{
  ℕ, suc, ◌≡◌, sym, ap, subst, Bool, true, false, List, pos, negsuc, inl, inr, Safe, Safe-bind,
  Safe-mono, ℤ, Bool-cases, leb_ℤ, ◌+◌, ◌^◌, ◌≤◌, ◌<◌, ◌≤ℤ◌, ◌<ℤ◌, ◌-ℤ◌, ◌+ℤ◌, get_elem?, some,
  arith, int_laws, subst₂, if◌then◌else◌,
}
use libtorrent_go.Piece.{Piece}
use libtorrent_go.Buffer.{Iovec, byte_total}
use libtorrent_go.Storage.{Storage, Env}
use libtorrent_go.Storage.Valid.{IsValid}
use libtorrent_go.Storage.Evict.{trim}
use libtorrent_go.Storage.Evict.Trim.{Evicts-used}
use libtorrent_go.Storage.Evict.Kept.{trim_inv}
use libtorrent_go.Storage.Alloc.{link}
use libtorrent_go.Storage.Alloc.Safe.{Given, held, given, refused_by_reader, full}
use libtorrent_go.Storage.Transfer.{trim_after, writev}
use libtorrent_go.Storage.Transfer.Parts.{writev-parts}
use libtorrent_go.Storage.Transfer.ReadBytes.{ReadStep}

-- After `k` calls.
pub record IsCounting (k : ℕ) (limit used : ℤ) : Type 0 where
  pub limit_low : negsuc k <ℤ limit
  pub limit_high : limit <ℤ pos (2 ^ 31)
  pub used_low : negsuc k ≤ℤ used
  pub used_high : used ≤ℤ pos k

abbrev pub Counting : ℕ → Storage → Type 0
Counting k s = IsCounting k s.buffer_limit s.buffer_used

pub next_call-IsCounting :
    {k : ℕ} {limit used : ℤ} → IsCounting k limit used → IsCounting (suc k) limit used
next_call-IsCounting h = record {
  limit_low = omega (arith, h.limit_low);
  limit_high = h.limit_high;
  used_low = omega (arith, h.used_low);
  used_high = omega (arith, h.used_high);
}

reserved_link-IsCounting :
    {k : ℕ} {limit used : ℤ} → IsCounting k limit used → IsCounting (suc k) (limit -ℤ pos 1) used
reserved_link-IsCounting h = record {
  limit_low = omega (int_laws, h.limit_low);
  limit_high = omega (int_laws, h.limit_high);
  used_low = omega (arith, h.used_low);
  used_high = omega (arith, h.used_high);
}

free_link-IsCounting :
    {k : ℕ} {limit used : ℤ} → IsCounting k limit used → IsCounting (suc k) limit (used +ℤ pos 1)
free_link-IsCounting h = record {
  limit_low = omega (arith, h.limit_low);
  limit_high = h.limit_high;
  used_low = omega (int_laws, h.used_low);
  used_high = omega (int_laws, h.used_high);
}

-- An eviction of `trim`, which goes on only while the limit is reached.
evicted-IsCounting :
    {k : ℕ} {limit used : ℤ}
    → limit ≤ℤ used
    → IsCounting k limit used
    → IsCounting k limit (used -ℤ pos 1)
evicted-IsCounting reached h = record {
  limit_low = h.limit_low;
  limit_high = h.limit_high;
  used_low = omega (int_laws, h.limit_low, reached);
  used_high = omega (int_laws, h.used_high);
}

Counting-eq :
    (k : ℕ) (s u : Storage)
    → u.buffer_limit ≡ s.buffer_limit
    → u.buffer_used ≡ s.buffer_used
    → Counting k s
    → Counting k u
Counting-eq k s u p q h = subst₂ (IsCounting k) (sym p) (sym q) h

pub ReadStep-Counting :
    (e : Env) (k : ℕ) (s u : Storage) → ReadStep e s u → Counting k s → Counting k u
ReadStep-Counting e k s u (inl (reading, calls, q)) h =
    Counting-eq k s u (ap (λ w. w.buffer_limit) q) (ap (λ w. w.buffer_used) q) h
ReadStep-Counting e k s u (inr (reading, i, b, there, q)) h =
    Counting-eq k s u (ap (λ w. w.buffer_limit) q) (ap (λ w. w.buffer_used) q) h

link_cases-IsCounting :
    (k : ℕ) (b : Bool) (limit used : ℤ)
    → IsCounting k limit used
    → IsCounting (suc k) (if b then limit -ℤ pos 1 else limit) (if b then used else used +ℤ pos 1)
link_cases-IsCounting k true limit used h = reserved_link-IsCounting h
link_cases-IsCounting k false limit used h = free_link-IsCounting h

Given-Counting :
    {e : Env} {k : ℕ} {s : Storage} {piece : ℕ} {r : Bool} {u : Storage}
    → Given e s piece r u
    → Counting k s
    → Counting (suc k) u
unfolding link
Given-Counting (held p i at_p at_i) h = next_call-IsCounting h
Given-Counting (refused_by_reader calls reading) h = next_call-IsCounting h
Given-Counting (full all) h = next_call-IsCounting h
Given-Counting {k = k} {s = s} (given p i c at_p unbuffered there free before) h =
    link_cases-IsCounting k _ s.buffer_limit s.buffer_used h

trim_after-Counting :
    (e : Env) (fuel piece k : ℕ) {s : Storage}
    → IsValid s
    → Counting k s
    → Safe (Counting k) (trim_after e fuel s piece)
unfolding trim_after
trim_after-Counting e fuel piece k {s} v h =
    elim (Bool-cases (leb_ℤ s.buffer_limit s.buffer_used)) [
      | inl reached ↦ rw reached (
          Safe-mono _ (Counting k) (trim e fuel s (pos piece))
            (trim_inv e (pos piece) (Counting k)
              (λ a w x h m reached.
                subst₂ (IsCounting k) (sym (Evicts-used m).1) (sym (Evicts-used m).0)
                  (evicted-IsCounting reached h))
              (λ a j later h. h) fuel v h)
            (λ w k. k.1))
      | inr below ↦ rw below h
    ]

pub writev-Counting :
    (e : Env) (fuel k : ℕ) {s : Storage} (bufs : List Iovec) (piece offset : ℕ) {p : Piece}
    → IsValid s
    → get_elem? s.pieces piece ≡ some p
    → offset + byte_total bufs ≤ p.length
    → p.size + byte_total bufs < 2 ^ 31
    → Counting k s
    → Safe (λ r. Counting (suc k) r.1) (writev e fuel s bufs piece offset)
writev-Counting e fuel k {s} bufs piece offset v there fits sum h =
    let Counted : ℕ × Storage → Type 0 = λ r. Counting (suc k) r.1 in
    elim (writev-parts e bufs piece offset v there fits sum) [
      | inl x ↦ subst (Safe Counted) (sym (x.run fuel)) (Given-Counting x.how h)
      | inr x ↦ subst (Safe Counted) (sym (x.run fuel)) (
          Safe-bind _ Counted (trim_after e fuel x.copied piece) _
            (trim_after-Counting e fuel piece (suc k) x.valid (
              Counting-eq (suc k) x.asked x.copied (ap (λ w. w.buffer_limit) x.stored.2)
                (ap (λ w. w.buffer_used) x.stored.2) (Given-Counting x.how h)))
            (λ w c. c))
    ]
