-- ===== src/Storage/Account/Steps.antt =====
-- The counters of memory_storage.hpp under the steps of a write.
use libtorrent_go.Base.{
  if◌then◌else◌, ℕ, suc, ◌≡◌, refl, sym, ap, ◌∙◌, subst, Bool, true, false, some, ℤ, pos, ◌+ℤ◌,
  ◌-ℤ◌, arith, set,
}
use libtorrent_go.Buffer.{reset_buffer}
use libtorrent_go.Storage.{Storage, Env, now}
use libtorrent_go.Storage.Valid.{bit}
use libtorrent_go.Storage.Evict.Evictable.{count_if-set, count_if-set_same, evictable-Holds}
use libtorrent_go.Storage.Evict.Round.{Evicts}
use libtorrent_go.Storage.Alloc.{link}
use libtorrent_go.Storage.Alloc.Safe.{Given, held, given, refused_by_reader, full}
use libtorrent_go.Storage.Transfer.Write.{InBuffer, Stored}
use libtorrent_go.Storage.Account.{used_count, IsCounted, IsCounted-same}
use libtorrent_go.Storage.Account.Count.{count_if-set_up}

one_more : (n : ℕ) → pos n +ℤ pos 1 ≡ pos (suc n)
unfolding ◌+ℤ◌
one_more n = ground arith

one_less : (n : ℕ) → pos (suc n) -ℤ pos 1 ≡ pos n
unfolding ◌-ℤ◌
one_less n = ground arith

-- A buffer that is given to a piece is counted.
pub Given-IsCounted :
    {e : Env} {s s' : Storage} {piece : ℕ} {r : Bool}
    → Given e s piece r s'
    → IsCounted s
    → IsCounted s'
unfolding link
Given-IsCounted (held p i at_p at_i) c = c
Given-IsCounted (refused_by_reader calls reading) c = IsCounted-same c refl refl refl refl refl
Given-IsCounted (full all) c = c
Given-IsCounted {e} {s} (given p i b at_p unbuffered there free before) c =
    let y = record b { is_used = true; pi = pos p.index; accessed = some (now e s) } in
    let more = count_if-set_up (λ b. b.is_used) s.buffers i y there free refl in
    let plain = c.unreserved (pos p.index) in
    record {
      unreserved = c.unreserved;
      used =
          ap (λ r. if r then s.buffer_used else s.buffer_used +ℤ pos 1) plain
          ∙ ap (λ z. z +ℤ pos 1) c.used
          ∙ one_more (used_count s.buffers)
          ∙ ap pos (sym more);
      limit = ap (λ r. if r then s.buffer_limit -ℤ pos 1 else s.buffer_limit) plain ∙ c.limit;
    }

-- The bytes of a buffer have no part in the count.
pub Stored-IsCounted :
    (e : Env) {s u : Storage} {piece : ℕ} (b : InBuffer s piece)
    → Stored e s piece b u
    → IsCounted s
    → IsCounted u
Stored-IsCounted e {s} {u} b (bytes, size, q) c =
    let y = record b.y { buffer = bytes; accessed = some (now e s) } in
    let same = count_if-set_same (λ b. b.is_used) s.buffers b.i y b.at_buffer refl in
    IsCounted-same c (ap (λ w. w.reserved_pieces) q) (ap (λ w. used_count w.buffers) q ∙ same)
      (ap (λ w. w.buffer_used) q) (ap (λ w. w.buffer_limit) q) (ap (λ w. w.buffer_size) q)

-- An evicted buffer is not counted any more.
pub Evicts-IsCounted :
    {e : Env} {keep : ℤ} {s s' : Storage} → Evicts e keep s s' → IsCounted s → IsCounted s'
unfolding reset_buffer
Evicts-IsCounted {e} {keep} {s} {s'} m c =
    let y = reset_buffer (e.clock m.ticks) m.buf in
    let hit = (evictable-Holds s.reserved_pieces keep m.buf m.chosen).used in
    let less : suc (used_count (set s.buffers m.i y)) ≡ used_count s.buffers =
      count_if-set (λ b. b.is_used) s.buffers m.i y m.at_i hit refl in
    record {
      unreserved =
          subst (λ l. (i : ℤ) → bit l i ≡ false) (sym (ap (λ u. u.reserved_pieces) m.result))
            c.unreserved;
      used =
          ap (λ u. u.buffer_used) m.result
          ∙ ap (λ z. z -ℤ pos 1) (c.used ∙ ap pos (sym less))
          ∙ one_less (used_count (set s.buffers m.i y))
          ∙ ap (λ u. pos (used_count u.buffers)) (sym m.result);
      limit = ap (λ u. u.buffer_limit) m.result ∙ c.limit ∙ ap (λ u. u.buffer_size) (sym m.result);
    }
