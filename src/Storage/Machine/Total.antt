-- ===== src/Storage/Machine/Total.antt =====
-- From the constructor of memory_storage.hpp on, every call comes back: where no piece is ever reserved,
-- there are two buffers or more, and the clock passes any time in the end.
use libtorrent_go.Base.{
  ℕ, ◌+◌, ◌/◌, ◌≤◌, ◌≡◌, refl, sym, ap, ◌∙◌, subst, true, false, [], ℤ, pos, negsuc, arith,
  int_laws, replicate, zero, suc, ok, Safe-ok, ok-injective, ◌>>=◌, min, Each-nil,
}
use libtorrent_go.Storage.{Storage, Env, Pointer, object, TorrentInfo}
use libtorrent_go.Storage.Valid.{IsValid, determined, bit}
use libtorrent_go.Storage.Setup.{construct, set_torrent_handle, fresh}
use libtorrent_go.Storage.Setup.Safe.{IsInfo, construct-IsValid, construct-started, started}
use libtorrent_go.Storage.Setup.Capacity.{push_buffers_lem}
use libtorrent_go.Storage.Evict.Ends.{ClockPasses}
use libtorrent_go.Storage.Evict.Evictable.{count_if}
use libtorrent_go.Storage.Account.Live.{IsLive}
use libtorrent_go.Storage.Account.Grown.{used_count-push_buffers, used-push_buffers}
use libtorrent_go.Storage.Machine.{perform-Safe, Runs, start, next, Request, perform, IsAllowed}
use libtorrent_go.Storage.Machine.Live.{IsUnreserving, perform-IsLive, perform-Ends}

pub none_in_replicate : (n : ℕ) (i : ℤ) → bit (replicate n false) i ≡ false
none_in_replicate zero (pos i) = refl
none_in_replicate (suc n) (pos zero) = refl
none_in_replicate (suc n) (pos (suc i)) = none_in_replicate n (pos i)
none_in_replicate n (negsuc i) = refl

-- What a caller that begins with a new storage brings along.
pub record IsPlain (e : Env) (memory : ℕ) (info : TorrentInfo) : Type 0 where
  pub sound : IsInfo memory info
  pub several : 2 ≤ info.num_pieces
  pub passes : ClockPasses e

module _ (e : Env) (fuel memory : ℕ) (info : TorrentInfo) (native : Pointer)
    (h : IsPlain e memory info) where
  started-IsLive :
      IsLive (started memory info native (min (memory / info.piece_length + 2) info.num_pieces))
  unfolding started fresh count_if
  started-IsLive =
      let n = min (memory / info.piece_length + 2) info.num_pieces in
      let pushed = push_buffers_lem info.piece_length n [] (Each-nil _) in
      record {
        counted = record {
          unreserved = none_in_replicate (info.num_pieces + 10);
          used = ap pos (sym (used_count-push_buffers info.piece_length n (pos 0) []));
          limit = refl;
        };
        stamped = λ i b here used.
            absurd (cc (used-push_buffers info.piece_length n (pos 0) [] i here used));
        limited = omega int_laws;
        wide = omega (arith, pushed.total, h.several);
      }

  module _ (native_set : determined native ≡ true) {s : Storage}
      (made : (construct (pos memory) info >>= λ s0. set_torrent_handle s0 object native)
        ≡ ok s) where
    Runs-IsLive : {u : Storage} → Runs e fuel IsUnreserving s u → IsValid u × IsLive u
    Runs-IsLive start =
        let same = ok-injective (sym (construct-started memory info native h.sound) ∙ made) in
        let (s', q, v) = construct-IsValid memory info native h.sound native_set in
        (subst IsValid (ok-injective (sym q ∙ made)) v, subst (IsLive) same started-IsLive)
    Runs-IsLive (next u w r path allowed free q) =
        let (v, live) = Runs-IsLive path in
        (
          Safe-ok IsValid (perform-Safe e fuel r v allowed) q,
          perform-IsLive e fuel r v live allowed free q,
        )

    -- From the constructor on, with a memory size that is not negative, lengths that fit `int`,
    -- two pieces or more, a clock that is after any given time from some reading on (it may stand
    -- still or be set back before), and once the torrent handle is set: after any sequence of
    -- allowed calls that ended and that reserved no piece, the next allowed call that reserves no
    -- piece ends, with some number of rounds of `trim`, without a fault, and leaves a valid
    -- storage.
    pub construct-perform_total :
        {u : Storage}
        → Runs e fuel IsUnreserving s u
        → (r : Request) → IsAllowed u r
        → IsUnreserving r
        → (rounds : ℕ) × (w : Storage) × (perform e rounds u r ≡ ok w) × IsValid w
    construct-perform_total path r allowed free =
        let (v, live) = Runs-IsLive path in
        let (rounds, w, q) = perform-Ends e r h.passes v live allowed free in
        (rounds, w, q, Safe-ok IsValid (perform-Safe e rounds r v allowed) q)
