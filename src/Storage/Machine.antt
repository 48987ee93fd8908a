-- ===== src/Storage/Machine.antt =====
-- memory_storage.hpp as a state machine: the calls that libtorrent and the Go wrappers make on a
-- storage, one after the other, and what holds after any sequence of them.
pub mod Live
pub mod Total
pub mod Frame
pub mod Counting
pub mod Counters
use libtorrent_go.Base.{
  ℕ, ◌+◌, ◌/◌, ◌^◌, ◌≤◌, ◌<◌, ◌≡◌, refl, true, some, List, ℤ, pos, get_elem?, length, Result, ok,
  ◌>>=◌, Safe, Safe-ok, Safe-bind, Bool, false, subst, ok-injective, sym, ◌∙◌,
}
use libtorrent_go.Piece.{Piece}
use libtorrent_go.Buffer.{Iovec, byte_total}
use libtorrent_go.Storage.{Storage, Env, Pointer, object, is_null, TorrentInfo}
use libtorrent_go.Storage.Valid.{IsValid, determined, members-IsValid}
use libtorrent_go.Storage.Setup.{
  set_memory_size, set_torrent_handle, enable_logging, disable_logging, update_reader_pieces,
  update_reserved_pieces, construct,
}
use libtorrent_go.Storage.Setup.Safe.{set_memory_size-IsValid, IsInfo, construct-IsValid}
use libtorrent_go.Storage.Setup.Update.{
  AllBelow, update_reader_pieces-IsValid, update_reserved_pieces-IsValid,
}
use libtorrent_go.Storage.Memory.{bytes_held, memory_bound}
use libtorrent_go.Base.{◌*◌}
use libtorrent_go.Storage.Transfer.{read, readv, writev}
use libtorrent_go.Storage.Transfer.Read.{read-answers}
use libtorrent_go.Storage.Transfer.ReadVectors.{readv-answers}
use libtorrent_go.Storage.Transfer.RoundTrip.{writev-Safe, Written}

-- A call with its arguments.
pub data Request : Type 0 where
  ask_read : List ℕ → ℕ → ℕ → Request
  ask_readv : List Iovec → ℕ → ℕ → Request
  ask_writev : List Iovec → ℕ → ℕ → Request
  ask_memory : ℕ → Request
  ask_handle : Pointer → Request
  ask_logging : Request
  ask_no_logging : Request
  ask_readers : List ℤ → Request
  ask_reserved : List ℤ → Request

-- The state that a call leaves behind; `fuel` bounds the rounds of `trim`.
unfoldable pub perform : Env → ℕ → Storage → Request → Result Storage
perform e fuel s (ask_read read_buf piece offset) =
    read e s read_buf (pos (length read_buf)) piece offset >>= λ r. ok r.2
perform e fuel s (ask_readv bufs piece offset) = readv e s bufs piece offset >>= λ r. ok r.2
perform e fuel s (ask_writev bufs piece offset) = writev e fuel s bufs piece offset >>= λ r. ok r.1
perform e fuel s (ask_memory n) = set_memory_size s (pos n)
perform e fuel s (ask_handle native) = set_torrent_handle s object native
perform e fuel s ask_logging = ok (enable_logging s)
perform e fuel s ask_no_logging = ok (disable_logging s)
perform e fuel s (ask_readers is) = update_reader_pieces s is
perform e fuel s (ask_reserved is) = update_reserved_pieces s is

-- What a caller has to keep to: pieces in range, requests inside the piece, and sizes that fit `int`.
abbrev pub IsAllowed : Storage → Request → Type 0
IsAllowed s (ask_read read_buf piece offset) = (piece < s.piece_count) × (offset < 2 ^ 31)
IsAllowed s (ask_readv bufs piece offset) =
    (piece < s.piece_count) × (offset + byte_total bufs ≤ s.piece_length)
IsAllowed s (ask_writev bufs piece offset) =
    (p : Piece) × (get_elem? s.pieces piece ≡ some p)
    × (offset + byte_total bufs ≤ p.length)
    × (p.size + byte_total bufs < 2 ^ 31)
IsAllowed s (ask_memory n) = n / s.piece_length + 2 < 2 ^ 31
IsAllowed s (ask_handle native) = determined native ≡ true
IsAllowed s ask_logging = Unit {0}
IsAllowed s ask_no_logging = Unit {0}
IsAllowed s (ask_readers is) = AllBelow (s.piece_count + 10) is
IsAllowed s (ask_reserved is) = AllBelow (s.piece_count + 10) is

pub handle-IsValid :
    {s : Storage} (native : Pointer)
    → IsValid s
    → determined native ≡ true
    → IsValid (record s { m_handle = object; t = native })
handle-IsValid {s} native v h =
    members-IsValid object native s.is_logging s.is_reading s.buffer_limit s.buffer_used s.ticks
      s.calls v refl h

pub logging-IsValid : {s : Storage} (b : Bool) → IsValid s → IsValid (record s { is_logging = b })
logging-IsValid {s} b v =
    members-IsValid s.m_handle s.t b s.is_reading s.buffer_limit s.buffer_used s.ticks s.calls v
      v.handle v.torrent

-- An allowed call on a valid storage does not fault, and leaves a valid storage.
pub perform-Safe :
    (e : Env) (fuel : ℕ) {s : Storage} (r : Request)
    → IsValid s
    → IsAllowed s r
    → Safe IsValid (perform e fuel s r)
unfolding perform set_torrent_handle is_null enable_logging disable_logging
perform-Safe e fuel (ask_read read_buf piece offset) v (h, start) =
    let (r, out, u, q, answer, w, step) = read-answers e piece offset read_buf v h start in rw q w
perform-Safe e fuel (ask_readv bufs piece offset) v (h, fits) =
    let (n, filled, u, q, answer, w, step) = readv-answers e bufs piece offset v h fits in rw q w
perform-Safe e fuel {s} (ask_writev bufs piece offset) v (p, here, fits, sum) =
    Safe-bind (Written s piece offset bufs) IsValid (writev e fuel s bufs piece offset) _
      (writev-Safe e fuel bufs piece offset v here fits sum) (λ r w. w.0)
perform-Safe e fuel (ask_memory n) v h =
    let (u, q, w, _, _) = set_memory_size-IsValid n v h in rw q w
perform-Safe e fuel (ask_handle native) v h = handle-IsValid native v h
perform-Safe e fuel ask_logging v h = logging-IsValid true v
perform-Safe e fuel ask_no_logging v h = logging-IsValid false v
perform-Safe e fuel (ask_readers is) v h =
    let (u, q, w, _) = update_reader_pieces-IsValid is v h in rw q w
perform-Safe e fuel (ask_reserved is) v h =
    let (u, q, w, _) = update_reserved_pieces-IsValid is v h in rw q w

-- The storages that allowed calls lead to, one after the other.
pub data Reaches (e : Env) (fuel : ℕ) (s : Storage) : Storage → Type 0 where
  here : Reaches e fuel s s
  after :
      (u w : Storage) (r : Request)
      → Reaches e fuel s u
      → IsAllowed u r
      → perform e fuel u r ≡ ok w
      → Reaches e fuel s w

-- The same by calls of some kind only.
pub data Runs (e : Env) (fuel : ℕ) (Fits : Request → Type 0) (s : Storage) : Storage → Type 0 where
  start : Runs e fuel Fits s s
  next :
      (u w : Storage) (r : Request)
      → Runs e fuel Fits s u
      → IsAllowed u r
      → Fits r
      → perform e fuel u r ≡ ok w
      → Runs e fuel Fits s w

pub Runs-IsValid :
    {e : Env} {fuel : ℕ} {Fits : Request → Type 0} {s u : Storage}
    → IsValid s
    → Runs e fuel Fits s u
    → IsValid u
Runs-IsValid v start = v
Runs-IsValid {e} {fuel} v (next u w r path allowed fits q) =
    Safe-ok IsValid (perform-Safe e fuel r (Runs-IsValid v path) allowed) q

pub Reaches-IsValid :
    (e : Env) (fuel : ℕ) {s u : Storage} → IsValid s → Reaches e fuel s u → IsValid u
Reaches-IsValid e fuel v here = v
Reaches-IsValid e fuel v (after u w r path allowed q) =
    Safe-ok IsValid (perform-Safe e fuel r (Reaches-IsValid e fuel v path) allowed) q

module _ (e : Env) (fuel memory : ℕ) (info : TorrentInfo) (native : Pointer) {s u : Storage}
    (h : IsInfo memory info) (native_set : determined native ≡ true)
    (made : (construct (pos memory) info >>= λ s0. set_torrent_handle s0 object native) ≡ ok s)
    (path : Reaches e fuel s u) where
  pub construct-Reaches : IsValid u
  construct-Reaches =
      let (s', q, v) = construct-IsValid memory info native h native_set in
      Reaches-IsValid e fuel (subst IsValid (ok-injective (sym q ∙ made)) v) path

  -- After any sequence of allowed calls that ended, from the constructor on (under the conditions
  -- on its arguments) and with the handle set, the buffers together take no more bytes than the
  -- capacity, if that is not negative, and two pieces on top, and no more than all the pieces at
  -- their full length.
  pub construct-bytes_held :
      (c : ℕ)
      → u.capacity ≡ pos c
      → (bytes_held u.buffers ≤ c + 2 * u.piece_length)
        × (bytes_held u.buffers ≤ u.piece_count * u.piece_length)
  construct-bytes_held c limit = memory_bound c construct-Reaches limit
