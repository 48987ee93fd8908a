-- ===== src/Storage/Clean.antt =====
-- The buffers of memory_storage.hpp that are not in use: they hold zero bytes only, so that a piece which
-- comes into memory does not show the bytes of another. What the steps of the storage do to that.
pub mod Calls
pub mod Fresh
use libtorrent_go.Base.{
  Bool, ℕ, zero, suc, ◌≡◌, refl, sym, ap, ◌∙◌, subst, true, false, some, none, List, ℤ, pos, length,
  replicate, length-replicate, length-append, get_elem?, get_elem?-set_self, get_elem?-lt, Each,
  Each-set, Each-snoc, inl, inr, [], ◌∷◌, ◌++◌,
}
use mathlib.Core.Option.{some-injective}
use libtorrent_go.Buffer.{Buffer, reset_buffer, new_buffer}
use libtorrent_go.Piece.{Piece}
use libtorrent_go.Storage.{Storage, Env, Call}
use libtorrent_go.Storage.Valid.{IsValid, IsBuffer-used, held_buffer}
use libtorrent_go.Storage.Evict.Round.{Evicts}
use libtorrent_go.Storage.Evict.Safe.{evicted}
use libtorrent_go.Storage.Alloc.{link}
use libtorrent_go.Storage.Alloc.Safe.{Given, held, given, refused_by_reader, full}
use libtorrent_go.Storage.Setup.{push_buffers}
use libtorrent_go.Storage.Setup.Safe.{grown}
use libtorrent_go.Storage.Transfer.Write.{InBuffer, Stored}
use libtorrent_go.Storage.Transfer.ReadBytes.{ReadStep}
use libtorrent_go.Storage.Cache.{contents, contents-InBuffer}

abbrev pub zeros : ℕ → List ℕ
zeros n = replicate n 0

-- If the buffer is not in use, its bytes are zero.
abbrev pub IsBlank : ℕ → Buffer → Type 0
IsBlank i b = b.is_used ≡ false → b.buffer ≡ zeros (length b.buffer)

abbrev pub IsClean : Storage → Type 0
IsClean s = Each IsBlank s.buffers

pub Given-IsClean :
    {e : Env} {s : Storage} {piece : ℕ} {r : Bool} {u : Storage}
    → Given e s piece r u
    → IsClean s
    → IsClean u
unfolding link
Given-IsClean (held p i at_p at_i) h = h
Given-IsClean (refused_by_reader calls reading) h = h
Given-IsClean (full all) h = h
Given-IsClean {s = s} (given p i b at_p unbuffered there free before) h =
    Each-set IsBlank s.buffers i _ h (λ unused. cc)

pub Stored-IsClean :
    (e : Env) {s u : Storage} {piece : ℕ} (b : InBuffer s piece)
    → IsValid s
    → Stored e s piece b u
    → IsClean s
    → IsClean u
Stored-IsClean e {s} {piece = piece} b v (bytes, size, q) h =
    let (y, there, back) = held_buffer v piece b.i b.at_piece b.at_i in
    let used = IsBuffer-used y piece (v.buffers_ok b.i y there) back in
    let own : b.y ≡ y = some-injective b.y y (sym b.at_buffer ∙ there) in
    subst IsClean (sym q) (
      Each-set IsBlank s.buffers b.i _ h
        (λ unused. absurd (cc (used, ap (λ c. c.is_used) own, unused))))

pub evicted-IsClean :
    (e : Env) (s : Storage) (i p : ℕ) (b : Buffer) (x : Piece) (calls : List Call)
    → IsClean s
    → IsClean (evicted e s i b p x calls)
unfolding reset_buffer
evicted-IsClean e s i p b x calls h =
    Each-set IsBlank s.buffers i _ h (λ _. ap zeros (sym (length-replicate (length b.buffer) 0)))

pub Evicts-IsClean :
    {e : Env} {keep : ℤ} {s u : Storage} → Evicts e keep s u → IsClean s → IsClean u
Evicts-IsClean {e} {s = s} m h =
    subst IsClean (sym m.result)
      (evicted-IsClean e (record s { ticks = m.ticks }) m.i m.p m.buf m.piece m.calls h)

pub ReadStep-IsClean : (e : Env) (s u : Storage) → ReadStep e s u → IsClean s → IsClean u
ReadStep-IsClean e s u (inl (reading, calls, q)) h = subst IsClean (sym q) h
ReadStep-IsClean e s u (inr (reading, i, b, here, q)) h =
    subst IsClean (sym q) (Each-set IsBlank s.buffers i _ h (h i b here))

pub push_buffers-IsBlank :
    (piece_length rounds : ℕ) (first : ℤ) (bs : List Buffer)
    → Each IsBlank bs
    → Each IsBlank (push_buffers piece_length rounds first bs)
unfolding push_buffers new_buffer
push_buffers-IsBlank piece_length zero first bs h = h
push_buffers-IsBlank piece_length (suc rounds) first bs h =
    push_buffers-IsBlank piece_length rounds _ _ (
      Each-snoc IsBlank bs (new_buffer first piece_length) h
        (λ _. ap zeros (sym (length-replicate piece_length 0))))

pub grown-IsClean : (s : Storage) (memory n : ℕ) → IsClean s → IsClean (grown s memory n)
unfolding grown
grown-IsClean s memory n h = push_buffers-IsBlank s.piece_length _ _ s.buffers h

-- A piece that gets a buffer has zero bytes.
pub Given-zeros :
    {e : Env} {s : Storage} {piece : ℕ} {r : Bool} {u : Storage}
    → Given e s piece r u
    → r ≡ true
    → IsValid s
    → IsClean s
    → contents s piece ≡ none
    → contents u piece ≡ some (zeros s.piece_length)
unfolding link
Given-zeros {s = s} {piece = piece} (held p i at_p at_i) yes_r v h missing =
    let (y, there, _) = held_buffer v piece i at_p at_i in
    let b : InBuffer s piece = record {
      x = p;
      i = i;
      y = y;
      at_piece = at_p;
      at_i = at_i;
      at_buffer = there;
    } in
    absurd (cc (contents-InBuffer b, missing))
Given-zeros (refused_by_reader calls reading) yes_r v h missing = cc
Given-zeros (full all) yes_r v h missing = cc
Given-zeros {e} {s} {piece} {u = u} (given p i b at_p unbuffered there free before) yes_r v h
      missing =
    let ok_b = v.buffers_ok i b there in
    rw
      (
        get_elem?-set_self s.pieces piece (record p { bi = b.index })
            (get_elem?-lt s.pieces piece at_p),
        ok_b.index,
        get_elem?-set_self s.buffers i _ (get_elem?-lt s.buffers i there),
      )
      (ap some (h i b there free ∙ ap zeros ok_b.bytes))
