-- ===== src/Storage/Threads/Clean.antt =====
-- The buffers that are not in use, while threads of memory_storage.hpp are at work.
use libtorrent_go.Base.{ℕ}
use libtorrent_go.Storage.{Storage, Env}
use libtorrent_go.Storage.Valid.{IsValid}
use libtorrent_go.Storage.Clean.{
  IsClean, Given-IsClean, Stored-IsClean, ReadStep-IsClean, evicted-IsClean, grown-IsClean,
}
use libtorrent_go.Storage.Threads.Place.{Pc}
use libtorrent_go.Storage.Threads.{System, Reach, rest, step}
use libtorrent_go.Storage.Threads.Changes.{
  Quiet, Change, same, put, touched, delayed, handled, logged, wanted, marked, quiet, asked,
  removed, grows,
}
use libtorrent_go.Storage.Threads.Steps.{Move-Steps}
use libtorrent_go.Storage.Threads.Invariant.{Reach-IsSound}

Quiet-IsClean : {e : Env} {s u : Storage} → IsValid s → Quiet e s u → IsClean s → IsClean u
Quiet-IsClean v same h = h
Quiet-IsClean {e} v (put piece u b st ran) h = Stored-IsClean e b v st h
Quiet-IsClean {e} {s} {u} v (touched _ m) h = ReadStep-IsClean e s u m h
Quiet-IsClean v (delayed k) h = h
Quiet-IsClean v (handled native) h = h
Quiet-IsClean v (logged b) h = h
Quiet-IsClean v (wanted bits) h = h
Quiet-IsClean v (marked bits n) h = h

Change-IsClean :
    {e : Env} {s u : Storage} {p : Pc} → IsValid s → Change e s p u → IsClean s → IsClean u
Change-IsClean v (quiet p u m) h = Quiet-IsClean v m h
Change-IsClean v (asked a piece offset r u how) h = Given-IsClean how h
Change-IsClean {e} {s} v (removed piece i p b x calls at_i at_p holds) h =
    evicted-IsClean e s i p b x calls h
Change-IsClean {s = s} v (grows n k) h = grown-IsClean s n k h

pub Reach-IsClean :
    (e : Env) (sizer : ℕ) {s : Storage} {w : System}
    → IsValid s
    → IsClean s
    → Reach e sizer s w
    → IsClean w.mem
Reach-IsClean e sizer v h rest = h
Reach-IsClean e sizer v h (step i w lock u p path m turn) =
    let k = Reach-IsSound e sizer v path in
    let (_, change, _) = Move-Steps k.valid m (k.fit i) in
    Change-IsClean k.valid change (Reach-IsClean e sizer v h path)
