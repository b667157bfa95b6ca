-- ===== src/Store/Flight/Adopt.antt =====
-- What the callers get that waited behind a login that failed.
use claviger.Prelude.{ℕ, ◌<◌, ◌≡◌, some, Error, ok, err, arith, true}
use claviger.Session.{Session, expired}
use claviger.Store.Entry.{Ref, Entry, finish, unix_one}
use claviger.Store.{refresh_entry}

-- The copy of a session that a failed Refresh leaves.
abbrev pub dead_copy : Session → Session
dead_copy s = record s { expires_at = unix_one }

-- After a Refresh of the session `b` has failed, a caller that waits with `b` gets the dead copy
-- with no error, without a login, and that copy is expired at every time after the Unix epoch.
pub refresh_after_failure :
    {W : Type 0} (clock : W → ℕ × W) (burst window : ℕ) (b : Ref) (x : Error) (now later : ℕ)
    (e : Entry W) (w : W)
    → b.addr < e.allocs
    → unix_one < later
    → (refresh_entry clock burst window (some b) (finish (some b) (err x) now e) w
        ≡ (ok (some (dead_copy b.obj)), finish (some b) (err x) now e, w))
      × (expired (dead_copy b.obj) later ≡ true)
unfolding refresh_entry finish
refresh_after_failure clock burst window b x now later e w old epoch =
    (ground arith, unfold expired in ground arith)
