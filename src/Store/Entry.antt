-- ===== src/Store/Entry.antt =====
-- The entry of one identity in internal/store/store.go: its session, its backoff window, and the
-- critical sections of Get and Refresh.
--
-- Go compares sessions by pointer. A `Ref` is a session with the address that it was allocated at,
-- and `allocs` counts the addresses given out, so that a new session is at a fresh one. An error
-- text of "" is `none`.
use claviger.Prelude.{
  ℕ, suc, ◌+◌, Bool, true, false, List, [], ◌∷◌, ◌++◌, Option, none, some, Error,
  refresh_rate_limit, Result, ok, err, ltb, leb, eqb, length, if◌then◌else◌,
}
use claviger.Session.{Session}
use claviger.Recipe.{Recipe}

pub record Ref : Type 0 where
  pub addr : ℕ
  pub obj : Session

pub record Entry (W : Type 0) : Type 0 where
  pub recipe : Recipe W
  pub session : Option Ref
  pub stamps : List ℕ
  pub last_auth : ℕ
  pub last_err : Option Error
  pub allocs : ℕ

-- &entry{recipe: r}
unfoldable pub new_entry : {W : Type 0} → Recipe W → Entry W
new_entry r = record {
  recipe = r;
  session = none;
  stamps = [];
  last_auth = 0;
  last_err = none;
  allocs = 0;
}

-- entry.setSession
unfoldable pub set_session : {W : Type 0} → Session → Entry W → Entry W
set_session s e = record e {
  session = some (record { addr = e.allocs; obj = s });
  allocs = suc e.allocs;
}

-- entry.commit
unfoldable pub commit : {W : Type 0} → Session → ℕ → Entry W → Entry W
unfolding set_session
commit s now e = record (set_session s e) { last_auth = now; last_err = none }

-- entry.fail
unfoldable pub fail : {W : Type 0} → Error → Entry W → Entry W
fail x e = record e { last_err = some x }

-- pruneOlderThan with the cutoff now - window: `t.After(cutoff)`, without a subtraction.
unfoldable pub prune_older_than : List ℕ → ℕ → ℕ → List ℕ
prune_older_than [] now window = []
prune_older_than (t ∷ ts) now window =
    let rest = prune_older_than ts now window in if ltb now (t + window) then t ∷ rest else rest

-- The attempt at the end of the pruned stamps, unless they have reached the ceiling.
unfoldable pub admit : {W : Type 0} → ℕ → ℕ → ℕ → List ℕ → Entry W → Result (Unit {0}) × Entry W
admit max_burst window now kept e =
    if leb max_burst (length kept)
    then (err (refresh_rate_limit e.recipe.identity max_burst window), record e { stamps = kept })
    else (ok tt, record e { stamps = kept ++ now ∷ [] })

-- entry.rateLimited
unfoldable pub rate_limited : {W : Type 0} → ℕ → ℕ → ℕ → Entry W → Result (Unit {0}) × Entry W
unfolding prune_older_than admit
rate_limited max_burst window now e =
    admit max_burst window now (prune_older_than e.stamps now window) e

-- `cur != before` on two session pointers
unfoldable pub differs : Option Ref → Option Ref → Bool
differs none none = false
differs none (some b) = true
differs (some a) none = true
differs (some a) (some b) = if eqb a.addr b.addr then false else true

-- The session that a pointer points to; Refresh may adopt a nil pointer, which is `none`.
abbrev pub object : Option Ref → Option Session
object none = none
object (some r) = some r.obj

-- time.Unix(0, 1), which is 62135596800 seconds and one nanosecond after the zero Time
abbrev pub unix_one : ℕ
unix_one = 62135596800000000001

-- The end of Refresh's critical section, on the recipe's result. A failure marks the session that
-- was to be replaced as expired, on a copy.
unfoldable pub finish : {W : Type 0} → Option Ref → Result Session → ℕ → Entry W → Entry W
unfolding commit fail set_session
finish before (ok s) now e = commit s now e
finish none (err x) now e = fail x e
finish (some b) (err x) now e = set_session (record b.obj { expires_at = unix_one }) (fail x e)
