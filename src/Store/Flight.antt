-- ===== src/Store/Flight.antt =====
-- The single flight of internal/store/store.go: any number of threads in Store.Refresh and
-- Store.Get on one entry. A step is what a thread does between two points at which others may run:
-- it takes its pointer, it enters the critical section of flightMu, or it leaves it with the
-- result of the login. Times and login results are whatever the environment chooses.
pub mod Single
pub mod Adopt
pub mod Progress
pub mod Ends
use claviger.Prelude.{
  ℕ, ◌≡◌, Bool, true, false, List, [], ◌∷◌, Option, none, some, Error, Result, ok, err, eqb,
  if◌then◌else◌,
}
use claviger.Session.{Session, expired}
use claviger.Recipe.{Recipe}
use claviger.Store.Entry.{Ref, Entry, new_entry, commit, fail, rate_limited, differs, finish}

-- Who holds flightMu. A thread in Refresh remembers the pointer that it renews.
pub data Lock : Type 0 where
  free : Lock
  refresher : ℕ → Option Ref → Lock
  getter : ℕ → Lock

pub data Phase : Type 0 where
  idle inside returned : Phase
  -- in Refresh, with the pointer taken, and not yet past the lock
  waiting : Option Ref → Phase

-- `renewed` lists the addresses of the sessions that a Refresh has called the recipe for.
pub record Flight (W : Type 0) : Type 0 where
  pub entry : Entry W
  pub lock : Lock
  pub phase : ℕ → Phase
  pub renewed : List ℕ

abbrev pub update : ℕ → Phase → (ℕ → Phase) → ℕ → Phase
update t p phase u = if eqb u t then p else phase u

abbrev pub note : Option Ref → List ℕ → List ℕ
note none l = l
note (some r) l = r.addr ∷ l

-- `sess == nil || sess.Expired(now)`
unfoldable pub is_stale : Option Ref → ℕ → Bool
unfolding expired
is_stale none now = true
is_stale (some r) now = expired r.obj now

-- The limiter in Get, which a first login does not pass.
unfoldable pub get_gate : {W : Type 0} → ℕ → ℕ → ℕ → Entry W → Result (Unit {0}) × Entry W
unfolding rate_limited
get_gate burst window now e = elim e.session [
  | none ↦ (ok tt, e)
  | some r ↦ rate_limited burst window now e
]

-- The end of Get's critical section.
unfoldable pub get_finish : {W : Type 0} → Result Session → ℕ → Entry W → Entry W
unfolding commit fail
get_finish (ok s) now e = commit s now e
get_finish (err x) now e = fail x e

module _ {W : Type 0} (burst window : ℕ) where
  -- One step of thread t.
  pub data Step (s u : Flight W) : Type 0 where
    -- before := e.snapshot()
    snap :
        (t : ℕ)
        → s.phase t ≡ idle
        → u ≡ record s { phase = update t (waiting s.entry.session) s.phase }
        → Step s u
    -- cur != before
    adopts :
        (t : ℕ) (before : Option Ref)
        → s.phase t ≡ waiting before
        → s.lock ≡ free
        → differs s.entry.session before ≡ true
        → u ≡ record s { phase = update t returned s.phase }
        → Step s u
    refused :
        (t now : ℕ) (before : Option Ref) (x : Error)
        → s.phase t ≡ waiting before
        → s.lock ≡ free
        → differs s.entry.session before ≡ false
        → (rate_limited burst window now s.entry).0 ≡ err x
        → u ≡ record s {
          entry = (rate_limited burst window now s.entry).1;
          phase = update t returned s.phase;
        }
        → Step s u
    logs_in :
        (t now : ℕ) (before : Option Ref)
        → s.phase t ≡ waiting before
        → s.lock ≡ free
        → differs s.entry.session before ≡ false
        → (rate_limited burst window now s.entry).0 ≡ ok tt
        → u ≡ record s {
          entry = (rate_limited burst window now s.entry).1;
          lock = refresher t before;
          phase = update t inside s.phase;
          renewed = note before s.renewed;
        }
        → Step s u
    finishes :
        (t now : ℕ) (before : Option Ref) (r : Result Session)
        → s.lock ≡ refresher t before
        → u ≡ record s {
          entry = finish before r now s.entry;
          lock = free;
          phase = update t returned s.phase;
        }
        → Step s u
    get_refused :
        (t now : ℕ) (x : Error)
        → s.phase t ≡ idle
        → s.lock ≡ free
        → is_stale s.entry.session now ≡ true
        → (get_gate burst window now s.entry).0 ≡ err x
        → u ≡ record s {
          entry = (get_gate burst window now s.entry).1;
          phase = update t returned s.phase;
        }
        → Step s u
    get_logs_in :
        (t now : ℕ)
        → s.phase t ≡ idle
        → s.lock ≡ free
        → is_stale s.entry.session now ≡ true
        → (get_gate burst window now s.entry).0 ≡ ok tt
        → u ≡ record s {
          entry = (get_gate burst window now s.entry).1;
          lock = getter t;
          phase = update t inside s.phase;
        }
        → Step s u
    get_finishes :
        (t now : ℕ) (r : Result Session)
        → s.lock ≡ getter t
        → u ≡ record s {
          entry = get_finish r now s.entry;
          lock = free;
          phase = update t returned s.phase;
        }
        → Step s u
    -- the thread makes its next call
    again :
        (t : ℕ) → s.phase t ≡ returned → u ≡ record s { phase = update t idle s.phase } → Step s u

  pub data Reach (s : Flight W) : Flight W → Type 0 where
    here : Reach s s
    next : {t u : Flight W} → Reach s t → Step t u → Reach s u

-- No thread has made a call on a registered identity yet.
unfoldable pub start : {W : Type 0} → Recipe W → Flight W
unfolding new_entry
start r = record { entry = new_entry r; lock = free; phase = λ _. idle; renewed = [] }
