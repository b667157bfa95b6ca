-- ===== src/Store/Examples.antt =====
-- Runs of the store at concrete inputs. The world is a clock that ticks at each reading.
use claviger.Prelude.{
  ℕ, ◌+◌, String, ◌≡◌, refl, true, false, List, [], ◌∷◌, none, some, external, ok, err, count, ◌⊎◌,
  arith, ◌≤◌,
}
use claviger.Session.{Session, expired}
use claviger.Recipe.{Recipe, LogoutSignature}
use claviger.Store.{Store, new, entry_of, get_entry, refresh_entry, refresh_expiring, health_of}
use claviger.Store.Entry.{Ref, Entry, new_entry, rate_limited, admit, finish, differs, unix_one}
use claviger.Store.Backoff.{in_window, attempts, attempts_per_window}
use claviger.Store.Flight.{
  Flight, free, refresher, getter, inside, returned, idle, waiting, update, snap, logs_in, finishes,
  get_logs_in, get_finishes, again, Reach, here, next, start, is_stale, get_gate, get_finish,
}
use claviger.Store.Flight.Single.{Distinct, renewed-Distinct}
use claviger.Store.Flight.Adopt.{dead_copy, refresh_after_failure}
use claviger.Store.Flight.Progress.{inside_unique}
use claviger.Store.Flight.Ends.{Returns, waiting-Returns}
use claviger.Store.Contract.{Call, registers, gets, refreshes, sweeps, History, run_calls, view}
use claviger.Store.Refines.{store_refines}
use claviger.Store.Get.{get_entry_source}
use claviger.Store.Frame.{refresh_expiring_spares}

abbrev session_with : String → ℕ → Session
session_with token expiry = record {
  identity = "alice";
  cookies = [];
  bearer_token = token;
  refresh_token = "";
  csrf = "";
  headers = [];
  expires_at = expiry;
}

abbrev signature : LogoutSignature
signature = record { status_codes = 401 ∷ []; location_contains = ""; body_contains = "" }

-- A login that works, and one whose refresh fails.
abbrev working : Recipe ℕ
working = record {
  identity = "alice";
  establish = λ w. (ok (session_with "t1" 500), w + 1);
  refresh = λ _ w. (ok (session_with "t2" 900), w + 1);
  logout = signature;
}

abbrev failing : Recipe ℕ
failing = record working { refresh = λ _ w. (err (external "refused"), w + 1) }

abbrev ticking : ℕ → ℕ × ℕ
ticking w = (w, w + 1)

abbrev live_ref : Ref
live_ref = record { addr = 0; obj = session_with "t1" 500 }

abbrev held : Recipe ℕ → Entry ℕ
held r = record {
  recipe = r;
  session = some live_ref;
  stamps = 90 ∷ [];
  last_auth = 10;
  last_err = none;
  allocs = 1;
}

-- Thread 0 logs in by Get; then threads 0 and 1 call Refresh, and thread 0 renews the session.
abbrev s0 : Flight ℕ
s0 = start working

abbrev s1 : Flight ℕ
s1 = record s0 {
  entry = (get_gate 10 60 100 s0.entry).1;
  lock = getter 0;
  phase = update 0 inside s0.phase;
}

abbrev s2 : Flight ℕ
s2 = record s1 {
  entry = get_finish (ok (session_with "t1" 500)) 101 s1.entry;
  lock = free;
  phase = update 0 returned s1.phase;
}

abbrev s3 : Flight ℕ
s3 = record s2 { phase = update 0 idle s2.phase }

abbrev s4 : Flight ℕ
s4 = record s3 { phase = update 0 (waiting s3.entry.session) s3.phase }

abbrev s5 : Flight ℕ
s5 = record s4 { phase = update 1 (waiting s4.entry.session) s4.phase }

abbrev s6 : Flight ℕ
s6 = record s5 {
  entry = (rate_limited 10 60 102 s5.entry).1;
  lock = refresher 0 (some live_ref);
  phase = update 0 inside s5.phase;
  renewed = 0 ∷ [];
}

abbrev s7 : Flight ℕ
s7 = record s6 {
  entry = finish (some live_ref) (ok (session_with "t2" 900)) 103 s6.entry;
  lock = free;
  phase = update 0 returned s6.phase;
}

up_to_waiting : Reach 10 60 s0 s6
unfolding start get_gate rate_limited is_stale get_finish finish differs
up_to_waiting =
    next
      (next
        (next
          (next
            (next (next here (get_logs_in 0 100 refl refl refl refl refl))
              (get_finishes 0 101 (ok (session_with "t1" 500)) refl refl))
            (again 0 refl refl))
          (snap 0 refl refl))
        (snap 1 refl refl))
      (logs_in 0 102 (some live_ref) refl refl refl refl refl)

two_callers : Reach 10 60 s0 s7
unfolding finish differs
two_callers =
    next up_to_waiting (finishes 0 103 (some live_ref) (ok (session_with "t2" 900)) refl refl)

renewed-Distinct_example : Distinct (0 ∷ [])
renewed-Distinct_example = renewed-Distinct 10 60 working s7 two_callers

refresh_after_failure_example :
    (refresh_entry ticking 10 60
        (some live_ref)
        (finish (some live_ref) (err (external "refused")) 5 (held failing))
        7
      ≡ (
        ok (some (dead_copy live_ref.obj)),
        finish (some live_ref) (err (external "refused")) 5 (held failing),
        7,
      ))
    × (expired (dead_copy live_ref.obj) (unix_one + 1) ≡ true)
refresh_after_failure_example =
    refresh_after_failure ticking 10 60 live_ref (external "refused") 5 (unix_one + 1)
      (held failing) 7 (omega arith) (omega arith)

-- Two attempts at most in a window of 10: the third is refused, the fourth is not.
attempts_test :
    attempts 2 10 (100 ∷ 101 ∷ 105 ∷ 111 ∷ []) (new_entry working) ≡ 100 ∷ 101 ∷ 111 ∷ []
unfolding attempts new_entry admit
attempts_test = refl

attempts_per_window_example :
    count (in_window 10 105) (attempts 2 10 (100 ∷ 101 ∷ 105 ∷ 111 ∷ []) (new_entry working)) ≤ 2
attempts_per_window_example =
    attempts_per_window 2 10 105 (100 ∷ 101 ∷ 105 ∷ 111 ∷ []) working (omega arith)

get_entry_source_example :
    ((r : Ref) × ((held working).session ≡ some r)
      × (session_with "t2" 900 ≡ r.obj)
      × ((expired (session_with "t2" 900) (ticking 600).0 ≡ false)
          ⊎ (expired (session_with "t2" 900) (ticking 601).0 ≡ false)))
    ⊎ (((held working).session ≡ none)
        × (((held working).recipe.establish 600).0 ≡ ok (session_with "t2" 900)))
    ⊎ ((r : Ref) × ((held working).session ≡ some r)
        × (expired r.obj (ticking 600).0 ≡ true)
        × (expired r.obj (ticking 601).0 ≡ true)
        × ((rate_limited 10 60 (ticking 602).0 (held working)).0 ≡ ok tt)
        × (((held working).recipe.refresh (some r.obj) 603).0 ≡ ok (session_with "t2" 900)))
unfolding get_entry rate_limited
get_entry_source_example =
    get_entry_source ticking 10 60 (held working) 600 (session_with "t2" 900) refl

abbrev two_identities : Store ℕ
two_identities = record {
  entries = ("alice", held working) ∷ ("bob", new_entry failing) ∷ [];
  max_burst = 10;
  window = 60;
}

refresh_expiring_spares_example :
    entry_of "alice" (refresh_expiring ticking 100 two_identities 300).1.entries
    ≡ some (held working)
unfolding entry_of health_of
refresh_expiring_spares_example =
    refresh_expiring_spares ticking 100 "alice" (held working) two_identities 300 refl refl

inside_unique_example : ◌≡◌ {A = ℕ} 0 0
inside_unique_example = inside_unique 10 60 working s6 0 0 up_to_waiting refl refl

-- Thread 1 waits while thread 0 holds the lock.
waiting-Returns_example : Returns 10 60 1 104 (err (external "down")) s6
unfolding get_finish get_gate start
waiting-Returns_example =
    waiting-Returns 10 60 working s6 1 104 (err (external "down")) (some live_ref) up_to_waiting
      refl

abbrev calls : List (Call ℕ)
calls = registers working ∷ gets "alice" ∷ refreshes "alice" ∷ refreshes "bob" ∷ sweeps 1000 ∷ []

store_refines_example :
    History
      (λ id. none)
      (run_calls ticking calls (new 10 60) 100).0
      (view (run_calls ticking calls (new 10 60) 100).1)
store_refines_example = store_refines ticking 10 60 calls 100
