-- ===== src/Store/Contract.antt =====
-- What the store of internal/store/store.go promises its callers, without entries, locks, clocks
-- and backoff windows: a map from identities to the session that is held, if there is one.
use claviger.Prelude.{
  ℕ, String, ◌≡◌, List, [], ◌∷◌, Option, none, some, Error, unknown_identity, Result, ok, err, ◌==◌,
  if◌then◌else◌,
}
use mathlib.Core.Option
use claviger.Session.{Session}
use claviger.Recipe.{Recipe}
use claviger.Store.Entry.{object}
use claviger.Store.Flight.Adopt.{dead_copy}
use claviger.Store.{Store, entry_of, register, get, refresh, refresh_expiring}

-- `none` for an identity that is not registered.
abbrev pub View : Type 0
View = String → Option (Option Session)

-- What a store holds, seen from outside.
unfoldable pub view : {W : Type 0} → Store W → View
view s id = Option.map (λ e. object e.session) (entry_of id s.entries)

abbrev pub assign : String → Option Session → View → View
assign id o v j = if id == j then some o else v j

-- The views have the same entries.
abbrev pub Agrees : View → View → Type 0
Agrees u v = (j : String) → u j ≡ v j

-- Get with the answer `r` leads from `v` to `u`.
pub data Gets (v : View) (id : String) (r : Result Session) (u : View) : Type 0 where
  unknown : v id ≡ none → r ≡ err (unknown_identity id) → Agrees u v → Gets v id r u
  -- the session that is given is the one that is then held
  gives :
      (o : Option Session) (s : Session)
      → v id ≡ some o
      → r ≡ ok s
      → Agrees u (assign id (some s) v)
      → Gets v id r u
  -- a failure changes nothing
  fails : (o : Option Session) (x : Error) → v id ≡ some o → r ≡ err x → Agrees u v → Gets v id r u

-- Refresh with the answer `r` leads from `v` to `u`.
pub data Refreshes (v : View) (id : String) (r : Result (Option Session)) (u : View) : Type 0 where
  unknown : v id ≡ none → r ≡ err (unknown_identity id) → Agrees u v → Refreshes v id r u
  renews :
      (o : Option Session) (s : Session)
      → v id ≡ some o
      → r ≡ ok (some s)
      → Agrees u (assign id (some s) v)
      → Refreshes v id r u
  -- failed, and the sessions stay: so when the limiter refuses, or there is no session to give up
  stays :
      (o : Option Session) (x : Error) → v id ≡ some o → r ≡ err x → Agrees u v → Refreshes v id r u
  -- failed, and the session is given up
  expires :
      (s : Session) (x : Error)
      → v id ≡ some (some s)
      → r ≡ err x
      → Agrees u (assign id (some (dead_copy s)) v)
      → Refreshes v id r u

-- RefreshExpiring with these errors: a run of refreshes, each failure among them recorded.
pub data Sweeps : View → List (String × Error) → View → Type 0 where
  done : {v u : View} → Agrees u v → Sweeps v [] u
  renewed :
      {v m u : View} {errs : List (String × Error)} (id : String) (o : Option Session)
      → Refreshes v id (ok o) m
      → Sweeps m errs u
      → Sweeps v errs u
  failed :
      {v m u : View} {errs : List (String × Error)} (id : String) (x : Error)
      → Refreshes v id (err x) m
      → Sweeps m errs u
      → Sweeps v ((id, x) ∷ errs) u

-- What a caller sees of one call.
pub data Event : Type 0 where
  registered : String → Event
  got : String → Result Session → Event
  refreshed : String → Result (Option Session) → Event
  swept : List (String × Error) → Event

abbrev pub Does : View → Event → View → Type 0
Does v (registered id) u = Agrees u (assign id none v)
Does v (got id r) u = Gets v id r u
Does v (refreshed id r) u = Refreshes v id r u
Does v (swept errs) u = Sweeps v errs u

-- The events are a history that the contract allows, from `v` to `u`.
abbrev pub History : View → List Event → View → Type 0
History v [] u = Agrees u v
History v (ev ∷ evs) u = (m : View) × Does v ev m × History m evs u

-- A call of the store.
pub data Call (W : Type 0) : Type 0 where
  registers : Recipe W → Call W
  gets refreshes : String → Call W
  sweeps : ℕ → Call W

module _ {W : Type 0} (clock : W → ℕ × W) where
  abbrev pub perform : Call W → Store W → W → Event × Store W × W
  perform (registers r) s w = (registered r.identity, register r s, w)
  perform (gets id) s w = let (r, s', w') = get clock id s w in (got id r, s', w')
  perform (refreshes id) s w = let (r, s', w') = refresh clock id s w in (refreshed id r, s', w')
  perform (sweeps within) s w =
      let (errs, s', w') = refresh_expiring clock within s w in (swept errs, s', w')

  -- The calls one after another.
  unfoldable pub run_calls : List (Call W) → Store W → W → List Event × Store W × W
  run_calls [] s w = ([], s, w)
  run_calls (c ∷ cs) s w =
      let (ev, s1, w1) = perform c s w in
      let (evs, s2, w2) = run_calls cs s1 w1 in (ev ∷ evs, s2, w2)
