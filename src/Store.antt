-- ===== src/Store.antt =====
-- internal/store/store.go: the store of sessions. An operation takes the entries and the world,
-- and gives back both. The critical section of an identity runs without interruption here;
-- Store/Flight has the interleavings.
pub mod Entry
pub mod Backoff
pub mod Flight
pub mod Get
pub mod Frame
pub mod Owned
pub mod Contract
pub mod Refines
pub mod Sweep
pub mod Order
pub mod Roster
mod Examples
use Prim.Native.Nat.{Ordering}
use Prim.Native.String.{compare}
use claviger.Prelude.{
  ℕ, ◌+◌, ◌*◌, String, Bool, true, false, not, ◌||◌, List, [], ◌∷◌, ◌++◌, Option, none, some, Error,
  Result, ok, err, unknown_identity, ltb, ◌==◌, if◌then◌else◌,
}
use claviger.Session.{Session, expired, is_zero}
use claviger.Effect.{Eff}
use claviger.Recipe.{Recipe}
use claviger.Recipe.Expiry.{second}
use Entry.{Ref, new_entry, commit, fail, rate_limited, differs, finish, object}
use Entry

pub record Store (W : Type 0) : Type 0 where
  pub entries : List (String × Entry.Entry W)
  pub max_burst : ℕ
  pub window : ℕ

-- WithBackoff on the defaults of New: a value that is not positive keeps the default.
unfoldable pub new : {W : Type 0} → ℕ → ℕ → Store W
new max_burst window = record {
  entries = [];
  max_burst = if ltb 0 max_burst then max_burst else 10;
  window = if ltb 0 window then window else 60 * second;
}

-- s.entries[id]
unfoldable pub entry_of :
    {W : Type 0} → String → List (String × Entry.Entry W) → Option (Entry.Entry W)
entry_of id [] = none
entry_of id ((j, e) ∷ es) = if j == id then some e else entry_of id es

-- s.entries[id] = e
unfoldable pub put_entry :
    {W : Type 0}
    → String
    → Entry.Entry W
    → List (String × Entry.Entry W)
    → List (String × Entry.Entry W)
put_entry id e [] = (id, e) ∷ []
put_entry id e ((j, f) ∷ es) = if j == id then (j, e) ∷ es else (j, f) ∷ put_entry id e es

-- Store.Register
unfoldable pub register : {W : Type 0} → Recipe W → Store W → Store W
unfolding new_entry put_entry
register r s = record s { entries = put_entry r.identity (new_entry r) s.entries }

-- sort.Strings, as insertion by Go's order of strings
unfoldable pub insert_name : String → List String → List String
insert_name x [] = x ∷ []
insert_name x (y ∷ ys) = elim (compare x y) [ Ordering.gt ↦ y ∷ insert_name x ys | _ ↦ x ∷ y ∷ ys ]

unfoldable pub sort_names : List String → List String
unfolding insert_name
sort_names [] = []
sort_names (x ∷ xs) = insert_name x (sort_names xs)

abbrev pub keys : {W : Type 0} → List (String × Entry.Entry W) → List String
keys [] = []
keys ((j, e) ∷ es) = j ∷ keys es

-- Store.Identities
unfoldable pub identities : {W : Type 0} → Store W → List String
unfolding sort_names
identities s = sort_names (keys s.entries)

pub record IdentityHealth : Type 0 where
  pub name : String
  pub established : Bool
  pub expires_at : ℕ
  pub last_refresh : ℕ
  pub last_error : Option Error

unfoldable pub health_of : {W : Type 0} → String → Entry.Entry W → IdentityHealth
health_of id e = record {
  name = id;
  established = elim e.session [ none ↦ false | some r ↦ true ];
  expires_at = elim e.session [ none ↦ 0 | some r ↦ r.obj.expires_at ];
  last_refresh = e.last_auth;
  last_error = e.last_err;
}

abbrev add_health :
    {W : Type 0} → String → Option (Entry.Entry W) → List IdentityHealth → List IdentityHealth
add_health id none hs = hs
add_health id (some e) hs = health_of id e ∷ hs

unfoldable pub health_rows :
    {W : Type 0} → List (String × Entry.Entry W) → List String → List IdentityHealth
unfolding health_of entry_of
health_rows es [] = []
health_rows es (id ∷ ids) = add_health id (entry_of id es) (health_rows es ids)

-- Store.Health
unfoldable pub health : {W : Type 0} → Store W → List IdentityHealth
unfolding health_rows identities
health s = health_rows s.entries (identities s)

-- errs[id] = err
abbrev pub note_error {ℓ} :
    {A : Type ℓ} → String → Result A → List (String × Error) → List (String × Error)
note_error id (ok _) errs = errs
note_error id (err x) errs = errs ++ (id, x) ∷ []

module _ {W : Type 0} (clock : W → ℕ × W) where
  -- `sess != nil && !sess.Expired(time.Now())`; the clock is read only if there is a session.
  unfoldable pub live : Option Ref → W → Option Session × W
  unfolding expired
  live none w = (none, w)
  live (some r) w = let (t, w') = clock w in (if expired r.obj t then none else some r.obj, w')

  -- The session of a login, committed at the time after it, or its error recorded.
  unfoldable pub settle : Result Session → Entry.Entry W → W → Result Session × Entry.Entry W × W
  unfolding commit fail
  settle (ok s) e w = let (t, w') = clock w in (ok s, commit s t e, w')
  settle (err x) e w = (err x, fail x e, w)

  -- The refresh that Get makes once the limiter has let it through.
  unfoldable pub renew :
      Ref → Result (Unit {0}) × Entry.Entry W → W → Result Session × Entry.Entry W × W
  unfolding settle
  renew cur (err x, e) w = (err x, e, w)
  renew cur (ok _, e) w = let (r, w') = e.recipe.refresh (some cur.obj) w in settle r e w'

  -- The rest of Get for an entry with no live session: establish on first use, else refresh.
  unfoldable pub login : ℕ → ℕ → Option Ref → Entry.Entry W → W → Result Session × Entry.Entry W × W
  unfolding settle renew rate_limited
  login max_burst window none e w = let (r, w') = e.recipe.establish w in settle r e w'
  login max_burst window (some cur) e w =
      let (t, w') = clock w in renew cur (rate_limited max_burst window t e) w'

  abbrev unless_live :
      Option Session × W
      → (W → Result Session × Entry.Entry W × W)
      → Entry.Entry W
      → Result Session × Entry.Entry W × W
  unless_live (some s, w) k e = (ok s, e, w)
  unless_live (none, w) k e = k w

  -- Store.Get on the entry: the fast path, the same check under the lock, and the login.
  unfoldable pub get_entry : ℕ → ℕ → Entry.Entry W → W → Result Session × Entry.Entry W × W
  unfolding live login
  get_entry max_burst window e w =
      unless_live (live e.session w)
        (λ w1. unless_live (live e.session w1) (λ w2. login max_burst window e.session e w2) e) e

  -- The rest of Refresh once the limiter has let it through.
  unfoldable pub refresh_with :
      Option Ref → Result Session → Entry.Entry W → W → Result (Option Session) × Entry.Entry W × W
  unfolding finish
  refresh_with before (ok s) e w =
      let (t, w') = clock w in (ok (some s), finish before (ok s) t e, w')
  refresh_with before (err x) e w = (err x, finish before (err x) 0 e, w)

  unfoldable pub refresh_limited :
      Option Ref
      → Result (Unit {0}) × Entry.Entry W
      → W
      → Result (Option Session) × Entry.Entry W × W
  unfolding refresh_with
  refresh_limited before (err x, e) w = (err x, e, w)
  refresh_limited before (ok _, e) w =
      let (r, w') = e.recipe.refresh (object before) w in refresh_with before r e w'

  -- Store.Refresh on the entry, with the pointer `before` that the caller took: adopt what another
  -- caller has put in its place, or renew it under the limiter.
  unfoldable pub refresh_entry :
      ℕ → ℕ → Option Ref → Entry.Entry W → W → Result (Option Session) × Entry.Entry W × W
  unfolding differs rate_limited refresh_limited
  refresh_entry max_burst window before e w =
      if differs e.session before
      then (ok (object e.session), e, w)
      else (let (t, w') = clock w in refresh_limited before (rate_limited max_burst window t e) w')

  -- Store.Get
  unfoldable pub get : String → Store W → W → Result Session × Store W × W
  unfolding entry_of get_entry put_entry
  get id s w = elim (entry_of id s.entries) [
    | none ↦ (err (unknown_identity id), s, w)
    | some e ↦
        let (r, e', w') = get_entry s.max_burst s.window e w in
        (r, record s { entries = put_entry id e' s.entries }, w')
  ]

  -- Store.Refresh
  unfoldable pub refresh : String → Store W → W → Result (Option Session) × Store W × W
  unfolding entry_of refresh_entry put_entry
  refresh id s w = elim (entry_of id s.entries) [
    | none ↦ (err (unknown_identity id), s, w)
    | some e ↦
        let (r, e', w') = refresh_entry s.max_burst s.window e.session e w in
        (r, record s { entries = put_entry id e' s.entries }, w')
  ]

  -- One round of the loop of RefreshExpiring, with the errors so far.
  unfoldable pub refresh_if_due :
      ℕ
      → ℕ
      → IdentityHealth
      → List (String × Error)
      → Store W
      → W
      → List (String × Error) × Store W × W
  unfolding refresh
  refresh_if_due now within h errs s w =
      if not h.established || is_zero h.expires_at
      then (errs, s, w)
      else if ltb h.expires_at (now + within)
      then (let (r, s', w') = refresh h.name s w in (note_error h.name r errs, s', w'))
      else (errs, s, w)

  unfoldable pub refresh_due :
      ℕ
      → ℕ
      → List IdentityHealth
      → List (String × Error)
      → Store W
      → W
      → List (String × Error) × Store W × W
  unfolding refresh_if_due
  refresh_due now within [] errs s w = (errs, s, w)
  refresh_due now within (h ∷ hs) errs s w =
      let (errs', s', w') = refresh_if_due now within h errs s w in
      refresh_due now within hs errs' s' w'

  -- Store.RefreshExpiring
  unfoldable pub refresh_expiring : ℕ → Store W → W → List (String × Error) × Store W × W
  unfolding refresh_due health
  refresh_expiring within s w = let (now, w') = clock w in refresh_due now within (health s) [] s w'
