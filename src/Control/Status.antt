-- ===== src/Control/Status.antt =====
-- The status view: the /status handler of internal/control/server.go, Client.Status, and the state
-- that cmd/status.go derives.
use claviger.Prelude.{
  ℕ, ◌+◌, ◌*◌, ◌/◌, String, Bool, true, false, not, ◌≡◌, List, [], ◌∷◌, Option, none, some, Error,
  arith, leb, ltb, ◌==◌, if◌then◌else◌,
}
use claviger.Session.{expired, is_zero}
use claviger.Recipe.Expiry.{second}
use claviger.Store.Entry.{Entry, Ref}
use claviger.Store.{Store, IdentityHealth, health, health_of}

-- IdentityStatus, with the error in place of its text
pub record IdentityStatus : Type 0 where
  pub name : String
  pub established : Bool
  pub expires_at : String
  pub last_refresh : String
  pub last_error : Option Error

-- time.Format and time.Parse for RFC3339
pub record Rfc3339 : Type 0 where
  pub format : ℕ → String
  pub parse : String → Option ℕ

abbrev pub time_text : Rfc3339 → ℕ → String
time_text rfc t = if is_zero t then "" else rfc.format t

-- One row of the /status reply.
unfoldable pub status_of : Rfc3339 → IdentityHealth → IdentityStatus
status_of rfc h = record {
  name = h.name;
  established = h.established;
  expires_at = time_text rfc h.expires_at;
  last_refresh = time_text rfc h.last_refresh;
  last_error = h.last_error;
}

unfoldable pub status_rows : Rfc3339 → List IdentityHealth → List IdentityStatus
status_rows rfc [] = []
status_rows rfc (h ∷ hs) = status_of rfc h ∷ status_rows rfc hs

-- The handler of /status
unfoldable pub status_handler : {W : Type 0} → Rfc3339 → Store W → List IdentityStatus
status_handler rfc s = status_rows rfc (health s)

abbrev pub state_at : ℕ → Option ℕ → String
state_at now none = "live"
state_at now (some t) =
    if leb t now then "EXPIRED" else if ltb t (now + 60 * second) then "expiring" else "live"

-- deriveState, less the color
unfoldable pub derive_state : Rfc3339 → IdentityStatus → ℕ → String
derive_state rfc s now =
    if not s.established
    then "no-session"
    else if s.expires_at == ""
    then "live"
    else state_at now (rfc.parse s.expires_at)

-- A session that has expired is shown as EXPIRED, and never as live, although the view has its
-- expiry only to the second: for a time that is formatted to a text that is not empty, and parsed
-- back to its whole seconds.
pub derive_state-expired :
    {W : Type 0} (rfc : Rfc3339) (id : String) (e : Entry W) (r : Ref) (now : ℕ)
    → e.session ≡ some r
    → expired r.obj now ≡ true
    → (rfc.format r.obj.expires_at == "") ≡ false
    → rfc.parse (rfc.format r.obj.expires_at) ≡ some (r.obj.expires_at / second * second)
    → derive_state rfc (status_of rfc (health_of id e)) now ≡ "EXPIRED"
unfolding derive_state status_of health_of expired
derive_state-expired rfc id e r now held old shown parsed =
    rw held (ground (arith, old, shown, parsed))
