-- ===== src/Gateway/State.antt =====
-- The gateway's configuration and the state that its handlers share, of
-- internal/gateway/gateway.go. Log lines are not modelled; the audit records are.
use claviger.Prelude.{
  ℕ, ◌*◌, String, Bool, List, [], ◌∷◌, ◌++◌, Option, none, some, Result, ok, err,
}
use claviger.Http.{Request, Response}
use claviger.Http.Header
use claviger.Session.{Session}
use claviger.Effect.{Eff, Env, Client}
use claviger.Recipe.{Recipe}
use claviger.Recipe.Expiry.{second}
use claviger.Store.{Store}
use claviger.Store
use claviger.Gateway.Host.{NetLib}

-- csrfTTL
abbrev pub csrf_ttl : ℕ
csrf_ttl = 30 * second

-- CSRFPolicy; `find_submatch` is the compiled pattern's FindSubmatch, [] for no match
pub record CsrfPolicy : Type 0 where
  pub fetch_url : String
  pub header : String
  pub methods : List String
  pub find_submatch : String → List String

pub record CachedToken : Type 0 where
  pub value : String
  pub at : ℕ

-- A request as it arrives: the parts of its URL, and its body if it can be read.
pub record Incoming : Type 0 where
  pub method : String
  pub host : String
  pub path : String
  pub escaped_path : String
  pub raw_query : String
  pub header : Header.Header
  pub body : Result String

-- What New and the options fix. `render` is the target URL with its path, its raw path and its
-- query replaced, as url.URL.String writes it.
pub record Config (W : Type 0) : Type 0 where
  pub env : Env W
  pub net : NetLib
  pub client : Client W
  pub recipes : List (String × Recipe W)
  pub policies : List (String × CsrfPolicy)
  pub target_path : String
  pub target_escaped_path : String
  pub render : String → String → String → String
  pub require_token : String
  pub has_audit : Bool

pub record Audit : Type 0 where
  pub identity : String
  pub method : String
  pub path : String
  pub status : ℕ

-- What the gateway has asked its client to send.
pub data Sent : Type 0 where
  token_fetch : Request → Sent
  forwarded : Request → Sent

-- The shared state. `sent` is the record of all that went through the gateway's client.
pub record Live (W : Type 0) : Type 0 where
  pub store : Store W
  pub csrf_cache : List (String × CachedToken)
  pub world : W
  pub audits : List Audit
  pub sent : List Sent

module _ {W : Type 0} (cfg : Config W) where
  -- time.Now
  abbrev pub read_clock : Eff (Live W) ℕ
  read_clock g = let (t, w) = cfg.env.now g.world in (ok t, record g { world = w })

  -- g.store.Get
  unfoldable pub store_get : String → Eff (Live W) Session
  store_get id g =
      let (r, s, w) = Store.get cfg.env.now id g.store g.world in
      (r, record g { store = s; world = w })

  -- g.store.Refresh
  unfoldable pub store_refresh : String → Eff (Live W) (Option Session)
  store_refresh id g =
      let (r, s, w) = Store.refresh cfg.env.now id g.store g.world in
      (r, record g { store = s; world = w })

  -- http.NewRequestWithContext, without its request
  abbrev pub check_request : String → String → Eff (Live W) (Unit {0})
  check_request method url g = elim (cfg.env.request_error method url) [
    | none ↦ (ok tt, g)
    | some x ↦ (err x, g)
  ]

  -- g.client.Do and reading the body
  unfoldable pub send : (Request → Sent) → Request → Eff (Live W) Response
  send kind req g =
      let (r, w) = cfg.client req g.world in
      (r, record g { world = w; sent = g.sent ++ kind req ∷ [] })
