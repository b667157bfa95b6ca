-- ===== src/Gateway/Serve.antt =====
-- The handler: serve of internal/gateway/gateway.go.
pub mod Guards
pub mod Traffic
pub mod Held
pub mod Reauth
use claviger.Prelude.Maps.{lookup}
use claviger.Prelude.{
  ℕ, String, Bool, true, false, not, ◌&&◌, [], ◌∷◌, ◌++◌, Option, none, some, Error, Result, ok,
  err, ◌==◌, if◌then◌else◌,
}
use claviger.Http.{Response}
use claviger.Http.Header
use claviger.Recipe.{Recipe, matches}
use claviger.Gateway.Host.{NetLib, is_loopback_host}
use claviger.Gateway.Retry.{is_idempotent}
use claviger.Gateway.Headers.{copy_header}
use claviger.Gateway.State.{Config, Live, Incoming, CsrfPolicy, store_refresh}
use claviger.Gateway.Csrf.{covers, csrf_token_for, invalidate_csrf}
use claviger.Gateway.Forward.{forward}

-- What the handler writes: http.Error, or the upstream's response.
pub data Reply : Type 0 where
  http_error : ℕ → String → Reply
  -- 502 with a prefix and the text of the error
  bad_gateway : String → Error → Reply
  relayed : ℕ → Header.Header → String → Reply

-- `url.Parse` fails, or the host is not loopback
abbrev pub foreign_origin : NetLib → Option String → Bool
foreign_origin net none = true
foreign_origin net (some host) = not (is_loopback_host net host)

-- The text of the 403 of the first of the four guards that refuses; `none` lets the request in.
unfoldable pub refusal : {W : Type 0} → Config W → Incoming → Option String
refusal cfg r =
    let origin = Header.get r.header "Origin" in
    let site = Header.get r.header "Sec-Fetch-Site" in
    if not (is_loopback_host cfg.net r.host)
    then some "forbidden: unexpected Host header"
    else if not (origin == "") && foreign_origin cfg.net (cfg.net.url_host origin)
    then some "forbidden: cross-origin request"
    else if not (site == "") && not (site == "same-origin") && not (site == "none")
    then some "forbidden: cross-site request"
    else if not (cfg.require_token == "")
        && not (Header.get r.header "X-Claviger-Token" == cfg.require_token)
    then some "forbidden: missing or invalid gateway token"
    else none

-- The policy that covers the request, if the identity has one.
unfoldable pub policy_for : {W : Type 0} → Config W → String → String → Option CsrfPolicy
policy_for cfg id method = elim (lookup id cfg.policies) [
  | none ↦ none
  | some pol ↦ if covers pol method then some pol else none
]

module _ {W : Type 0} (cfg : Config W) where
  abbrev pub with_token :
      CsrfPolicy → String × String → Result String × Live W → (String × String) × Live W
  with_token pol old (ok token, g) = ((pol.header, token), g)
  with_token pol old (err x, g) = (old, g)

  -- The header and token to inject; a failure to get one keeps the old pair.
  unfoldable pub csrf_pair :
      Option CsrfPolicy → String → String × String → Live W → (String × String) × Live W
  csrf_pair none id old g = (old, g)
  csrf_pair (some pol) id old g = with_token pol old (csrf_token_for cfg id pol g)

  abbrev pub or_first : Response → Result Response × Live W → Response × Live W
  or_first resp (ok again, g) = (again, g)
  or_first resp (err x, g) = (resp, g)

  -- The replay after a successful reauth, for an idempotent method.
  unfoldable pub replay :
      Incoming → String → String → String × String → Response → Live W → Response × Live W
  replay r body id csrf resp g =
      if is_idempotent r.method
      then (let (again, g') = csrf_pair (policy_for cfg id r.method) id csrf g in
          or_first resp (forward cfg r body id true again.0 again.1 g'))
      else (resp, g)

  abbrev pub after_refresh {ℓ} :
      {A : Type ℓ}
      → Incoming
      → String
      → String
      → String × String
      → Response
      → Result A × Live W
      → Response × Live W
  after_refresh r body id csrf resp (err x, g) = (resp, g)
  after_refresh r body id csrf resp (ok s, g) = replay r body id csrf resp (invalidate_csrf id g)

  -- The reauth branch: a response of a managed identity that looks logged out.
  unfoldable pub recover :
      Option (Recipe W)
      → Incoming
      → String
      → String
      → String × String
      → Response
      → Live W
      → Response × Live W
  recover none r body id csrf resp g = (resp, g)
  recover (some rec) r body id csrf resp g =
      if matches rec.logout resp
      then after_refresh r body id csrf resp (store_refresh cfg id g)
      else (resp, g)

  abbrev pub audit : Incoming → String → Response → Live W → Live W
  audit r id resp g =
      if cfg.has_audit
      then record g {
        audits =
            g.audits
            ++ record { identity = id; method = r.method; path = r.path; status = resp.status }
              ∷ [];
      }
      else g

  -- copyHeader, WriteHeader and Write on the response writer
  abbrev pub relay : Response → Reply
  relay resp = relayed resp.status (copy_header [] resp.header) resp.body

  unfoldable pub respond :
      Option (Recipe W)
      → Incoming
      → String
      → String
      → String × String
      → Result Response × Live W
      → Reply × Live W
  respond rec r body id csrf (err x, g) = (bad_gateway "forward: " x, g)
  respond rec r body id csrf (ok resp, g) =
      let (last, g') = recover rec r body id csrf resp g in (relay last, audit r id last g')

  abbrev pub is_managed : Option (Recipe W) → Bool
  is_managed none = false
  is_managed (some rec) = true

  abbrev pub policy_if_managed : Option (Recipe W) → String → String → Option CsrfPolicy
  policy_if_managed none id method = none
  policy_if_managed (some rec) id method = policy_for cfg id method

  -- The handler once the guards have let the request in and its body is read.
  unfoldable pub serve_admitted :
      Option (Recipe W) → Incoming → String → String → Live W → Reply × Live W
  serve_admitted rec r body id g =
      let (csrf, g1) = csrf_pair (policy_if_managed rec id r.method) id ("", "") g in
      respond rec r body id csrf (forward cfg r body id (is_managed rec) csrf.0 csrf.1 g1)

  abbrev pub serve_body : Incoming → String → Result String → Live W → Reply × Live W
  serve_body r id (err x) g = (bad_gateway "read body: " x, g)
  serve_body r id (ok body) g = serve_admitted (lookup id cfg.recipes) r body id g

  -- serve
  unfoldable pub serve : String → Incoming → Live W → Reply × Live W
  serve id r g = elim (refusal cfg r) [
    | some message ↦ (http_error 403 message, g)
    | none ↦ serve_body r id r.body g
  ]
