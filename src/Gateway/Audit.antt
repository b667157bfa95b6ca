-- ===== src/Gateway/Audit.antt =====
-- The audit records of serve in internal/gateway/gateway.go.
use mathlib.Core.List.{append-nil}
use claviger.Prelude.{
  String, ◌≡◌, refl, sym, Bool, List, [], ◌∷◌, ◌++◌, Option, Result, ok, err, arith, if◌then◌else◌,
}
use claviger.Http.{Response}
use claviger.Recipe.{Recipe}
use claviger.Gateway.State.{
  Config, Live, Incoming, Audit, CsrfPolicy, store_get, store_refresh, send,
}
use claviger.Gateway.Forward.{forward}
use claviger.Gateway.Still.{Blind, forward-Quiet, csrf_pair_quiet, recover_quiet}
use claviger.Gateway.Serve.{
  Reply, http_error, bad_gateway, relayed, csrf_pair, recover, respond, serve_admitted, serve,
}

-- The handler's parts write no audit record.
audits-Blind : {W : Type 0} (cfg : Config W) → Blind cfg (λ g. g.audits)
unfolding store_get store_refresh send
audits-Blind cfg = record {
  to_world = λ g w. refl;
  to_cache = λ g cache w. refl;
  to_get = λ id g. refl;
  to_refresh = λ id g. refl;
  to_send = λ kind req g. refl;
}

module _ {W : Type 0} (cfg : Config W) where
  recover_audits :
      (rec : Option (Recipe W)) (r : Incoming) (body id : String) (csrf : String × String)
      (resp : Response) (g : Live W)
      → (recover cfg rec r body id csrf resp g).1.audits ≡ g.audits
  recover_audits = recover_quiet cfg (λ g. g.audits) (audits-Blind cfg)

  forward_audits :
      (r : Incoming) (body id : String) (b : Bool) (h t : String) (g : Live W)
      → (forward cfg r body id b h t g).1.audits ≡ g.audits
  forward_audits = forward-Quiet cfg (λ g. g.audits) (audits-Blind cfg)

  csrf_pair_audits :
      (pol : Option CsrfPolicy) (id : String) (old : String × String) (g : Live W)
      → (csrf_pair cfg pol id old g).1.audits ≡ g.audits
  csrf_pair_audits = csrf_pair_quiet cfg (λ g. g.audits) (audits-Blind cfg)

  -- The records that a reply calls for.
  abbrev pub records : String → Incoming → Reply → List Audit
  records id r (http_error status message) = []
  records id r (bad_gateway prefix x) = []
  records id r (relayed status header body) =
      if cfg.has_audit
      then record { identity = id; method = r.method; path = r.path; status = status } ∷ []
      else []

  respond_audits :
      (rec : Option (Recipe W)) (r : Incoming) (body id : String) (csrf : String × String)
      (out : Result Response × Live W)
      → (respond cfg rec r body id csrf out).1.audits
        ≡ out.1.audits ++ records id r (respond cfg rec r body id csrf out).0
  unfolding respond
  respond_audits rec r body id csrf (err x, g) = sym (append-nil g.audits)
  respond_audits rec r body id csrf (ok resp, g) = grind (arith, recover_audits, append-nil)

  admitted_audits :
      (rec : Option (Recipe W)) (r : Incoming) (body id : String) (g : Live W)
      → (serve_admitted cfg rec r body id g).1.audits
        ≡ g.audits ++ records id r (serve_admitted cfg rec r body id g).0
  unfolding serve_admitted
  admitted_audits rec r body id g = grind (arith, respond_audits, forward_audits, csrf_pair_audits)

  -- With an audit log, a request whose upstream response is relayed leaves one record, of the
  -- identity, the request's method and path, and the very status that the client gets, whether or
  -- not the request was sent again under a new session. Without one, or when the gateway answers
  -- with an error of its own, no record is written.
  pub serve-audits :
      (id : String) (r : Incoming) (g : Live W)
      → (serve cfg id r g).1.audits ≡ g.audits ++ records id r (serve cfg id r g).0
  unfolding serve
  serve-audits id r g = grind (arith, admitted_audits, append-nil)
