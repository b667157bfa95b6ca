-- ===== src/Gateway/Serve/Guards.antt =====
-- The guards of serve in internal/gateway/gateway.go: what a request must be to have any effect.
use claviger.Prelude.{String, ◌≡◌, true, none, some, ◌⊎◌, inl, inr, arith, eq_iff, Option-cases}
use claviger.Http.Header
use claviger.Gateway.Host.{is_loopback_host}
use claviger.Gateway.State.{Config, Live, Incoming}
use claviger.Gateway.Serve.{http_error, refusal, serve}

-- A request that a local tool may have made: it names a loopback host, it comes from no page or
-- from a loopback one, its fetch metadata is absent, same-origin or none, and it has the gateway's
-- token if one is required.
pub record IsLocal {W : Type 0} (cfg : Config W) (r : Incoming) : Type 0 where
  pub host : is_loopback_host cfg.net r.host ≡ true
  pub origin :
      (Header.get r.header "Origin" ≡ "")
      ⊎ ((h : String) × (cfg.net.url_host (Header.get r.header "Origin") ≡ some h)
          × (is_loopback_host cfg.net h ≡ true))
  pub site :
      (Header.get r.header "Sec-Fetch-Site" ≡ "")
      ⊎ (Header.get r.header "Sec-Fetch-Site" ≡ "same-origin")
      ⊎ (Header.get r.header "Sec-Fetch-Site" ≡ "none")
  pub token :
      (cfg.require_token ≡ "") ⊎ (Header.get r.header "X-Claviger-Token" ≡ cfg.require_token)

module _ {W : Type 0} (cfg : Config W) (r : Incoming) where
  refusal-IsLocal : refusal cfg r ≡ none → IsLocal cfg r
  unfolding refusal
  refusal-IsLocal h = record {
    host = ground arith;
    origin = ground (arith, eq_iff (Header.get r.header "Origin") "");
    site = ground (
      arith,
      eq_iff (Header.get r.header "Sec-Fetch-Site") "",
      eq_iff (Header.get r.header "Sec-Fetch-Site") "same-origin",
      eq_iff (Header.get r.header "Sec-Fetch-Site") "none",
    );
    token = ground (
      arith,
      eq_iff cfg.require_token "",
      eq_iff (Header.get r.header "X-Claviger-Token") cfg.require_token,
    );
  }

  IsLocal-refusal : IsLocal cfg r → refusal cfg r ≡ none
  unfolding refusal
  IsLocal-refusal h = ground (
    arith,
    eq_iff (Header.get r.header "Origin") "",
    eq_iff (Header.get r.header "Sec-Fetch-Site") "",
    eq_iff (Header.get r.header "Sec-Fetch-Site") "same-origin",
    eq_iff (Header.get r.header "Sec-Fetch-Site") "none",
    eq_iff cfg.require_token "",
    eq_iff (Header.get r.header "X-Claviger-Token") cfg.require_token,
  )

  -- A request that is not local is refused with 403 and changes nothing: no session is looked up,
  -- and nothing is sent.
  pub serve_refuses :
      (id : String) (g : Live W)
      → ¬ IsLocal cfg r
      → (message : String) × (serve cfg id r g ≡ (http_error 403 message, g))
  unfolding serve
  serve_refuses id g foreign = elim (Option-cases (refusal cfg r)) [
    | inl passed ↦ absurd (foreign (refusal-IsLocal passed))
    | inr (message, e) ↦ (message, rw (e, serve))
  ]
