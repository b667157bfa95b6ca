-- ===== src/Gateway/Setup.antt =====
-- New and the options of internal/gateway/gateway.go.
use claviger.Prelude.{
  String, Bool, true, false, List, [], ◌∷◌, Option, none, some, Result, ok, ◌>>=◌,
}
use claviger.Httpx.{CertLib, TlsClientConfig, transport}
use claviger.Httpx
use claviger.Effect.{Env, Client}
use claviger.Recipe.{Recipe}
use claviger.Gateway.Host.{NetLib}
use claviger.Gateway.State.{Config, CsrfPolicy}

-- The target as url.Parse reads it: its paths, and the URL with other paths and query put in it.
pub record Target : Type 0 where
  pub path : String
  pub escaped_path : String
  pub render : String → String → String → String

-- What New takes from outside: `plain` is a client with the default transport, `dial` one with a
-- transport of its own; neither follows a redirect.
pub record Parts (W P C : Type 0) : Type 0 where
  pub env : Env W
  pub net : NetLib
  pub certs : CertLib P C
  pub plain : Client W
  pub dial : TlsClientConfig P C → Client W
  pub parse_target : String → Result Target

-- Option; the logger's is left out
pub data GatewayOption : Type 0 where
  with_tls : Httpx.TlsConfig → GatewayOption
  with_csrf : List (String × CsrfPolicy) → GatewayOption
  -- WithAudit, with whether the logger is there
  with_audit : Bool → GatewayOption

-- The fields that the options set.
pub record Chosen : Type 0 where
  pub tls_config : Option Httpx.TlsConfig
  pub csrf : List (String × CsrfPolicy)
  pub audit : Bool

abbrev pub none_chosen : Chosen
none_chosen = record { tls_config = none; csrf = []; audit = false }

abbrev choose : GatewayOption → Chosen → Chosen
choose (with_tls cfg) g = record g { tls_config = some cfg }
choose (with_csrf policies) g = record g { csrf = policies }
choose (with_audit true) g = record g { audit = true }
choose (with_audit false) g = g

-- The loop over the options.
unfoldable pub choose_all : List GatewayOption → Chosen → Chosen
choose_all [] g = g
choose_all (o ∷ opts) g = choose_all opts (choose o g)

module _ {W P C : Type 0} (parts : Parts W P C) where
  -- The client, with the transport of a configured TLS policy.
  abbrev pub gateway_client : Option Httpx.TlsConfig → Result (Client W)
  gateway_client none = ok parts.plain
  gateway_client (some cfg) = transport parts.certs cfg >>= λ t. ok (parts.dial t)

  -- New
  unfoldable pub new_gateway :
      List (String × Recipe W) → String → List GatewayOption → Result (Config W)
  new_gateway recipes target_base opts = parts.parse_target target_base >>= λ u.
      (let g = choose_all opts none_chosen in
        gateway_client g.tls_config >>= λ client. ok (record {
          env = parts.env;
          net = parts.net;
          client = client;
          recipes = recipes;
          policies = g.csrf;
          target_path = u.path;
          target_escaped_path = u.escaped_path;
          render = u.render;
          require_token = "";
          has_audit = g.audit;
        }))
