-- ===== src/Config.antt =====
-- internal/config/config.go: the checks of the configuration, and the recipes that it describes.
pub mod Each
pub mod Honest
pub mod Names
pub mod Unique
pub mod Secrets
pub mod Sample
mod Examples
use claviger.Prelude.{
  ℕ, String, Bool, true, false, not, ◌&&◌, ◌||◌, List, [], ◌∷◌, Option, none, some, Error,
  bad_config, bad_input, Result, ok, err, ◌>>=◌, ◌==◌, if◌then◌else◌,
}
use claviger.Prelude.Maps.{lookup, insert}
use claviger.Text.{contains}
use claviger.Effect.{Env, Client}
use claviger.Recipe.{LogoutSignature, Recipe}
use claviger.Httpx.{CertLib, TlsClientConfig}
use claviger.Httpx
use claviger.Recipe.Browser.{Browser, Chrome}
use claviger.Recipe.Browser.Returns.{browser_recipe}
use claviger.Prelude.Int.{ℤ}
use claviger.Recipe.Form.{FormPost, form_recipe}
use claviger.Recipe.Oauth.{OAuth2, oauth_recipe}
use claviger.Recipe.Flow.{FlowStep, CaptureSpec, ExtractRule, Readers}
use claviger.Recipe.Flow.Establish.{MultiStep, Jars, flow_recipe}

pub record TlsConfig : Type 0 where
  pub insecure : Bool
  pub ca_cert : String
  pub client_cert : String
  pub client_key : String

-- CaptureConfig; an ExtractConfig has the fields of an ExtractRule
pub record CaptureConfig : Type 0 where
  pub csrf : String
  pub bearer : Option ExtractRule
  pub bearer_local_storage : String

-- CSRFConfig
pub record CsrfConfig : Type 0 where
  pub fetch_url : String
  pub pattern : String
  pub header : String
  pub methods : List String

-- IdentityConfig. A StepConfig has the fields of a FlowStep, a LogoutConfig those of a
-- LogoutSignature.
pub record IdentityConfig : Type 0 where
  pub name : String
  pub kind : String
  pub login_url : String
  pub token_url : String
  pub username : String
  pub password : String
  pub password_file : String
  pub password_command : String
  pub tls : Option TlsConfig
  pub logout : LogoutSignature
  pub steps : List FlowStep
  pub capture : Option CaptureConfig
  pub csrf : Option CsrfConfig
  pub username_selector : String
  pub password_selector : String
  pub submit_selector : String
  pub success_url_contains : String
  pub success_selector : String
  pub headful : Bool

-- BackoffConfig; a window is in nanoseconds
pub record BackoffConfig : Type 0 where
  pub max_burst : ℤ
  pub window : ℤ

pub record Config : Type 0 where
  pub target : String
  pub tls : TlsConfig
  pub backoff : BackoffConfig
  pub identities : List IdentityConfig

-- What Recipes takes from outside: certificates, the client of a transport, url.Parse (scheme and
-- host), the browser, and what the recipes themselves take.
pub record Builder (W J P C : Type 0) : Type 0 where
  pub env : Env W
  pub read : Readers
  pub jars : Client W → Jars W J
  pub certs : CertLib P C
  pub dial : TlsClientConfig P C → Client W
  pub parse_url : String → Option (String × String)
  pub chrome : Chrome W

-- TLSConfig.ToHTTPX
unfoldable pub to_httpx : TlsConfig → Httpx.TlsConfig
to_httpx t = record {
  insecure_skip_verify = t.insecure;
  ca_cert_file = t.ca_cert;
  client_cert_file = t.client_cert;
  client_key_file = t.client_key;
}

-- The key under which a browser finds the bearer token.
abbrev pub bearer_storage : Option CaptureConfig → String
bearer_storage none = ""
bearer_storage (some c) = c.bearer_local_storage

-- The browser recipe of an identity under its effective TLS policy.
unfoldable pub browser_of : IdentityConfig → TlsConfig → Browser
browser_of id eff = record {
  id = id.name;
  login_url = id.login_url;
  username_selector = id.username_selector;
  password_selector = id.password_selector;
  submit_selector = id.submit_selector;
  success_url_contains = id.success_url_contains;
  success_selector = id.success_selector;
  headful = id.headful;
  insecure = eff.insecure;
  bearer_local_storage = bearer_storage id.capture;
  username = id.username;
  password = id.password;
  signature = id.logout;
}

-- &recipe.FormPost{...} and &recipe.OAuth2{...} of an identity
abbrev pub form_of : {W : Type 0} → IdentityConfig → Client W → FormPost W
form_of id client = record {
  id = id.name;
  login_url = id.login_url;
  username = id.username;
  password = id.password;
  user_field = "";
  pass_field = "";
  signature = id.logout;
  client = some client;
}

abbrev pub oauth_of : {W : Type 0} → IdentityConfig → Client W → OAuth2 W
oauth_of id client = record {
  id = id.name;
  token_url = id.token_url;
  username = id.username;
  password = id.password;
  signature = id.logout;
  client = some client;
}

-- `u.Scheme` is http or https, and there is a host
abbrev pub is_absolute : Option (String × String) → Bool
is_absolute none = false
is_absolute (some (scheme, host)) = ((scheme == "http") || (scheme == "https")) && not (host == "")

abbrev pub effective_tls : TlsConfig → Option TlsConfig → TlsConfig
effective_tls global none = global
effective_tls global (some own) = own

-- The CaptureSpec of a multi-step recipe.
abbrev pub capture_of : Option CaptureConfig → CaptureSpec
capture_of none = record { csrf = ""; bearer = none }
capture_of (some c) = record { csrf = c.csrf; bearer = c.bearer }

module _ {W J P C : Type 0} (lib : Builder W J P C) where
  -- validEndpoint
  unfoldable pub valid_endpoint : String → String → Result (Unit {0})
  valid_endpoint name endpoint =
      if is_absolute (lib.parse_url endpoint)
      then ok tt
      else err (bad_config name "login/token URL must be an absolute http(s) URL")

  -- The URL checks of the steps; a template is skipped.
  unfoldable pub valid_steps : String → List FlowStep → Result (Unit {0})
  valid_steps name [] = ok tt
  valid_steps name (step ∷ steps) =
      let rest = valid_steps name steps in
      if contains step.url "{{" then rest else valid_endpoint name step.url >>= λ _. rest

  -- buildMultiStep
  unfoldable pub build_multi_step : IdentityConfig → Result MultiStep
  build_multi_step id = elim id.steps [
    | [] ↦ err (bad_config id.name "multistep requires at least one step")
    | step ∷ steps ↦ valid_steps id.name (step ∷ steps) >>= λ _. ok (record {
      id = id.name;
      password = id.password;
      steps = step ∷ steps;
      capture = capture_of id.capture;
      signature = id.logout;
    })
  ]

  -- The switch on the type.
  unfoldable pub build_recipe : IdentityConfig → TlsConfig → Client W → Result (Recipe W)
  build_recipe id tls client =
      if id.kind == "form"
      then (valid_endpoint id.name id.login_url >>= λ _.
          ok (form_recipe lib.env (form_of id client)))
      else if id.kind == "oauth"
      then (valid_endpoint id.name id.token_url >>= λ _.
          ok (oauth_recipe lib.env (oauth_of id client)))
      else if id.kind == "multistep"
      then (build_multi_step id >>= λ r. ok (flow_recipe lib.env lib.read (lib.jars client) r))
      else if id.kind == "browser"
      then (valid_endpoint id.name id.login_url >>= λ _.
          ok (browser_recipe lib.chrome (browser_of id tls)))
      else err (bad_config id.name "unknown type")

  abbrev pub unless_taken {ℓ} : {A : Type ℓ} → String → Option A → Result (Unit {0})
  unless_taken name none = ok tt
  unless_taken name (some r) = err (bad_config name "duplicate identity name")

  -- The checks of a name: not empty, not reserved, not taken.
  unfoldable pub check_name : String → List (String × Recipe W) → Result (Unit {0})
  check_name name out =
      if name == ""
      then err (bad_input "identity with an empty name")
      else if name == "anon"
      then err (bad_config name "identity name is reserved")
      else unless_taken name (lookup name out)

  -- One round of the loop of Recipes.
  unfoldable pub add_identity :
      TlsConfig → IdentityConfig → List (String × Recipe W) → Result (List (String × Recipe W))
  add_identity global id out = check_name id.name out >>= λ _.
      Httpx.client lib.certs lib.dial (to_httpx (effective_tls global id.tls)) >>= λ client.
      build_recipe id (effective_tls global id.tls) client >>= λ r. ok (insert id.name r out)

  unfoldable pub add_identities :
      TlsConfig → List IdentityConfig → List (String × Recipe W) → Result (List (String × Recipe W))
  add_identities global [] out = ok out
  add_identities global (id ∷ ids) out =
      add_identity global id out >>= λ next. add_identities global ids next

  -- Config.Recipes
  unfoldable pub recipes : Config → Result (List (String × Recipe W))
  recipes c = add_identities c.tls c.identities []
