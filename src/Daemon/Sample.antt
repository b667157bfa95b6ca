-- ===== src/Daemon/Sample.antt =====
-- A daemon on the configuration of Config/Sample, with a gateway token.
use claviger.Prelude.{ℕ, String, ◌≡◌, refl, true, false, [], ◌∷◌, none, some, ok}
use claviger.Prelude.Int.{pos}
use claviger.Prelude.Maps.{lookup, insert}
use claviger.Recipe.{Recipe}
use claviger.Recipe.Form.{form_recipe}
use claviger.Store.{Store, entry_of, put_entry, register, health_of}
use claviger.Store
use claviger.Store.Entry.{Entry, new_entry}
use claviger.Httpx.{transport, root_cas, client_certs}
use claviger.Httpx
use claviger.Config.{
  valid_endpoint, build_recipe, check_name, add_identity, add_identities, recipes, to_httpx,
}
use claviger.Config.Secrets.{
  load, check_config, resolve_secrets, resolve_password, expand_env, expand_pieces,
}
use claviger.Config.Sample.{client, env, files, lib, alice, sources, resolved}
use claviger.Gateway.Host.{NetLib}
use claviger.Gateway.State.{CsrfPolicy, Live, Incoming}
use claviger.Gateway.State
use claviger.Gateway.Alone.{Like}
use claviger.Gateway.Setup.{Parts, choose_all, new_gateway}
use claviger.Daemon.Flags.{
  TlsFlags, warn_if_insecure, warn_if_plaintext_auth, apply_tls_flags, insecure_identities,
  plaintext_warnings, template_warnings, endpoint_warnings, step_endpoints, override_tls,
}
use claviger.Daemon.Startup.{Built, build_store, register_all, build_csrf_policies}
use claviger.Daemon.Run.{
  Machine, Flags, Prepared, level_info, parse_log_level, choose_socket, effective_token,
  audit_option, prepare,
}

-- Only --insecure is given.
abbrev pub flags : TlsFlags
flags = record {
  insecure = true;
  insecure_set = true;
  ca_cert = "";
  ca_cert_set = false;
  client_cert = "";
  client_cert_set = false;
  client_key = "";
  client_key_set = false;
}

abbrev pub no_flags : TlsFlags
no_flags = record flags { insecure_set = false }

-- Alice with the password that her reference stands for.
abbrev pub recipe : Recipe ℕ
recipe = form_recipe env (record {
  id = "alice";
  login_url = "https://t/login";
  username = "alice";
  password = "p-secret";
  user_field = "";
  pass_field = "";
  signature = alice.logout;
  client = some client;
})

abbrev pub built : Built ℕ
built = record {
  store = record {
    entries = ("alice", new_entry recipe) ∷ [];
    max_burst = 10;
    window = 60000000000;
  };
  recipes = ("alice", recipe) ∷ [];
  config = resolved;
}

abbrev pub machine : Machine
machine = record {
  runtime_dir = "/run/user/1";
  home_dir = ok "/home/a";
  join = λ dir name. dir;
  make_parent = λ path. ok tt;
  open_append = λ path. ok tt;
  random_hex = ok "00";
  compile = λ pattern. ok (λ body. []);
}

abbrev pub flags_with_token : Flags
flags_with_token = record {
  config = "claviger.yaml";
  socket = "/tmp/s";
  gateway_token = "secret";
  log_level = "info";
  audit_log = "";
  base_port = pos 8888;
  tls = no_flags;
}

abbrev pub host : NetLib
host = record { split_host_port = λ h. none; is_loopback_ip = λ h. false; url_host = λ u. some u }

abbrev pub parts : Parts ℕ String String
parts = record {
  env = env;
  net = host;
  certs = files;
  plain = client;
  dial = λ t. client;
  parse_target = λ u. ok (record { path = ""; escaped_path = ""; render = λ p e q. p });
}

abbrev pub gateway : State.Config ℕ
gateway = record {
  env = env;
  net = host;
  client = client;
  recipes = built.recipes;
  policies = [];
  target_path = "";
  target_escaped_path = "";
  render = λ p e q. p;
  require_token = "secret";
  has_audit = false;
}

abbrev pub prepared : Prepared ℕ
prepared = record {
  gateway = gateway;
  store = built.store;
  socket = "/tmp/s";
  level = level_info;
  warnings = [];
}

abbrev pub request : Incoming
request = record {
  method = "GET";
  host = "localhost";
  path = "/";
  escaped_path = "/";
  raw_query = "";
  header = [];
  body = ok "";
}

abbrev pub start : Live ℕ
start = record { store = built.store; csrf_cache = []; world = 0; audits = []; sent = [] }

pub is_prepared : prepare machine sources lib parts flags_with_token ≡ ok prepared
unfolding prepare parse_log_level build_store load check_config resolve_secrets resolve_password
    expand_env expand_pieces apply_tls_flags override_tls recipes add_identities add_identity
    check_name build_recipe Httpx.client transport root_cas client_certs to_httpx valid_endpoint
    lookup insert register_all register put_entry Store.new choose_socket build_csrf_policies
    audit_option new_gateway choose_all effective_token warn_if_insecure warn_if_plaintext_auth
    form_recipe insecure_identities plaintext_warnings template_warnings endpoint_warnings
    step_endpoints
is_prepared = refl

abbrev bob_entry : Entry ℕ
bob_entry = record (new_entry (record recipe { identity = "bob" })) {
  session = some (record {
    addr = 0;
    obj = record {
      identity = "bob";
      cookies = [];
      bearer_token = "of_bob";
      refresh_token = "";
      csrf = "";
      headers = [];
      expires_at = 0;
    };
  });
  allocs = 1;
}

-- The same to alice, with a session and a token of bob before hers.
abbrev pub with_bob : Live ℕ → Live ℕ
with_bob g = record g {
  store = record g.store { entries = ("bob", bob_entry) ∷ g.store.entries };
  csrf_cache = ("bob", record { value = "bobs"; at = 0 }) ∷ g.csrf_cache;
}

pub with_bob-Like : (g : Live ℕ) → Like "alice" g (with_bob g)
unfolding entry_of lookup
with_bob-Like g = record {
  entry = refl;
  burst = refl;
  window = refl;
  token = refl;
  world = refl;
  audits = refl;
  sent = refl;
}
