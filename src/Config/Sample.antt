-- ===== src/Config/Sample.antt =====
-- A configuration of one form identity, and a system around it.
use claviger.Prelude.{
  ◌≡◌, Result, ◌≤◌, ℕ, arith, String, false, [], ◌∷◌, none, some, ok, err, external,
}
use claviger.Prelude.Int.{pos}
use claviger.Http.{Response}
use claviger.Effect.{Env, Client}
use claviger.Recipe.{Recipe}
use claviger.Recipe.Form.{form_recipe}
use claviger.Recipe.Flow.{no_fields}
use claviger.Httpx.{CertLib}
use claviger.Recipe.Browser.{Chrome}
use claviger.Config.{Config, TlsConfig, IdentityConfig, Builder}
use claviger.Config.Secrets.{literal, reference, Sources}

abbrev pub page : Response
page = record {
  status = 200;
  header = [];
  cookies = record { name = "sid"; value = "1" } ∷ [];
  body = "";
}

abbrev pub client : {W : Type 0} → Client W
client req w = (ok page, w)

abbrev pub env : {W : Type 0} → Env W
env = record {
  now = λ w. (0, w);
  default_client = client;
  request_error = λ m u. none;
  encode_form = λ form. "form";
  cookie_pair = λ c. c.name;
  decode_token =
      λ body. (record { access_token = ""; refresh_token = ""; expires_in = pos 60 }, none);
}

pub gone_late : (href : String) → ◌≡◌ {A = Result String} (err (external "gone")) (ok href) → 1 ≤ 0
gone_late href e = cc

-- A browser that is not there.
abbrev pub chrome : {W : Type 0} → Chrome W
chrome = record {
  override = "";
  is_program = λ path. false;
  look_path = λ name. none;
  start = λ l w. w;
  close = λ w. w;
  act = λ a w. (ok tt, w);
  location = λ w. (err (external "gone"), w);
  cookies = λ w. (ok [], w);
  storage_item = λ key w. (ok none, w);
  pause = λ w. (some (external "gone"), w);
  left = λ w. 0;
  left-start = λ l w. omega arith;
  left-act = λ a w. omega arith;
  left-location = λ w. omega arith;
  location-late = λ w href e. gone_late href e;
  left-pause = λ w e. omega arith;
}

abbrev pub files : CertLib String String
files = record {
  system_pool = some "system";
  new_pool = "";
  read_file = λ path. ok path;
  append_certs = λ pool pem. some pem;
  load_pair = λ cert key. ok cert;
}

abbrev pub lib : {W : Type 0} → Builder W ℕ String String
lib = record {
  env = env;
  read = record { find_submatch = λ p b. ok none; decode_object = λ b. ok no_fields };
  jars = λ c. record {
    new_jar = ok 0;
    send_with = λ req s. (ok page, s);
    cookies_for = λ jar url. ok [];
  };
  certs = files;
  dial = λ t. client;
  parse_url = λ url. some ("https", "t");
  chrome = chrome;
}

abbrev pub tls : TlsConfig
tls = record { insecure = false; ca_cert = ""; client_cert = ""; client_key = "" }

abbrev pub alice : IdentityConfig
alice = record {
  name = "alice";
  kind = "form";
  login_url = "https://t/login";
  token_url = "";
  username = "alice";
  password = "pw";
  password_file = "";
  password_command = "";
  tls = none;
  logout = record { status_codes = []; location_contains = ""; body_contains = "" };
  steps = [];
  capture = none;
  csrf = none;
  username_selector = "";
  password_selector = "";
  submit_selector = "";
  success_url_contains = "";
  success_selector = "";
  headful = false;
}

abbrev pub config : Config
config = record {
  target = "https://t";
  backoff = record { max_burst = pos 0; window = pos 0 };
  tls = tls;
  identities = alice ∷ [];
}

abbrev pub alice_recipe : Recipe ℕ
alice_recipe = form_recipe env (record {
  id = "alice";
  login_url = "https://t/login";
  username = "alice";
  password = "pw";
  user_field = "";
  pass_field = "";
  signature = alice.logout;
  client = some client;
})

-- A file with a reference to the environment.
abbrev pub sources : Sources
sources = record {
  read_file = λ path. ok "file";
  env_pieces = λ text. literal "p-" ∷ reference "PW" ∷ [];
  lookup_env = λ name. some "secret";
  shell = λ command. ok "out";
  decode = λ raw. ok config;
  parse_url = λ url. some ("https", "t");
}

abbrev pub resolved : Config
resolved = record config { identities = record alice { password = "p-secret" } ∷ [] }
