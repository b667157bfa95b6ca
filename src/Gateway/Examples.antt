-- ===== src/Gateway/Examples.antt =====
-- The gateway at a concrete target that answers every request, and an identity "alice".
use claviger.Prelude.{
  ℕ, ◌+◌, ◌≤◌, ◌≡◌, ◌≢◌, refl, String, true, false, [], ◌∷◌, ◌++◌, none, some, ok, arith, eq_iff,
  false≢true,
}
use claviger.Prelude.Int.{pos}
use claviger.Http.{Request, Response}
use claviger.Http.Header
use claviger.Session.{Session, expired}
use claviger.Effect.{Env}
use claviger.Recipe.{Recipe, matches}
use claviger.Gateway.Host.{NetLib, is_loopback_host}
use claviger.Gateway.Retry.{is_idempotent}
use claviger.Gateway.Headers.{hop_by_hop}
use claviger.Gateway.State.{Config, Live, Incoming, CsrfPolicy, forwarded, store_get, store_refresh}
use claviger.Gateway.Forward.{outbound_url, forward}
use claviger.Gateway.Forward.Outbound.{forward_values}
use claviger.Gateway.Serve.{http_error, serve, recover}
use claviger.Store.Entry.{new_entry}
use claviger.Store.{get, get_entry, live, refresh, entry_of, refresh_entry}
use claviger.Gateway.Serve.Reauth.{recover_signs, fresh_pair, signed, after_login}
use claviger.Gateway.Audit.{records, serve-audits}
use claviger.Gateway.Serve.Guards.{IsLocal, serve_refuses}
use claviger.Gateway.Serve.Traffic.{forwards, forwards-serve}

abbrev answer : Response
answer = record { status = 200; header = []; cookies = []; body = "token" }

abbrev env : Env ℕ
env = record {
  now = λ w. (w, w + 1);
  default_client = λ req w. (ok answer, w + 1);
  request_error = λ m u. none;
  encode_form = λ form. "form";
  cookie_pair = λ c. c.name;
  decode_token =
      λ body. (record { access_token = "a"; refresh_token = ""; expires_in = pos 0 }, none);
}

abbrev alice_session : Session
alice_session = record {
  identity = "alice";
  cookies = [];
  bearer_token = "t";
  refresh_token = "";
  csrf = "";
  headers = [];
  expires_at = 0;
}

abbrev alice : Recipe ℕ
alice = record {
  identity = "alice";
  establish = λ w. (ok alice_session, w + 1);
  refresh = λ cur w. (ok alice_session, w + 1);
  logout = record { status_codes = 401 ∷ []; location_contains = ""; body_contains = "" };
}

abbrev policy : CsrfPolicy
policy = record {
  fetch_url = "http://t/form";
  header = "X-Csrf-Token";
  methods = "POST" ∷ [];
  find_submatch = λ body. body ∷ body ∷ [];
}

abbrev net : NetLib
net = record { split_host_port = λ h. none; is_loopback_ip = λ h. false; url_host = λ u. some u }

abbrev cfg : Config ℕ
cfg = record {
  env = env;
  net = net;
  client = λ req w. (ok answer, w + 1);
  recipes = ("alice", alice) ∷ [];
  policies = ("alice", policy) ∷ [];
  target_path = "";
  target_escaped_path = "";
  render = λ path raw query. path;
  require_token = "";
  has_audit = true;
}

abbrev request : String → Incoming
request host = record {
  method = "POST";
  host = host;
  path = "/a";
  escaped_path = "/a";
  raw_query = "";
  header = ("Connection", "X-Hop" ∷ []) ∷ ("X-Hop", "1" ∷ []) ∷ ("X-Id", "2" ∷ []) ∷ [];
  body = ok "b";
}

abbrev start : Live ℕ
start = record {
  store = record { entries = []; max_burst = 10; window = 60 };
  csrf_cache = ("alice", record { value = "c"; at = 5 }) ∷ [];
  world = 7;
  audits = [];
  sent = [];
}

not-IsLocal : ¬ IsLocal cfg (request "evil.com")
unfolding is_loopback_host
not-IsLocal here = false≢true here.host

serve_refuses_example :
    (message : String) × (serve cfg "alice" (request "evil.com") start
      ≡ (http_error 403 message, start))
serve_refuses_example = serve_refuses cfg (request "evil.com") "alice" start not-IsLocal

forwards-serve_example : forwards (serve cfg "alice" (request "localhost") start).1 ≤ 1
unfolding is_idempotent
forwards-serve_example = forwards-serve cfg "alice" (request "localhost") start

id_not_cookie : ◌≢◌ {A = String} "X-Id" "Cookie"
id_not_cookie = ground (arith, eq_iff "X-Id" "Cookie")

-- Alice holds a session.
abbrev holding : Live ℕ
holding = record start {
  store = record {
    entries =
        (
          "alice",
          record (new_entry alice) {
            session = some (record { addr = 0; obj = alice_session });
            allocs = 1;
          },
        )
        ∷ [];
    max_burst = 10;
    window = 60;
  };
}

abbrev once_got : Live ℕ
once_got = (store_get cfg "alice" holding).1

forward_values_example :
    (req : Request) × ((forward cfg
        (request "localhost")
        "b"
        "alice"
        true
        "X-CSRF-Token"
        "c"
        holding).1.sent
      ≡ [] ++ forwarded req ∷ [])
    × (req.method ≡ "POST")
    × (req.target ≡ outbound_url cfg (request "localhost"))
    × (req.body ≡ "b")
    × (Header.index req.header "X-Id" ≡ "2" ∷ [])
unfolding Header.get Header.index hop_by_hop new_entry store_get get entry_of get_entry live expired
forward_values_example =
    forward_values cfg (request "localhost") "b" "alice" "X-CSRF-Token" "c" "X-Id" holding once_got
      alice_session refl refl id_not_cookie

abbrev logged_out : Response
logged_out = record answer { status = 401 }

abbrev get_request : Incoming
get_request = record (request "localhost") { method = "GET" }

abbrev registered : Live ℕ
registered = record start {
  store = record { entries = ("alice", new_entry alice) ∷ []; max_burst = 10; window = 60 };
}

recover_signs_example :
    (recover cfg (some alice) get_request "b" "alice" ("", "") logged_out registered).1.sent
    ≡ (fresh_pair cfg "alice" get_request ("", "") (after_login cfg "alice" registered)).1.sent
      ++ forwarded (
          signed cfg alice_session get_request "b"
            (fresh_pair cfg "alice" get_request ("", "") (after_login cfg "alice" registered)).0)
        ∷ []
unfolding matches is_idempotent store_refresh refresh entry_of refresh_entry expired new_entry
recover_signs_example =
    recover_signs cfg "alice" alice get_request "b" ("", "") logged_out registered alice_session
      refl refl refl refl (λ v. refl)

serve-audits_example :
    (serve cfg "alice" get_request registered).1.audits
    ≡ registered.audits
      ++ records cfg "alice" get_request (serve cfg "alice" get_request registered).0
serve-audits_example = serve-audits cfg "alice" get_request registered
