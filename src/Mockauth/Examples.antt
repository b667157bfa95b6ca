-- ===== src/Mockauth/Examples.antt =====
-- A login at the mock server, and the request that follows it.
use claviger.Prelude.{◌≡◌, refl, arith, [], none}
use claviger.Http.{Request}
use claviger.Session.{Session, apply}
use claviger.Mockauth.{Web, new, issue, user_is, whoami_handler}
use claviger.Mockauth.Whoami.{whoami_handler-apply}

abbrev web : Web
web = record { show = λ n. "1"; form_value = λ r key. "alice"; cookie = λ r name. none }

abbrev alice : Session
alice = record {
  identity = "alice";
  cookies = [];
  bearer_token = "acc-alice-1";
  refresh_token = "";
  csrf = "";
  headers = [];
  expires_at = 0;
}

abbrev request : Request
request = record { method = "GET"; target = "/api/whoami"; header = []; body = "" }

bears : alice.bearer_token ≡ (issue web "alice" 5 (new 60)).0.0
unfolding issue
bears = refl

-- Within the lifetime of 60 from the login at 5.
whoami_handler-apply_example :
    (whoami_handler web (apply (λ c. c.name) alice request) 40 (issue web "alice" 5 (new 60)).1).0
    ≡ user_is "alice"
whoami_handler-apply_example =
    whoami_handler-apply web (λ c. c.name) alice request "alice" 5 40 (new 60) (omega arith) refl
      bears
