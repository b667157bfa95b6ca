-- ===== src/Recipe/Examples.antt =====
-- Logins at concrete servers.
use claviger.Prelude.{ℕ, ◌+◌, ◌*◌, ◌^◌, ◌<◌, ◌≡◌, String, [], ◌∷◌, none, ok, arith}
use claviger.Prelude.Int.{pos}
use claviger.Http.{Response}
use claviger.Session.{Session}
use claviger.Effect.{Env, Payload}
use claviger.Recipe.{LogoutSignature}
use claviger.Recipe.Expiry.{after_seconds, after_seconds_bounds, max_seconds, second}
use claviger.Recipe.Form.{FormPost}
use claviger.Recipe.Oauth.{OAuth2}
use Prim.Native.Nat.{min}

after_seconds_bounds_example :
    (after_seconds 60 5 ≡ 5 + min 60 max_seconds * second)
    × (5 < after_seconds 60 5)
    × (after_seconds 60 5 < 5 + 2 ^ 63)
after_seconds_bounds_example = after_seconds_bounds 60 5 (omega arith)

-- A server that answers each request with a token and no refresh token.
abbrev answer : Response
answer = record { status = 200; header = []; cookies = []; body = "token" }

abbrev grant : Payload
grant = record { access_token = "a"; refresh_token = ""; expires_in = pos 0 }

abbrev env : Env ℕ
env = record {
  now = λ w. (w, w + 1);
  default_client = λ req w. (ok answer, w + 1);
  request_error = λ m u. none;
  encode_form = λ form. "form";
  cookie_pair = λ c. c.name;
  decode_token = λ body. (grant, none);
}

abbrev signature : LogoutSignature
signature = record { status_codes = 401 ∷ []; location_contains = ""; body_contains = "" }

abbrev form : FormPost ℕ
form = record {
  id = "alice";
  login_url = "http://t/login";
  username = "alice";
  password = "pw";
  user_field = "";
  pass_field = "";
  signature = signature;
  client = none;
}

abbrev oauth : OAuth2 ℕ
oauth = record {
  id = "alice";
  token_url = "http://t/token";
  username = "alice";
  password = "pw";
  signature = signature;
  client = none;
}

abbrev session_with : String → Session
session_with refresh = record {
  identity = "alice";
  cookies = [];
  bearer_token = "a";
  refresh_token = refresh;
  csrf = "";
  headers = [];
  expires_at = 0;
}
