-- ===== src/Session/Examples.antt =====
-- Session.Apply at a concrete session and request.
use claviger.Prelude.{String, ◌≡◌, ◌≢◌, refl, [], ◌∷◌, arith, eq_iff}
use claviger.Http.{Cookie, Request}
use claviger.Http.Header
use claviger.Session.{Session, apply}
use claviger.Session.Apply.{apply_values}

abbrev plain_pair : Cookie → String
plain_pair c = c.name

abbrev admin : Session
admin = record {
  identity = "admin";
  cookies = record { name = "sid"; value = "1" } ∷ [];
  bearer_token = "t";
  refresh_token = "";
  csrf = "c";
  headers = [];
  expires_at = 0;
}

abbrev incoming : Request
incoming = record {
  method = "GET";
  target = "http://t/";
  header = ("Authorization", "Basic x" ∷ []) ∷ [];
  body = "";
}

apply_test : Header.get (apply plain_pair admin incoming).header "authorization" ≡ "Bearer t"
unfolding apply Header.get Header.index Header.put
apply_test = refl

authorization_not_cookie : ◌≢◌ {A = String} "Authorization" "Cookie"
authorization_not_cookie = ground (arith, eq_iff "Authorization" "Cookie")

apply_values_example :
    (Header.index (apply plain_pair admin incoming).header "Authorization" ≡ "Bearer t" ∷ [])
    × ((apply plain_pair admin incoming).method ≡ "GET")
    × ((apply plain_pair admin incoming).target ≡ "http://t/")
    × ((apply plain_pair admin incoming).body ≡ "")
apply_values_example =
    apply_values plain_pair admin incoming "Authorization" authorization_not_cookie
