-- ===== src/Recipe/Login.antt =====
-- What the HTTP login recipes share: the form request, the status guard, and the check that a
-- login yielded a cookie or a token.
use claviger.Prelude.{
  String, Bool, ◌&&◌, List, [], ◌∷◌, Option, none, some, bad_status, no_session_material, leb, ◌==◌,
  if◌then◌else◌, true, false,
}
use claviger.Http.{Cookie, Response}
use claviger.Session.{Session}
use claviger.Effect.{Eff, pure, raise, Env, Client, exchange}

-- `if r.Client != nil { return r.Client }; return http.DefaultClient`
unfoldable pub client_of : {W : Type 0} → Env W → Option (Client W) → Client W
client_of env none = env.default_client
client_of env (some c) = c

-- A POST of an encoded form.
unfoldable pub post_form :
    {W : Type 0} → Env W → Client W → String → List (String × String) → Eff W Response
unfolding exchange
post_form env client url form = exchange env client (record {
  method = "POST";
  target = url;
  header = ("Content-Type", "application/x-www-form-urlencoded" ∷ []) ∷ [];
  body = env.encode_form form;
})

-- `if resp.StatusCode >= 400`
unfoldable pub reject_status : {W : Type 0} → String → Response → Eff W Response
reject_status id resp = if leb 400 resp.status then raise (bad_status id resp.status) else pure resp

abbrev pub no_cookies : List Cookie → Bool
no_cookies [] = true
no_cookies (c ∷ cs) = false

-- `len(sess.Cookies) == 0 && sess.BearerToken == ""`
abbrev pub is_bare : Session → Bool
is_bare s = no_cookies s.cookies && (s.bearer_token == "")

unfoldable pub keep_material : {W : Type 0} → String → Session → Eff W Session
keep_material id s = if is_bare s then raise (no_session_material id) else pure s
