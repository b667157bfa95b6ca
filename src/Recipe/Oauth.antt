-- ===== src/Recipe/Oauth.antt =====
-- internal/recipe/oauth.go
use claviger.Prelude.{
  String, List, [], ◌∷◌, Option, none, some, ◌==◌, if◌then◌else◌, ok, err, Result, no_access_token,
}
use claviger.Http.{Response}
use claviger.Session.{Session}
use claviger.Effect.{Eff, ◌>>=◌, Env, Client}
use claviger.Recipe.{LogoutSignature, Recipe}
use claviger.Recipe.Expiry.{expires_at}
use claviger.Recipe.Login.{client_of, post_form, reject_status}

pub record OAuth2 (W : Type 0) : Type 0 where
  pub id : String
  pub token_url : String
  pub username : String
  pub password : String
  pub signature : LogoutSignature
  pub client : Option (Client W)

-- The refresh token of the session that is renewed, or "".
abbrev pub prior_token : Option Session → String
prior_token none = ""
prior_token (some s) = s.refresh_token

-- The session of an accepted token response. A response without a refresh token keeps the prior
-- one.
unfoldable pub grant_session :
    {W : Type 0} → Env W → String → Option Session → Response → Eff W Session
unfolding expires_at
grant_session env id prev resp w =
    let (payload, failure) = env.decode_token resp.body in
    elim failure [
      | some e ↦ (err e, w)
      | none ↦
          if payload.access_token == ""
          then (err (no_access_token id), w)
          else (let (expiry, w') = expires_at env.now payload.expires_in w in
              (
                ok (record {
                  identity = id;
                  cookies = [];
                  bearer_token = payload.access_token;
                  refresh_token =
                      if payload.refresh_token == ""
                      then prior_token prev
                      else payload.refresh_token;
                  csrf = "";
                  headers = [];
                  expires_at = expiry;
                }),
                w',
              ))
    ]

-- OAuth2.token
unfoldable pub token :
    {W : Type 0} → Env W → OAuth2 W → List (String × String) → Option Session → Eff W Session
unfolding client_of post_form reject_status grant_session
token env r form prev = do
  resp ← post_form env (client_of env r.client) r.token_url form
  accepted ← reject_status r.id resp
  grant_session env r.id prev accepted

-- OAuth2.Establish
unfoldable pub oauth_establish : {W : Type 0} → Env W → OAuth2 W → Eff W Session
unfolding token
oauth_establish env r =
    token env r
      (("grant_type", "password") ∷ ("username", r.username) ∷ ("password", r.password) ∷ []) none

-- The fallback to a password grant when the refresh grant fails.
unfoldable pub or_establish : {W : Type 0} → Env W → OAuth2 W → Result Session → Eff W Session
unfolding oauth_establish
or_establish env r (ok s) w = (ok s, w)
or_establish env r (err e) w = oauth_establish env r w

-- OAuth2.Refresh
unfoldable pub oauth_refresh : {W : Type 0} → Env W → OAuth2 W → Option Session → Eff W Session
unfolding token or_establish
oauth_refresh env r none w = oauth_establish env r w
oauth_refresh env r (some cur) w =
    if cur.refresh_token == ""
    then oauth_establish env r w
    else (let (grant, w') =
          token env r (("grant_type", "refresh_token") ∷ ("refresh_token", cur.refresh_token) ∷ [])
            (some cur) w in
        or_establish env r grant w')

unfoldable pub oauth_recipe : {W : Type 0} → Env W → OAuth2 W → Recipe W
unfolding oauth_establish oauth_refresh
oauth_recipe env r = record {
  identity = r.id;
  establish = oauth_establish env r;
  refresh = oauth_refresh env r;
  logout = r.signature;
}
