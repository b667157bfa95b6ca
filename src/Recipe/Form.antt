-- ===== src/Recipe/Form.antt =====
-- internal/recipe/formpost.go
use claviger.Prelude.{String, [], ◌∷◌, Option, ◌==◌, if◌then◌else◌, ok}
use claviger.Http.{Response}
use claviger.Session.{Session}
use claviger.Effect.{Eff, ◌>>=◌, Env, Client}
use claviger.Recipe.{LogoutSignature, Recipe}
use claviger.Recipe.Expiry.{expires_at}
use claviger.Recipe.Login.{client_of, post_form, reject_status, keep_material}

pub record FormPost (W : Type 0) : Type 0 where
  pub id : String
  pub login_url : String
  pub username : String
  pub password : String
  pub user_field : String
  pub pass_field : String
  pub signature : LogoutSignature
  pub client : Option (Client W)

abbrev or_default : String → String → String
or_default v d = if v == "" then d else v

-- The session of an accepted response; a body that does not decode is tolerated.
unfoldable pub form_session : {W : Type 0} → Env W → String → Response → Eff W Session
unfolding expires_at
form_session env id resp w =
    let (payload, _) = env.decode_token resp.body in
    let (expiry, w') = expires_at env.now payload.expires_in w in
    (
      ok (record {
        identity = id;
        cookies = resp.cookies;
        bearer_token = payload.access_token;
        refresh_token = payload.refresh_token;
        csrf = "";
        headers = [];
        expires_at = expiry;
      }),
      w',
    )

-- FormPost.Establish
unfoldable pub form_establish : {W : Type 0} → Env W → FormPost W → Eff W Session
unfolding client_of post_form reject_status form_session keep_material
form_establish env r = do
  resp ← post_form env (client_of env r.client) r.login_url (
      (or_default r.user_field "username", r.username)
      ∷ (or_default r.pass_field "password", r.password)
      ∷ [])
  accepted ← reject_status r.id resp
  sess ← form_session env r.id accepted
  keep_material r.id sess

-- FormPost as a Recipe: Refresh runs Establish again.
unfoldable pub form_recipe : {W : Type 0} → Env W → FormPost W → Recipe W
unfolding form_establish
form_recipe env r = record {
  identity = r.id;
  establish = form_establish env r;
  refresh = λ _. form_establish env r;
  logout = r.signature;
}
