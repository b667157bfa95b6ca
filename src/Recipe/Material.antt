-- ===== src/Recipe/Material.antt =====
-- What a login that succeeds has brought.
use claviger.Prelude.{
  String, List, Option, none, some, Result, ok, err, ◌≡◌, ◌≢◌, false, ◌==◌, eq_iff, arith,
  Bool-cases, inl, inr,
}
use claviger.Session.{Session}
use claviger.Effect.{Env}
use claviger.Recipe.Login.{is_bare}
use claviger.Recipe.Form.{FormPost, form_establish}
use claviger.Recipe.Oauth.{OAuth2, token, or_establish, oauth_establish, oauth_refresh}

module _ {W : Type 0} (env : Env W) where
  -- A form login that succeeds has a cookie or a bearer token, and bears the recipe's identity.
  pub form_establish-material :
      (r : FormPost W) (w : W) (s : Session)
      → (form_establish env r w).0 ≡ ok s
      → (is_bare s ≡ false) × (s.identity ≡ r.id)
  unfolding form_establish
  form_establish-material r w s h = ground arith

  -- A token request that succeeds has an access token, and bears the recipe's identity.
  token-material :
      (r : OAuth2 W) (form : List (String × String)) (prev : Option Session) (w : W) (s : Session)
      → (token env r form prev w).0 ≡ ok s
      → ((s.bearer_token == "") ≡ false) × (s.identity ≡ r.id)
  unfolding token
  token-material r form prev w s h = ground arith

  -- The session that a refresh grant yields has a refresh token if the renewed session had one.
  pub token_keeps_refresh :
      (r : OAuth2 W) (form : List (String × String)) (cur : Session) (w : W) (s : Session)
      → (token env r form (some cur) w).0 ≡ ok s
      → cur.refresh_token ≢ ""
      → s.refresh_token ≢ ""
  unfolding token
  token_keeps_refresh r form cur w s h some_token none_left =
      some_token (ground (arith, eq_iff s.refresh_token ""))

  or_establish-material :
      (r : OAuth2 W) (g : Result Session) (w : W) (s : Session)
      → (g ≡ ok s → ((s.bearer_token == "") ≡ false) × (s.identity ≡ r.id))
      → (or_establish env r g w).0 ≡ ok s
      → ((s.bearer_token == "") ≡ false) × (s.identity ≡ r.id)
  unfolding or_establish oauth_establish
  or_establish-material r (ok t) w s k h = k h
  or_establish-material r (err e) w s k h = token-material r _ none w s h

  -- A refresh that succeeds, by the refresh grant or by the fallback to the password grant, has an
  -- access token, and bears the recipe's identity.
  pub oauth_refresh-material :
      (r : OAuth2 W) (cur : Option Session) (w : W) (s : Session)
      → (oauth_refresh env r cur w).0 ≡ ok s
      → ((s.bearer_token == "") ≡ false) × (s.identity ≡ r.id)
  unfolding oauth_refresh oauth_establish
  oauth_refresh-material r none w s h = token-material r _ none w s h
  oauth_refresh-material r (some cur) w s h = elim (Bool-cases (cur.refresh_token == "")) [
    | inl absent ↦ token-material r _ none w s (rw absent at h)
    | inr present ↦
        or_establish-material r _ _ s (token-material r _ (some cur) w s) (rw present at h)
  ]
