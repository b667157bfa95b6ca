-- ===== src/Recipe/Honest.antt =====
-- The logins of internal/recipe: the session that one yields names the identity of its recipe.
use claviger.Prelude.{
  String, ◌≡◌, refl, ap, ◌∙◌, false, ◌==◌, Option, none, some, Result, ok, err, OkThen, arith,
}
use claviger.Session.{Session}
use claviger.Effect.{Env}
use claviger.Recipe.{Recipe}
use claviger.Recipe.Login.{is_bare}
use claviger.Recipe.Form.{FormPost, form_recipe, form_establish}
use claviger.Recipe.Oauth.{OAuth2, oauth_recipe, oauth_refresh}
use claviger.Recipe.Material.{form_establish-material, oauth_refresh-material}
use claviger.Recipe.Flow.{Readers}
use claviger.Recipe.Flow.Establish.{MultiStep, Jars, flow_recipe, flow_establish}
use claviger.Recipe.Flow.Establish.Material.{flow_establish-material}
use claviger.Recipe.Browser.{Browser, Chrome}
use claviger.Recipe.Browser.Returns.{
  browser_recipe, establish-browser_recipe, establish_within-material, rounds,
}

-- The session, if there is one, is of the identity.
abbrev pub IsNamed : String → Result Session → Type 0
IsNamed id = OkThen (λ s. s.identity ≡ id)

-- The session, if there is one, has a cookie or a bearer token, and is of the identity.
abbrev pub Brings : String → Result Session → Type 0
Brings id = OkThen (λ s. (is_bare s ≡ false) × (s.identity ≡ id))

pub Brings-IsNamed : (id : String) (r : Result Session) → Brings id r → IsNamed id r
Brings-IsNamed id (ok s) h = h.1
Brings-IsNamed id (err x) h = tt

result-Brings :
    (id : String) (r : Result Session)
    → ((s : Session) → r ≡ ok s → (is_bare s ≡ false) × (s.identity ≡ id))
    → Brings id r
result-Brings id (ok s) h = h s refl
result-Brings id (err x) h = tt

-- Whatever the world does, a login or a renewal yields no session but one of the recipe's identity
-- that has a cookie or a bearer token.
abbrev pub IsHonest : {W : Type 0} → Recipe W → Type 0
IsHonest {W} r =
    ((w : W) → Brings r.identity (r.establish w).0)
    × ((cur : Option Session) (w : W) → Brings r.identity (r.refresh cur w).0)

full_of_token : (s : Session) → (s.bearer_token == "") ≡ false → is_bare s ≡ false
full_of_token s full = ground (arith, full)

module _ {W : Type 0} (env : Env W) where
  pub form_recipe-IsHonest : (r : FormPost W) → IsHonest (form_recipe env r)
  unfolding form_recipe
  form_recipe-IsHonest r =
      let brings : (w : W) → Brings r.id (form_establish env r w).0 =
        (λ w. result-Brings r.id _ (form_establish-material env r w)) in
      (brings, λ cur w. brings w)

  oauth_refresh-Brings :
      (r : OAuth2 W) (cur : Option Session) (w : W) → Brings r.id (oauth_refresh env r cur w).0
  oauth_refresh-Brings r cur w = result-Brings r.id _ (λ s h.
      let (full, named) = oauth_refresh-material env r cur w s h in (full_of_token s full, named))

  pub oauth_recipe-IsHonest : (r : OAuth2 W) → IsHonest (oauth_recipe env r)
  unfolding oauth_recipe oauth_refresh
  oauth_recipe-IsHonest r = (oauth_refresh-Brings r none, oauth_refresh-Brings r)

  pub flow_recipe-IsHonest :
      {J : Type 0} (read : Readers) (jars : Jars W J) (r : MultiStep)
      → IsHonest (flow_recipe env read jars r)
  unfolding flow_recipe
  flow_recipe-IsHonest read jars r =
      let brings : (w : W) → Brings r.id (flow_establish env read jars r w).0 =
        (λ w. result-Brings r.id _ (flow_establish-material env read jars r w)) in
      (brings, λ cur w. brings w)

pub browser_recipe-IsHonest :
    {W : Type 0} (chrome : Chrome W) (r : Browser) → IsHonest (browser_recipe chrome r)
unfolding browser_recipe
browser_recipe-IsHonest {W} chrome r =
    let login : W → Result Session × W = (browser_recipe chrome r).establish in
    let brings : (w : W) → Brings r.id (login w).0 = (λ w. result-Brings r.id _ (λ s h.
      establish_within-material chrome (rounds chrome r) r w (login w).1 s
        (establish-browser_recipe chrome r w ∙ ap (λ o. some (o, (login w).1)) h))) in
    (brings, λ cur w. brings w)
