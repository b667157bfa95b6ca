-- ===== src/Config/Honest.antt =====
-- The recipes that Recipes of internal/config/config.go builds log in the identity they are for.
use claviger.Prelude.{String, ◌≡◌, refl, List, ok, All}
use claviger.Recipe.{Recipe}
use claviger.Recipe.Honest.{
  IsHonest, form_recipe-IsHonest, oauth_recipe-IsHonest, flow_recipe-IsHonest,
  browser_recipe-IsHonest,
}
use claviger.Recipe.Browser.Returns.{browser_recipe}
use claviger.Recipe.Form.{form_recipe}
use claviger.Recipe.Oauth.{oauth_recipe}
use claviger.Recipe.Flow.Establish.{flow_recipe}
use claviger.Config.{Config, Builder, recipes, browser_of, form_of, oauth_of}
use claviger.Config.Each.{recipes-All}

abbrev pub IsHonestEntry : {W : Type 0} → String × Recipe W → Type 0
IsHonestEntry (name, r) = IsHonest r × (r.identity ≡ name)

module _ {W J P C : Type 0} (lib : Builder W J P C) where
  -- When a configuration is accepted, each of its recipes is filed under the identity that it logs
  -- in, and whatever the login endpoints and the browser answer, a login or a renewal by it either
  -- fails or yields a session of that identity which has a cookie or a bearer token.
  pub recipes-IsHonest :
      (c : Config) (out : List (String × Recipe W)) → recipes lib c ≡ ok out → All IsHonestEntry out
  unfolding form_recipe oauth_recipe flow_recipe browser_recipe browser_of
  recipes-IsHonest = recipes-All lib (record {
    holds = IsHonestEntry;
    form = λ id client. (form_recipe-IsHonest lib.env (form_of id client), refl);
    oauth = λ id client. (oauth_recipe-IsHonest lib.env (oauth_of id client), refl);
    flow = λ id client r own. (flow_recipe-IsHonest lib.env lib.read (lib.jars client) r, own);
    browser = λ id tls. (browser_recipe-IsHonest lib.chrome (browser_of id tls), refl);
  })
