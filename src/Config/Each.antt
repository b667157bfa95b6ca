-- ===== src/Config/Each.antt =====
-- What all the recipes have that Recipes of internal/config/config.go builds.
use claviger.Prelude.{
  String, ◌≡◌, refl, sym, subst, List, [], ◌∷◌, ok, bind-ok, All, OkThen, OkThen-bind, arith, ◌==◌,
  eq_iff, Bool-cases, inl, inr,
}
use claviger.Prelude.Maps.{insert}
use claviger.Effect.{Client}
use claviger.Recipe.{Recipe}
use claviger.Httpx
use claviger.Recipe.Browser.Returns.{browser_recipe}
use claviger.Recipe.Form.{form_recipe}
use claviger.Recipe.Oauth.{oauth_recipe}
use claviger.Recipe.Flow.Establish.{MultiStep, flow_recipe}
use claviger.Config.{
  Config, TlsConfig, IdentityConfig, Builder, valid_endpoint, valid_steps, build_multi_step,
  build_recipe, check_name, add_identity, add_identities, recipes, effective_tls, to_httpx,
  browser_of, form_of, oauth_of,
}

pub insert-All {ℓ κ} :
    {V : Type ℓ} (P : String × V → Type κ) (name : String) (v : V) (m : List (String × V))
    → P (name, v)
    → All P m
    → All P (insert name v m)
unfolding insert
insert-All P name v [] h hs = (h, tt)
insert-All P name v ((k, w) ∷ m) h (g, gs) = elim (Bool-cases (k == name)) [
  | inl same ↦ rw same (subst (λ n. P (n, v)) (sym (ground (arith, eq_iff k name, same))) h, gs)
  | inr other ↦ rw other (g, insert-All P name v m h gs)
]

-- A property of an entry that all four ways of building one yield.
pub record Yields {W J P C : Type 0} (lib : Builder W J P C) : Type 1 where
  pub holds : String × Recipe W → Type 0
  pub form :
      (id : IdentityConfig) (client : Client W)
      → holds (id.name, form_recipe lib.env (form_of id client))
  pub oauth :
      (id : IdentityConfig) (client : Client W)
      → holds (id.name, oauth_recipe lib.env (oauth_of id client))
  pub flow :
      (id : IdentityConfig) (client : Client W) (r : MultiStep)
      → r.id ≡ id.name
      → holds (id.name, flow_recipe lib.env lib.read (lib.jars client) r)
  pub browser :
      (id : IdentityConfig) (tls : TlsConfig)
      → holds (id.name, browser_recipe lib.chrome (browser_of id tls))

module _ {W J P C : Type 0} (lib : Builder W J P C) where
  build_multi_step-OkThen :
      (id : IdentityConfig) → OkThen (λ r. r.id ≡ id.name) (build_multi_step lib id)
  unfolding build_multi_step
  build_multi_step-OkThen id =
      elim id.steps
        as (λ steps.
          OkThen (λ r. r.id ≡ id.name) (build_multi_step lib (record id { steps = steps }))) [
            | [] ↦ tt
            | step ∷ steps ↦
                OkThen-bind (λ r. r.id ≡ id.name) (valid_steps lib id.name (step ∷ steps)) _
                  (λ u e. refl)
          ]

  build_recipe-OkThen :
      (y : Yields lib) (id : IdentityConfig) (tls : TlsConfig) (client : Client W)
      → OkThen (λ r. y.holds (id.name, r)) (build_recipe lib id tls client)
  unfolding build_recipe
  build_recipe-OkThen y id tls client =
      let Q : Recipe W → Type 0 = (λ r. y.holds (id.name, r)) in
      elim (Bool-cases (id.kind == "form")) [
        | inl is ↦
            rw is
              (OkThen-bind Q (valid_endpoint lib id.name id.login_url) _ (λ u e. y.form id client))
        | inr no_form ↦ rw no_form (elim (Bool-cases (id.kind == "oauth")) [
          | inl is ↦
              rw is (
                OkThen-bind Q (valid_endpoint lib id.name id.token_url) _
                  (λ u e. y.oauth id client))
          | inr no_oauth ↦ rw no_oauth (elim (Bool-cases (id.kind == "multistep")) [
            | inl is ↦ rw is (
                OkThen-bind Q (build_multi_step lib id) _ (λ r e.
                  y.flow id client r
                    (subst (OkThen (λ r. r.id ≡ id.name)) e (build_multi_step-OkThen id))))
            | inr no_flow ↦ rw no_flow (elim (Bool-cases (id.kind == "browser")) [
              | inl is ↦ rw is (
                  OkThen-bind Q (valid_endpoint lib id.name id.login_url) _
                    (λ u e. y.browser id tls))
              | inr unknown ↦ rw unknown tt
            ])
          ])
        ])
      ]

  add_identities-All :
      (y : Yields lib) (global : TlsConfig) (ids : List IdentityConfig)
      (out last : List (String × Recipe W))
      → All y.holds out
      → add_identities lib global ids out ≡ ok last
      → All y.holds last
  unfolding add_identities add_identity
  add_identities-All y global [] out last sofar h =
      let same : out ≡ last = cc h in subst (All y.holds) same sofar
  add_identities-All y global (id ∷ ids) out last sofar h =
      let (next, one, rest) = bind-ok (add_identity lib global id out) _ last h in
      let (u, checked, h1) = bind-ok (check_name lib id.name out) _ next one in
      let (client, c, h2) =
        bind-ok (Httpx.client lib.certs lib.dial (to_httpx (effective_tls global id.tls))) _ next
          h1 in
      let (r, b, h3) =
        bind-ok (build_recipe lib id (effective_tls global id.tls) client) _ next h2 in
      let same : insert id.name r out ≡ next = cc h3 in
      let own : y.holds (id.name, r) =
        subst (OkThen (λ r. y.holds (id.name, r))) b
          (build_recipe-OkThen y id (effective_tls global id.tls) client) in
      add_identities-All y global ids next last
        (subst (All y.holds) same (insert-All y.holds id.name r out own sofar)) rest

  -- The recipes of a configuration that is accepted all have the property.
  pub recipes-All :
      (y : Yields lib) (c : Config) (out : List (String × Recipe W))
      → recipes lib c ≡ ok out
      → All y.holds out
  unfolding recipes
  recipes-All y c out h = add_identities-All y c.tls c.identities [] out tt h
