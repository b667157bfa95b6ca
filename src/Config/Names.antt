-- ===== src/Config/Names.antt =====
-- The names under which Recipes of internal/config/config.go files the identities.
use mathlib.Core.List.{append_assoc, append-nil}
use claviger.Prelude.{
  String, ◌≡◌, ◌≢◌, refl, sym, ap, ◌∙◌, List, [], ◌∷◌, ◌++◌, map, none, ok, bind-ok, All, arith,
  ◌==◌, eq_iff, Bool-cases, inl, inr,
}
use claviger.Prelude.Maps.{lookup, insert}
use claviger.Recipe.{Recipe}
use claviger.Httpx
use claviger.Recipe.Browser.Returns.{browser_recipe}
use claviger.Recipe.Form.{form_recipe}
use claviger.Recipe.Oauth.{oauth_recipe}
use claviger.Recipe.Flow.Establish.{flow_recipe}
use claviger.Config.Each.{recipes-All}
use claviger.Config.{
  Config, TlsConfig, IdentityConfig, Builder, build_recipe, check_name, add_identity,
  add_identities, recipes, effective_tls, to_httpx, browser_of,
}

abbrev pub keys {ℓ} : {V : Type ℓ} → List (String × V) → List String
keys [] = []
keys ((k, v) ∷ m) = k ∷ keys m

keys-insert_new {ℓ} :
    {V : Type ℓ} (name : String) (v : V) (m : List (String × V))
    → lookup name m ≡ none
    → keys (insert name v m) ≡ keys m ++ name ∷ []
unfolding lookup insert
keys-insert_new name v [] h = refl
keys-insert_new name v ((k, w) ∷ m) h = elim (Bool-cases (k == name)) [
  | inl same ↦ ground (arith, h, same)
  | inr other ↦ rw other (ap (λ l. k ∷ l) (keys-insert_new name v m (rw other at h)))
]

-- A name that an identity may have: neither empty nor the one of the unauthenticated baseline.
abbrev pub IsAllowedName : String → Type 0
IsAllowedName name = (name ≢ "") × (name ≢ "anon")

-- The recipe is filed under its own identity.
abbrev pub IsOwn : {W : Type 0} → String × Recipe W → Type 0
IsOwn (name, r) = r.identity ≡ name

module _ {W J P C : Type 0} (lib : Builder W J P C) where
  pub check_name-ok :
      (name : String) (out : List (String × Recipe W))
      → check_name lib name out ≡ ok tt
      → (IsAllowedName name) × (lookup name out ≡ none)
  unfolding check_name
  check_name-ok name out h = (
    (
      (λ e. ground (arith, h, e, eq_iff name "")),
      (λ e. ground (arith, h, e, eq_iff name "", eq_iff name "anon")),
    ),
    ground (arith, h),
  )

  add_identity-keys :
      (global : TlsConfig) (id : IdentityConfig) (out next : List (String × Recipe W))
      → add_identity lib global id out ≡ ok next
      → IsAllowedName id.name × (keys next ≡ keys out ++ id.name ∷ [])
  unfolding add_identity
  add_identity-keys global id out next h =
      let (u, named, h1) = bind-ok (check_name lib id.name out) _ next h in
      let (client, c, h2) =
        bind-ok (Httpx.client lib.certs lib.dial (to_httpx (effective_tls global id.tls))) _ next
          h1 in
      let (r, b, h3) =
        bind-ok (build_recipe lib id (effective_tls global id.tls) client) _ next h2 in
      let (allowed, fresh) = check_name-ok id.name out named in
      let same : insert id.name r out ≡ next = cc h3 in
      (allowed, ap keys (sym same) ∙ keys-insert_new id.name r out fresh)

  add_identities-keys :
      (global : TlsConfig) (ids : List IdentityConfig) (out last : List (String × Recipe W))
      → add_identities lib global ids out ≡ ok last
      → All (λ id. IsAllowedName id.name) ids × (keys last ≡ keys out ++ map (λ id. id.name) ids)
  unfolding add_identities
  add_identities-keys global [] out last h =
      (tt, (let same : out ≡ last = cc h in ap keys (sym same) ∙ sym (append-nil (keys out))))
  add_identities-keys global (id ∷ ids) out last h =
      let (next, one, rest) = bind-ok (add_identity lib global id out) _ last h in
      let (allowed, keyed) = add_identity-keys global id out next one in
      let (others, tail) = add_identities-keys global ids next last rest in
      (
        (allowed, others),
        tail
            ∙ ap (λ l. l ++ map (λ i. i.name) ids) keyed
            ∙ append_assoc (keys out) (id.name ∷ []) (map (λ i. i.name) ids),
      )

  -- When a configuration is accepted, it has one recipe for each identity, in order and under its
  -- name; no name is empty, and none is that of the unauthenticated baseline of replay.
  pub keys-recipes :
      (c : Config) (out : List (String × Recipe W))
      → recipes lib c ≡ ok out
      → (keys out ≡ map (λ id. id.name) c.identities)
        × All (λ id. IsAllowedName id.name) c.identities
  unfolding recipes
  keys-recipes c out h =
      let (allowed, keyed) = add_identities-keys c.tls c.identities [] out h in (keyed, allowed)

  -- When a configuration is accepted, each recipe is filed under the identity that it logs in, so
  -- that the store and the gateway know it by the same name.
  pub recipes-identity :
      (c : Config) (out : List (String × Recipe W)) → recipes lib c ≡ ok out → All IsOwn out
  unfolding form_recipe oauth_recipe flow_recipe browser_recipe browser_of
  recipes-identity = recipes-All lib (record {
    holds = IsOwn;
    form = λ id client. refl;
    oauth = λ id client. refl;
    flow = λ id client r own. own;
    browser = λ id tls. refl;
  })
