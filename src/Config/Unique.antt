-- ===== src/Config/Unique.antt =====
-- No identity of internal/config/config.go has two recipes.
use claviger.Prelude.{
  String, ◌≡◌, refl, subst, List, [], ◌∷◌, none, ok, bind-ok, arith, ◌==◌, eq_iff, Bool-cases, inl,
  inr,
}
use claviger.Prelude.Maps.{lookup, insert, lookup-insert}
use claviger.Httpx
use claviger.Recipe.{Recipe}
use claviger.Config.{
  Config, TlsConfig, IdentityConfig, Builder, build_recipe, check_name, add_identity,
  add_identities, recipes, effective_tls, to_httpx,
}
use claviger.Config.Names.{check_name-ok}

-- No key has two entries.
abbrev pub IsUnique {ℓ} : {V : Type ℓ} → List (String × V) → Type ℓ
IsUnique [] = Unit
IsUnique ((k, v) ∷ m) = (lookup k m ≡ none) × IsUnique m

insert-IsUnique {ℓ} :
    {V : Type ℓ} (name : String) (v : V) (m : List (String × V))
    → lookup name m ≡ none
    → IsUnique m
    → IsUnique (insert name v m)
unfolding insert lookup
insert-IsUnique name v [] h u = (refl, tt)
insert-IsUnique name v ((k, w) ∷ m) h (fresh, u) = elim (Bool-cases (k == name)) [
  | inl same ↦ ground (arith, h, same)
  | inr other ↦ rw other (
    ground (arith, lookup-insert name k v m, eq_iff name k, eq_iff k name, fresh, other),
    insert-IsUnique name v m (rw other at h) u,
  )
]

module _ {W J P C : Type 0} (lib : Builder W J P C) where
  add_identities-IsUnique :
      (global : TlsConfig) (ids : List IdentityConfig) (out last : List (String × Recipe W))
      → IsUnique out
      → add_identities lib global ids out ≡ ok last
      → IsUnique last
  unfolding add_identities add_identity
  add_identities-IsUnique global [] out last sofar h =
      let same : out ≡ last = cc h in subst IsUnique same sofar
  add_identities-IsUnique global (id ∷ ids) out last sofar h =
      let (next, one, rest) = bind-ok (add_identity lib global id out) _ last h in
      let (u, checked, h1) = bind-ok (check_name lib id.name out) _ next one in
      let (client, c, h2) =
        bind-ok (Httpx.client lib.certs lib.dial (to_httpx (effective_tls global id.tls))) _ next
          h1 in
      let (r, b, h3) =
        bind-ok (build_recipe lib id (effective_tls global id.tls) client) _ next h2 in
      let same : insert id.name r out ≡ next = cc h3 in
      add_identities-IsUnique global ids next last
        (subst IsUnique same
          (insert-IsUnique id.name r out (check_name-ok lib id.name out checked).1 sofar))
        rest

  pub recipes-IsUnique :
      (c : Config) (out : List (String × Recipe W)) → recipes lib c ≡ ok out → IsUnique out
  unfolding recipes
  recipes-IsUnique c out h = add_identities-IsUnique c.tls c.identities [] out tt h
