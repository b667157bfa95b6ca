-- ===== src/Daemon/Ports.antt =====
-- The order of the gateway ports, of cmd/daemon.go. Recipes returns a Go map, and buildStore ranges
-- over it in an order that Go leaves open: the map is a list of its entries up to their order.
use mathlib.Core.List.{Perm, foldr}
use mathlib.Core.List.Perm
use mathlib.Core.Quot
use mathlib.Core.Quot.{Quot}
use text.Mathlib.TextEquality.{IsScalar-prop}
use claviger.Prelude.{ℕ, String, ◌≡◌, refl, sym, ap, ◌∙◌, List, [], ◌∷◌}
use claviger.Recipe.{Recipe}
use claviger.Store.{Store, identities, register}
use claviger.Store.Order.{add_name, add_name_comm, identities-register}
use claviger.Daemon.Startup.{register_all}
use claviger.Daemon.Listen.{Net, serve_until_end}

-- What is in the map, up to the order in which it is ranged over.
abbrev pub RecipeMap : Type 0 → Type 0
RecipeMap W = Quot {α = List (String × Recipe W)} Perm

pub names_set : IsSet (List String)
names_set = hlevel (IsScalar-prop)

module _ {W : Type 0} where
  add_recipe : String × Recipe W → List String → List String
  add_recipe (name, r) ks = add_name r.identity ks

  add_recipe_comm :
      (a b : String × Recipe W) (ks : List String)
      → add_recipe a (add_recipe b ks) ≡ add_recipe b (add_recipe a ks)
  unfolding add_recipe
  add_recipe_comm (m, r) (n, s) ks = add_name_comm r.identity s.identity ks

  foldr_first :
      (a : String × Recipe W) (rs : List (String × Recipe W)) (ks : List String)
      → foldr add_recipe (add_recipe a ks) rs ≡ add_recipe a (foldr add_recipe ks rs)
  foldr_first a [] ks = refl
  foldr_first a (b ∷ rs) ks =
      ap (add_recipe b) (foldr_first a rs ks) ∙ add_recipe_comm b a (foldr add_recipe ks rs)

  identities-register_all :
      (rs : List (String × Recipe W)) (st : Store W)
      → identities (register_all rs st) ≡ foldr add_recipe (identities st) rs
  unfolding register_all add_recipe
  identities-register_all [] st = refl
  identities-register_all ((name, r) ∷ rs) st =
      identities-register_all rs (register r st)
      ∙ ap (λ ks. foldr add_recipe ks rs) (identities-register r st)
      ∙ foldr_first (name, r) rs (identities st)

  pub identities-perm :
      (st : Store W) (rs qs : List (String × Recipe W))
      → Perm rs qs
      → identities (register_all rs st) ≡ identities (register_all qs st)
  identities-perm st rs qs p =
      identities-register_all rs st
      ∙ Perm.foldr-eq names_set add_recipe add_recipe_comm p (identities st)
      ∙ sym (identities-register_all qs st)

  -- The names that a daemon with these recipes gives ports to, in their order.
  unfoldable pub served_names : Store W → RecipeMap W → List String
  served_names st = Quot.lift names_set (λ rs. identities (register_all rs st)) (identities-perm st)

  -- A daemon binds the same identities to the same ports, and ends in the same way, in whatever
  -- order Go ranges over the map of its recipes: the identities are a function of the map.
  pub serve_until_end-served_names :
      {V : Type 0} (net : Net V) (st : Store W) (m : RecipeMap W) (rs : List (String × Recipe W))
      (base_port : ℕ) (socket : String) (v : V)
      → Quot.mk rs ≡ m
      → serve_until_end net (identities (register_all rs st)) base_port socket v
        ≡ serve_until_end net (served_names st m) base_port socket v
  unfolding served_names
  serve_until_end-served_names net st m rs base_port socket v is =
      ap (λ q. serve_until_end net (served_names st q) base_port socket v) is
