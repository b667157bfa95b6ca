-- ===== src/Daemon/Run/Ready.antt =====
-- What holds of the store and the gateway with which RunE of cmd/daemon.go begins to serve.
use mathlib.Core.Option
use claviger.Prelude.{
  String, ◌≡◌, ◌≢◌, refl, sym, ap, subst, not, List, [], ◌∷◌, ok, bind-ok, ok_injective, ◌==◌,
  arith, inl, inr, Bool-cases,
}
use claviger.Prelude.Maps.{lookup}
use claviger.Http.Header
use claviger.Recipe.{Recipe}
use claviger.Store.{entry_of}
use claviger.Store.Entry.{new_entry}
use claviger.Config.{Builder, to_httpx}
use claviger.Config.Secrets.{Sources}
use claviger.Gateway.State.{Config, Live, Incoming}
use claviger.Gateway.Setup.{
  Parts, GatewayOption, with_tls, with_csrf, choose_all, none_chosen, gateway_client, new_gateway,
}
use claviger.Gateway.Serve.{http_error, serve}
use claviger.Gateway.Serve.Guards.{serve_refuses}
use claviger.Daemon.Startup.{Built, build_store, build_csrf_policies, build_store-entries}
use claviger.Daemon.Run.{
  Machine, Flags, Prepared, parse_log_level, choose_socket, audit_option, effective_token, is_port,
  prepare,
}

module _ {W P C : Type 0} (parts : Parts W P C) where
  new_gateway-recipes :
      (recipes : List (String × Recipe W)) (target : String) (opts : List GatewayOption)
      (g : Config W)
      → new_gateway parts recipes target opts ≡ ok g
      → g.recipes ≡ recipes
  unfolding new_gateway
  new_gateway-recipes recipes target opts g h =
      let (u, parsed, h1) = bind-ok (parts.parse_target target) _ g h in
      let (client, made, h2) =
        bind-ok (gateway_client parts (choose_all opts none_chosen).tls_config) _ g h1 in
      ap (λ (g : Config W). g.recipes) (sym (ok_injective _ g h2))

module _ {W J P C : Type 0} (machine : Machine) (src : Sources) (lib : Builder W J P C)
    (parts : Parts W P C) where
  -- The steps of a preparation that succeeds.
  abbrev pub Steps : Flags → Prepared W → Type 0
  Steps f p =
      (built : Built W) × (build_store src lib f.config f.tls ≡ ok built)
      × (p.store ≡ built.store)
      × (p.gateway.recipes ≡ built.recipes)
      × (effective_token machine f.gateway_token ≡ ok p.gateway.require_token)

  pub prepare-Steps :
      (f : Flags) (p : Prepared W) → prepare machine src lib parts f ≡ ok p → Steps f p
  unfolding prepare
  prepare-Steps f p h = elim (Bool-cases (not (is_port f.base_port))) [
    | inl outside ↦ ground (arith, h, outside)
    | inr port ↦
        let (level, e1, h1) = bind-ok (parse_log_level f.log_level) _ p (rw port at h) in
        let (built, e2, h2) = bind-ok (build_store src lib f.config f.tls) _ p h1 in
        let (socket, e3, h3) = bind-ok (choose_socket machine f.socket) _ p h2 in
        let (policies, e4, h4) =
          bind-ok (build_csrf_policies machine.compile built.config.identities []) _ p h3 in
        let (audit, e5, h5) = bind-ok (audit_option machine f.audit_log) _ p h4 in
        let (g, e6, h6) =
          bind-ok
            (new_gateway parts built.recipes built.config.target
              (with_tls (to_httpx built.config.tls) ∷ with_csrf policies ∷ audit))
            _ p h5 in
        let (token, e7, h7) = bind-ok (effective_token machine f.gateway_token) _ p h6 in
        subst (Steps f) (ok_injective _ p h7)
          (built, e2, refl, new_gateway-recipes parts _ _ _ g e6, e7)
  ]

  effective_token_given :
      (token required : String)
      → effective_token machine token ≡ ok required
      → token ≢ ""
      → ((t : String) → machine.random_hex ≡ ok t → t ≢ "")
      → required ≢ ""
  unfolding effective_token
  effective_token_given token required h given random = elim (Bool-cases (token == "auto")) [
    | inl auto ↦ random required (rw auto at h)
    | inr fixed ↦ subst (λ t. t ≢ "") (ok_injective token required (rw fixed at h)) given
  ]

  -- A daemon that is started with a gateway token, its own or a random one, answers no request
  -- that lacks it, provided that a random token is never blank: each such request gets a 403, and
  -- nothing else changes.
  pub prepare-serve :
      (f : Flags) (p : Prepared W) (id : String) (r : Incoming) (g : Live W)
      → prepare machine src lib parts f ≡ ok p
      → f.gateway_token ≢ ""
      → ((t : String) → machine.random_hex ≡ ok t → t ≢ "")
      → Header.get r.header "X-Claviger-Token" ≢ p.gateway.require_token
      → (message : String) × (serve p.gateway id r g ≡ (http_error 403 message, g))
  prepare-serve f p id r g h given random lacks =
      let (built, made, stored, known, required) = prepare-Steps f p h in
      serve_refuses p.gateway r id g (λ local. elim local.token [
        | inl open_to_all ↦
            effective_token_given f.gateway_token p.gateway.require_token required given random
              open_to_all
        | inr same ↦ lacks same
      ])

  -- The daemon's store and gateway know the same identities: the store has an entry for an
  -- identity, one with no session, exactly if the gateway has its recipe.
  pub prepare-entries :
      (f : Flags) (p : Prepared W) (name : String)
      → prepare machine src lib parts f ≡ ok p
      → entry_of name p.store.entries ≡ Option.map new_entry (lookup name p.gateway.recipes)
  prepare-entries f p name h =
      let (built, made, stored, known, required) = prepare-Steps f p h in
      rw (stored, known) (build_store-entries src lib f.config f.tls built name made)
