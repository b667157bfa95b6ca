-- ===== src/Gateway/Still.antt =====
-- What serve of internal/gateway/gateway.go does not touch, part by part: a view of the shared state
-- that its reads and writes of the store, its requests and its token cache leave alone is the same
-- after all of the handler but its audit record.
use claviger.Prelude.Maps.{lookup, remove}
use claviger.Prelude.{
  Bool-cases, Option-cases, inl, inr, String, ◌≡◌, ◌∙◌, refl, Bool, List, Option, none, some,
  Result, ok, err, arith,
}
use claviger.Http.{Request, Response}
use claviger.Effect.{Eff}
use claviger.Recipe.{Recipe}
use claviger.Gateway.State.{
  Config, Live, Incoming, Audit, CsrfPolicy, CachedToken, Sent, store_get, store_refresh,
  check_request, send,
}
use claviger.Gateway.Csrf.{
  cached, fetch_token, or_fetch, store_token, csrf_token_for, invalidate_csrf,
}
use claviger.Gateway.Forward.{authorize, forward}
use claviger.Gateway.Serve.{
  refusal, serve_body, is_managed, policy_if_managed, audit, csrf_pair, replay, recover, respond,
  serve_admitted, serve,
}

-- The view does not show what the parts of the handler change.
pub record Blind {W X : Type 0} (cfg : Config W) (see : Live W → X) : Type 0 where
  pub to_world : (g : Live W) (w : W) → see (record g { world = w }) ≡ see g
  pub to_cache :
      (g : Live W) (cache : List (String × CachedToken)) (w : W)
      → see (record g { csrf_cache = cache; world = w }) ≡ see g
  pub to_get : (id : String) (g : Live W) → see (store_get cfg id g).1 ≡ see g
  pub to_refresh : (id : String) (g : Live W) → see (store_refresh cfg id g).1 ≡ see g
  pub to_send :
      (kind : Request → Sent) (req : Request) (g : Live W) → see (send cfg kind req g).1 ≡ see g

module _ {W X : Type 0} (cfg : Config W) (see : Live W → X) (blind : Blind cfg see) where
  -- The view is the same after the action.
  abbrev pub Quiet : {A : Type 0} → Eff (Live W) A → Type 0
  Quiet m = (g : Live W) → see (m g).1 ≡ see g

  store_get-Quiet : (id : String) → Quiet (store_get cfg id)
  store_get-Quiet = blind.to_get

  store_refresh-Quiet : (id : String) → Quiet (store_refresh cfg id)
  store_refresh-Quiet = blind.to_refresh

  send-Quiet : (kind : Request → Sent) (req : Request) → Quiet (send cfg kind req)
  send-Quiet = blind.to_send

  check-Quiet : (method url : String) → Quiet (check_request cfg method url)
  check-Quiet method url g = ground arith

  store_token-Quiet : (id token : String) → Quiet (store_token cfg id token)
  store_token-Quiet id token g = blind.to_cache g _ _

  fetch_token-Quiet : (id : String) (pol : CsrfPolicy) → Quiet (fetch_token cfg id pol)
  unfolding fetch_token
  fetch_token-Quiet id pol g = grind (arith, store_get-Quiet, send-Quiet)

  authorize-Quiet :
      (id : String) (b : Bool) (h t : String) (req : Request) → Quiet (authorize cfg id b h t req)
  unfolding authorize
  authorize-Quiet id b h t req g = grind (arith, store_get-Quiet)

  pub forward-Quiet :
      (r : Incoming) (body id : String) (b : Bool) (h t : String)
      → Quiet (forward cfg r body id b h t)
  unfolding forward
  forward-Quiet r body id b h t g = grind (arith, authorize-Quiet, send-Quiet)

  cached-Quiet : (id : String) → Quiet (cached cfg id)
  unfolding cached
  cached-Quiet id g = elim (Option-cases (lookup id g.csrf_cache)) [
    | inl miss ↦ rw (miss, cached) refl
    | inr (ct, hit) ↦ rw (hit, cached) (blind.to_world g (cfg.env.now g.world).1)
  ]

  or_fetch-Quiet :
      (id : String) (pol : CsrfPolicy) (hit : Option String) → Quiet (or_fetch cfg id pol hit)
  or_fetch-Quiet id pol none g = fetch_token-Quiet id pol g
  or_fetch-Quiet id pol (some token) g = refl

  csrf_token_for-Quiet : (id : String) (pol : CsrfPolicy) → Quiet (csrf_token_for cfg id pol)
  unfolding csrf_token_for
  csrf_token_for-Quiet id pol g = grind (arith, cached-Quiet, or_fetch-Quiet)

  pub csrf_pair_quiet :
      (pol : Option CsrfPolicy) (id : String) (old : String × String) (g : Live W)
      → see (csrf_pair cfg pol id old g).1 ≡ see g
  unfolding csrf_pair
  csrf_pair_quiet none id old g = refl
  csrf_pair_quiet (some pol) id old g = grind (arith, csrf_token_for-Quiet)

  replay_quiet :
      (r : Incoming) (body id : String) (csrf : String × String) (resp : Response) (g : Live W)
      → see (replay cfg r body id csrf resp g).1 ≡ see g
  unfolding replay
  replay_quiet r body id csrf resp g = grind (arith, csrf_pair_quiet, forward-Quiet)

  invalidate_quiet : (id : String) (g : Live W) → see (invalidate_csrf id g) ≡ see g
  unfolding invalidate_csrf
  invalidate_quiet id g = blind.to_cache g (remove id g.csrf_cache) g.world

  pub recover_quiet :
      (rec : Option (Recipe W)) (r : Incoming) (body id : String) (csrf : String × String)
      (resp : Response) (g : Live W)
      → see (recover cfg rec r body id csrf resp g).1 ≡ see g
  unfolding recover
  recover_quiet none r body id csrf resp g = refl
  recover_quiet (some rec) r body id csrf resp g =
      grind (arith, store_refresh-Quiet, replay_quiet, invalidate_quiet)

module _ {W X : Type 0} (cfg : Config W) (see : Live W → X) (blind : Blind cfg see)
    (to_audits : (g : Live W) (audits : List Audit)
      → see (record g { audits = audits }) ≡ see g) where
  audit_quiet :
      (id : String) (r : Incoming) (resp : Response) (g : Live W)
      → see (audit cfg r id resp g) ≡ see g
  audit_quiet id r resp g = elim (Bool-cases cfg.has_audit) [
    | inl kept ↦ rw kept (to_audits g _)
    | inr off ↦ rw off refl
  ]

  respond_quiet :
      (rec : Option (Recipe W)) (r : Incoming) (body id : String) (csrf : String × String)
      (out : Result Response × Live W)
      → see (respond cfg rec r body id csrf out).1 ≡ see out.1
  unfolding respond
  respond_quiet rec r body id csrf (err x, g) = refl
  respond_quiet rec r body id csrf (ok resp, g) =
      let last = recover cfg rec r body id csrf resp g in
      audit_quiet id r last.0 last.1 ∙ recover_quiet cfg see blind rec r body id csrf resp g

  serve_admitted_quiet :
      (rec : Option (Recipe W)) (r : Incoming) (body id : String) (g : Live W)
      → see (serve_admitted cfg rec r body id g).1 ≡ see g
  unfolding serve_admitted
  serve_admitted_quiet rec r body id g =
      let pair = csrf_pair cfg (policy_if_managed cfg rec id r.method) id ("", "") g in
      respond_quiet rec r body id pair.0 _
      ∙ forward-Quiet cfg see blind r body id (is_managed cfg rec) pair.0.0 pair.0.1 pair.1
      ∙ csrf_pair_quiet cfg see blind (policy_if_managed cfg rec id r.method) id ("", "") g

  serve_body_quiet :
      (id : String) (r : Incoming) (body : Result String) (g : Live W)
      → see (serve_body cfg r id body g).1 ≡ see g
  serve_body_quiet id r (ok body) g = serve_admitted_quiet (lookup id cfg.recipes) r body id g
  serve_body_quiet id r (err x) g = refl

  -- The view is the same after the handler.
  pub serve_quiet : (id : String) (r : Incoming) (g : Live W) → see (serve cfg id r g).1 ≡ see g
  unfolding serve
  serve_quiet id r g = elim (Option-cases (refusal cfg r)) [
    | inl let_in ↦ rw (let_in, serve) (serve_body_quiet id r r.body g)
    | inr (message, e) ↦ rw (e, serve) refl
  ]
