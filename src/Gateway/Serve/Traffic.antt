-- ===== src/Gateway/Serve/Traffic.antt =====
-- How much one request makes the gateway send, by serve of internal/gateway/gateway.go.
use claviger.Prelude.{
  ℕ, ◌+◌, ◌≤◌, String, ◌≡◌, refl, Bool, true, false, [], ◌∷◌, Option, none, some, Result, ok, err,
  arith, count, count-append, if◌then◌else◌,
}
use claviger.Http.{Request, Response}
use claviger.Effect.{Eff}
use claviger.Recipe.{Recipe}
use claviger.Gateway.Retry.{is_idempotent}
use claviger.Gateway.State.{
  Config, Live, Incoming, CsrfPolicy, Sent, token_fetch, forwarded, store_get, store_refresh,
  check_request, send,
}
use claviger.Gateway.Csrf.{cached, fetch_token, csrf_token_for, invalidate_csrf}
use claviger.Gateway.Forward.{authorize, forward}
use claviger.Gateway.Serve.{csrf_pair, replay, recover, respond, serve_admitted, serve}

abbrev pub is_forwarded : Sent → Bool
is_forwarded (token_fetch req) = false
is_forwarded (forwarded req) = true

-- How many requests have been forwarded to the target.
abbrev pub forwards : {W : Type 0} → Live W → ℕ
forwards g = count is_forwarded g.sent

-- The action forwards at most `n` requests.
abbrev Adds : {W A : Type 0} → ℕ → Eff (Live W) A → Type 0
Adds {W} n m = (g : Live W) → forwards (m g).1 ≤ forwards g + n

module _ {W : Type 0} (cfg : Config W) where
  store_get-Adds : (id : String) → Adds 0 (store_get cfg id)
  unfolding store_get
  store_get-Adds id g = omega arith

  check-Adds : (method url : String) → Adds 0 (check_request cfg method url)
  check-Adds method url g = ground arith

  fetch-Adds : (req : Request) → Adds 0 (send cfg token_fetch req)
  unfolding send
  fetch-Adds req g = omega (arith, count-append is_forwarded g.sent (token_fetch req ∷ []))

  send-Adds : (req : Request) → Adds 1 (send cfg forwarded req)
  unfolding send
  send-Adds req g = omega (arith, count-append is_forwarded g.sent (forwarded req ∷ []))

  fetch_token-Adds : (id : String) (pol : CsrfPolicy) → Adds 0 (fetch_token cfg id pol)
  unfolding fetch_token
  fetch_token-Adds id pol g = grind (arith, store_get-Adds, fetch-Adds)

  authorize-Adds :
      (id : String) (b : Bool) (h t : String) (req : Request) → Adds 0 (authorize cfg id b h t req)
  unfolding authorize
  authorize-Adds id b h t req g = grind (arith, store_get-Adds)

  forward-Adds :
      (r : Incoming) (body id : String) (b : Bool) (h t : String)
      → Adds 1 (forward cfg r body id b h t)
  unfolding forward
  forward-Adds r body id b h t g = grind (arith, authorize-Adds, send-Adds)

  cached-Adds : (id : String) → Adds 0 (cached cfg id)
  unfolding cached
  cached-Adds id g = ground arith

  token_for-Adds : (id : String) (pol : CsrfPolicy) → Adds 0 (csrf_token_for cfg id pol)
  unfolding csrf_token_for
  token_for-Adds id pol g = grind (arith, cached-Adds, fetch_token-Adds)

  csrf_pair_adds :
      (pol : Option CsrfPolicy) (id : String) (old : String × String) (g : Live W)
      → forwards (csrf_pair cfg pol id old g).1 ≤ forwards g
  unfolding csrf_pair
  csrf_pair_adds none id old g = omega arith
  csrf_pair_adds (some pol) id old g = grind (arith, token_for-Adds)

  -- One more request for an idempotent method, none for the others.
  abbrev retries : Incoming → ℕ
  retries r = if is_idempotent r.method then 1 else 0

  replay_adds :
      (r : Incoming) (body id : String) (csrf : String × String) (resp : Response) (g : Live W)
      → forwards (replay cfg r body id csrf resp g).1 ≤ forwards g + retries r
  unfolding replay
  replay_adds r body id csrf resp g = grind (arith, csrf_pair_adds, forward-Adds)

  refresh-Adds : (id : String) → Adds 0 (store_refresh cfg id)
  unfolding store_refresh
  refresh-Adds id g = omega arith

  forwards-invalidate : (id : String) (g : Live W) → forwards (invalidate_csrf id g) ≡ forwards g
  unfolding invalidate_csrf
  forwards-invalidate id g = refl

  recover_adds :
      (rec : Option (Recipe W)) (r : Incoming) (body id : String) (csrf : String × String)
      (resp : Response) (g : Live W)
      → forwards (recover cfg rec r body id csrf resp g).1 ≤ forwards g + retries r
  unfolding recover
  recover_adds none r body id csrf resp g = omega arith
  recover_adds (some rec) r body id csrf resp g =
      grind (arith, refresh-Adds, replay_adds, forwards-invalidate)

  respond_adds :
      (rec : Option (Recipe W)) (r : Incoming) (body id : String) (csrf : String × String)
      (out : Result Response × Live W)
      → forwards (respond cfg rec r body id csrf out).1 ≤ forwards out.1 + retries r
  unfolding respond
  respond_adds rec r body id csrf (err x, g) = omega arith
  respond_adds rec r body id csrf (ok resp, g) =
      ground (arith, recover_adds rec r body id csrf resp g)

  admitted_adds :
      (rec : Option (Recipe W)) (r : Incoming) (body id : String) (g : Live W)
      → forwards (serve_admitted cfg rec r body id g).1 ≤ forwards g + (1 + retries r)
  unfolding serve_admitted
  admitted_adds rec r body id g = grind (arith, respond_adds, forward-Adds, csrf_pair_adds)

  -- A request is forwarded to the target at most twice, and at most once if its method is not
  -- idempotent, whatever the target and the login endpoints answer.
  pub forwards-serve :
      (id : String) (r : Incoming) (g : Live W)
      → forwards (serve cfg id r g).1 ≤ forwards g + (if is_idempotent r.method then 2 else 1)
  unfolding serve
  forwards-serve id r g = grind (arith, admitted_adds)
