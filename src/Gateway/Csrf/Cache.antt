-- ===== src/Gateway/Csrf/Cache.antt =====
-- The token cache of csrfTokenFor in internal/gateway/gateway.go.
use claviger.Prelude.Maps.{lookup, lookup-insert}
use mathlib.Core.Option
use claviger.Prelude.{◌+◌, ◌<◌, String, ◌≡◌, Option, some, ok, arith, lt→ltb, eq_refl}
use claviger.Gateway.State.{Config, Live, CsrfPolicy, CachedToken, csrf_ttl}
use claviger.Gateway.Csrf.{cached, fetch_token, csrf_token_for}

module _ {W : Type 0} (cfg : Config W) (id : String) where
  -- The token in the cache, of whatever age.
  abbrev token_in : Live W → Option String
  token_in g = Option.map (λ ct. ct.value) (lookup id g.csrf_cache)

  fetch_token_caches :
      (pol : CsrfPolicy) (g : Live W) (token : String)
      → (fetch_token cfg id pol g).0 ≡ ok token
      → token_in (fetch_token cfg id pol g).1 ≡ some token
  unfolding fetch_token
  fetch_token_caches pol g token h = grind (arith, lookup-insert, eq_refl)

  cached-hit :
      (g : Live W) (token : String)
      → (cached cfg id g).0 ≡ ok (some token)
      → token_in (cached cfg id g).1 ≡ some token
  unfolding cached
  cached-hit g token h = ground arith

  -- A token that csrfTokenFor returns is in the cache when it returns.
  pub csrf_token_for_caches :
      (pol : CsrfPolicy) (g : Live W) (token : String)
      → (csrf_token_for cfg id pol g).0 ≡ ok token
      → token_in (csrf_token_for cfg id pol g).1 ≡ some token
  unfolding csrf_token_for
  csrf_token_for_caches pol g token h = grind (arith, cached-hit, fetch_token_caches)

  -- While a cached token is younger than csrfTTL it is what csrfTokenFor returns, and nothing is
  -- sent, no session is looked up, and the cache stays.
  pub csrf_token_for_reuses :
      (pol : CsrfPolicy) (g : Live W) (ct : CachedToken)
      → lookup id g.csrf_cache ≡ some ct
      → (cfg.env.now g.world).0 < ct.at + csrf_ttl
      → csrf_token_for cfg id pol g ≡ (ok ct.value, record g { world = (cfg.env.now g.world).1 })
  unfolding csrf_token_for cached
  csrf_token_for_reuses pol g ct hit young = rw (hit, cached) (rw (lt→ltb _ _ young))
