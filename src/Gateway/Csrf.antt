-- ===== src/Gateway/Csrf.antt =====
-- The anti-CSRF tokens of internal/gateway/gateway.go.
pub mod Cache
use claviger.Prelude.Maps.{lookup, insert, remove}
use claviger.Prelude.{
  ℕ, ◌+◌, String, Bool, ◌&&◌, List, [], ◌∷◌, Option, none, some, Error, external, Result, ok, err,
  any, ltb, ◌==◌, if◌then◌else◌,
}
use claviger.Text.{to_upper, trim_space}
use claviger.Http.{Request, Response}
use claviger.Session.{Session, apply}
use claviger.Effect.{Eff, ◌>>=◌, pure, raise}
use claviger.Gateway.State.{
  Config, Live, CsrfPolicy, CachedToken, csrf_ttl, token_fetch, read_clock, store_get,
  check_request, send,
}

-- The methods of NewCSRFPolicy: trimmed, in upper case, the empty ones dropped.
unfoldable pub clean_methods : List String → List String
clean_methods [] = []
clean_methods (m ∷ ms) =
    let name = to_upper (trim_space m) in
    let rest = clean_methods ms in if name == "" then rest else name ∷ rest

abbrev pub or_default_methods : List String → List String
or_default_methods [] = "POST" ∷ "PUT" ∷ "DELETE" ∷ "PATCH" ∷ []
or_default_methods (m ∷ ms) = m ∷ ms

-- NewCSRFPolicy, where `compiled` is the pattern if it compiles
unfoldable pub new_csrf_policy :
    String → Result (String → List String) → String → List String → Result CsrfPolicy
new_csrf_policy url (err x) header methods = err x
new_csrf_policy url (ok compiled) header methods = ok (record {
  fetch_url = url;
  header = header;
  methods = or_default_methods (clean_methods methods);
  find_submatch = compiled;
})

-- pol.Methods[strings.ToUpper(method)]
unfoldable pub covers : CsrfPolicy → String → Bool
covers pol method = any (λ m. m == to_upper method) pol.methods

-- `len(m) < 2`, else m[1]
abbrev pub second_group : String → List String → Result String
second_group url (whole ∷ token ∷ groups) = ok token
second_group url groups = err (external url)

module _ {W : Type 0} (cfg : Config W) where
  -- The cached token while `time.Since(ct.at) < csrfTTL`; the clock is read only on a hit.
  unfoldable pub cached : String → Eff (Live W) (Option String)
  cached id g = elim (lookup id g.csrf_cache) [
    | none ↦ (ok none, g)
    | some ct ↦
        let (t, w) = cfg.env.now g.world in
        (ok (if ltb t (ct.at + csrf_ttl) then some ct.value else none), record g { world = w })
  ]

  abbrev pub token_of : CsrfPolicy → Response → Eff (Live W) String
  token_of pol resp g = (second_group pol.fetch_url (pol.find_submatch resp.body), g)

  abbrev pub store_token : String → String → Eff (Live W) String
  store_token id token g =
      let (t, w) = cfg.env.now g.world in
      (
        ok token,
        record g {
          csrf_cache = insert id (record { value = token; at = t }) g.csrf_cache;
          world = w;
        },
      )

  -- csrfTokenFor past the cache: a GET under the identity's session
  unfoldable pub fetch_token : String → CsrfPolicy → Eff (Live W) String
  fetch_token id pol = do
    fine ← check_request cfg "GET" pol.fetch_url
    sess ← store_get cfg id
    resp ← send cfg token_fetch (
        apply cfg.env.cookie_pair sess
          (record { method = "GET"; target = pol.fetch_url; header = []; body = "" }))
    token ← token_of pol resp
    store_token id token

  abbrev pub or_fetch : String → CsrfPolicy → Option String → Eff (Live W) String
  or_fetch id pol (some token) = pure token
  or_fetch id pol none = fetch_token id pol

  -- csrfTokenFor
  unfoldable pub csrf_token_for : String → CsrfPolicy → Eff (Live W) String
  csrf_token_for id pol = do hit ← cached id; or_fetch id pol hit

-- invalidateCSRF
unfoldable pub invalidate_csrf : {W : Type 0} → String → Live W → Live W
invalidate_csrf id g = record g { csrf_cache = remove id g.csrf_cache }
