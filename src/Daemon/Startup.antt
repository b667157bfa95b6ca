-- ===== src/Daemon/Startup.antt =====
-- cmd/daemon.go: the store, the recipes and the anti-CSRF policies that the daemon starts with.
use mathlib.Core.Option
use claviger.Prelude.{
  ℕ, String, ◌≡◌, ◌≢◌, refl, ap, subst, ◌∙◌, Bool, true, false, ◌||◌, List, [], ◌∷◌, Option, none,
  some, bad_config, Result, ok, err, ◌>>=◌, bind-ok, ok_injective, ◌==◌, eq_iff, if◌then◌else◌, All,
  arith, Bool-cases, inl, inr,
}
use claviger.Prelude.Int.{ℤ, pos, negsuc}
use claviger.Prelude.Maps.{lookup, insert}
use claviger.Recipe.{Recipe}
use claviger.Store.{Store, entry_of, put_entry, register}
use claviger.Store
use claviger.Store.Entry.{new_entry}
use claviger.Store.Frame.{entry_of-put_entry}
use claviger.Config.{Config, CsrfConfig, IdentityConfig, Builder, recipes}
use claviger.Config.Secrets.{Sources, load}
use claviger.Config.Names.{IsOwn, recipes-identity}
use claviger.Config.Each.{insert-All}
use claviger.Config.Unique.{IsUnique, recipes-IsUnique}
use claviger.Gateway.State.{CsrfPolicy}
use claviger.Gateway.Csrf.{new_csrf_policy, or_default_methods, clean_methods}
use claviger.Daemon.Flags.{TlsFlags, apply_tls_flags}

-- A value that is not positive is the same to WithBackoff as 0.
abbrev pub nonnegative : ℤ → ℕ
nonnegative (pos n) = n
nonnegative (negsuc n) = 0

-- The loop that registers the recipes.
unfoldable pub register_all : {W : Type 0} → List (String × Recipe W) → Store W → Store W
register_all [] st = st
register_all ((name, r) ∷ rs) st = register_all rs (register r st)

-- What buildStore returns.
pub record Built (W : Type 0) : Type 0 where
  pub store : Store W
  pub recipes : List (String × Recipe W)
  pub config : Config

module _ {W J P C : Type 0} (src : Sources) (lib : Builder W J P C) where
  -- buildStore
  unfoldable pub build_store : String → TlsFlags → Result (Built W)
  build_store path tls = load src path >>= λ cfg. recipes lib (apply_tls_flags tls cfg) >>= λ rs.
      ok (record {
        store =
            register_all rs
              (Store.new (nonnegative cfg.backoff.max_burst) (nonnegative cfg.backoff.window));
        recipes = rs;
        config = apply_tls_flags tls cfg;
      })

-- The policy of one csrf block; `compile` is regexp.Compile.
unfoldable pub csrf_policy :
    (String → Result (String → List String)) → String → CsrfConfig → Result CsrfPolicy
csrf_policy compile name c =
    if (c.fetch_url == "") || (c.pattern == "") || (c.header == "")
    then err (bad_config name "csrf requires fetch_url, pattern, and header")
    else new_csrf_policy c.fetch_url (compile c.pattern) c.header c.methods

abbrev add_policy :
    (String → Result (String → List String))
    → String
    → Option CsrfConfig
    → List (String × CsrfPolicy)
    → Result (List (String × CsrfPolicy))
add_policy compile name none out = ok out
add_policy compile name (some c) out =
    csrf_policy compile name c >>= λ pol. ok (insert name pol out)

-- buildCSRFPolicies, with the policies so far
unfoldable pub build_csrf_policies :
    (String → Result (String → List String))
    → List IdentityConfig
    → List (String × CsrfPolicy)
    → Result (List (String × CsrfPolicy))
build_csrf_policies compile [] out = ok out
build_csrf_policies compile (id ∷ ids) out =
    add_policy compile id.name id.csrf out >>= λ next. build_csrf_policies compile ids next

abbrev pub or_else {ℓ} : {A : Type ℓ} → Option A → Option A → Option A
or_else none d = d
or_else (some a) d = some a

or_else-none {ℓ} : {A : Type ℓ} (o : Option A) → or_else o none ≡ o
or_else-none none = refl
or_else-none (some a) = refl

or_else-if {ℓ κ} :
    {A : Type ℓ} {R : Type κ} (f : R → A) (same : Bool) (r : R) (rest : Option R) (old : Option A)
    → (same ≡ true → rest ≡ none)
    → or_else (Option.map f rest) (if same then some (f r) else old)
      ≡ or_else (Option.map f (if same then some r else rest)) old
or_else-if f true r rest old h = rw (h refl) refl
or_else-if f false r rest old h = refl

-- Each recipe has a new entry under its name, and the other entries are those of before.
entry_of-register_all :
    {W : Type 0} (name : String) (rs : List (String × Recipe W)) (st : Store W)
    → All IsOwn rs
    → IsUnique rs
    → entry_of name (register_all rs st).entries
      ≡ or_else (Option.map new_entry (lookup name rs)) (entry_of name st.entries)
unfolding register_all register lookup
entry_of-register_all name [] st own u = refl
entry_of-register_all name ((k, r) ∷ rs) st (own, owns) (fresh, u) =
    entry_of-register_all name rs (register r st) owns u
    ∙ ap (or_else (Option.map new_entry (lookup name rs))) (
        subst
          (λ i.
            entry_of name (put_entry r.identity (new_entry r) st.entries)
            ≡ (if i == name then some (new_entry r) else entry_of name st.entries))
          own (entry_of-put_entry r.identity name (new_entry r) st.entries))
    ∙ or_else-if new_entry (k == name) r (lookup name rs) (entry_of name st.entries)
        (λ same. ground (arith, fresh, eq_iff k name, same))

module _ {W J P C : Type 0} (src : Sources) (lib : Builder W J P C) where
  -- A store that is built has an entry for each recipe of the configuration, under the name of its
  -- identity and with no session yet, and no other entry.
  pub build_store-entries :
      (path : String) (tls : TlsFlags) (b : Built W) (name : String)
      → build_store src lib path tls ≡ ok b
      → entry_of name b.store.entries ≡ Option.map new_entry (lookup name b.recipes)
  unfolding build_store Store.new entry_of
  build_store-entries path tls b name h =
      let (cfg, loaded, h1) = bind-ok (load src path) _ b h in
      let (rs, built, h2) = bind-ok (recipes lib (apply_tls_flags tls cfg)) _ b h1 in
      subst
        (λ (b : Built W).
          entry_of name b.store.entries ≡ Option.map new_entry (lookup name b.recipes))
        (ok_injective _ b h2)
        (entry_of-register_all name rs
            (Store.new (nonnegative cfg.backoff.max_burst) (nonnegative cfg.backoff.window))
            (recipes-identity lib (apply_tls_flags tls cfg) rs built)
            (recipes-IsUnique lib (apply_tls_flags tls cfg) rs built)
          ∙ or_else-none (Option.map new_entry (lookup name rs)))

-- The policy can be applied: it has a URL, a header and at least one method.
abbrev pub IsComplete : String × CsrfPolicy → Type 0
IsComplete (name, pol) = (pol.fetch_url ≢ "") × (pol.header ≢ "") × (pol.methods ≢ [])

or_default_methods_some : (ms : List String) → or_default_methods ms ≢ []
or_default_methods_some [] e = cc
or_default_methods_some (m ∷ ms) e = cc

new_csrf_policy_lem :
    (url header : String) (compiled : Result (String → List String)) (methods : List String)
    (pol : CsrfPolicy)
    → new_csrf_policy url compiled header methods ≡ ok pol
    → (pol.fetch_url ≡ url) × (pol.header ≡ header) × (pol.methods ≢ [])
unfolding new_csrf_policy
new_csrf_policy_lem url header (err x) methods pol h = cc
new_csrf_policy_lem url header (ok find) methods pol h =
    subst (λ (p : CsrfPolicy). (p.fetch_url ≡ url) × (p.header ≡ header) × (p.methods ≢ []))
      (ok_injective _ pol h) (refl, refl, or_default_methods_some (clean_methods methods))

csrf_policy-IsComplete :
    (compile : String → Result (String → List String)) (name : String) (c : CsrfConfig)
    (pol : CsrfPolicy)
    → csrf_policy compile name c ≡ ok pol
    → IsComplete (name, pol)
unfolding csrf_policy
csrf_policy-IsComplete compile name c pol h =
    elim (Bool-cases ((c.fetch_url == "") || (c.pattern == "") || (c.header == ""))) [
      | inl blank ↦ ground (arith, h, blank)
      | inr full ↦
          let (url, header, methods) =
            new_csrf_policy_lem c.fetch_url c.header (compile c.pattern) c.methods pol
              (rw full at h) in
          (
            (λ e. ground (arith, full, eq_iff c.fetch_url "", e, url)),
            (λ e. ground (arith, full, eq_iff c.header "", e, header)),
            methods,
          )
    ]

add_policy-IsComplete :
    (compile : String → Result (String → List String)) (name : String) (block : Option CsrfConfig)
    (out next : List (String × CsrfPolicy))
    → All IsComplete out
    → add_policy compile name block out ≡ ok next
    → All IsComplete next
add_policy-IsComplete compile name none out next sofar h = subst (All IsComplete) (cc h) sofar
add_policy-IsComplete compile name (some c) out next sofar h =
    let (pol, made, h1) = bind-ok (csrf_policy compile name c) _ next h in
    subst (All IsComplete) (cc h1)
      (insert-All IsComplete name pol out (csrf_policy-IsComplete compile name c pol made) sofar)

-- Whatever the csrf blocks say, each policy that the daemon starts with has a URL, a header and at
-- least one method, when those it has so far do.
pub build_csrf_policies-IsComplete :
    (compile : String → Result (String → List String)) (ids : List IdentityConfig)
    (out last : List (String × CsrfPolicy))
    → All IsComplete out
    → build_csrf_policies compile ids out ≡ ok last
    → All IsComplete last
unfolding build_csrf_policies csrf_policy new_csrf_policy
build_csrf_policies-IsComplete compile [] out last sofar h = subst (All IsComplete) (cc h) sofar
build_csrf_policies-IsComplete compile (id ∷ ids) out last sofar h =
    let (next, one, rest) = bind-ok (add_policy compile id.name id.csrf out) _ last h in
    build_csrf_policies-IsComplete compile ids next last
      (add_policy-IsComplete compile id.name id.csrf out next sofar one) rest
