-- ===== src/Daemon/Flags.antt =====
-- cmd/tls.go: the TLS flags, and the warnings that the daemon prints about its configuration.
pub mod Plaintext
use claviger.Prelude.{
  ℕ, ◌+◌, String, ◌≡◌, refl, Bool, true, false, not, ◌&&◌, ◌||◌, List, [], ◌∷◌, ◌++◌, Option, none,
  some, ◌==◌, eq_refl, if◌then◌else◌, any, count, length, length-append, arith, Bool-cases, inl,
  inr,
}
use claviger.Text.{contains, has_prefix, to_lower}
use claviger.Recipe.Flow.{FlowStep}
use claviger.Config.{Config, TlsConfig, IdentityConfig, effective_tls, to_httpx}

-- tlsFlags
pub record TlsFlags : Type 0 where
  pub insecure : Bool
  pub insecure_set : Bool
  pub ca_cert : String
  pub ca_cert_set : Bool
  pub client_cert : String
  pub client_cert_set : Bool
  pub client_key : String
  pub client_key_set : Bool

-- applyTLSFlags on the global policy
unfoldable pub override_tls : TlsFlags → TlsConfig → TlsConfig
override_tls f t = record {
  insecure = if f.insecure_set then f.insecure else t.insecure;
  ca_cert = if f.ca_cert_set then f.ca_cert else t.ca_cert;
  client_cert = if f.client_cert_set then f.client_cert else t.client_cert;
  client_key = if f.client_key_set then f.client_key else t.client_key;
}

-- applyTLSFlags
unfoldable pub apply_tls_flags : TlsFlags → Config → Config
apply_tls_flags f c = record c { tls = override_tls f c.tls }

-- A line that the daemon prints: verification off globally or for an identity, or a plaintext URL
-- of an identity, with its kind.
pub data Warning : Type 0 where
  unverified_globally : Warning
  unverified : String → Warning
  plaintext : String → String → Warning

abbrev is_insecure : Option TlsConfig → Bool
is_insecure none = false
is_insecure (some t) = t.insecure

-- The loop of warnIfInsecure.
unfoldable pub insecure_identities : List IdentityConfig → List Warning
insecure_identities [] = []
insecure_identities (id ∷ ids) =
    let rest = insecure_identities ids in
    if is_insecure id.tls then unverified id.name ∷ rest else rest

-- warnIfInsecure
unfoldable pub warn_if_insecure : Config → List Warning
warn_if_insecure c =
    (if c.tls.insecure then unverified_globally ∷ [] else []) ++ insecure_identities c.identities

abbrev pub is_http : Option (String × String) → Bool
is_http none = false
is_http (some (scheme, host)) = scheme == "http"

-- The steps whose URL is a template: a warning each if it begins with http://.
unfoldable pub template_warnings : String → List FlowStep → List Warning
template_warnings name [] = []
template_warnings name (s ∷ steps) =
    let rest = template_warnings name steps in
    if contains s.url "{{" && has_prefix (to_lower s.url) "http://"
    then plaintext name "step" ∷ rest
    else rest

-- The endpoints of the other steps.
unfoldable pub step_endpoints : List FlowStep → List (String × String)
step_endpoints [] = []
step_endpoints (s ∷ steps) =
    let rest = step_endpoints steps in if contains s.url "{{" then rest else ("step", s.url) ∷ rest

module _ (parse_url : String → Option (String × String)) where
  -- The loop over the endpoints; a blank one and one that does not parse are passed over.
  unfoldable pub endpoint_warnings : String → List (String × String) → List Warning
  endpoint_warnings name [] = []
  endpoint_warnings name ((which, raw) ∷ eps) =
      let rest = endpoint_warnings name eps in
      if not (raw == "") && is_http (parse_url raw) then plaintext name which ∷ rest else rest

  -- The body of the loop of warnIfPlaintextAuth.
  unfoldable pub plaintext_warnings : IdentityConfig → List Warning
  plaintext_warnings id =
      template_warnings id.name id.steps
      ++ endpoint_warnings id.name
          (("login", id.login_url) ∷ ("token", id.token_url) ∷ step_endpoints id.steps)

  -- warnIfPlaintextAuth
  unfoldable pub warn_if_plaintext_auth : List IdentityConfig → List Warning
  warn_if_plaintext_auth [] = []
  warn_if_plaintext_auth (id ∷ ids) = plaintext_warnings id ++ warn_if_plaintext_auth ids

-- The warning names the policy of this identity.
abbrev pub tells_of : String → Warning → Bool
tells_of name unverified_globally = true
tells_of name (unverified other) = other == name
tells_of name (plaintext other which) = false

any-append {ℓ} :
    {A : Type ℓ} (p : A → Bool) (xs ys : List A) → any p (xs ++ ys) ≡ any p xs || any p ys
any-append p [] ys = refl
any-append p (x ∷ xs) ys = ground (arith, any-append p xs ys)

insecure_identities_tell :
    (before after : List IdentityConfig) (id : IdentityConfig)
    → is_insecure id.tls ≡ true
    → any (tells_of id.name) (insecure_identities (before ++ id ∷ after)) ≡ true
unfolding insecure_identities
insecure_identities_tell [] after id h = rw (h, eq_refl id.name) refl
insecure_identities_tell (i ∷ before) after id h =
    ground (arith, insecure_identities_tell before after id h)

own_insecure :
    (global : TlsConfig) (own : Option TlsConfig)
    → global.insecure ≡ false
    → (effective_tls global own).insecure ≡ true
    → is_insecure own ≡ true
own_insecure global none off on = cc
own_insecure global (some t) off on = on

-- No client is built without verification in silence: when the policy that an identity's client is
-- built with, flags and overrides applied, skips the verification of the server, the daemon prints
-- a warning, of the global policy or of that identity.
pub insecure_is_warned :
    (f : TlsFlags) (c : Config) (before after : List IdentityConfig) (id : IdentityConfig)
    → c.identities ≡ before ++ id ∷ after
    → (to_httpx (effective_tls (apply_tls_flags f c).tls id.tls)).insecure_skip_verify ≡ true
    → any (tells_of id.name) (warn_if_insecure (apply_tls_flags f c)) ≡ true
unfolding warn_if_insecure apply_tls_flags to_httpx
insecure_is_warned f c before after id split h = elim (Bool-cases (override_tls f c.tls).insecure) [
  | inl globally ↦ rw globally refl
  | inr not_globally ↦
      rw (not_globally, split)
        (insecure_identities_tell before after id
          (own_insecure (override_tls f c.tls) id.tls not_globally h))
]
