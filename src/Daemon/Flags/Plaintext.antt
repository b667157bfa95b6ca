-- ===== src/Daemon/Flags/Plaintext.antt =====
-- The warnings of warnIfPlaintextAuth in cmd/tls.go.
use claviger.Prelude.{
  Some-if, if-Some, ◌&&◌, not, String, ◌≡◌, ◌≢◌, ◌↔◌, ◌⊎◌, sym, ap, Bool, true, false, List, [],
  ◌∷◌, ◌++◌, Option, none, some, ◌==◌, eq_iff, Bool-cases, arith, inl, inr, Some, Some-map,
  Some-left, Some-right, Some-append,
}
use claviger.Text.{contains, has_prefix, to_lower}
use claviger.Recipe.Flow.{FlowStep}
use claviger.Config.{IdentityConfig}
use claviger.Daemon.Flags.{
  Warning, plaintext, is_http, template_warnings, step_endpoints, endpoint_warnings,
  plaintext_warnings, warn_if_plaintext_auth,
}

-- A step whose URL is a template with a literal plaintext scheme.
abbrev pub IsPlainTemplate : FlowStep → Type 0
IsPlainTemplate s = (contains s.url "{{" ≡ true) × (has_prefix (to_lower s.url) "http://" ≡ true)

module _ (name which : String) where
  abbrev IsIt : Warning → Type 0
  IsIt w = w ≡ plaintext name which

  abbrev is_template : FlowStep → Bool
  is_template s = contains s.url "{{" && has_prefix (to_lower s.url) "http://"

  is_template-IsPlainTemplate : (s : FlowStep) → is_template s ≡ true → IsPlainTemplate s
  is_template-IsPlainTemplate s h = (ground (arith, h), ground (arith, h))

  template_warnings-names :
      (n : String) (steps : List FlowStep)
      → Some IsIt (template_warnings n steps)
      → (n ≡ name) × (which ≡ "step") × Some IsPlainTemplate steps
  unfolding template_warnings
  template_warnings-names n [] h = absurd h
  template_warnings-names n (s ∷ steps) h =
      elim (Some-if IsIt (is_template s) (plaintext n "step") (template_warnings n steps) h) [
        | inl (on, same) ↦ (cc same, cc same, inl (is_template-IsPlainTemplate s on))
        | inr later ↦ let (a, b, c) = template_warnings-names n steps later in (a, b, inr c)
      ]

  template_warnings-shows :
      (steps : List FlowStep)
      → (which ≡ "step")
      → Some IsPlainTemplate steps
      → Some IsIt (template_warnings name steps)
  unfolding template_warnings
  template_warnings-shows [] step h = absurd h
  template_warnings-shows (s ∷ steps) step (inl (a, b)) =
      if-Some IsIt (is_template s) (plaintext name "step") (template_warnings name steps)
        (inl (ground (arith, a, b), ap (plaintext name) (sym step)))
  template_warnings-shows (s ∷ steps) step (inr h) =
      if-Some IsIt (is_template s) (plaintext name "step") (template_warnings name steps)
        (inr (template_warnings-shows steps step h))

module _ (parse_url : String → Option (String × String)) where
  -- The URL is given, and its scheme is http.
  abbrev pub IsPlain : String → Type 0
  IsPlain url = (host : String) × (url ≢ "") × (parse_url url ≡ some ("http", host))

  -- The identity sends credentials in cleartext: to its login URL, to its token URL, or to the URL
  -- of a step, a template or not.
  abbrev pub Leaks : IdentityConfig → String → Type 0
  Leaks id which =
      ((which ≡ "login") × IsPlain id.login_url)
      ⊎ ((which ≡ "token") × IsPlain id.token_url)
      ⊎ ((which ≡ "step")
          × Some (λ s. IsPlainTemplate s ⊎ ((contains s.url "{{" ≡ false) × IsPlain s.url))
              id.steps)

  http_found :
      (o : Option (String × String))
      → is_http o ≡ true
      → (host : String) × (o ≡ some ("http", host))
  http_found none h = cc h
  http_found (some (scheme, host)) h =
      let same : scheme ≡ "http" = ground (arith, h, eq_iff scheme "http") in
      (host, ap (λ s. some (s, host)) same)

  abbrev is_plain : String → Bool
  is_plain url = not (url == "") && is_http (parse_url url)

  is_plain-IsPlain : (url : String) → is_plain url ≡ true → IsPlain url
  is_plain-IsPlain url h =
      let (host, parsed) = http_found (parse_url url) (ground (arith, h)) in
      (host, ground (arith, h, eq_iff url ""), parsed)

  IsPlain-is_plain : (url : String) → IsPlain url → is_plain url ≡ true
  IsPlain-is_plain url (host, given, parsed) =
      rw parsed (ground (arith, given, eq_iff url "", eq_iff "http" "http"))

  module _ (name which : String) where
    -- An endpoint of the kind, with a plaintext URL.
    abbrev IsLeak : String × String → Type 0
    IsLeak ep = (ep.0 ≡ which) × IsPlain ep.1

    abbrev IsPlainStep : FlowStep → Type 0
    IsPlainStep s = (contains s.url "{{" ≡ false) × IsPlain s.url

    endpoint_warnings-names :
        (n : String) (eps : List (String × String))
        → Some (IsIt name which) (endpoint_warnings parse_url n eps)
        → (n ≡ name) × Some IsLeak eps
    unfolding endpoint_warnings
    endpoint_warnings-names n [] h = absurd h
    endpoint_warnings-names n ((kind, raw) ∷ eps) h =
        elim (Some-if (IsIt name which) (is_plain raw) (plaintext n kind)
          (endpoint_warnings parse_url n eps) h) [
            | inl (on, same) ↦ (cc same, inl (cc same, is_plain-IsPlain raw on))
            | inr later ↦ let (a, b) = endpoint_warnings-names n eps later in (a, inr b)
          ]

    endpoint_warnings-shows :
        (eps : List (String × String))
        → Some IsLeak eps
        → Some (IsIt name which) (endpoint_warnings parse_url name eps)
    unfolding endpoint_warnings
    endpoint_warnings-shows [] h = absurd h
    endpoint_warnings-shows ((kind, raw) ∷ eps) (inl (same, plain)) =
        if-Some (IsIt name which) (is_plain raw) (plaintext name kind)
          (endpoint_warnings parse_url name eps)
          (inl (IsPlain-is_plain raw plain, ap (plaintext name) same))
    endpoint_warnings-shows ((kind, raw) ∷ eps) (inr h) =
        if-Some (IsIt name which) (is_plain raw) (plaintext name kind)
          (endpoint_warnings parse_url name eps) (inr (endpoint_warnings-shows eps h))

    step_endpoints-leaks :
        (steps : List FlowStep)
        → Some IsLeak (step_endpoints steps)
        → (which ≡ "step") × Some IsPlainStep steps
    unfolding step_endpoints
    step_endpoints-leaks [] h = absurd h
    step_endpoints-leaks (s ∷ steps) h = elim (Bool-cases (contains s.url "{{")) [
      | inl templated ↦ let (a, b) = step_endpoints-leaks steps (rw templated at h) in (a, inr b)
      | inr fixed ↦
          let split : IsLeak ("step", s.url) ⊎ Some IsLeak (step_endpoints steps) = rw fixed at h in
          elim split [
            | inl (kind, plain) ↦ (sym kind, inl (fixed, plain))
            | inr later ↦ let (a, b) = step_endpoints-leaks steps later in (a, inr b)
          ]
    ]

    step_endpoints-has :
        (steps : List FlowStep)
        → which ≡ "step"
        → Some IsPlainStep steps
        → Some IsLeak (step_endpoints steps)
    unfolding step_endpoints
    step_endpoints-has [] step h = absurd h
    step_endpoints-has (s ∷ steps) step (inl (fixed, plain)) = rw fixed (inl (sym step, plain))
    step_endpoints-has (s ∷ steps) step (inr h) = elim (Bool-cases (contains s.url "{{")) [
      | inl templated ↦ rw templated (step_endpoints-has steps step h)
      | inr fixed ↦ rw fixed (inr (step_endpoints-has steps step h))
    ]

    leak_of :
        (id : IdentityConfig)
        → Some IsLeak (("login", id.login_url) ∷ ("token", id.token_url) ∷ step_endpoints id.steps)
        → Leaks id which
    leak_of id (inl (kind, plain)) = inl (sym kind, plain)
    leak_of id (inr (inl (kind, plain))) = inr (inl (sym kind, plain))
    leak_of id (inr (inr h)) =
        let (step, plain) = step_endpoints-leaks id.steps h in
        inr (inr (step, Some-map IsPlainStep _ id.steps (λ s p. inr p) plain))

    either_step :
        (steps : List FlowStep)
        → Some (λ s. IsPlainTemplate s ⊎ IsPlainStep s) steps
        → Some IsPlainTemplate steps ⊎ Some IsPlainStep steps
    either_step [] h = absurd h
    either_step (s ∷ steps) (inl (inl h)) = inl (inl h)
    either_step (s ∷ steps) (inl (inr h)) = inr (inl h)
    either_step (s ∷ steps) (inr h) = elim (either_step steps h) [
      | inl t ↦ inl (inr t)
      | inr f ↦ inr (inr f)
    ]

    plaintext_warnings-shows :
        (id : IdentityConfig)
        → id.name ≡ name
        → Leaks id which
        → Some (IsIt name which) (plaintext_warnings parse_url id)
    unfolding plaintext_warnings
    plaintext_warnings-shows id named leak = rw named (elim leak [
      | inl (kind, plain) ↦ late id (inl (sym kind, plain))
      | inr (inl (kind, plain)) ↦ late id (inr (inl (sym kind, plain)))
      | inr (inr (step, h)) ↦ elim (either_step id.steps h) [
        | inl template ↦
            Some-left (IsIt name which) (template_warnings name id.steps) _
              (template_warnings-shows name which id.steps step template)
        | inr fixed ↦ late id (inr (inr (step_endpoints-has id.steps step fixed)))
      ]
    ])
      where
        late :
            (id : IdentityConfig)
            → Some IsLeak
                (("login", id.login_url) ∷ ("token", id.token_url) ∷ step_endpoints id.steps)
            → Some (IsIt name which) (
                template_warnings name id.steps
                ++ endpoint_warnings parse_url name
                    (("login", id.login_url) ∷ ("token", id.token_url) ∷ step_endpoints id.steps))
        late id h =
            Some-right (IsIt name which) (template_warnings name id.steps) _
              (endpoint_warnings-shows _ h)

    plaintext_warnings-names :
        (id : IdentityConfig)
        → Some (IsIt name which) (plaintext_warnings parse_url id)
        → (id.name ≡ name) × Leaks id which
    unfolding plaintext_warnings
    plaintext_warnings-names id h =
        elim (Some-append (IsIt name which) (template_warnings id.name id.steps) _ h) [
          | inl early ↦
              let (a, b, c) = template_warnings-names name which id.name id.steps early in
              (a, inr (inr (b, Some-map IsPlainTemplate _ id.steps (λ s p. inl p) c)))
          | inr late ↦ let (a, b) = endpoint_warnings-names id.name _ late in (a, leak_of id b)
        ]

    warn_if_plaintext_auth-names :
        (ids : List IdentityConfig)
        → Some (IsIt name which) (warn_if_plaintext_auth parse_url ids)
        → Some (λ id. (id.name ≡ name) × Leaks id which) ids
    unfolding warn_if_plaintext_auth
    warn_if_plaintext_auth-names [] h = absurd h
    warn_if_plaintext_auth-names (id ∷ ids) h =
        elim (Some-append (IsIt name which) (plaintext_warnings parse_url id) _ h) [
          | inl own ↦ inl (plaintext_warnings-names id own)
          | inr later ↦ inr (warn_if_plaintext_auth-names ids later)
        ]

    warn_if_plaintext_auth-shows :
        (ids : List IdentityConfig)
        → Some (λ id. (id.name ≡ name) × Leaks id which) ids
        → Some (IsIt name which) (warn_if_plaintext_auth parse_url ids)
    unfolding warn_if_plaintext_auth
    warn_if_plaintext_auth-shows [] h = absurd h
    warn_if_plaintext_auth-shows (id ∷ ids) (inl (named, leak)) =
        Some-left (IsIt name which) (plaintext_warnings parse_url id) _
          (plaintext_warnings-shows id named leak)
    warn_if_plaintext_auth-shows (id ∷ ids) (inr h) =
        Some-right (IsIt name which) (plaintext_warnings parse_url id) _
          (warn_if_plaintext_auth-shows ids h)

  -- The daemon warns of a plaintext login, token or step URL of an identity exactly if an identity
  -- of that name has one: a login or token URL that is given and parses with the scheme http, or
  -- such a URL of a step, or a step URL that is a template and begins with http://, in any case.
  pub warn_if_plaintext_auth_iff :
      (ids : List IdentityConfig) (name which : String)
      → Some (λ w. w ≡ plaintext name which) (warn_if_plaintext_auth parse_url ids)
        ↔ Some (λ id. (id.name ≡ name) × Leaks id which) ids
  warn_if_plaintext_auth_iff ids name which =
      (warn_if_plaintext_auth-names name which ids, warn_if_plaintext_auth-shows name which ids)
