-- ===== src/Config/Secrets/Loaded.antt =====
-- What Load of internal/config/config.go and resolveSecrets of internal/config/secrets.go give.
use Prim.Native.String.{◌++◌}
use claviger.Prelude.{
  String, ◌≡◌, ◌≢◌, refl, sym, subst, true, not, List, [], ◌∷◌, some, Result, ok, err, bind-ok,
  ok_injective, ◌==◌, eq_iff, arith, Bool-cases, Option-cases, inl, inr, ◌⊎◌, All,
}
use claviger.Text.{trim_right_of}
use claviger.Config.{Config, IdentityConfig, is_absolute}
use claviger.Config.Secrets.{
  Piece, literal, reference, Sources, expand_pieces, expand_env, command_output, resolve_password,
  resolve_secrets, check_config, load,
}

-- envRef matches no empty name.
abbrev pub HasName : Piece → Type 0
HasName (literal text) = Unit
HasName (reference name) = name ≢ ""

command_output_ok :
    (src : Sources) (name : String) (r : Result String) (pw : String)
    → command_output src name r ≡ ok pw
    → (text : String) × (r ≡ ok text) × (pw ≡ trim_right_of text "\r\n")
command_output_ok src name (ok text) pw h = (text, refl, sym (ok_injective _ pw h))
command_output_ok src name (err x) pw h = cc h

module _ (src : Sources) where
  -- The text is that of the pieces one after another, each reference with the value of its
  -- variable, and every variable is set.
  abbrev pub Expands : List Piece → String → Type 0
  Expands [] out = out ≡ ""
  Expands (literal text ∷ ps) out = (rest : String) × Expands ps rest × (out ≡ text ++ rest)
  Expands (reference name ∷ ps) out =
      (value rest : String) × (src.lookup_env name ≡ some value)
      × Expands ps rest
      × (out ≡ value ++ rest)

  expand_pieces-Expands :
      (ps : List Piece)
      → All HasName ps
      → (expand_pieces src ps).1 ≡ ""
      → Expands ps (expand_pieces src ps).0
  unfolding expand_pieces
  expand_pieces-Expands [] named h = refl
  expand_pieces-Expands (literal text ∷ ps) (u, named) h =
      ((expand_pieces src ps).0, expand_pieces-Expands ps named h, refl)
  expand_pieces-Expands (reference name ∷ ps) (given, named) h =
      elim (Option-cases (src.lookup_env name)) [
        | inl unset ↦ ground (arith, (rw unset at h), given, eq_iff (expand_pieces src ps).1 "")
        | inr (value, set) ↦ rw set (
          value,
          (expand_pieces src ps).0,
          refl,
          expand_pieces-Expands ps named (rw set at h),
          refl,
        )
      ]

  -- The password of an identity by what the configuration gives for it. An inline one, with its
  -- references expanded, comes before a file, and a file before a command; of both the line ends at
  -- the end are no part. With none of the three it is empty.
  abbrev pub IsPassword : IdentityConfig → String → Type 0
  IsPassword id pw =
      ((id.password ≢ "") × Expands (src.env_pieces id.password) pw)
      ⊎ ((text : String) × (id.password ≡ "")
          × (id.password_file ≢ "")
          × (src.read_file id.password_file ≡ ok text)
          × (pw ≡ trim_right_of text "\r\n"))
      ⊎ ((text : String) × (id.password ≡ "")
          × (id.password_file ≡ "")
          × (id.password_command ≢ "")
          × (src.shell id.password_command ≡ ok text)
          × (pw ≡ trim_right_of text "\r\n"))
      ⊎ ((id.password ≡ "") × (id.password_file ≡ "") × (id.password_command ≡ "") × (pw ≡ ""))

  expand_env-Expands :
      (text pw : String)
      → All HasName (src.env_pieces text)
      → expand_env src text ≡ ok pw
      → Expands (src.env_pieces text) pw
  unfolding expand_env expand_pieces
  expand_env-Expands text pw named h =
      elim (Bool-cases ((expand_pieces src (src.env_pieces text)).1 == "")) [
        | inl complete ↦
            let same : (expand_pieces src (src.env_pieces text)).0 ≡ pw =
              ground (arith, h, complete) in
            subst (Expands (src.env_pieces text)) same (
              expand_pieces-Expands (src.env_pieces text) named
                (ground (arith, complete, eq_iff (expand_pieces src (src.env_pieces text)).1 "")))
        | inr partial ↦ ground (arith, h, partial)
      ]

  resolve_password-IsPassword :
      (id : IdentityConfig) (pw : String)
      → All HasName (src.env_pieces id.password)
      → resolve_password src id ≡ ok pw
      → IsPassword id pw
  unfolding resolve_password
  resolve_password-IsPassword id pw named h = elim (Bool-cases (id.password == "")) [
    | inr inline ↦ inl (
      ground (arith, inline, eq_iff id.password ""),
      expand_env-Expands id.password pw named (rw (inline, resolve_password) at h),
    )
    | inl no_inline ↦ elim (Bool-cases (id.password_file == "")) [
      | inr file ↦
          let (text, read, h1) =
            bind-ok (src.read_file id.password_file) (λ b. ok (trim_right_of b "\r\n")) pw
              (rw (no_inline, file, resolve_password) at h) in
          inr (
            inl (
              text,
              ground (arith, no_inline, eq_iff id.password ""),
              ground (arith, file, eq_iff id.password_file ""),
              read,
              sym (ok_injective _ pw h1),
            ))
      | inl no_file ↦ elim (Bool-cases (id.password_command == "")) [
        | inr command ↦
            let (text, printed, trimmed) =
              command_output_ok src id.name (src.shell id.password_command) pw
                (rw (no_inline, no_file, command, resolve_password) at h) in
            inr (
              inr (
                inl (
                  text,
                  ground (arith, no_inline, eq_iff id.password ""),
                  ground (arith, no_file, eq_iff id.password_file ""),
                  ground (arith, command, eq_iff id.password_command ""),
                  printed,
                  trimmed,
                )))
        | inl no_command ↦ inr (
            inr (
              inr (
                ground (arith, no_inline, eq_iff id.password ""),
                ground (arith, no_file, eq_iff id.password_file ""),
                ground (arith, no_command, eq_iff id.password_command ""),
                sym (
                    ok_injective _ pw (rw (no_inline, no_file, no_command, resolve_password) at h)),
              )))
      ]
    ]
  ]

  -- The identities with their passwords resolved, and nothing else changed.
  abbrev pub Resolved : List IdentityConfig → List IdentityConfig → Type 0
  Resolved [] [] = Unit
  Resolved [] (out ∷ outs) = ⊥
  Resolved (id ∷ ids) [] = ⊥
  Resolved (id ∷ ids) (out ∷ outs) =
      ((pw : String) × IsPassword id pw × (out ≡ record id { password = pw })) × Resolved ids outs

  module _ (named : (text : String) → All HasName (src.env_pieces text)) where
    resolve_secrets-Resolved :
        (ids outs : List IdentityConfig) → resolve_secrets src ids ≡ ok outs → Resolved ids outs
    unfolding resolve_secrets
    resolve_secrets-Resolved [] [] h = tt
    resolve_secrets-Resolved [] (out ∷ outs) h = cc
    resolve_secrets-Resolved (id ∷ ids) outs h =
        let (pw, own, h1) = bind-ok (resolve_password src id) _ outs h in
        let (rest, others, h2) = bind-ok (resolve_secrets src ids) _ outs h1 in
        let same : record id { password = pw } ∷ rest ≡ outs = cc h2 in
        subst (Resolved (id ∷ ids)) same (
          (pw, resolve_password-IsPassword id pw (named id.password) own, refl),
          resolve_secrets-Resolved ids rest others,
        )

    -- A configuration that loads is the one written in the file of the given path, with nothing
    -- changed but the passwords: each is the inline one, its references to the environment replaced
    -- by the values of variables that are set, or, where there is no inline one, the content of the
    -- password file, or, where there is no file either, what the command prints, both without the
    -- line ends at their end, or else empty. Its target is not empty, and an absolute http(s) URL.
    -- The condition is that no reference has an empty name, as none has that envRef matches.
    pub load-Resolved :
        (path : String) (c : Config)
        → load src path ≡ ok c
        → (raw : String) × (written : Config) × (src.read_file path ≡ ok raw)
          × (src.decode raw ≡ ok written)
          × (c.target ≢ "")
          × (is_absolute (src.parse_url c.target) ≡ true)
          × Resolved written.identities c.identities
          × (c ≡ record written { identities = c.identities })
    unfolding load check_config
    load-Resolved path c h =
        let (raw, read, h1) = bind-ok (src.read_file path) _ c h in
        let (written, decoded, h2) = bind-ok (src.decode raw) _ c h1 in
        elim (Bool-cases (written.target == "")) [
          | inl blank ↦ ground (arith, h2, blank)
          | inr given ↦ elim (Bool-cases (not (is_absolute (src.parse_url written.target)))) [
            | inl relative ↦ ground (arith, h2, given, relative)
            | inr absolute ↦
                let (ids, resolved, h3) =
                  bind-ok (resolve_secrets src written.identities) _ c
                    (rw (given, absolute) at h2) in
                let same : record written { identities = ids } ≡ c = cc h3 in
                subst
                  (λ c.
                    (raw : String) × (written : Config) × (src.read_file path ≡ ok raw)
                    × (src.decode raw ≡ ok written)
                    × (c.target ≢ "")
                    × (is_absolute (src.parse_url c.target) ≡ true)
                    × Resolved written.identities c.identities
                    × (c ≡ record written { identities = c.identities }))
                  same
                  (
                    raw,
                    written,
                    read,
                    decoded,
                    ground (arith, given, eq_iff written.target ""),
                    ground (arith, absolute),
                    resolve_secrets-Resolved written.identities ids resolved,
                    refl,
                  )
          ]
        ]
