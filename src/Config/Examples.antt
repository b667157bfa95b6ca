-- ===== src/Config/Examples.antt =====
-- The configuration of Sample, loaded and built.
use claviger.Prelude.{String, ◌≡◌, ◌≢◌, refl, true, [], ◌∷◌, ok, arith, eq_iff, All}
use claviger.Prelude.Maps.{lookup, insert}
use claviger.Httpx.{CertLib, transport, root_cas, client_certs}
use claviger.Httpx
use claviger.Config.{
  IdentityConfig, Config, valid_endpoint, build_recipe, check_name, add_identity, add_identities,
  recipes, to_httpx, is_absolute,
}
use claviger.Text.{trim_right_of}
use claviger.Config.Secrets.{
  load, check_config, resolve_secrets, resolve_password, expand_env, expand_pieces,
}
use claviger.Config.Secrets.Loaded.{HasName, Resolved, load-Resolved}
use claviger.Config.Names.{keys, IsAllowedName, keys-recipes}
use claviger.Config.Honest.{IsHonestEntry, recipes-IsHonest}
use claviger.Config.Sample.{alice, lib, config, alice_recipe, sources, resolved}

built : recipes lib config ≡ ok (("alice", alice_recipe) ∷ [])
unfolding recipes add_identities add_identity check_name build_recipe Httpx.client transport
    root_cas client_certs to_httpx valid_endpoint lookup insert
built = refl

keys-recipes_example :
    (keys (("alice", alice_recipe) ∷ []) ≡ "alice" ∷ [])
    × All (λ id. IsAllowedName id.name) config.identities
keys-recipes_example = keys-recipes lib config (("alice", alice_recipe) ∷ []) built

variable_named : ◌≢◌ {A = String} "PW" ""
variable_named = ground (arith, eq_iff "PW" "")

sources-HasName : (text : String) → All HasName (sources.env_pieces text)
sources-HasName text = (tt, (variable_named, tt))

load-Resolved_example :
    (raw : String) × (written : Config) × (sources.read_file "claviger.yaml" ≡ ok raw)
    × (sources.decode raw ≡ ok written)
    × ◌≢◌ {A = String} "https://t" ""
    × (is_absolute (sources.parse_url "https://t") ≡ true)
    × Resolved sources written.identities resolved.identities
    × (resolved ≡ record written { identities = resolved.identities })
unfolding load check_config resolve_secrets resolve_password expand_env expand_pieces
load-Resolved_example = load-Resolved sources sources-HasName "claviger.yaml" resolved refl

abbrev from_file : IdentityConfig
from_file = record alice { password = ""; password_file = "pw" }

-- The line end of a password file is no part of the password.
resolve_password_test :
    resolve_password (record sources { read_file = λ path. ok "pw\r\n" }) from_file ≡ ok "pw"
unfolding resolve_password trim_right_of
resolve_password_test = refl

recipes-IsHonest_example : All IsHonestEntry (("alice", alice_recipe) ∷ [])
recipes-IsHonest_example = recipes-IsHonest lib config (("alice", alice_recipe) ∷ []) built
