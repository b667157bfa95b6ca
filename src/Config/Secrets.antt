-- ===== src/Config/Secrets.antt =====
-- internal/config/secrets.go, and Load of internal/config/config.go. The files, the environment
-- and the shell are a parameter.
pub mod Loaded
use Prim.Native.String.{◌++◌}
use claviger.Prelude.{
  String, ◌≡◌, refl, subst, true, not, List, [], ◌∷◌, Option, none, some, bad_config, bad_input,
  Result, ok, err, ◌>>=◌, bind-ok, ◌==◌, if◌then◌else◌, arith, Bool-cases, inl, inr,
}
use claviger.Text.{trim_right_of}
use claviger.Config.{Config, IdentityConfig, is_absolute}

-- A string as envRef cuts it: the text between the references, and the names in them.
pub data Piece : Type 0 where
  literal : String → Piece
  reference : String → Piece

-- What Load takes from outside.
pub record Sources : Type 0 where
  -- os.ReadFile
  pub read_file : String → Result String
  -- the leftmost matches of envRef, one after another
  pub env_pieces : String → List Piece
  -- os.LookupEnv
  pub lookup_env : String → Option String
  -- the output of sh -c, or its error
  pub shell : String → Result String
  -- yaml.Unmarshal
  pub decode : String → Result Config
  -- url.Parse: scheme and host
  pub parse_url : String → Option (String × String)

module _ (src : Sources) where
  -- The text of a reference and the name that is missing, if it is not set.
  abbrev value_of : String → Option String → String × String → String × String
  value_of name none (out, missing) = (out, if missing == "" then name else missing)
  value_of name (some v) (out, missing) = (v ++ out, missing)

  -- The pieces put together, and the last name that is not set, "" for none.
  unfoldable pub expand_pieces : List Piece → String × String
  expand_pieces [] = ("", "")
  expand_pieces (literal text ∷ ps) =
      let (out, missing) = expand_pieces ps in (text ++ out, missing)
  expand_pieces (reference name ∷ ps) = value_of name (src.lookup_env name) (expand_pieces ps)

  -- expandEnv
  unfoldable pub expand_env : String → Result String
  expand_env s =
      let (out, missing) = expand_pieces (src.env_pieces s) in
      if not (missing == "")
      then err (bad_input ("environment variable " ++ missing ++ " is not set"))
      else ok out

  abbrev pub command_output : String → Result String → Result String
  command_output name (err x) = err (bad_config name "password_command failed")
  command_output name (ok out) = ok (trim_right_of out "\r\n")

  -- The switch of resolveSecrets: the password of an identity.
  unfoldable pub resolve_password : IdentityConfig → Result String
  resolve_password id =
      if not (id.password == "")
      then expand_env id.password
      else if not (id.password_file == "")
      then (src.read_file id.password_file >>= λ b. ok (trim_right_of b "\r\n"))
      else if not (id.password_command == "")
      then command_output id.name (src.shell id.password_command)
      else ok ""

  -- resolveSecrets
  unfoldable pub resolve_secrets : List IdentityConfig → Result (List IdentityConfig)
  resolve_secrets [] = ok []
  resolve_secrets (id ∷ ids) = resolve_password id >>= λ pw.
      resolve_secrets ids >>= λ rest. ok (record id { password = pw } ∷ rest)

  -- The checks of Load on a decoded file.
  unfoldable pub check_config : Config → Result Config
  check_config c =
      if c.target == ""
      then err (bad_input "target is required")
      else if not (is_absolute (src.parse_url c.target))
      then err (bad_input "target must be an absolute http(s) URL")
      else (resolve_secrets c.identities >>= λ ids. ok (record c { identities = ids }))

  -- Load
  unfoldable pub load : String → Result Config
  load path = src.read_file path >>= λ raw. src.decode raw >>= λ c. check_config c
