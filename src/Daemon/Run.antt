-- ===== src/Daemon/Run.antt =====
-- RunE of cmd/daemon.go up to its first bind.
pub mod Ready
use claviger.Prelude.{
  ℕ, String, ◌≡◌, ◌≢◌, refl, sym, subst, ◌∙◌, Bool, true, false, not, ◌&&◌, ◌||◌, List, [], ◌∷◌,
  ◌++◌, Option, none, some, Error, bad_input, Result, ok, err, ◌>>=◌, bind-ok, ok_injective, ◌==◌,
  eq_iff, ltb, if◌then◌else◌, arith, ◌≤◌, inl, inr, Bool-cases,
}
use claviger.Prelude.Int.{ℤ, pos, negsuc}
use claviger.Http.Header
use claviger.Store.{Store}
use claviger.Config.{Builder, to_httpx}
use claviger.Config.Secrets.{Sources}
use claviger.Gateway.State.{Config, Live, Incoming}
use claviger.Gateway.Setup.{Parts, GatewayOption, with_tls, with_csrf, with_audit, new_gateway}
use claviger.Gateway.Serve.{http_error, serve}
use claviger.Gateway.Serve.Guards.{IsLocal, serve_refuses}
use claviger.Daemon.Flags.{TlsFlags, Warning, warn_if_insecure, warn_if_plaintext_auth}
use claviger.Daemon.Startup.{Built, build_store, build_csrf_policies}

pub data LogLevel : Type 0 where
  level_error level_warn level_info level_debug : LogLevel

-- parseLogLevel
unfoldable pub parse_log_level : String → Result LogLevel
parse_log_level s =
    if s == "error"
    then ok level_error
    else if s == "warn"
    then ok level_warn
    else if s == "info"
    then ok level_info
    else if s == "debug"
    then ok level_debug
    else err (bad_input "invalid --log-level")

-- The flags of the command.
pub record Flags : Type 0 where
  pub config : String
  pub socket : String
  pub gateway_token : String
  pub log_level : String
  pub audit_log : String
  pub base_port : ℤ
  pub tls : TlsFlags

-- What the daemon takes from the operating system.
pub record Machine : Type 0 where
  -- os.Getenv of XDG_RUNTIME_DIR
  pub runtime_dir : String
  pub home_dir : Result String
  -- filepath.Join
  pub join : String → String → String
  -- os.MkdirAll of the directory of a path
  pub make_parent : String → Result (Unit {0})
  -- os.OpenFile of the audit log
  pub open_append : String → Result (Unit {0})
  -- the hex text of 16 bytes of crypto/rand
  pub random_hex : Result String
  -- regexp.Compile
  pub compile : String → Result (String → List String)

module _ (machine : Machine) where
  -- socketPath
  unfoldable pub socket_path : Result String
  socket_path =
      (if machine.runtime_dir == ""
        then (machine.home_dir >>= λ home. ok (machine.join home ".claviger"))
        else ok machine.runtime_dir)
      >>= λ dir. ok (machine.join dir "claviger.sock")

  -- defaultSocketPath
  unfoldable pub default_socket_path : Result String
  default_socket_path = socket_path >>= λ p. machine.make_parent p >>= λ _. ok p

  -- The socket of the flag, or the default one.
  unfoldable pub choose_socket : String → Result String
  choose_socket socket = if socket == "" then default_socket_path else ok socket

  -- The token that the gateway requires; generateGatewayToken for "auto".
  unfoldable pub effective_token : String → Result String
  effective_token token = if token == "auto" then machine.random_hex else ok token

  -- The audit option, if a log is named and can be opened.
  unfoldable pub audit_option : String → Result (List GatewayOption)
  audit_option path =
      if not (path == "")
      then (machine.open_append path >>= λ _. ok (with_audit true ∷ []))
      else ok []

-- `basePort <= 0 || basePort > 65535`
abbrev pub is_port : ℤ → Bool
is_port (pos n) = ltb 0 n && not (ltb 65535 n)
is_port (negsuc n) = false

-- What the daemon has made when it begins to bind.
pub record Prepared (W : Type 0) : Type 0 where
  pub gateway : Config W
  pub store : Store W
  pub socket : String
  pub level : LogLevel
  pub warnings : List Warning

module _ {W J P C : Type 0} (machine : Machine) (src : Sources) (lib : Builder W J P C)
    (parts : Parts W P C) where
  -- RunE before the listeners
  unfoldable pub prepare : Flags → Result (Prepared W)
  prepare f =
      if not (is_port f.base_port)
      then err (bad_input "--base-port must be between 1 and 65535")
      else (parse_log_level f.log_level >>= λ level. build_store src lib f.config f.tls >>= λ built.
          choose_socket machine f.socket >>= λ socket.
          build_csrf_policies machine.compile built.config.identities [] >>= λ policies.
          audit_option machine f.audit_log >>= λ audit.
          new_gateway parts built.recipes built.config.target
            (with_tls (to_httpx built.config.tls) ∷ with_csrf policies ∷ audit)
          >>= λ g. effective_token machine f.gateway_token >>= λ token. ok (record {
            gateway = record g { require_token = token };
            store = built.store;
            socket = socket;
            level = level;
            warnings =
                warn_if_insecure built.config
                ++ warn_if_plaintext_auth lib.parse_url built.config.identities;
          }))
