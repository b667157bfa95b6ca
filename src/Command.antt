-- ===== src/Command.antt =====
-- cmd: the commands that use a running daemon, or log in on their own: cmd/socket.go, header.go,
-- identities.go and replay.go.
pub mod Replaying
pub mod Outcome
pub mod Table
pub mod Watch
mod Examples
use Prim.Native.String.{◌++◌}
use claviger.Prelude.{
  ℕ, String, Bool, true, false, List, [], ◌∷◌, Option, none, some, Error, bad_status, bad_input,
  Result, ok, err, ◌>>=◌, eqb, ◌==◌, if◌then◌else◌,
}
use claviger.Session.{Session}
use claviger.Effect.{Eff}
use claviger.Store.{Store, identities}
use claviger.Store
use claviger.Config.{Builder}
use claviger.Config.Secrets.{Sources}
use claviger.Control.{Wire, ControlReply, client_creds}
use claviger.Control.Status.{IdentityStatus}
use claviger.Daemon.Flags.{TlsFlags}
use claviger.Daemon.Startup.{Built, build_store}
use claviger.Daemon.Run.{Machine, socket_path}

-- What a command takes from outside: the machine, the sources of a configuration, what its recipes
-- take, and the control socket. `ask` is a GET of a path on a socket.
pub record Tool (W J P C : Type 0) : Type 0 where
  pub machine : Machine
  pub sources : Sources
  pub builder : Builder W J P C
  pub wire : Wire
  -- control.SocketExists
  pub socket_exists : String → Bool
  pub ask : String → String → Eff W ControlReply
  -- json.Decode of a status reply
  pub decode_status : String → Result (List IdentityStatus)

-- Where the sessions of a command come from: a daemon at a socket, or a store of its own.
pub data Source (W : Type 0) : Type 0 where
  daemon : String → Source W
  standalone : Store W → Source W

abbrev names_of : List IdentityStatus → List String
names_of [] = []
names_of (s ∷ rows) = s.name ∷ names_of rows

module _ {W J P C : Type 0} (tool : Tool W J P C) where
  -- resolveSocket
  unfoldable pub resolve_socket : String → Result String
  resolve_socket flag = if flag == "" then socket_path tool.machine else ok flag

  -- attachClient: the path, and whether a daemon is there
  unfoldable pub attach_client : String → Result (String × Bool)
  attach_client flag = resolve_socket flag >>= λ path. ok (path, tool.socket_exists path)

  abbrev pub source_at : String → TlsFlags → String × Bool → Result (Source W)
  source_at config tls (path, true) = ok (daemon path)
  source_at config tls (path, false) =
      build_store tool.sources tool.builder config tls >>= λ built. ok (standalone built.store)

  -- replaySource
  unfoldable pub replay_source : String → String → TlsFlags → Result (Source W)
  replay_source flag config tls = attach_client flag >>= λ at. source_at config tls at

  -- Get of the session source.
  unfoldable pub source_get : String → Eff (Source W × W) Session
  source_get id (daemon path, w) =
      let (r, w') = client_creds tool.wire (tool.ask path) id w in (r, (daemon path, w'))
  source_get id (standalone st, w) =
      let (r, st', w') = Store.get tool.builder.env.now id st w in (r, (standalone st', w'))

  abbrev pub get_from : String → Result (Source W) → Eff W Session
  get_from id (err x) w = (err x, w)
  get_from id (ok src) w = let (r, (src', w')) = source_get id (src, w) in (r, w')

  -- sessionFor, without the warnings
  unfoldable pub session_for : String → String → String → TlsFlags → Eff W Session
  session_for flag config id tls w = get_from id (replay_source flag config tls) w

  abbrev pub header_line : String → Result Session → Result String
  header_line id (err x) = err x
  header_line id (ok s) =
      if s.bearer_token == ""
      then err (bad_input "identity has no bearer token")
      else ok ("Authorization: Bearer " ++ s.bearer_token)

  -- The header command: the line that it prints.
  unfoldable pub header_command : String → String → String → TlsFlags → Eff W String
  header_command flag config id tls w =
      let (r, w') = session_for flag config id tls w in (header_line id r, w')

  abbrev read_status : Result ControlReply → Result (List IdentityStatus)
  read_status (err x) = err x
  read_status (ok reply) =
      if eqb reply.status 200
      then tool.decode_status reply.body
      else err (bad_status "/status" reply.status)

  -- Client.Status
  unfoldable pub client_status : String → Eff W (List IdentityStatus)
  client_status path w = let (r, w') = tool.ask path "/status" w in (read_status r, w')

  abbrev names_from : Result (Source W) → Eff W (List String)
  names_from (err x) w = (err x, w)
  names_from (ok (daemon path)) w =
      let (r, w') = client_status path w in (r >>= λ rows. ok (names_of rows), w')
  names_from (ok (standalone st)) w = (ok (identities st), w)

  -- identityNames, without the warnings
  unfoldable pub identity_names : String → String → TlsFlags → Eff W (List String)
  identity_names flag config tls w = names_from (replay_source flag config tls) w
