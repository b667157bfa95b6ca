-- ===== src/Command/Examples.antt =====
-- The commands beside a daemon that serves one identity, and a replay without one.
use claviger.Prelude.{
  ℕ, ◌+◌, String, ◌≡◌, refl, Bool, true, false, [], ◌∷◌, map, Option, none, Error, some, ok, all,
}
use claviger.Text.{trim_prefix, has_prefix, to_upper}
use claviger.Http.{Request, Response}
use claviger.Session.{Session, expired}
use claviger.Httpx.{TlsClientConfig, transport, root_cas, client_certs}
use claviger.Httpx
use claviger.Config.{to_httpx}
use claviger.Effect.{Eff}
use claviger.Recipe.{Recipe}
use claviger.Store.{Store, entry_of, live, get_entry, health_of}
use claviger.Store
use claviger.Store.Entry.{Entry, Ref}
use claviger.Config.Sample.{page, lib, sources, resolved}
use claviger.Control.{Wire, ControlReply, creds_of, creds_handler}
use claviger.Corpus.Load.{Files}
use claviger.Replay.{run_all, run_one, send_row}
use claviger.Replay.Verdict.{has_error, replay_exit, failures}
use claviger.Daemon.Flags.{TlsFlags}
use claviger.Daemon.Run.{Machine}
use claviger.Command.{
  Tool, attach_client, replay_source, resolve_socket, header_command, header_line,
}
use claviger.Command.Replaying.{ReplayFlags, replay_single, run_parts}
use claviger.Control.Status.{status_of}
use claviger.Command.Table.{Printer, cells_of, cells_of-expired}
use claviger.Command.Outcome.{header_command-daemon, replay_single-exit}

abbrev alice : Session
alice = record {
  identity = "alice";
  cookies = [];
  bearer_token = "t";
  refresh_token = "r";
  csrf = "c";
  headers = [];
  expires_at = 0;
}

abbrev login : Recipe ℕ
login = record {
  identity = "alice";
  establish = λ w. (ok alice, w);
  refresh = λ _ w. (ok alice, w);
  logout = record { status_codes = []; location_contains = ""; body_contains = "" };
}

abbrev entry : Entry ℕ
entry = record {
  recipe = login;
  session = some (record { addr = 0; obj = alice });
  stamps = [];
  last_auth = 0;
  last_err = none;
  allocs = 1;
}

abbrev store : Store ℕ
store = record { entries = ("alice", entry) ∷ []; max_burst = 10; window = 60 }

abbrev wire : Wire
wire = record {
  encode_creds = λ cr. "record";
  decode_creds = λ body. ok (creds_of alice);
  path_escape = λ id. id;
  error_text = λ x. "error";
}

abbrev ticking : ℕ → ℕ × ℕ
ticking w = (w, w + 1)

abbrev ask : String → String → Eff (Store ℕ × ℕ) ControlReply
ask socket path (st, w) =
    let (reply, st', w') = creds_handler wire ticking path st w in (ok reply, (st', w'))

abbrev machine : Machine
machine = record {
  runtime_dir = "/run/user/1";
  home_dir = ok "/home/a";
  join = λ dir name. dir;
  make_parent = λ path. ok tt;
  open_append = λ path. ok tt;
  random_hex = ok "00";
  compile = λ pattern. ok (λ body. []);
}

abbrev tool : Bool → Tool (Store ℕ × ℕ) ℕ String String
tool running = record {
  machine = machine;
  sources = sources;
  builder = lib;
  wire = wire;
  socket_exists = λ path. running;
  ask = ask;
  decode_status = λ body. ok [];
}

abbrev flags : TlsFlags
flags = record {
  insecure = false;
  insecure_set = false;
  ca_cert = "";
  ca_cert_set = false;
  client_cert = "";
  client_cert_set = false;
  client_key = "";
  client_key_set = false;
}

attached : attach_client (tool true) "s" ≡ ok ("s", true)
unfolding attach_client resolve_socket
attached = refl

route : trim_prefix "/creds/alice" "/creds/" ≡ "alice"
unfolding trim_prefix
route = refl

found : (Store.get ticking "alice" store 7).0 ≡ ok alice
unfolding Store.get entry_of get_entry live expired
found = refl

header_command-daemon_example :
    (header_command (tool true) "s" "claviger.yaml" "alice" flags (store, 7)).0
    ≡ header_line (tool true) "alice" (Store.get ticking "alice" store 7).0
header_command-daemon_example =
    header_command-daemon (tool true) ticking "s" "claviger.yaml" "alice" "s" "/creds/alice" flags
      store 7 alice attached refl route refl refl found

abbrev files : Files
files = record {
  read_file = λ path. ok "";
  upper = to_upper;
  scan_lines = λ text. ([], none);
  decode_har = λ body. ok [];
  request_uri = λ url. ok url;
  decode_spec = λ text. ok [];
}

abbrev dial : TlsClientConfig String String → Request → Eff (Store ℕ × ℕ) (Response × Option Error)
dial t req w = (ok (page, none), w)

abbrev replay_flags : ReplayFlags
replay_flags = record {
  config = "claviger.yaml";
  socket = "s";
  tls = flags;
  ids = "anon" ∷ [];
  corpus = "";
  format = "";
  include_unsafe = false;
  path = "/a";
  path_changed = true;
  method = "get";
  method_changed = false;
}

exits_well : (replay_single (tool true) files dial replay_flags resolved (store, 7)).0.exit ≡ ok tt
unfolding replay_single run_parts replay_source attach_client resolve_socket Httpx.client transport
    root_cas client_certs to_httpx run_all run_one send_row replay_exit failures has_prefix
exits_well = refl

replay_single-exit_example :
    (has_prefix "/a" "/" ≡ true)
    × (map
          (λ row. row.identity)
          (replay_single (tool true) files dial replay_flags resolved (store, 7)).0.rows
        ≡ "anon" ∷ [])
    × (all has_error (replay_single (tool true) files dial replay_flags resolved (store, 7)).0.rows
        ≡ false)
replay_single-exit_example =
    replay_single-exit (tool true) files dial replay_flags resolved (store, 7) (λ e. cc) exits_well

-- Times as texts, for the one time that is shown.
abbrev printer : Printer
printer = record {
  rfc = record { format = λ t. "t"; parse = λ s. some 0 };
  rounded = λ d. "1s";
  error_text = λ x. "error";
}

abbrev old : Ref
old = record { addr = 0; obj = record alice { expires_at = 50 } }

old_expired : expired old.obj 60 ≡ true
unfolding expired
old_expired = refl

cells_of-expired_example :
    ((cells_of printer 60
        (status_of printer.rfc (health_of "alice" (record entry { session = some old })))).state
      ≡ "EXPIRED")
    × ((cells_of printer 60
          (status_of printer.rfc (health_of "alice" (record entry { session = some old })))).expires
        ≡ "expired")
cells_of-expired_example =
    cells_of-expired printer "alice" (record entry { session = some old }) old 60 refl old_expired
      refl refl
