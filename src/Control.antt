-- ===== src/Control.antt =====
-- internal/control: the daemon's local server, and the client that replay attaches with.
pub mod Status
pub mod Warm
mod Examples
use Prim.Native.String.{◌++◌}
use claviger.Prelude.{
  ℕ, String, Bool, List, [], ◌∷◌, Error, unknown_identity, bad_status, Result, ok, err, ◌>>=◌, eqb,
  ◌==◌, if◌then◌else◌,
}
use claviger.Text.{trim_prefix}
use claviger.Http.{Cookie}
use claviger.Http.Header
use claviger.Session.{Session}
use claviger.Effect.{Eff}
use claviger.Store.{Store}
use claviger.Store

-- CredsResponse
pub record CredsResponse : Type 0 where
  pub identity : String
  pub bearer_token : String
  pub cookies : List Cookie
  pub csrf : String
  pub headers : Header.Header

pub record ControlReply : Type 0 where
  pub status : ℕ
  pub body : String

-- What the channel takes from encoding/json, net/url and the errors.
pub record Wire : Type 0 where
  pub encode_creds : CredsResponse → String
  pub decode_creds : String → Result CredsResponse
  pub path_escape : String → String
  pub error_text : Error → String

-- The loops that copy cookies by name and value.
unfoldable pub copy_cookies : List Cookie → List Cookie
copy_cookies [] = []
copy_cookies (c ∷ cs) = record { name = c.name; value = c.value } ∷ copy_cookies cs

unfoldable pub creds_of : Session → CredsResponse
creds_of s = record {
  identity = s.identity;
  bearer_token = s.bearer_token;
  cookies = copy_cookies s.cookies;
  csrf = s.csrf;
  headers = s.headers;
}

-- The reply to the outcome of Store.Get.
unfoldable pub creds_reply : Wire → Result Session → ControlReply
creds_reply wire (ok s) = record { status = 200; body = wire.encode_creds (creds_of s) }
creds_reply wire (err (unknown_identity id)) = record {
  status = 404;
  body = wire.error_text (unknown_identity id);
}
creds_reply wire (err x) = record { status = 502; body = wire.error_text x }

-- The handler of /creds/
unfoldable pub creds_handler :
    {W : Type 0} → Wire → (W → ℕ × W) → String → Store W → W → ControlReply × Store W × W
creds_handler wire clock path s w =
    let id = trim_prefix path "/creds/" in
    if id == ""
    then (record { status = 400; body = "identity required" }, s, w)
    else (let (r, s', w') = Store.get clock id s w in (creds_reply wire r, s', w'))

-- The session that Client.Creds builds from the record.
unfoldable pub session_of : CredsResponse → Session
session_of cr = record {
  identity = cr.identity;
  cookies = copy_cookies cr.cookies;
  bearer_token = cr.bearer_token;
  refresh_token = "";
  csrf = cr.csrf;
  headers = cr.headers;
  expires_at = 0;
}

unfoldable pub read_creds : Wire → String → ControlReply → Result Session
read_creds wire id reply =
    if eqb reply.status 200
    then (wire.decode_creds reply.body >>= λ cr. ok (session_of cr))
    else err (bad_status id reply.status)

abbrev read_answer {ℓ} : {S : Type ℓ} → Wire → String → Result ControlReply × S → Result Session × S
read_answer wire id (err x, s) = (err x, s)
read_answer wire id (ok reply, s) = (read_creds wire id reply, s)

-- Client.Creds, and so Client.Get; `ask` is a GET on the socket.
unfoldable pub client_creds {ℓ} :
    {S : Type ℓ} → Wire → (String → Eff S ControlReply) → String → Eff S Session
client_creds wire ask id s = read_answer wire id (ask ("/creds/" ++ wire.path_escape id) s)
