-- ===== src/Mockauth.antt =====
-- testutil/mockauth/mockauth.go: the login server that the program is run against in tests.
pub mod Whoami
mod Examples
use Prim.Native.String.{◌++◌}
use claviger.Prelude.{
  ℕ, ◌+◌, suc, String, Bool, true, false, not, ◌&&◌, List, [], ◌∷◌, Option, none, some, ltb, ◌==◌,
  if◌then◌else◌,
}
use claviger.Prelude.Maps.{lookup, insert, remove}
use claviger.Text.{has_prefix, trim_prefix}
use claviger.Http.{Request}
use claviger.Http.Header
use claviger.Session.{is_zero}

-- tokenInfo
pub record TokenInfo : Type 0 where
  pub user : String
  pub expires : ℕ

-- Server; a lifetime that is not positive is 0
pub record Server : Type 0 where
  pub ttl : ℕ
  pub tokens : List (String × TokenInfo)
  pub seq : ℕ

-- What the handlers take from fmt and net/http: %d, FormValue, and the value of a named cookie.
pub record Web : Type 0 where
  pub show : ℕ → String
  pub form_value : Request → String → String
  pub cookie : Request → String → Option String

-- What a handler writes: an error, the tokens as a cookie and a record, or the user.
pub data MockReply : Type 0 where
  http_error : ℕ → String → MockReply
  tokens : String → String → MockReply
  unauthenticated : MockReply
  user_is : String → MockReply

-- New
abbrev pub new : ℕ → Server
new ttl = record { ttl = ttl; tokens = []; seq = 0 }

module _ (web : Web) where
  -- issue, at the time `now`
  unfoldable pub issue : String → ℕ → Server → (String × String) × Server
  issue user now s =
      let seq = suc s.seq in
      let access = "acc-" ++ user ++ "-" ++ web.show seq in
      (
        (access, "ref-" ++ user ++ "-" ++ web.show seq),
        record s {
          seq = seq;
          tokens =
              insert access
                (record { user = user; expires = if ltb 0 s.ttl then now + s.ttl else 0 }) s.tokens;
        },
      )

  abbrev still_valid : String → ℕ → Option TokenInfo → Server → Option String × Server
  still_valid tok now none s = (none, s)
  still_valid tok now (some info) s =
      if not (is_zero info.expires) && ltb info.expires now
      then (none, record s { tokens = remove tok s.tokens })
      else (some info.user, s)

  -- valid, at the time `now`
  unfoldable pub valid : String → ℕ → Server → Option String × Server
  valid tok now s = still_valid tok now (lookup tok s.tokens) s

  abbrev pub issued : (String × String) × Server → MockReply × Server
  issued ((access, refresh), s) = (tokens access refresh, s)

  -- /login
  unfoldable pub login_handler : Request → ℕ → Server → MockReply × Server
  login_handler r now s =
      let user = web.form_value r "username" in
      if user == "" then (http_error 400 "missing username", s) else issued (issue user now s)

  -- /oauth/token
  unfoldable pub token_handler : Request → ℕ → Server → MockReply × Server
  token_handler r now s =
      let grant = web.form_value r "grant_type" in
      if grant == "password"
      then issued (issue (web.form_value r "username") now s)
      else if grant == "refresh_token"
      then issued (issue "refreshed" now s)
      else (http_error 400 "unsupported_grant_type", s)

  abbrev or_cookie : Option String → String
  or_cookie none = ""
  or_cookie (some value) = value

  -- The token of a request: `len(h) > 7` says that something follows the scheme.
  unfoldable pub request_token : Request → String
  request_token r =
      let h = Header.get r.header "Authorization" in
      if has_prefix h "Bearer " && not (trim_prefix h "Bearer " == "")
      then trim_prefix h "Bearer "
      else or_cookie (web.cookie r "session")

  abbrev pub answer : Option String × Server → MockReply × Server
  answer (none, s) = (unauthenticated, s)
  answer (some user, s) = (user_is user, s)

  -- /api/whoami
  unfoldable pub whoami_handler : Request → ℕ → Server → MockReply × Server
  whoami_handler r now s = answer (valid (request_token r) now s)
