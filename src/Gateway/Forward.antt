-- ===== src/Gateway/Forward.antt =====
-- forward of internal/gateway/gateway.go: one request to the target.
pub mod Outbound
use Prim.Native.String.{◌++◌}
use claviger.Prelude.{String, Bool, not, ◌&&◌, [], ok, ◌==◌, if◌then◌else◌}
use claviger.Text.{trim_right_of}
use claviger.Http.{Request, Response}
use claviger.Http.Header
use claviger.Session.{apply}
use claviger.Effect.{Eff, ◌>>=◌, pure}
use claviger.Gateway.Headers.{copy_header}
use claviger.Gateway.State.{Config, Live, Incoming, forwarded, store_get, check_request, send}

-- The header of the outbound request before the session is applied.
unfoldable pub outbound_header : Header.Header → Header.Header
outbound_header h =
    Header.del "X-Claviger-Token" (Header.del "X-Claviger-Identity" (copy_header [] h))

unfoldable pub outbound_url : {W : Type 0} → Config W → Incoming → String
outbound_url cfg r =
    cfg.render (trim_right_of cfg.target_path "/" ++ r.path)
      (trim_right_of cfg.target_escaped_path "/" ++ r.escaped_path) r.raw_query

-- `if csrfHeader != "" && csrfToken != "" { req.Header.Set(csrfHeader, csrfToken) }`
unfoldable pub set_csrf : String → String → Request → Request
set_csrf header token req =
    if not (header == "") && not (token == "")
    then record req { header = Header.set header token req.header }
    else req

module _ {W : Type 0} (cfg : Config W) where
  -- The request under the identity's session, with the anti-CSRF token set last.
  unfoldable pub authorize : String → Bool → String → String → Request → Eff (Live W) Request
  authorize id with_session csrf_header csrf_token req g =
      if with_session
      then (do
        sess ← store_get cfg id
        pure (set_csrf csrf_header csrf_token (apply cfg.env.cookie_pair sess req)))
          g
      else (ok req, g)

  -- forward
  unfoldable pub forward :
      Incoming → String → String → Bool → String → String → Eff (Live W) Response
  forward r body id with_session csrf_header csrf_token = do
    let url = outbound_url cfg r
    fine ← check_request cfg r.method url
    req ←
        authorize id with_session csrf_header csrf_token (record {
          method = r.method;
          target = url;
          header = outbound_header r.header;
          body = body;
        })
    send cfg forwarded req
