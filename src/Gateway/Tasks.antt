-- ===== src/Gateway/Tasks.antt =====
-- The handler of internal/gateway/gateway.go as a task, which other requests may interrupt between
-- two of its actions: a reading of the clock and the cache, a call of the store, a request, a write
-- of the cache, an audit record.
pub mod Agree
pub mod Behalf
pub mod Alone
use claviger.Prelude.Maps.{lookup}
use claviger.Prelude.{
  String, Bool, true, false, [], Option, none, some, Result, ok, err, if◌then◌else◌,
}
use claviger.Http.{Request, Response}
use claviger.Session.{Session, apply}
use claviger.Recipe.{Recipe, matches}
use claviger.Effect.Task.{Task, done, act, after, once, then_task}
use claviger.Gateway.Retry.{is_idempotent}
use claviger.Gateway.State.{
  Config, Live, Incoming, CsrfPolicy, Sent, token_fetch, forwarded, store_get, store_refresh,
  check_request, send,
}
use claviger.Gateway.Csrf.{cached, token_of, store_token, invalidate_csrf}
use claviger.Gateway.Forward.{outbound_url, set_csrf}
use claviger.Gateway.Own.{bare_request}
use claviger.Gateway.Serve.{
  Reply, http_error, bad_gateway, refusal, policy_for, audit, relay, is_managed, policy_if_managed,
}

module _ {W : Type 0} (cfg : Config W) where
  abbrev pub fetch_request : CsrfPolicy → Session → Request
  fetch_request pol sess =
      apply cfg.env.cookie_pair sess
        (record { method = "GET"; target = pol.fetch_url; header = []; body = "" })

  -- csrfTokenFor past the cache
  unfoldable pub fetch_task : String → CsrfPolicy → Task (Live W) (Result String)
  fetch_task id pol = then_task (once (check_request cfg "GET" pol.fetch_url)) (λ fine.
      then_task (once (store_get cfg id)) (λ sess.
        then_task (once (send cfg token_fetch (fetch_request pol sess))) (λ resp.
          then_task (once (token_of cfg pol resp)) (λ token. once (store_token cfg id token)))))

  abbrev pub or_fetch_task : String → CsrfPolicy → Option String → Task (Live W) (Result String)
  or_fetch_task id pol (some token) = done (ok token)
  or_fetch_task id pol none = fetch_task id pol

  -- csrfTokenFor
  unfoldable pub csrf_task : String → CsrfPolicy → Task (Live W) (Result String)
  csrf_task id pol = then_task (once (cached cfg id)) (or_fetch_task id pol)

  abbrev pub pair_or : CsrfPolicy → String × String → Result String → String × String
  pair_or pol old (ok token) = (pol.header, token)
  pair_or pol old (err x) = old

  -- The header and token to inject.
  unfoldable pub pair_task :
      Option CsrfPolicy → String → String × String → Task (Live W) (String × String)
  pair_task none id old = done old
  pair_task (some pol) id old = after (csrf_task id pol) (λ token. done (pair_or pol old token))

  abbrev pub sign_task : String → Bool → String × String → Request → Task (Live W) (Result Request)
  sign_task id true csrf req =
      then_task (once (store_get cfg id))
        (λ sess. done (ok (set_csrf csrf.0 csrf.1 (apply cfg.env.cookie_pair sess req))))
  sign_task id false csrf req = done (ok req)

  -- forward
  unfoldable pub forward_task :
      Incoming → String → String → Bool → String × String → Task (Live W) (Result Response)
  forward_task r body id with_session csrf =
      then_task (once (check_request cfg r.method (outbound_url cfg r))) (λ fine.
        then_task (sign_task id with_session csrf (bare_request cfg r body))
          (λ req. once (send cfg forwarded req)))

  abbrev pub or_old : Response → Result Response → Response
  or_old resp (ok again) = again
  or_old resp (err x) = resp

  -- The replay after a successful reauth.
  unfoldable pub replay_task :
      Incoming → String → String → String × String → Response → Task (Live W) Response
  replay_task r body id csrf resp =
      if is_idempotent r.method
      then after (pair_task (policy_for cfg id r.method) id csrf)
          (λ again. after (forward_task r body id true again) (λ out. done (or_old resp out)))
      else done resp

  abbrev pub renewed_task {ℓ} :
      {A : Type ℓ}
      → Incoming
      → String
      → String
      → String × String
      → Response
      → Result A
      → Task (Live W) Response
  renewed_task r body id csrf resp (err x) = done resp
  renewed_task r body id csrf resp (ok s) =
      act (λ g. (tt, invalidate_csrf id g)) (λ u. replay_task r body id csrf resp)

  -- The reauth branch.
  unfoldable pub recover_task :
      Option (Recipe W)
      → Incoming
      → String
      → String
      → String × String
      → Response
      → Task (Live W) Response
  recover_task none r body id csrf resp = done resp
  recover_task (some rec) r body id csrf resp =
      if matches rec.logout resp
      then after (once (store_refresh cfg id)) (renewed_task r body id csrf resp)
      else done resp

  unfoldable pub respond_task :
      Option (Recipe W)
      → Incoming
      → String
      → String
      → String × String
      → Result Response
      → Task (Live W) Reply
  respond_task rec r body id csrf (err x) = done (bad_gateway "forward: " x)
  respond_task rec r body id csrf (ok resp) =
      after (recover_task rec r body id csrf resp)
        (λ last. act (λ g. (tt, audit cfg r id last g)) (λ u. done (relay cfg last)))

  -- The handler once the guards have let the request in and its body is read.
  unfoldable pub admitted_task :
      Option (Recipe W) → Incoming → String → String → Task (Live W) Reply
  admitted_task rec r body id =
      after (pair_task (policy_if_managed cfg rec id r.method) id ("", "")) (λ csrf.
        after (forward_task r body id (is_managed cfg rec) csrf) (respond_task rec r body id csrf))

  abbrev pub body_task : Incoming → String → Result String → Task (Live W) Reply
  body_task r id (err x) = done (bad_gateway "read body: " x)
  body_task r id (ok body) = admitted_task (lookup id cfg.recipes) r body id

  -- serve
  unfoldable pub serve_task : String → Incoming → Task (Live W) Reply
  serve_task id r = elim (refusal cfg r) [
    | some message ↦ done (http_error 403 message)
    | none ↦ body_task r id r.body
  ]
