-- ===== src/Gateway/Tasks/Agree.antt =====
-- The handler as a task does, uninterrupted, what the handler of Gateway/Serve does.
use claviger.Prelude.Maps.{lookup}
use claviger.Prelude.{
  String, ◌≡◌, refl, ap, ◌∙◌, Bool, true, false, Option, none, some, Result, ok, err, Bool-cases,
  Option-cases, inl, inr,
}
use claviger.Http.{Request, Response}
use claviger.Session.{Session, apply}
use claviger.Recipe.{Recipe, matches}
use claviger.Effect.{pure}
use claviger.Effect.Task.{done, after, once, run, run-after, Agrees, once-Agrees, then_task-Agrees}
use claviger.Gateway.Retry.{is_idempotent}
use claviger.Gateway.State.{
  Config, Live, Incoming, CsrfPolicy, token_fetch, forwarded, store_get, store_refresh,
  check_request, send,
}
use claviger.Gateway.Csrf.{
  cached, fetch_token, or_fetch, token_of, store_token, csrf_token_for, invalidate_csrf,
}
use claviger.Gateway.Forward.{outbound_url, set_csrf, authorize, forward}
use claviger.Gateway.Own.{bare_request}
use claviger.Gateway.Serve.{
  refusal, policy_for, with_token, csrf_pair, or_first, replay, after_refresh, recover, audit,
  relay, respond, is_managed, policy_if_managed, serve_admitted, serve_body, serve,
}
use claviger.Gateway.Tasks.{
  fetch_request, fetch_task, or_fetch_task, csrf_task, pair_or, pair_task, sign_task, forward_task,
  or_old, replay_task, renewed_task, recover_task, respond_task, admitted_task, body_task,
  serve_task,
}

module _ {W : Type 0} (cfg : Config W) where
  fetch_task-Agrees :
      (id : String) (pol : CsrfPolicy) → Agrees (fetch_task cfg id pol) (fetch_token cfg id pol)
  unfolding fetch_task fetch_token
  fetch_task-Agrees id pol =
      then_task-Agrees (once (check_request cfg "GET" pol.fetch_url)) _ _ _ (once-Agrees _) (λ fine.
        then_task-Agrees (once (store_get cfg id)) _ _ _ (once-Agrees _) (λ sess.
          then_task-Agrees (once (send cfg token_fetch (fetch_request cfg pol sess))) _ _ _
            (once-Agrees _)
            (λ resp.
              then_task-Agrees (once (token_of cfg pol resp)) _ _ _ (once-Agrees _)
                (λ token. once-Agrees (store_token cfg id token)))))

  or_fetch_task-Agrees :
      (id : String) (pol : CsrfPolicy) (hit : Option String)
      → Agrees (or_fetch_task cfg id pol hit) (or_fetch cfg id pol hit)
  unfolding run
  or_fetch_task-Agrees id pol none s = fetch_task-Agrees id pol s
  or_fetch_task-Agrees id pol (some token) s = refl

  csrf_task-Agrees :
      (id : String) (pol : CsrfPolicy) → Agrees (csrf_task cfg id pol) (csrf_token_for cfg id pol)
  unfolding csrf_task csrf_token_for
  csrf_task-Agrees id pol =
      then_task-Agrees (once (cached cfg id)) (or_fetch_task cfg id pol) (cached cfg id)
        (or_fetch cfg id pol) (once-Agrees _) (or_fetch_task-Agrees id pol)

  pair_or-with_token :
      (pol : CsrfPolicy) (old : String × String) (out : Result String × Live W)
      → run {S = Live W} (done (pair_or cfg pol old out.0)) out.1 ≡ with_token cfg pol old out
  unfolding run
  pair_or-with_token pol old (ok token, g) = refl
  pair_or-with_token pol old (err x, g) = refl

  pair_task-Agrees :
      (pol : Option CsrfPolicy) (id : String) (old : String × String)
      → Agrees (pair_task cfg pol id old) (csrf_pair cfg pol id old)
  unfolding pair_task csrf_pair run
  pair_task-Agrees none id old g = refl
  pair_task-Agrees (some pol) id old g =
      run-after (csrf_task cfg id pol) (λ token. done (pair_or cfg pol old token)) g
      ∙ ap (λ p. run {S = Live W} (done (pair_or cfg pol old p.0)) p.1) (csrf_task-Agrees id pol g)
      ∙ pair_or-with_token pol old (csrf_token_for cfg id pol g)

  sign_task-Agrees :
      (id : String) (b : Bool) (csrf : String × String) (req : Request)
      → Agrees (sign_task cfg id b csrf req) (authorize cfg id b csrf.0 csrf.1 req)
  unfolding authorize run
  sign_task-Agrees id true csrf req g =
      then_task-Agrees (once (store_get cfg id)) _ (store_get cfg id)
        (λ sess. pure (set_csrf csrf.0 csrf.1 (apply cfg.env.cookie_pair sess req))) (once-Agrees _)
        (λ sess s. refl) g
  sign_task-Agrees id false csrf req g = refl

  forward_task-Agrees :
      (r : Incoming) (body id : String) (b : Bool) (csrf : String × String)
      → Agrees (forward_task cfg r body id b csrf) (forward cfg r body id b csrf.0 csrf.1)
  unfolding forward_task forward
  forward_task-Agrees r body id b csrf =
      then_task-Agrees (once (check_request cfg r.method (outbound_url cfg r))) _ _ _
        (once-Agrees _)
        (λ fine.
          then_task-Agrees (sign_task cfg id b csrf (bare_request cfg r body)) _ _ _
            (sign_task-Agrees id b csrf (bare_request cfg r body))
            (λ req. once-Agrees (send cfg forwarded req)))

  or_old-or_first :
      (resp : Response) (out : Result Response × Live W)
      → run {S = Live W} (done (or_old cfg resp out.0)) out.1 ≡ or_first cfg resp out
  unfolding run
  or_old-or_first resp (ok again, g) = refl
  or_old-or_first resp (err x, g) = refl

  replay_task-Agrees :
      (r : Incoming) (body id : String) (csrf : String × String) (resp : Response)
      → Agrees (replay_task cfg r body id csrf resp) (replay cfg r body id csrf resp)
  unfolding replay_task replay run
  replay_task-Agrees r body id csrf resp g =
      let pol = policy_for cfg id r.method in
      let again = csrf_pair cfg pol id csrf g in
      elim (Bool-cases (is_idempotent r.method)) [
        | inl idem ↦ rw idem (
            run-after (pair_task cfg pol id csrf) _ g
            ∙ ap
                (λ p.
                  run
                    (after (forward_task cfg r body id true p.0)
                      (λ out. done (or_old cfg resp out)))
                    p.1)
                (pair_task-Agrees pol id csrf g)
            ∙ run-after (forward_task cfg r body id true again.0) _ again.1
            ∙ ap (λ p. run {S = Live W} (done (or_old cfg resp p.0)) p.1)
                (forward_task-Agrees r body id true again.0 again.1)
            ∙ or_old-or_first resp (forward cfg r body id true again.0.0 again.0.1 again.1))
        | inr other ↦ rw other refl
      ]

  renewed_task-Agrees :
      (r : Incoming) (body id : String) (csrf : String × String) (resp : Response)
      (out : Result (Option Session) × Live W)
      → run (renewed_task cfg r body id csrf resp out.0) out.1
        ≡ after_refresh cfg r body id csrf resp out
  unfolding run
  renewed_task-Agrees r body id csrf resp (err x, g) = refl
  renewed_task-Agrees r body id csrf resp (ok s, g) =
      replay_task-Agrees r body id csrf resp (invalidate_csrf id g)

  recover_task-Agrees :
      (rec : Option (Recipe W)) (r : Incoming) (body id : String) (csrf : String × String)
      (resp : Response)
      → Agrees (recover_task cfg rec r body id csrf resp) (recover cfg rec r body id csrf resp)
  unfolding recover_task recover run
  recover_task-Agrees none r body id csrf resp g = refl
  recover_task-Agrees (some rec) r body id csrf resp g =
      elim (Bool-cases (matches rec.logout resp)) [
        | inl out ↦ rw out (
            run-after (once (store_refresh cfg id)) (renewed_task cfg r body id csrf resp) g
            ∙ renewed_task-Agrees r body id csrf resp (store_refresh cfg id g))
        | inr live ↦ rw live refl
      ]

  respond_task-Agrees :
      (rec : Option (Recipe W)) (r : Incoming) (body id : String) (csrf : String × String)
      (out : Result Response × Live W)
      → run (respond_task cfg rec r body id csrf out.0) out.1 ≡ respond cfg rec r body id csrf out
  unfolding respond_task respond run
  respond_task-Agrees rec r body id csrf (err x, g) = refl
  respond_task-Agrees rec r body id csrf (ok resp, g) =
      run-after (recover_task cfg rec r body id csrf resp) _ g
      ∙ ap (λ p. (relay cfg p.0, audit cfg r id p.0 p.1))
          (recover_task-Agrees rec r body id csrf resp g)

  admitted_task-Agrees :
      (rec : Option (Recipe W)) (r : Incoming) (body id : String)
      → Agrees (admitted_task cfg rec r body id) (serve_admitted cfg rec r body id)
  unfolding admitted_task serve_admitted
  admitted_task-Agrees rec r body id g =
      let pol = policy_if_managed cfg rec id r.method in
      let pair = csrf_pair cfg pol id ("", "") g in
      run-after (pair_task cfg pol id ("", "")) _ g
      ∙ ap
          (λ p.
            run
              (after (forward_task cfg r body id (is_managed cfg rec) p.0)
                (respond_task cfg rec r body id p.0))
              p.1)
          (pair_task-Agrees pol id ("", "") g)
      ∙ run-after (forward_task cfg r body id (is_managed cfg rec) pair.0) _ pair.1
      ∙ ap (λ p. run (respond_task cfg rec r body id pair.0 p.0) p.1)
          (forward_task-Agrees r body id (is_managed cfg rec) pair.0 pair.1)
      ∙ respond_task-Agrees rec r body id pair.0
          (forward cfg r body id (is_managed cfg rec) pair.0.0 pair.0.1 pair.1)

  body_task-Agrees :
      (r : Incoming) (id : String) (body : Result String)
      → Agrees (body_task cfg r id body) (serve_body cfg r id body)
  unfolding run
  body_task-Agrees r id (ok body) g = admitted_task-Agrees (lookup id cfg.recipes) r body id g
  body_task-Agrees r id (err x) g = refl

  -- Without interruption the task of a request does what serve does: it gives the same reply, and
  -- leaves the same state.
  pub serve_task-Agrees :
      (id : String) (r : Incoming) (g : Live W) → run (serve_task cfg id r) g ≡ serve cfg id r g
  unfolding serve_task serve run
  serve_task-Agrees id r g = elim (Option-cases (refusal cfg r)) [
    | inl let_in ↦ rw (let_in, serve, serve_task) (body_task-Agrees r id r.body g)
    | inr (message, e) ↦ rw (e, serve, serve_task) refl
  ]
