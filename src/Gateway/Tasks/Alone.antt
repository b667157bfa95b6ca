-- ===== src/Gateway/Tasks/Alone.antt =====
-- The task of a request of internal/gateway/gateway.go reads nothing of other identities.
use claviger.Prelude.Maps.{lookup}
use claviger.Prelude.{
  String, ◌≡◌, refl, subst, Bool, true, false, Option, none, some, Result, ok, err, Bool-cases,
  Option-cases, inl, inr,
}
use claviger.Http.{Request, Response}
use claviger.Session.{Session}
use claviger.Recipe.{Recipe, matches}
use claviger.Effect.Task.{Task, done, act, after, once, then_task, if_ok, run}
use claviger.Gateway.Retry.{is_idempotent}
use claviger.Gateway.State.{
  Config, Live, Incoming, CsrfPolicy, token_fetch, forwarded, store_get, store_refresh,
  check_request, send,
}
use claviger.Gateway.Csrf.{cached, token_of, store_token}
use claviger.Gateway.Forward.{outbound_url}
use claviger.Gateway.Own.{bare_request}
use claviger.Gateway.Serve.{refusal, policy_for, is_managed, policy_if_managed, serve}
use claviger.Gateway.Tasks.{
  fetch_request, fetch_task, or_fetch_task, csrf_task, pair_task, sign_task, forward_task,
  replay_task, renewed_task, recover_task, respond_task, admitted_task, body_task, serve_task,
}
use claviger.Gateway.Tasks.Agree.{serve_task-Agrees}
use claviger.Gateway.Alone.{
  Like, IsBlinkered, store_get-IsBlinkered, store_refresh-IsBlinkered, check_request-IsBlinkered,
  send-IsBlinkered, token_of-IsBlinkered, store_token-IsBlinkered, cached-IsBlinkered,
  invalidate_csrf-IsBlinkered, audit-IsBlinkered,
}

module _ {W : Type 0} (id : String) where
  -- Each action of the task gives a value, and leaves a state, that depend for the identity on
  -- nothing of others.
  abbrev pub IsAlone : {A : Type 0} → Task (Live W) A → Type 0
  IsAlone (done a) = Unit
  IsAlone (act m rest) = IsBlinkered id m × ((g : Live W) → IsAlone (rest (m g).0))

  after-IsAlone :
      {A B : Type 0} (t : Task (Live W) A) (k : A → Task (Live W) B)
      → IsAlone t
      → ((a : A) → IsAlone (k a))
      → IsAlone (after t k)
  unfolding after
  after-IsAlone (done a) k h hs = hs a
  after-IsAlone (act m rest) k (own, later) hs =
      (own, λ g. after-IsAlone (rest (m g).0) k (later g) hs)

  once-IsAlone : {A : Type 0} (m : Live W → A × Live W) → IsBlinkered id m → IsAlone (once m)
  once-IsAlone m h = (h, λ g. tt)

  if_ok-IsAlone :
      {A B : Type 0} (k : A → Task (Live W) (Result B))
      → ((a : A) → IsAlone (k a))
      → (out : Result A) → IsAlone (if_ok k out)
  if_ok-IsAlone k hs (ok a) = hs a
  if_ok-IsAlone k hs (err x) = tt

  then_task-IsAlone :
      {A B : Type 0} (m : Live W → Result A × Live W) (k : A → Task (Live W) (Result B))
      → IsBlinkered id m
      → ((a : A) → IsAlone (k a))
      → IsAlone (then_task (once m) k)
  then_task-IsAlone m k h hs =
      after-IsAlone (once m) (if_ok k) (once-IsAlone m h) (if_ok-IsAlone k hs)

  -- Run from two states that are the same to the identity, the task ends in two such states, with
  -- the same value.
  run-IsAlone : {A : Type 0} (t : Task (Live W) A) → IsAlone t → IsBlinkered id (run t)
  unfolding run
  run-IsAlone (done a) h g g' like = (refl, like)
  run-IsAlone (act m rest) (own, later) g g' like =
      let (value, left) = own g g' like in
      subst
        (λ b.
          ((run (rest (m g).0) (m g).1).0 ≡ (run (rest b) (m g').1).0)
          × Like id (run (rest (m g).0) (m g).1).1 (run (rest b) (m g').1).1)
        value (run-IsAlone (rest (m g).0) (later g) (m g).1 (m g').1 left)

module _ {W : Type 0} (cfg : Config W) (id : String) where
  fetch_task-IsAlone : (pol : CsrfPolicy) → IsAlone id (fetch_task cfg id pol)
  unfolding fetch_task
  fetch_task-IsAlone pol =
      then_task-IsAlone id (check_request cfg "GET" pol.fetch_url) _
        (check_request-IsBlinkered cfg id _ _)
        (λ fine. then_task-IsAlone id (store_get cfg id) _ (store_get-IsBlinkered cfg id) (λ sess.
          then_task-IsAlone id (send cfg token_fetch (fetch_request cfg pol sess)) _
            (send-IsBlinkered cfg id _ _)
            (λ resp.
              then_task-IsAlone id (token_of cfg pol resp) _ (token_of-IsBlinkered cfg id pol resp)
                (λ token.
                  once-IsAlone id (store_token cfg id token)
                    (store_token-IsBlinkered cfg id token)))))

  or_fetch_task-IsAlone :
      (pol : CsrfPolicy) (hit : Option String) → IsAlone id (or_fetch_task cfg id pol hit)
  or_fetch_task-IsAlone pol none = fetch_task-IsAlone pol
  or_fetch_task-IsAlone pol (some token) = tt

  pair_task-IsAlone :
      (pol : Option CsrfPolicy) (old : String × String) → IsAlone id (pair_task cfg pol id old)
  unfolding pair_task csrf_task
  pair_task-IsAlone none old = tt
  pair_task-IsAlone (some pol) old =
      after-IsAlone id (csrf_task cfg id pol) _
        (then_task-IsAlone id (cached cfg id) _ (cached-IsBlinkered cfg id)
          (or_fetch_task-IsAlone pol))
        (λ token. tt)

  sign_task-IsAlone :
      (b : Bool) (csrf : String × String) (req : Request) → IsAlone id (sign_task cfg id b csrf req)
  sign_task-IsAlone true csrf req =
      then_task-IsAlone id (store_get cfg id) _ (store_get-IsBlinkered cfg id) (λ sess. tt)
  sign_task-IsAlone false csrf req = tt

  module _ (r : Incoming) where
    forward_task-IsAlone :
        (body : String) (b : Bool) (csrf : String × String)
        → IsAlone id (forward_task cfg r body id b csrf)
    unfolding forward_task
    forward_task-IsAlone body b csrf =
        then_task-IsAlone id (check_request cfg r.method (outbound_url cfg r)) _
          (check_request-IsBlinkered cfg id _ _)
          (λ fine.
            after-IsAlone id (sign_task cfg id b csrf (bare_request cfg r body)) _
              (sign_task-IsAlone b csrf (bare_request cfg r body))
              (if_ok-IsAlone id _ (λ req.
                once-IsAlone id (send cfg forwarded req) (send-IsBlinkered cfg id forwarded req))))

    replay_task-IsAlone :
        (body : String) (csrf : String × String) (resp : Response)
        → IsAlone id (replay_task cfg r body id csrf resp)
    unfolding replay_task
    replay_task-IsAlone body csrf resp = elim (Bool-cases (is_idempotent r.method)) [
      | inl idem ↦ rw idem (
          after-IsAlone id (pair_task cfg (policy_for cfg id r.method) id csrf) _
            (pair_task-IsAlone (policy_for cfg id r.method) csrf)
            (λ again.
              after-IsAlone id (forward_task cfg r body id true again) _
                (forward_task-IsAlone body true again) (λ out. tt)))
      | inr other ↦ rw other tt
    ]

    renewed_task-IsAlone :
        (body : String) (csrf : String × String) (resp : Response) (out : Result (Option Session))
        → IsAlone id (renewed_task cfg r body id csrf resp out)
    renewed_task-IsAlone body csrf resp (err x) = tt
    renewed_task-IsAlone body csrf resp (ok s) =
        (invalidate_csrf-IsBlinkered cfg id, λ g. replay_task-IsAlone body csrf resp)

    recover_task-IsAlone :
        (rec : Option (Recipe W)) (body : String) (csrf : String × String) (resp : Response)
        → IsAlone id (recover_task cfg rec r body id csrf resp)
    unfolding recover_task
    recover_task-IsAlone none body csrf resp = tt
    recover_task-IsAlone (some rec) body csrf resp = elim (Bool-cases (matches rec.logout resp)) [
      | inl out ↦ rw out (
          after-IsAlone id (once (store_refresh cfg id)) _
            (once-IsAlone id (store_refresh cfg id) (store_refresh-IsBlinkered cfg id))
            (renewed_task-IsAlone body csrf resp))
      | inr live ↦ rw live tt
    ]

    respond_task-IsAlone :
        (rec : Option (Recipe W)) (body : String) (csrf : String × String) (out : Result Response)
        → IsAlone id (respond_task cfg rec r body id csrf out)
    unfolding respond_task
    respond_task-IsAlone rec body csrf (err x) = tt
    respond_task-IsAlone rec body csrf (ok resp) =
        after-IsAlone id (recover_task cfg rec r body id csrf resp) _
          (recover_task-IsAlone rec body csrf resp)
          (λ last. (audit-IsBlinkered cfg id r last, λ g. tt))

    body_task-IsAlone : (body : Result String) → IsAlone id (body_task cfg r id body)
    unfolding admitted_task
    body_task-IsAlone (err x) = tt
    body_task-IsAlone (ok body) =
        let rec = lookup id cfg.recipes in
        let pol = policy_if_managed cfg rec id r.method in
        after-IsAlone id (pair_task cfg pol id ("", "")) _ (pair_task-IsAlone pol ("", "")) (λ csrf.
          after-IsAlone id (forward_task cfg r body id (is_managed cfg rec) csrf) _
            (forward_task-IsAlone body (is_managed cfg rec) csrf)
            (respond_task-IsAlone rec body csrf))

    -- No action of a request reads anything of another identity.
    pub serve_task-IsAlone : IsAlone id (serve_task cfg id r)
    unfolding serve_task
    serve_task-IsAlone = elim (Option-cases (refusal cfg r)) [
      | inl let_in ↦ rw (let_in, serve_task) (body_task-IsAlone r.body)
      | inr (message, e) ↦ rw (e, serve_task) tt
    ]

    -- A request as a whole reads nothing of another identity.
    pub serve-IsBlinkered : IsBlinkered id (serve cfg id r)
    serve-IsBlinkered g h like =
        rw (← serve_task-Agrees cfg id r g, ← serve_task-Agrees cfg id r h)
          (run-IsAlone id (serve_task cfg id r) serve_task-IsAlone g h like)
