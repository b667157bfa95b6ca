-- ===== src/Gateway/Tasks/Behalf.antt =====
-- The task of a request of internal/gateway/gateway.go acts on behalf of its identity at each of its
-- actions, whatever others do in between.
use claviger.Prelude.Maps.{lookup}
use claviger.Prelude.{
  String, ◌≡◌, refl, true, Option, none, some, Result, ok, err, OkThen, Bool-cases, Option-cases,
  inl, inr,
}
use claviger.Http.{Request, Response}
use claviger.Session.{Session}
use claviger.Recipe.{Recipe, matches}
use claviger.Effect.{Eff}
use claviger.Effect.Task.{Task, done, act, after, once, then_task, if_ok}
use claviger.Store.Owned.{AllOwned, Belongs}
use claviger.Gateway.Retry.{is_idempotent}
use claviger.Gateway.State.{
  Config, Live, Incoming, CsrfPolicy, Sent, token_fetch, forwarded, store_get, store_refresh,
  check_request, send,
}
use claviger.Gateway.Csrf.{cached, token_of, store_token}
use claviger.Gateway.Forward.{outbound_url}
use claviger.Gateway.Serve.{refusal, policy_for, is_managed, policy_if_managed}
use claviger.Gateway.Own.{
  Acts, Does, Trivial, Rightful, bare_request, store_get-Does, store_refresh-Does,
  check_request-Does, send-Does, token_of-Does, store_token-Does, cached-Does,
}
use claviger.Gateway.Own.Parts.{HasPolicy, OfIdentity, policy_for-OfIdentity, invalidate_step}
use claviger.Gateway.Own.Serve.{audit_step, policy_any}
use claviger.Gateway.Tasks.{
  fetch_request, fetch_task, or_fetch_task, csrf_task, pair_task, sign_task, forward_task,
  replay_task, renewed_task, recover_task, respond_task, admitted_task, body_task, serve_task,
}

module _ {W : Type 0} (P : Sent → Type 0) (id : String) where
  -- Each action of the task acts for the identity from any owned state, and its value at the end
  -- has the property `Q`.
  abbrev pub OnBehalf : {A : Type 0} → (A → Type 0) → Task (Live W) A → Type 0
  OnBehalf Q (done a) = Q a
  OnBehalf Q (act m rest) =
      (g : Live W) → AllOwned g.store.entries → Acts P id g (m g).1 × OnBehalf Q (rest (m g).0)

  after-OnBehalf :
      {A B : Type 0} (Q : A → Type 0) (R : B → Type 0) (t : Task (Live W) A)
      (k : A → Task (Live W) B)
      → OnBehalf Q t
      → ((a : A) → Q a → OnBehalf R (k a))
      → OnBehalf R (after t k)
  unfolding after
  after-OnBehalf Q R (done a) k h hs = hs a h
  after-OnBehalf Q R (act m rest) k h hs = λ g owned.
      let (acts, later) = h g owned in (acts, after-OnBehalf Q R (rest (m g).0) k later hs)

  once-OnBehalf :
      {A : Type 0} (Q : A → Type 0) (m : Eff (Live W) A)
      → Does P id Q m
      → OnBehalf (OkThen Q) (once m)
  once-OnBehalf Q m h g owned = let (value, acts) = h g owned in (acts, value)

  if_ok-OnBehalf :
      {A B : Type 0} (Q : A → Type 0) (R : B → Type 0) (k : A → Task (Live W) (Result B))
      → ((a : A) → Q a → OnBehalf (OkThen R) (k a))
      → (out : Result A) → OkThen Q out
      → OnBehalf (OkThen R) (if_ok k out)
  if_ok-OnBehalf Q R k hs (ok a) q = hs a q
  if_ok-OnBehalf Q R k hs (err x) q = tt

  then_task-OnBehalf :
      {A B : Type 0} (Q : A → Type 0) (R : B → Type 0) (t : Task (Live W) (Result A))
      (k : A → Task (Live W) (Result B))
      → OnBehalf (OkThen Q) t
      → ((a : A) → Q a → OnBehalf (OkThen R) (k a))
      → OnBehalf (OkThen R) (then_task t k)
  then_task-OnBehalf Q R t k h hs =
      after-OnBehalf (OkThen Q) (OkThen R) t (if_ok k) h (if_ok-OnBehalf Q R k hs)

module _ {W : Type 0} (cfg : Config W) (id : String) (r : Incoming) (rec : Option (Recipe W)) where
  -- The task acts on behalf of the identity.
  abbrev pub IsOurTask : {A : Type 0} → (A → Type 0) → Task (Live W) A → Type 0
  IsOurTask = OnBehalf (Rightful cfg id r rec) id

  fetch_task-IsOurTask :
      (pol : CsrfPolicy)
      → HasPolicy cfg id r rec pol
      → IsOurTask (OkThen Trivial) (fetch_task cfg id pol)
  unfolding fetch_task
  fetch_task-IsOurTask pol has =
      then_task-OnBehalf _ id Trivial Trivial (once (check_request cfg "GET" pol.fetch_url)) _
        (once-OnBehalf _ id Trivial _ (check_request-Does cfg _ id "GET" pol.fetch_url))
        (λ fine u.
          then_task-OnBehalf _ id (λ s. s.identity ≡ id) Trivial (once (store_get cfg id)) _
            (once-OnBehalf _ id (λ s. s.identity ≡ id) _ (store_get-Does cfg _ id))
            (λ s named.
              then_task-OnBehalf _ id Trivial Trivial
                (once (send cfg token_fetch (fetch_request cfg pol s))) _
                (once-OnBehalf _ id Trivial _
                  (send-Does cfg _ id token_fetch _ (s, pol, named, has, refl)))
                (λ resp u.
                  then_task-OnBehalf _ id Trivial Trivial (once (token_of cfg pol resp)) _
                    (once-OnBehalf _ id Trivial _ (token_of-Does cfg _ id pol resp))
                    (λ token u.
                      once-OnBehalf _ id Trivial (store_token cfg id token)
                        (store_token-Does cfg _ id token)))))

  or_fetch_task-IsOurTask :
      (pol : CsrfPolicy) (hit : Option String)
      → HasPolicy cfg id r rec pol
      → IsOurTask (OkThen Trivial) (or_fetch_task cfg id pol hit)
  or_fetch_task-IsOurTask pol none has = fetch_task-IsOurTask pol has
  or_fetch_task-IsOurTask pol (some token) has = tt

  pair_task-IsOurTask :
      (pol : Option CsrfPolicy) (old : String × String)
      → OfIdentity cfg id r rec pol
      → IsOurTask Trivial (pair_task cfg pol id old)
  unfolding pair_task csrf_task
  pair_task-IsOurTask none old has = tt
  pair_task-IsOurTask (some pol) old has =
      after-OnBehalf _ id (OkThen Trivial) Trivial (csrf_task cfg id pol) _
        (then_task-OnBehalf _ id Trivial Trivial (once (cached cfg id)) _
          (once-OnBehalf _ id Trivial _ (cached-Does cfg _ id))
          (λ hit u. or_fetch_task-IsOurTask pol hit has))
        (λ token u. tt)

module _ {W : Type 0} (cfg : Config W) (id : String) (r : Incoming) where
  -- What may go out for the identity, as the client's request.
  abbrev IsFitting : Option (Recipe W) → Request → Type 0
  IsFitting rec req = Rightful cfg id r rec (forwarded req)

  sign_task-IsFitting :
      (rec : Option (Recipe W)) (body : String) (csrf : String × String)
      → r.body ≡ ok body
      → IsOurTask cfg id r rec
          (OkThen (IsFitting rec))
          (sign_task cfg id (is_managed cfg rec) csrf (bare_request cfg r body))
  sign_task-IsFitting none body csrf read = (body, read, refl)
  sign_task-IsFitting (some rec) body csrf read =
      then_task-OnBehalf _ id (λ s. s.identity ≡ id) (IsFitting (some rec))
        (once (store_get cfg id)) _
        (once-OnBehalf _ id (λ s. s.identity ≡ id) _ (store_get-Does cfg _ id))
        (λ s named. (s, body, csrf, named, read, refl))

  forward_task-IsOurTask :
      (rec : Option (Recipe W)) (body : String) (csrf : String × String)
      → r.body ≡ ok body
      → IsOurTask cfg id r rec
          (OkThen Trivial)
          (forward_task cfg r body id (is_managed cfg rec) csrf)
  unfolding forward_task
  forward_task-IsOurTask rec body csrf read =
      then_task-OnBehalf _ id Trivial Trivial
        (once (check_request cfg r.method (outbound_url cfg r))) _
        (once-OnBehalf _ id Trivial _ (check_request-Does cfg _ id r.method (outbound_url cfg r)))
        (λ fine u.
          then_task-OnBehalf _ id (IsFitting rec) Trivial
            (sign_task cfg id (is_managed cfg rec) csrf (bare_request cfg r body)) _
            (sign_task-IsFitting rec body csrf read)
            (λ req fits. once-OnBehalf _ id Trivial _ (send-Does cfg _ id forwarded req fits)))

  replay_task-IsOurTask :
      (rec : Recipe W) (body : String) (csrf : String × String) (resp : Response)
      → r.body ≡ ok body
      → IsOurTask cfg id r (some rec) Trivial (replay_task cfg r body id csrf resp)
  unfolding replay_task
  replay_task-IsOurTask rec body csrf resp read = elim (Bool-cases (is_idempotent r.method)) [
    | inl idem ↦ rw idem (
        after-OnBehalf _ id Trivial Trivial (pair_task cfg (policy_for cfg id r.method) id csrf) _
          (pair_task-IsOurTask cfg id r (some rec) (policy_for cfg id r.method) csrf
            (policy_for-OfIdentity cfg id r (some rec) r.method))
          (λ again u.
            after-OnBehalf _ id (OkThen Trivial) Trivial (forward_task cfg r body id true again) _
              (forward_task-IsOurTask (some rec) body again read) (λ out v. tt)))
    | inr other ↦ rw other tt
  ]

  renewed_task-IsOurTask :
      (rec : Recipe W) (body : String) (csrf : String × String) (resp : Response)
      (out : Result (Option Session))
      → r.body ≡ ok body
      → IsOurTask cfg id r (some rec) Trivial (renewed_task cfg r body id csrf resp out)
  renewed_task-IsOurTask rec body csrf resp (err x) read = tt
  renewed_task-IsOurTask rec body csrf resp (ok s) read = λ g owned.
      (invalidate_step cfg id r (some rec) g owned, replay_task-IsOurTask rec body csrf resp read)

  recover_task-IsOurTask :
      (rec : Option (Recipe W)) (body : String) (csrf : String × String) (resp : Response)
      → r.body ≡ ok body
      → IsOurTask cfg id r rec Trivial (recover_task cfg rec r body id csrf resp)
  unfolding recover_task
  recover_task-IsOurTask none body csrf resp read = tt
  recover_task-IsOurTask (some rec) body csrf resp read =
      elim (Bool-cases (matches rec.logout resp)) [
        | inl out ↦ rw out (
            after-OnBehalf _ id (OkThen (Belongs id)) Trivial (once (store_refresh cfg id)) _
              (once-OnBehalf _ id (Belongs id) _ (store_refresh-Does cfg _ id))
              (λ outcome u. renewed_task-IsOurTask rec body csrf resp outcome read))
        | inr live ↦ rw live tt
      ]

  respond_task-IsOurTask :
      (rec : Option (Recipe W)) (body : String) (csrf : String × String) (out : Result Response)
      → r.body ≡ ok body
      → IsOurTask cfg id r rec Trivial (respond_task cfg rec r body id csrf out)
  unfolding respond_task
  respond_task-IsOurTask rec body csrf (err x) read = tt
  respond_task-IsOurTask rec body csrf (ok resp) read =
      after-OnBehalf _ id Trivial Trivial (recover_task cfg rec r body id csrf resp) _
        (recover_task-IsOurTask rec body csrf resp read)
        (λ last u g owned. (audit_step cfg id r rec last g owned, tt))

  body_task-IsOurTask :
      (body : Result String)
      → r.body ≡ body
      → IsOurTask cfg id r (lookup id cfg.recipes) Trivial (body_task cfg r id body)
  unfolding admitted_task
  body_task-IsOurTask (err x) read = tt
  body_task-IsOurTask (ok body) read =
      let rec = lookup id cfg.recipes in
      let pol = policy_if_managed cfg rec id r.method in
      after-OnBehalf _ id Trivial Trivial (pair_task cfg pol id ("", "")) _
        (pair_task-IsOurTask cfg id r rec pol ("", "") (policy_any cfg id r rec))
        (λ csrf u.
          after-OnBehalf _ id (OkThen Trivial) Trivial
            (forward_task cfg r body id (is_managed cfg rec) csrf) _
            (forward_task-IsOurTask rec body csrf read)
            (λ out v. respond_task-IsOurTask rec body csrf out read))

  -- At each of its actions a request acts on behalf of its identity.
  pub serve_task-IsOurTask :
      IsOurTask cfg id r (lookup id cfg.recipes) Trivial (serve_task cfg id r)
  unfolding serve_task
  serve_task-IsOurTask = elim (Option-cases (refusal cfg r)) [
    | inl let_in ↦ rw (let_in, serve_task) (body_task-IsOurTask r.body refl)
    | inr (message, e) ↦ rw (e, serve_task) tt
  ]
