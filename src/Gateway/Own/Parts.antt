-- ===== src/Gateway/Own/Parts.antt =====
-- The parts of serve of internal/gateway/gateway.go, put together: one request to the gateway of an
-- identity.
use claviger.Prelude.Maps.{lookup, remove}
use claviger.Prelude.{
  String, ◌≡◌, ◌≢◌, refl, true, List, [], ◌∷◌, Option, none, some, Result, ok, err, arith, eq_iff,
  Bool-cases, Option-cases, inl, inr,
}
use claviger.Http.{Request, Response}
use claviger.Session.{Session, apply}
use claviger.Effect.{Eff, ◌>>=◌}
use claviger.Recipe.{Recipe, matches}
use claviger.Store.Owned.{AllOwned}
use claviger.Gateway.Retry.{is_idempotent}
use claviger.Gateway.State.{
  Config, Live, Incoming, CsrfPolicy, token_fetch, forwarded, store_get, store_refresh,
  check_request, send,
}
use claviger.Gateway.Csrf.{
  covers, cached, fetch_token, or_fetch, token_of, store_token, csrf_token_for, invalidate_csrf,
}
use claviger.Gateway.Forward.{outbound_url, set_csrf, authorize, forward}
use claviger.Gateway.Serve.{
  policy_for, with_token, csrf_pair, or_first, replay, after_refresh, recover,
}
use claviger.Gateway.Own.{
  Acts, Trivial, Does, Rightful, bare_request, bind-Does, elsewhere, in_cache, Acts-trans,
  store_get-Does, store_refresh-Does, check_request-Does, send-Does, token_of-Does,
  store_token-Does, cached-Does,
}

remove_other {ℓ} :
    {V : Type ℓ} (id j : String) (m : List (String × V))
    → id ≢ j
    → lookup j (remove id m) ≡ lookup j m
unfolding lookup remove
remove_other id j [] ne = refl
remove_other id j ((k, v) ∷ m) ne =
    ground (arith, remove_other id j m ne, eq_iff k id, eq_iff k j, ne)

module _ {W : Type 0} (cfg : Config W) (id : String) (r : Incoming) (rec : Option (Recipe W)) where
  abbrev fetch_request : CsrfPolicy → Request
  fetch_request pol = record { method = "GET"; target = pol.fetch_url; header = []; body = "" }

  abbrev after_fetch : CsrfPolicy → Response → Eff (Live W) String
  after_fetch pol resp = token_of cfg pol resp >>= store_token cfg id

  abbrev ask : CsrfPolicy → Session → Eff (Live W) String
  ask pol sess =
      send cfg token_fetch (apply cfg.env.cookie_pair sess (fetch_request pol)) >>= after_fetch pol

  -- It acts for the identity.
  abbrev pub IsOurs : {A : Type 0} → (A → Type 0) → Eff (Live W) A → Type 0
  IsOurs = Does (Rightful cfg id r rec) id

  abbrev pub IsOurStep : Live W → Live W → Type 0
  IsOurStep = Acts (Rightful cfg id r rec) id

  abbrev pub HasPolicy : CsrfPolicy → Type 0
  HasPolicy pol = lookup id cfg.policies ≡ some pol

  after_fetch-IsOurs : (pol : CsrfPolicy) (resp : Response) → IsOurs Trivial (after_fetch pol resp)
  after_fetch-IsOurs pol resp =
      bind-Does _ id Trivial Trivial (token_of cfg pol resp) (store_token cfg id)
        (token_of-Does cfg _ id pol resp) (λ token u. store_token-Does cfg _ id token)

  fetch_token-IsOurs : (pol : CsrfPolicy) → HasPolicy pol → IsOurs Trivial (fetch_token cfg id pol)
  unfolding fetch_token
  fetch_token-IsOurs pol has =
      bind-Does _ id Trivial Trivial (check_request cfg "GET" pol.fetch_url)
        (λ fine. store_get cfg id >>= ask pol) (check_request-Does cfg _ id "GET" pol.fetch_url)
        (λ fine u.
          bind-Does _ id (λ s. s.identity ≡ id) Trivial (store_get cfg id) (ask pol)
            (store_get-Does cfg _ id)
            (λ s named.
              bind-Does _ id Trivial Trivial
                (send cfg token_fetch (apply cfg.env.cookie_pair s (fetch_request pol)))
                (after_fetch pol) (send-Does cfg _ id token_fetch _ (s, pol, named, has, refl))
                (λ resp u. after_fetch-IsOurs pol resp)))

  or_fetch-IsOurs :
      (pol : CsrfPolicy) (hit : Option String)
      → HasPolicy pol
      → IsOurs Trivial (or_fetch cfg id pol hit)
  or_fetch-IsOurs pol (some token) has g owned = (tt, elsewhere _ id g g.world g.audits owned)
  or_fetch-IsOurs pol none has g owned = fetch_token-IsOurs pol has g owned

  csrf_token_for-IsOurs :
      (pol : CsrfPolicy) → HasPolicy pol → IsOurs Trivial (csrf_token_for cfg id pol)
  unfolding csrf_token_for
  csrf_token_for-IsOurs pol has =
      bind-Does _ id Trivial Trivial (cached cfg id) (or_fetch cfg id pol) (cached-Does cfg _ id)
        (λ hit u. or_fetch-IsOurs pol hit has)

  with_token_step :
      (pol : CsrfPolicy) (old : String × String) (g : Live W) (out : Result String × Live W)
      → IsOurStep g out.1
      → IsOurStep g (with_token cfg pol old out).1
  with_token_step pol old g (ok token, g1) step = step
  with_token_step pol old g (err x, g1) step = step

  -- The policies that csrf_pair is given are those of the identity.
  abbrev pub OfIdentity : Option CsrfPolicy → Type 0
  OfIdentity none = Unit
  OfIdentity (some pol) = HasPolicy pol

  pub csrf_pair_step :
      (pol : Option CsrfPolicy) (old : String × String) (g : Live W)
      → OfIdentity pol
      → AllOwned g.store.entries
      → IsOurStep g (csrf_pair cfg pol id old g).1
  unfolding csrf_pair
  csrf_pair_step none old g has owned = elsewhere _ id g g.world g.audits owned
  csrf_pair_step (some pol) old g has owned =
      with_token_step pol old g (csrf_token_for cfg id pol g)
        (csrf_token_for-IsOurs pol has g owned).1

  pub policy_for-OfIdentity : (method : String) → OfIdentity (policy_for cfg id method)
  unfolding policy_for
  policy_for-OfIdentity method = elim (Option-cases (lookup id cfg.policies)) [
    | inl lacks ↦ rw (lacks, policy_for) tt
    | inr (pol, has) ↦
        rw (has, policy_for)
          (elim (Bool-cases (covers pol method)) [
            | inl yes_covers ↦ rw yes_covers has
            | inr no_covers ↦ rw no_covers tt
          ])
  ]

  pub invalidate_step : (g : Live W) → AllOwned g.store.entries → IsOurStep g (invalidate_csrf id g)
  unfolding invalidate_csrf
  invalidate_step g owned =
      in_cache _ id g (remove id g.csrf_cache) g.world owned
        (λ j ne. remove_other id j g.csrf_cache ne)

module _ {W : Type 0} (cfg : Config W) (id : String) (r : Incoming) (rec : Recipe W) where
  -- The request is the client's, signed with a session of the identity.
  abbrev Signed : String → String × String → Request → Type 0
  Signed body csrf req =
      (s : Session) × (s.identity ≡ id)
      × (req ≡ set_csrf csrf.0 csrf.1 (apply cfg.env.cookie_pair s (bare_request cfg r body)))

  authorize-Signed :
      (body : String) (csrf : String × String)
      → Does
          (Rightful cfg id r (some rec))
          id
          (Signed body csrf)
          (authorize cfg id true csrf.0 csrf.1 (bare_request cfg r body))
  unfolding authorize
  authorize-Signed body csrf =
      bind-Does _ id (λ s. s.identity ≡ id) (Signed body csrf) (store_get cfg id) _
        (store_get-Does cfg _ id)
        (λ s named g owned. ((s, named, refl), elsewhere _ id g g.world g.audits owned))

  pub forward-IsOurs :
      (body : String) (csrf : String × String)
      → r.body ≡ ok body
      → IsOurs cfg id r (some rec) Trivial (forward cfg r body id true csrf.0 csrf.1)
  unfolding forward
  forward-IsOurs body csrf read =
      bind-Does _ id Trivial Trivial (check_request cfg r.method (outbound_url cfg r))
        (λ fine.
          authorize cfg id true csrf.0 csrf.1 (bare_request cfg r body) >>= send cfg forwarded)
        (check_request-Does cfg _ id r.method (outbound_url cfg r))
        (λ fine u.
          bind-Does _ id (Signed body csrf) Trivial
            (authorize cfg id true csrf.0 csrf.1 (bare_request cfg r body)) (send cfg forwarded)
            (authorize-Signed body csrf)
            (λ req (s, named, is).
              send-Does cfg _ id forwarded req (s, body, csrf, named, read, is)))

  or_first_step :
      (resp : Response) (g : Live W) (out : Result Response × Live W)
      → IsOurStep cfg id r (some rec) g out.1
      → IsOurStep cfg id r (some rec) g (or_first cfg resp out).1
  or_first_step resp g (ok again, g1) step = step
  or_first_step resp g (err x, g1) step = step

  replay_step :
      (body : String) (csrf : String × String) (resp : Response) (g : Live W)
      → r.body ≡ ok body
      → AllOwned g.store.entries
      → IsOurStep cfg id r (some rec) g (replay cfg r body id csrf resp g).1
  unfolding replay
  replay_step body csrf resp g read owned =
      let again = csrf_pair cfg (policy_for cfg id r.method) id csrf g in
      let paired =
        csrf_pair_step cfg id r (some rec) (policy_for cfg id r.method) csrf g
          (policy_for-OfIdentity cfg id r (some rec) r.method) owned in
      elim (Bool-cases (is_idempotent r.method)) [
        | inl idem ↦ rw idem (
            or_first_step resp g (forward cfg r body id true again.0.0 again.0.1 again.1) (
              Acts-trans _ id g again.1 _ paired
                (forward-IsOurs body again.0 read again.1 paired.owned).1))
        | inr once ↦ rw once (elsewhere _ id g g.world g.audits owned)
      ]

  after_refresh_step :
      (body : String) (csrf : String × String) (resp : Response) (g : Live W)
      (out : Result (Option Session) × Live W)
      → r.body ≡ ok body
      → IsOurStep cfg id r (some rec) g out.1
      → IsOurStep cfg id r (some rec) g (after_refresh cfg r body id csrf resp out).1
  after_refresh_step body csrf resp g (err x, g1) read step = step
  after_refresh_step body csrf resp g (ok s, g1) read step =
      let cleared = invalidate_step cfg id r (some rec) g1 step.owned in
      Acts-trans _ id g g1 _ step (
        Acts-trans _ id g1 (invalidate_csrf id g1) _ cleared
          (replay_step body csrf resp (invalidate_csrf id g1) read cleared.owned))

  pub recover_step :
      (body : String) (csrf : String × String) (resp : Response) (g : Live W)
      → r.body ≡ ok body
      → AllOwned g.store.entries
      → IsOurStep cfg id r (some rec) g (recover cfg (some rec) r body id csrf resp g).1
  unfolding recover
  recover_step body csrf resp g read owned = elim (Bool-cases (matches rec.logout resp)) [
    | inl out ↦ rw out (
        after_refresh_step body csrf resp g (store_refresh cfg id g) read
          (store_refresh-Does cfg _ id g owned).1)
    | inr live ↦ rw live (elsewhere _ id g g.world g.audits owned)
  ]
