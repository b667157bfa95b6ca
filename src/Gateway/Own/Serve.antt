-- ===== src/Gateway/Own/Serve.antt =====
-- serve of internal/gateway/gateway.go as a whole, for an identity.
use claviger.Prelude.Maps.{lookup}
use claviger.Prelude.{
  String, ◌≡◌, refl, false, Option, none, some, Result, ok, err, Bool-cases, Option-cases, inl, inr,
}
use claviger.Http.{Response}
use claviger.Effect.{◌>>=◌}
use claviger.Recipe.{Recipe}
use claviger.Store.Owned.{AllOwned}
use claviger.Gateway.State.{Config, Live, Incoming, forwarded, check_request, send}
use claviger.Gateway.Forward.{outbound_url, authorize, forward}
use claviger.Gateway.Serve.{
  refusal, csrf_pair, recover, audit, respond, is_managed, policy_if_managed, serve_admitted,
  serve_body, serve,
}
use claviger.Gateway.Own.{
  Acts, Trivial, Rightful, bare_request, bind-Does, elsewhere, Acts-trans, check_request-Does,
  send-Does,
}
use claviger.Gateway.Own.Parts.{
  IsOurs, IsOurStep, OfIdentity, csrf_pair_step, policy_for-OfIdentity, forward-IsOurs,
  recover_step,
}

module _ {W : Type 0} (cfg : Config W) (id : String) (r : Incoming) where
  -- A request of an identity that is not managed goes out as it came.
  forward_bare :
      (body : String) (csrf : String × String)
      → r.body ≡ ok body
      → IsOurs cfg id r none Trivial (forward cfg r body id false csrf.0 csrf.1)
  unfolding forward authorize
  forward_bare body csrf read =
      bind-Does _ id Trivial Trivial (check_request cfg r.method (outbound_url cfg r))
        (λ fine.
          authorize cfg id false csrf.0 csrf.1 (bare_request cfg r body) >>= send cfg forwarded)
        (check_request-Does cfg _ id r.method (outbound_url cfg r))
        (λ fine u.
          bind-Does _ id (λ req. req ≡ bare_request cfg r body) Trivial
            (authorize cfg id false csrf.0 csrf.1 (bare_request cfg r body)) (send cfg forwarded)
            (λ g owned. (refl, elsewhere _ id g g.world g.audits owned))
            (λ req is. send-Does cfg _ id forwarded req (body, read, is)))

  forward_any :
      (rec : Option (Recipe W)) (body : String) (csrf : String × String)
      → r.body ≡ ok body
      → IsOurs cfg id r rec Trivial (forward cfg r body id (is_managed cfg rec) csrf.0 csrf.1)
  forward_any none body csrf read = forward_bare body csrf read
  forward_any (some rec) body csrf read = forward-IsOurs cfg id r rec body csrf read

  recover_any :
      (rec : Option (Recipe W)) (body : String) (csrf : String × String) (resp : Response)
      (g : Live W)
      → r.body ≡ ok body
      → AllOwned g.store.entries
      → IsOurStep cfg id r rec g (recover cfg rec r body id csrf resp g).1
  unfolding recover
  recover_any none body csrf resp g read owned = elsewhere _ id g g.world g.audits owned
  recover_any (some rec) body csrf resp g read owned =
      recover_step cfg id r rec body csrf resp g read owned

  pub policy_any :
      (rec : Option (Recipe W)) → OfIdentity cfg id r rec (policy_if_managed cfg rec id r.method)
  policy_any none = tt
  policy_any (some rec) = policy_for-OfIdentity cfg id r (some rec) r.method

  pub audit_step :
      (rec : Option (Recipe W)) (resp : Response) (g : Live W)
      → AllOwned g.store.entries
      → IsOurStep cfg id r rec g (audit cfg r id resp g)
  audit_step rec resp g owned = elim (Bool-cases cfg.has_audit) [
    | inl kept ↦ rw kept (elsewhere _ id g g.world _ owned)
    | inr off ↦ rw off (elsewhere _ id g g.world g.audits owned)
  ]

  respond_step :
      (rec : Option (Recipe W)) (body : String) (csrf : String × String) (g : Live W)
      (out : Result Response × Live W)
      → r.body ≡ ok body
      → IsOurStep cfg id r rec g out.1
      → IsOurStep cfg id r rec g (respond cfg rec r body id csrf out).1
  unfolding respond
  respond_step rec body csrf g (err x, g1) read step = step
  respond_step rec body csrf g (ok resp, g1) read step =
      let last = recover cfg rec r body id csrf resp g1 in
      let recovered = recover_any rec body csrf resp g1 read step.owned in
      Acts-trans _ id g g1 _ step
        (Acts-trans _ id g1 last.1 _ recovered (audit_step rec last.0 last.1 recovered.owned))

  serve_admitted_step :
      (rec : Option (Recipe W)) (body : String) (g : Live W)
      → r.body ≡ ok body
      → AllOwned g.store.entries
      → IsOurStep cfg id r rec g (serve_admitted cfg rec r body id g).1
  unfolding serve_admitted
  serve_admitted_step rec body g read owned =
      let pair = csrf_pair cfg (policy_if_managed cfg rec id r.method) id ("", "") g in
      let paired =
        csrf_pair_step cfg id r rec (policy_if_managed cfg rec id r.method) ("", "") g
          (policy_any rec) owned in
      respond_step rec body pair.0 g
        (forward cfg r body id (is_managed cfg rec) pair.0.0 pair.0.1 pair.1) read
        (Acts-trans _ id g pair.1 _ paired (forward_any rec body pair.0 read pair.1 paired.owned).1)

  serve_body_step :
      (body : Result String) (g : Live W)
      → r.body ≡ body
      → AllOwned g.store.entries
      → IsOurStep cfg id r (lookup id cfg.recipes) g (serve_body cfg r id body g).1
  serve_body_step (err x) g read owned = elsewhere _ id g g.world g.audits owned
  serve_body_step (ok body) g read owned =
      serve_admitted_step (lookup id cfg.recipes) body g read owned

  -- From a store in which every entry holds a session of its own identity, if any, a request to
  -- the gateway of an identity leaves such a store. All that it makes the gateway send is the
  -- token request of that identity's policy or the client's request, signed with a session of that
  -- identity, or, for an identity without a recipe, the client's request as it came. The entries
  -- and the cached tokens of the other identities stay.
  pub serve-Acts :
      (g : Live W)
      → AllOwned g.store.entries
      → Acts (Rightful cfg id r (lookup id cfg.recipes)) id g (serve cfg id r g).1
  unfolding serve
  serve-Acts g owned = elim (Option-cases (refusal cfg r)) [
    | inl let_in ↦ rw (let_in, serve) (serve_body_step r.body g refl owned)
    | inr (message, e) ↦ rw (e, serve) (elsewhere _ id g g.world g.audits owned)
  ]
