-- ===== src/Gateway/Serve/Reauth.antt =====
-- The transparent reauth of serve in internal/gateway/gateway.go, with the store and the recipe:
-- the request that is sent again carries the session that the login gave.
use claviger.Prelude.{
  String, ◌≡◌, refl, sym, ◌∙◌, ap, subst, true, false, [], ◌∷◌, ◌++◌, Option, none, some, Result,
  ok, err,
}
use claviger.Http.{Request, Response}
use claviger.Session.{Session, apply, expired}
use claviger.Recipe.{Recipe, matches}
use claviger.Effect.{Eff, and_then, ◌>>=◌}
use claviger.Store.{entry_of}
use claviger.Store.Entry.{Entry, Ref}
use claviger.Gateway.Retry.{is_idempotent}
use claviger.Gateway.State.{Config, Live, Incoming, forwarded, store_refresh, check_request, send}
use claviger.Gateway.Csrf.{invalidate_csrf}
use claviger.Gateway.Forward.{outbound_header, outbound_url, set_csrf, authorize, forward}
use claviger.Gateway.Serve.{csrf_pair, or_first, after_refresh, policy_for, replay, recover}
use claviger.Gateway.Serve.Held.{Holds, after_get, store_get-eq, csrf_pair_keeps, refresh_leaves}

module _ {W : Type 0} (cfg : Config W) where
  -- The request that forward sends with this session.
  abbrev pub signed : Session → Incoming → String → String × String → Request
  signed s r body csrf = set_csrf csrf.0 csrf.1 (
      apply cfg.env.cookie_pair s (record {
        method = r.method;
        target = outbound_url cfg r;
        header = outbound_header r.header;
        body = body;
      }))

  -- The header and token for the second attempt.
  abbrev pub fresh_pair : String → Incoming → String × String → Live W → (String × String) × Live W
  fresh_pair id r csrf g = csrf_pair cfg (policy_for cfg id r.method) id csrf g

module _ {W : Type 0} (cfg : Config W) (id : String) (s : Session)
    (fresh : (v : W) → expired s (cfg.env.now v).0 ≡ false) where
  abbrev unsigned : Incoming → String → Request
  unsigned r body = record {
    method = r.method;
    target = outbound_url cfg r;
    header = outbound_header r.header;
    body = body;
  }

  check_request_passes :
      (method url : String) (g : Live W)
      → cfg.env.request_error method url ≡ none
      → check_request cfg method url g ≡ (ok tt, g)
  check_request_passes method url g fine = rw (fine, check_request) refl

  authorize-eq :
      (csrf : String × String) (req : Request) (g : Live W) (e : Entry W) (r : Ref)
      → entry_of id g.store.entries ≡ some e
      → e.session ≡ some r
      → r.obj ≡ s
      → authorize cfg id true csrf.0 csrf.1 req g ≡ (
        ok (set_csrf csrf.0 csrf.1 (apply cfg.env.cookie_pair s req)),
        after_get cfg id s fresh e g,
      )
  unfolding authorize
  authorize-eq csrf req g e r found held same =
      rw (store_get-eq cfg id s fresh g e r found held same) refl

  abbrev send_signed : Incoming → String → String × String → Eff (Live W) Response
  send_signed r body csrf =
      authorize cfg id true csrf.0 csrf.1 (unsigned r body) >>= send cfg forwarded

  send_signed_lem :
      (r : Incoming) (body : String) (csrf : String × String) (g : Live W)
      → Holds id s g.store.entries
      → (send_signed r body csrf g).1.sent ≡ g.sent ++ forwarded (signed cfg s r body csrf) ∷ []
  unfolding send
  send_signed_lem r body csrf g (e, ref, found, held, same) =
      rw (authorize-eq csrf (unsigned r body) g e ref found held same) refl

  -- A forward under the held session sends the request signed with it.
  forward-signed :
      (r : Incoming) (body : String) (csrf : String × String) (g : Live W)
      → Holds id s g.store.entries
      → cfg.env.request_error r.method (outbound_url cfg r) ≡ none
      → (forward cfg r body id true csrf.0 csrf.1 g).1.sent
        ≡ g.sent ++ forwarded (signed cfg s r body csrf) ∷ []
  unfolding forward
  forward-signed r body csrf g h fine =
      subst
        (λ p.
          (and_then p.0 (λ u. send_signed r body csrf) p.1).1.sent
          ≡ g.sent ++ forwarded (signed cfg s r body csrf) ∷ [])
        (sym (check_request_passes r.method (outbound_url cfg r) g fine))
        (send_signed_lem r body csrf g h)

  or_first_world :
      (resp : Response) (out : Result Response × Live W) → (or_first cfg resp out).1 ≡ out.1
  or_first_world resp (ok again, g) = refl
  or_first_world resp (err x, g) = refl

  replay-signed :
      (r : Incoming) (body : String) (csrf : String × String) (resp : Response) (g : Live W)
      → is_idempotent r.method ≡ true
      → Holds id s g.store.entries
      → cfg.env.request_error r.method (outbound_url cfg r) ≡ none
      → (replay cfg r body id csrf resp g).1.sent
        ≡ (fresh_pair cfg id r csrf g).1.sent
          ++ forwarded (signed cfg s r body (fresh_pair cfg id r csrf g).0) ∷ []
  unfolding replay
  replay-signed r body csrf resp g idem held fine = rw (idem) (
      ap (λ g. g.sent)
        (or_first_world resp (
          forward cfg r body id true (fresh_pair cfg id r csrf g).0.0
            (fresh_pair cfg id r csrf g).0.1 (fresh_pair cfg id r csrf g).1))
      ∙ forward-signed r body (fresh_pair cfg id r csrf g).0 (fresh_pair cfg id r csrf g).1
          (csrf_pair_keeps cfg id s fresh (policy_for cfg id r.method) csrf g held) fine)

module _ {W : Type 0} (cfg : Config W) (id : String) where
  -- The state after the recovery's login, the identity's cached token dropped.
  abbrev pub after_login : Live W → Live W
  after_login g = invalidate_csrf id (store_refresh cfg id g).1

  after_login_signed :
      (r : Incoming) (body : String) (csrf : String × String) (resp : Response) (g : Live W)
      (s : Session)
      → is_idempotent r.method ≡ true
      → cfg.env.request_error r.method (outbound_url cfg r) ≡ none
      → ((v : W) → expired s (cfg.env.now v).0 ≡ false)
      → (out : Result (Option Session) × Live W) → out.0 ≡ ok (some s)
      → Holds id s out.1.store.entries
      → (after_refresh cfg r body id csrf resp out).1.sent
        ≡ (fresh_pair cfg id r csrf (invalidate_csrf id out.1)).1.sent
          ++ forwarded (signed cfg s r body (fresh_pair cfg id r csrf (invalidate_csrf id out.1)).0)
            ∷ []
  unfolding invalidate_csrf
  after_login_signed r body csrf resp g s idem fine fresh (err x, g') e h = cc
  after_login_signed r body csrf resp g s idem fine fresh (ok p, g') e h =
      replay-signed cfg id s fresh r body csrf resp (invalidate_csrf id g') idem h fine

  -- When an idempotent request, whose method and URL are valid, comes back looking logged out, and
  -- the login gives a session that no clock reading finds expired, the request is sent once more,
  -- as the last of all that the gateway sends for it, signed with the new session and with the
  -- token got after the login.
  pub recover_signs :
      (rec : Recipe W) (r : Incoming) (body : String) (csrf : String × String) (resp : Response)
      (g : Live W) (s : Session)
      → matches rec.logout resp ≡ true
      → is_idempotent r.method ≡ true
      → cfg.env.request_error r.method (outbound_url cfg r) ≡ none
      → (store_refresh cfg id g).0 ≡ ok (some s)
      → ((v : W) → expired s (cfg.env.now v).0 ≡ false)
      → (recover cfg (some rec) r body id csrf resp g).1.sent
        ≡ (fresh_pair cfg id r csrf (after_login g)).1.sent
          ++ forwarded (signed cfg s r body (fresh_pair cfg id r csrf (after_login g)).0) ∷ []
  unfolding recover
  recover_signs rec r body csrf resp g s out idem fine login fresh = rw (out) (
      after_login_signed r body csrf resp g s idem fine fresh (store_refresh cfg id g) login
        (refresh_leaves cfg id g s login))
