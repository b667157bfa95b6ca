-- ===== src/Gateway/Serve/Held.antt =====
-- A session in the store, through what serve of internal/gateway/gateway.go does before it forwards
-- a request.
use claviger.Prelude.{
  ℕ, String, ◌≡◌, refl, sym, ◌∙◌, ap, subst, false, List, [], Option, none, some, Result, ok, err,
  arith, eq_refl, Option-cases, inl, inr, unknown_identity,
}
use claviger.Http.{Request, Response}
use claviger.Session.{Session, apply, expired}
use claviger.Prelude.Maps.{lookup}
use claviger.Effect.{Eff, and_then, ◌>>=◌}
use claviger.Store.{Store, entry_of, put_entry, live, get_entry, refresh_entry}
use claviger.Store
use claviger.Store.Entry.{Entry, Ref, object}
use claviger.Store.Get.{refresh_entry_holds}
use claviger.Store.Frame.{entry_of-put_entry}
use claviger.Gateway.State.{
  Config, Live, CsrfPolicy, Sent, token_fetch, store_get, store_refresh, check_request, send,
}
use claviger.Gateway.Csrf.{cached, fetch_token, or_fetch, token_of, store_token, csrf_token_for}
use claviger.Gateway.Serve.{with_token, csrf_pair}

-- The store holds the session `s` for the identity.
abbrev pub Holds : {W : Type 0} → String → Session → List (String × Entry W) → Type 0
Holds {W} id s es =
    (e : Entry W) × (r : Ref) × (entry_of id es ≡ some e) × (e.session ≡ some r) × (r.obj ≡ s)

put_entry-Holds :
    {W : Type 0} (id : String) (s : Session) (e : Entry W) (r : Ref) (es : List (String × Entry W))
    → e.session ≡ some r
    → r.obj ≡ s
    → Holds id s (put_entry id e es)
put_entry-Holds id s e r es held same =
    (e, r, rw (entry_of-put_entry id id e es, eq_refl id) refl, held, same)

module _ {W : Type 0} (cfg : Config W) (id : String) (s : Session)
    (fresh : (v : W) → expired s (cfg.env.now v).0 ≡ false) where
  get_entry_live :
      (burst window : ℕ) (e : Entry W) (r : Ref) (w : W)
      → e.session ≡ some r
      → r.obj ≡ s
      → get_entry cfg.env.now burst window e w ≡ (ok s, e, (cfg.env.now w).1)
  unfolding get_entry live
  get_entry_live burst window e r w held same = ground (arith, held, same, fresh w)

  -- What Get of a held session leaves of the state.
  abbrev pub after_get : Entry W → Live W → Live W
  after_get e g = record g {
    store = record g.store { entries = put_entry id e g.store.entries };
    world = (cfg.env.now g.world).1;
  }

  pub store_get-eq :
      (g : Live W) (e : Entry W) (r : Ref)
      → entry_of id g.store.entries ≡ some e
      → e.session ≡ some r
      → r.obj ≡ s
      → store_get cfg id g ≡ (ok s, after_get e g)
  unfolding store_get Store.get
  store_get-eq g e r found held same =
      rw (found, Store.get)
        (rw (get_entry_live g.store.max_burst g.store.window e r g.world held same) refl)

  -- Get gives the session that is held, and leaves it there.
  store_get_held :
      (g : Live W)
      → Holds id s g.store.entries
      → ((store_get cfg id g).0 ≡ ok s) × Holds id s (store_get cfg id g).1.store.entries
  store_get_held g (e, r, found, held, same) =
      rw (store_get-eq g e r found held same)
        (refl, put_entry-Holds id s e r g.store.entries held same)

  -- The action keeps the held session.
  abbrev Keeps : {A : Type 0} → Eff (Live W) A → Type 0
  Keeps m = (g : Live W) → Holds id s g.store.entries → Holds id s (m g).1.store.entries

  and_then-Keeps :
      {A B : Type 0} (r : Result A) (f : A → Eff (Live W) B) (g : Live W)
      → ((a : A) → Keeps (f a))
      → Holds id s g.store.entries
      → Holds id s (and_then r f g).1.store.entries
  and_then-Keeps (ok a) f g k h = k a g h
  and_then-Keeps (err x) f g k h = h

  bind-Keeps :
      {A B : Type 0} (m : Eff (Live W) A) (f : A → Eff (Live W) B)
      → Keeps m
      → ((a : A) → Keeps (f a))
      → Keeps (m >>= f)
  bind-Keeps m f km kf g h = and_then-Keeps (m g).0 f (m g).1 kf (km g h)

  check_request-Keeps : (method url : String) → Keeps (check_request cfg method url)
  check_request-Keeps method url g h =
      elim (cfg.env.request_error method url)
        as (λ o.
          Holds id s
            (elim o as (λ _. Result (Unit {0}) × Live W) [
              | none ↦ (ok tt, g)
              | some x ↦ (err x, g)
            ]).1.store.entries) [ none ↦ h | some x ↦ h ]

  abbrev finish_fetch : CsrfPolicy → Response → Eff (Live W) String
  finish_fetch pol resp = token_of cfg pol resp >>= store_token cfg id

  abbrev ask : CsrfPolicy → Session → Eff (Live W) String
  ask pol sess =
      send cfg token_fetch (
        apply cfg.env.cookie_pair sess
          (record { method = "GET"; target = pol.fetch_url; header = []; body = "" }))
      >>= finish_fetch pol

  finish_fetch-Keeps : (pol : CsrfPolicy) (resp : Response) → Keeps (finish_fetch pol resp)
  finish_fetch-Keeps pol resp =
      bind-Keeps (token_of cfg pol resp) (store_token cfg id) (λ g h. h) (λ token g h. h)

  send-Keeps : (kind : Request → Sent) (req : Request) → Keeps (send cfg kind req)
  unfolding send
  send-Keeps kind req g h = h

  ask-Keeps : (pol : CsrfPolicy) (sess : Session) → Keeps (ask pol sess)
  ask-Keeps pol sess =
      bind-Keeps
        (send cfg token_fetch (
          apply cfg.env.cookie_pair sess
            (record { method = "GET"; target = pol.fetch_url; header = []; body = "" })))
        (finish_fetch pol) (send-Keeps token_fetch _) (finish_fetch-Keeps pol)

  fetch_token-Keeps : (pol : CsrfPolicy) → Keeps (fetch_token cfg id pol)
  unfolding fetch_token
  fetch_token-Keeps pol =
      bind-Keeps (check_request cfg "GET" pol.fetch_url) (λ fine. store_get cfg id >>= ask pol)
        (check_request-Keeps "GET" pol.fetch_url)
        (λ fine.
          bind-Keeps (store_get cfg id) (ask pol) (λ g h. (store_get_held g h).1) (ask-Keeps pol))

  cached-Keeps : Keeps (cached cfg id)
  unfolding cached
  cached-Keeps g h = elim (Option-cases (lookup id g.csrf_cache)) [
    | inl e ↦ rw (e, cached) h
    | inr (ct, e) ↦ rw (e, cached) h
  ]

  or_fetch-Keeps : (pol : CsrfPolicy) (hit : Option String) → Keeps (or_fetch cfg id pol hit)
  or_fetch-Keeps pol none = fetch_token-Keeps pol
  or_fetch-Keeps pol (some token) = λ g h. h

  csrf_token_for-Keeps : (pol : CsrfPolicy) → Keeps (csrf_token_for cfg id pol)
  unfolding csrf_token_for
  csrf_token_for-Keeps pol =
      bind-Keeps (cached cfg id) (or_fetch cfg id pol) cached-Keeps (or_fetch-Keeps pol)

  with_token_keeps :
      (pol : CsrfPolicy) (old : String × String) (out : Result String × Live W)
      → Holds id s out.1.store.entries
      → Holds id s (with_token cfg pol old out).1.store.entries
  with_token_keeps pol old (ok token, g) h = h
  with_token_keeps pol old (err x, g) h = h

  pub csrf_pair_keeps :
      (pol : Option CsrfPolicy) (old : String × String) (g : Live W)
      → Holds id s g.store.entries
      → Holds id s (csrf_pair cfg pol id old g).1.store.entries
  unfolding csrf_pair
  csrf_pair_keeps none old g h = h
  csrf_pair_keeps (some pol) old g h =
      with_token_keeps pol old (csrf_token_for cfg id pol g) (csrf_token_for-Keeps pol g h)

object_held :
    (c : Option Ref) (s : Session) → object c ≡ some s → (r : Ref) × (c ≡ some r) × (r.obj ≡ s)
object_held none s h = cc
object_held (some r) s h = (r, refl, cc)

module _ {W : Type 0} (cfg : Config W) (id : String) where
  abbrev renewed : Live W → Entry W → Result (Option Session) × Entry W × W
  renewed g e = refresh_entry cfg.env.now g.store.max_burst g.store.window e.session e g.world

  refresh_found :
      (g : Live W) (e : Entry W)
      → entry_of id g.store.entries ≡ some e
      → store_refresh cfg id g ≡ (
        (renewed g e).0,
        record g {
          store = record g.store { entries = put_entry id (renewed g e).1 g.store.entries };
          world = (renewed g e).2;
        },
      )
  unfolding store_refresh Store.refresh
  refresh_found g e found = rw (found, Store.refresh) refl

  refresh_missing :
      (g : Live W)
      → entry_of id g.store.entries ≡ none
      → (store_refresh cfg id g).0 ≡ err (unknown_identity id)
  unfolding store_refresh Store.refresh
  refresh_missing g missing = rw (missing, Store.refresh) refl

  -- Refresh that gives a session leaves it in the store.
  pub refresh_leaves :
      (g : Live W) (s : Session)
      → (store_refresh cfg id g).0 ≡ ok (some s)
      → Holds id s (store_refresh cfg id g).1.store.entries
  refresh_leaves g s h = elim (Option-cases (entry_of id g.store.entries)) [
    | inl missing ↦ ground (arith, refresh_missing g missing)
    | inr (e, found) ↦
        let (r, held, same) = object_held (renewed g e).1.session s (
          refresh_entry_holds cfg.env.now g.store.max_burst g.store.window e.session e g.world
            (some s) (ap (λ p. p.0) (sym (refresh_found g e found)) ∙ h)) in
        subst (λ p. Holds id s p.1.store.entries) (sym (refresh_found g e found))
          (put_entry-Holds id s (renewed g e).1 r g.store.entries held same)
  ]
