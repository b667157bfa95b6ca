-- ===== src/Gateway/Own.antt =====
-- What serve of internal/gateway/gateway.go does on behalf of an identity: the requests that it
-- sends, and what it leaves alone of the other identities.
pub mod Parts
pub mod Serve
use mathlib.Core.List.{append_assoc, append-nil}
use claviger.Prelude.Maps.{lookup, insert, lookup-insert}
use claviger.Prelude.{
  ℕ, String, ◌≡◌, ◌≢◌, refl, sym, ap, subst, ◌∙◌, Bool, true, false, List, [], ◌∷◌, ◌++◌, Option,
  none, some, Error, Result, ok, err, OkThen, All, All-append, arith, ◌==◌, eq_iff, Bool-cases,
  Option-cases, inl, inr, if◌then◌else◌,
}
use claviger.Http.{Request, Response}
use claviger.Session.{Session, apply}
use claviger.Effect.{Eff, and_then, ◌>>=◌}
use claviger.Recipe.{Recipe}
use claviger.Store.{Store, entry_of}
use claviger.Store.Frame.{refresh_frame}
use claviger.Store.Owned.{AllOwned, Belongs}
use claviger.Store.Owned.Calls.{get_frame, get-AllOwned, refresh-AllOwned}
use claviger.Gateway.State.{
  Config, Live, Incoming, Audit, CsrfPolicy, CachedToken, Sent, token_fetch, forwarded, store_get,
  store_refresh, check_request, send,
}
use claviger.Gateway.Csrf.{cached, fetch_token, or_fetch, token_of, store_token, csrf_token_for}
use claviger.Gateway.Forward.{outbound_header, outbound_url, set_csrf}

-- The client's request as it goes out, before anything of the identity is added.
abbrev pub bare_request : {W : Type 0} → Config W → Incoming → String → Request
bare_request cfg r body = record {
  method = r.method;
  target = outbound_url cfg r;
  header = outbound_header r.header;
  body = body;
}

-- The identity may send this: the token request of its policy or, for one that the gateway
-- manages, the client's request, each with a session that bears its name. For one that it does not
-- manage, the client's request without a session.
abbrev pub Rightful :
    {W : Type 0} → Config W → String → Incoming → Option (Recipe W) → Sent → Type 0
Rightful cfg id r rec (token_fetch req) =
    (s : Session) × (pol : CsrfPolicy) × (s.identity ≡ id)
    × (lookup id cfg.policies ≡ some pol)
    × (req
        ≡ apply cfg.env.cookie_pair s
            (record { method = "GET"; target = pol.fetch_url; header = []; body = "" }))
Rightful cfg id r none (forwarded req) =
    (body : String) × (r.body ≡ ok body) × (req ≡ bare_request cfg r body)
Rightful cfg id r (some rec) (forwarded req) =
    (s : Session) × (body : String) × (csrf : String × String) × (s.identity ≡ id)
    × (r.body ≡ ok body)
    × (req ≡ set_csrf csrf.0 csrf.1 (apply cfg.env.cookie_pair s (bare_request cfg r body)))

-- From the first state to the second, the store stays owned, what was sent has the property, and
-- the entries and the tokens of the other identities stay.
pub record Acts {W : Type 0} (P : Sent → Type 0) (id : String) (g g' : Live W) : Type 0 where
  pub owned : AllOwned g'.store.entries
  pub new : List Sent
  pub fine : All P new
  pub sent_new : g'.sent ≡ g.sent ++ new
  pub entries_kept :
      (j : String) → id ≢ j → entry_of j g'.store.entries ≡ entry_of j g.store.entries
  pub tokens_kept : (j : String) → id ≢ j → lookup j g'.csrf_cache ≡ lookup j g.csrf_cache

module _ {W : Type 0} (P : Sent → Type 0) (id : String) where
  -- What is done on the store alone, for the identity alone.
  in_store :
      (g : Live W) (s : Store W) (w : W)
      → AllOwned s.entries
      → ((j : String) → id ≢ j → entry_of j s.entries ≡ entry_of j g.store.entries)
      → Acts P id g (record g { store = s; world = w })
  in_store g s w owned kept = record {
    owned = owned;
    new = [];
    fine = tt;
    sent_new = sym (append-nil g.sent);
    entries_kept = kept;
    tokens_kept = λ j ne. refl;
  }

  pub elsewhere :
      (g : Live W) (w : W) (audits : List Audit)
      → AllOwned g.store.entries
      → Acts P id g (record g { world = w; audits = audits })
  elsewhere g w audits owned = record {
    owned = owned;
    new = [];
    fine = tt;
    sent_new = sym (append-nil g.sent);
    entries_kept = λ j ne. refl;
    tokens_kept = λ j ne. refl;
  }

  pub in_cache :
      (g : Live W) (cache : List (String × CachedToken)) (w : W)
      → AllOwned g.store.entries
      → ((j : String) → id ≢ j → lookup j cache ≡ lookup j g.csrf_cache)
      → Acts P id g (record g { csrf_cache = cache; world = w })
  in_cache g cache w owned kept = record {
    owned = owned;
    new = [];
    fine = tt;
    sent_new = sym (append-nil g.sent);
    entries_kept = λ j ne. refl;
    tokens_kept = kept;
  }

  pub Acts-trans : (g g1 g2 : Live W) → Acts P id g g1 → Acts P id g1 g2 → Acts P id g g2
  Acts-trans g g1 g2 a b = record {
    owned = b.owned;
    new = a.new ++ b.new;
    fine = All-append P a.new b.new a.fine b.fine;
    sent_new = b.sent_new ∙ ap (λ l. l ++ b.new) a.sent_new ∙ append_assoc g.sent a.new b.new;
    entries_kept = λ j ne. b.entries_kept j ne ∙ a.entries_kept j ne;
    tokens_kept = λ j ne. b.tokens_kept j ne ∙ a.tokens_kept j ne;
  }

  -- The action acts so from every owned state, and its value has the property `Q`.
  abbrev pub Does : {A : Type 0} → (A → Type 0) → Eff (Live W) A → Type 0
  Does Q m = (g : Live W) → AllOwned g.store.entries → OkThen Q (m g).0 × Acts P id g (m g).1

  and_then-Does :
      {A B : Type 0} (Q : A → Type 0) (R : B → Type 0) (r : Result A) (f : A → Eff (Live W) B)
      (g g1 : Live W)
      → OkThen Q r
      → Acts P id g g1
      → ((a : A) → Q a → Does R (f a))
      → OkThen R (and_then r f g1).0 × Acts P id g (and_then r f g1).1
  and_then-Does Q R (ok a) f g g1 q acts k =
      let next = k a q g1 acts.owned in (next.0, Acts-trans g g1 (f a g1).1 acts next.1)
  and_then-Does Q R (err x) f g g1 q acts k = (tt, acts)

  pub bind-Does :
      {A B : Type 0} (Q : A → Type 0) (R : B → Type 0) (m : Eff (Live W) A) (f : A → Eff (Live W) B)
      → Does Q m
      → ((a : A) → Q a → Does R (f a))
      → Does R (m >>= f)
  bind-Does Q R m f km kf g owned =
      let first = km g owned in and_then-Does Q R (m g).0 f g (m g).1 first.0 first.1 kf

abbrev pub Trivial : {A : Type 0} → A → Type 0
Trivial a = Unit

module _ {W : Type 0} (cfg : Config W) (P : Sent → Type 0) (id : String) where
  pub store_get-Does : Does P id (λ s. s.identity ≡ id) (store_get cfg id)
  unfolding store_get
  store_get-Does g owned =
      let kept = get-AllOwned cfg.env.now id g.store g.world owned in
      (kept.0, in_store P id g _ _ kept.1 (λ j ne. get_frame cfg.env.now id j g.store g.world ne))

  pub store_refresh-Does : Does P id (Belongs id) (store_refresh cfg id)
  unfolding store_refresh
  store_refresh-Does g owned =
      let kept = refresh-AllOwned cfg.env.now id g.store g.world owned in
      (
        kept.0,
        in_store P id g _ _ kept.1 (λ j ne. refresh_frame cfg.env.now id j g.store g.world ne),
      )

  pub check_request-Does : (method url : String) → Does P id Trivial (check_request cfg method url)
  check_request-Does method url g owned = elim (Option-cases (cfg.env.request_error method url)) [
    | inl fine ↦ rw (fine, check_request) (tt, elsewhere P id g g.world g.audits owned)
    | inr (x, e) ↦ rw (e, check_request) (tt, elsewhere P id g g.world g.audits owned)
  ]

  no_claim : {A : Type 0} (r : Result A) → OkThen Trivial r
  no_claim (ok a) = tt
  no_claim (err x) = tt

  pub send-Does :
      (kind : Request → Sent) (req : Request) → P (kind req) → Does P id Trivial (send cfg kind req)
  unfolding send
  send-Does kind req fine g owned = (
    no_claim (cfg.client req g.world).0,
    record {
      owned = owned;
      new = kind req ∷ [];
      fine = (fine, tt);
      sent_new = refl;
      entries_kept = λ j ne. refl;
      tokens_kept = λ j ne. refl;
    },
  )

  pub token_of-Does :
      (pol : CsrfPolicy) (resp : Response) → Does P id Trivial (token_of cfg pol resp)
  token_of-Does pol resp g owned = (no_claim _, elsewhere P id g g.world g.audits owned)

  pub store_token-Does : (token : String) → Does P id Trivial (store_token cfg id token)
  store_token-Does token g owned = (
    tt,
    in_cache P id g _ _ owned (λ j ne. ground (
      arith,
      lookup-insert id j (record { value = token; at = (cfg.env.now g.world).0 }) g.csrf_cache,
      eq_iff id j,
      ne,
    )),
  )

  pub cached-Does : Does P id Trivial (cached cfg id)
  unfolding cached
  cached-Does g owned = elim (Option-cases (lookup id g.csrf_cache)) [
    | inl miss ↦ rw (miss, cached) (tt, elsewhere P id g g.world g.audits owned)
    | inr (ct, hit) ↦ rw (hit, cached) (tt, elsewhere P id g (cfg.env.now g.world).1 g.audits owned)
  ]
