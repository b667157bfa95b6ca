-- ===== src/Gateway/Alone.antt =====
-- What serve of internal/gateway/gateway.go sends and answers for an identity, and what it reads of
-- the state that the identities share.
use claviger.Prelude.Maps.{lookup, insert, lookup-insert, lookup-remove}
use claviger.Prelude.{
  String, ◌≡◌, refl, sym, ap, ◌∙◌, List, [], ◌∷◌, ◌++◌, some, arith, eq_iff, Option-cases,
  Bool-cases, inl, inr,
}
use claviger.Http.{Request, Response}
use claviger.Store.{entry_of, put_entry, get, refresh}
use claviger.Store.Entry.{Entry}
use claviger.Store.Frame.{entry_of-put_entry}
use claviger.Gateway.State.{
  Config, Live, CsrfPolicy, Sent, Incoming, store_get, store_refresh, check_request, send,
}
use claviger.Gateway.Csrf.{cached, token_of, store_token, invalidate_csrf}
use claviger.Gateway.Serve.{audit}

-- The two states are the same to the identity: its entry and its cached token, the limits of the
-- store, the world, the audit records and what has been sent. The entries and the tokens of other
-- identities may be any, in any number and order.
pub record Like {W : Type 0} (id : String) (g h : Live W) : Type 0 where
  pub entry : entry_of id g.store.entries ≡ entry_of id h.store.entries
  pub burst : g.store.max_burst ≡ h.store.max_burst
  pub window : g.store.window ≡ h.store.window
  pub token : lookup id g.csrf_cache ≡ lookup id h.csrf_cache
  pub world : g.world ≡ h.world
  pub audits : g.audits ≡ h.audits
  pub sent : g.sent ≡ h.sent

-- From states that are the same to the identity, the action gives the same value, and leaves states
-- that are the same to it.
abbrev pub IsBlinkered : {W A : Type 0} → String → (Live W → A × Live W) → Type 0
IsBlinkered {W = W} id m =
    (g h : Live W) → Like id g h → ((m g).0 ≡ (m h).0) × Like id (m g).1 (m h).1

entry_of-put_entry_same :
    {W : Type 0} (id : String) (e : Entry W) (es : List (String × Entry W))
    → entry_of id (put_entry id e es) ≡ some e
entry_of-put_entry_same id e es = ground (arith, entry_of-put_entry id id e es, eq_iff id id)

lookup-insert_same {ℓ} :
    {V : Type ℓ} (id : String) (v : V) (m : List (String × V)) → lookup id (insert id v m) ≡ some v
lookup-insert_same id v m = ground (arith, lookup-insert id id v m, eq_iff id id)

module _ {W : Type 0} (cfg : Config W) (id : String) where
  pub store_get-IsBlinkered : IsBlinkered id (store_get cfg id)
  unfolding store_get entry_of get
  store_get-IsBlinkered g h like = elim (Option-cases (entry_of id h.store.entries)) [
    | inl missing ↦
        rw (like.entry, missing, like.world, get)
          (
            refl,
            record {
              entry = like.entry;
              burst = like.burst;
              window = like.window;
              token = like.token;
              world = refl;
              audits = like.audits;
              sent = like.sent;
            },
          )
    | inr (e, found) ↦
        rw (like.entry, found, like.world, like.burst, like.window, get)
          (
            refl,
            record {
              entry = entry_of-put_entry_same id _ _ ∙ sym (entry_of-put_entry_same id _ _);
              burst = refl;
              window = refl;
              token = like.token;
              world = refl;
              audits = like.audits;
              sent = like.sent;
            },
          )
  ]

  pub store_refresh-IsBlinkered : IsBlinkered id (store_refresh cfg id)
  unfolding store_refresh entry_of refresh
  store_refresh-IsBlinkered g h like = elim (Option-cases (entry_of id h.store.entries)) [
    | inl missing ↦
        rw (like.entry, missing, like.world, refresh)
          (
            refl,
            record {
              entry = like.entry;
              burst = like.burst;
              window = like.window;
              token = like.token;
              world = refl;
              audits = like.audits;
              sent = like.sent;
            },
          )
    | inr (e, found) ↦
        rw (like.entry, found, like.world, like.burst, like.window, refresh)
          (
            refl,
            record {
              entry = entry_of-put_entry_same id _ _ ∙ sym (entry_of-put_entry_same id _ _);
              burst = refl;
              window = refl;
              token = like.token;
              world = refl;
              audits = like.audits;
              sent = like.sent;
            },
          )
  ]

  pub check_request-IsBlinkered :
      (method url : String) → IsBlinkered id (check_request cfg method url)
  check_request-IsBlinkered method url g h like =
      elim (Option-cases (cfg.env.request_error method url)) [
        | inl fine ↦ rw (fine, check_request) (refl, like)
        | inr (x, e) ↦ rw (e, check_request) (refl, like)
      ]

  pub send-IsBlinkered :
      (kind : Request → Sent) (req : Request) → IsBlinkered id (send cfg kind req)
  unfolding send
  send-IsBlinkered kind req g h like = (
    ap (λ w. (cfg.client req w).0) like.world,
    record {
      entry = like.entry;
      burst = like.burst;
      window = like.window;
      token = like.token;
      world = ap (λ w. (cfg.client req w).1) like.world;
      audits = like.audits;
      sent = ap (λ l. l ++ kind req ∷ []) like.sent;
    },
  )

  pub token_of-IsBlinkered :
      (pol : CsrfPolicy) (resp : Response) → IsBlinkered id (token_of cfg pol resp)
  token_of-IsBlinkered pol resp g h like = (refl, like)

  pub store_token-IsBlinkered : (token : String) → IsBlinkered id (store_token cfg id token)
  store_token-IsBlinkered token g h like = rw like.world (
    refl,
    record {
      entry = like.entry;
      burst = like.burst;
      window = like.window;
      token = lookup-insert_same id _ _ ∙ sym (lookup-insert_same id _ _);
      world = refl;
      audits = like.audits;
      sent = like.sent;
    },
  )

  pub cached-IsBlinkered : IsBlinkered id (cached cfg id)
  unfolding cached lookup
  cached-IsBlinkered g h like = elim (Option-cases (lookup id h.csrf_cache)) [
    | inl miss ↦ rw (like.token, miss, cached) (refl, like)
    | inr (ct, hit) ↦
        rw (like.token, hit, like.world, cached)
          (
            refl,
            record {
              entry = like.entry;
              burst = like.burst;
              window = like.window;
              token = like.token;
              world = refl;
              audits = like.audits;
              sent = like.sent;
            },
          )
  ]

  pub invalidate_csrf-IsBlinkered : IsBlinkered {W = W} id (λ g. (tt, invalidate_csrf id g))
  unfolding invalidate_csrf
  invalidate_csrf-IsBlinkered g h like = (
    refl,
    record {
      entry = like.entry;
      burst = like.burst;
      window = like.window;
      token = lookup-remove id _ ∙ sym (lookup-remove id _);
      world = like.world;
      audits = like.audits;
      sent = like.sent;
    },
  )

  pub audit-IsBlinkered :
      (r : Incoming) (resp : Response) → IsBlinkered {W = W} id (λ g. (tt, audit cfg r id resp g))
  audit-IsBlinkered r resp g h like = elim (Bool-cases cfg.has_audit) [
    | inl on ↦ rw on (
      refl,
      record {
        entry = like.entry;
        burst = like.burst;
        window = like.window;
        token = like.token;
        world = like.world;
        audits =
            ap
              (λ l.
                l
                ++ record { identity = id; method = r.method; path = r.path; status = resp.status }
                  ∷ [])
              like.audits;
        sent = like.sent;
      },
    )
    | inr off ↦ rw off (refl, like)
  ]
