-- ===== src/Daemon/Life/Isolation.antt =====
-- The identities of a daemon, of cmd/daemon.go, stay apart.
use claviger.Prelude.Maps.{lookup}
use claviger.Prelude.{
  String, ◌≡◌, ◌≢◌, refl, sym, subst, List, [], ◌∷◌, Result, ok, err, bind-ok, ok_injective, All,
  ◌⊎◌, arith, ◌==◌, Bool-cases, inl, inr,
}
use claviger.Text.{trim_prefix}
use claviger.Recipe.{Recipe}
use claviger.Session.{Session}
use claviger.Recipe.Honest.{IsNamed}
use claviger.Store.{Store, entry_of, register}
use claviger.Store
use claviger.Store.Owned.{AllOwned}
use claviger.Store.Owned.Calls.{register-AllOwned, get-AllOwned, refresh_expiring-AllOwned}
use claviger.Config.{Builder, recipes}
use claviger.Config.Honest.{IsHonestEntry, recipes-IsHonest}
use claviger.Config.Secrets.{Sources, load}
use claviger.Gateway.State.{Config, Live, Incoming}
use claviger.Gateway.Serve.{serve}
use claviger.Gateway.Setup.{Parts}
use claviger.Gateway.Own.{Acts, Rightful}
use claviger.Gateway.Own.Serve.{serve-Acts}
use claviger.Gateway.Alone.{Like}
use claviger.Gateway.Tasks.Alone.{serve-IsBlinkered}
use claviger.Control.{Wire, ControlReply, CredsResponse, creds_of, creds_reply, creds_handler}
use claviger.Daemon.Run.{Machine, Flags, Prepared, prepare}
use claviger.Daemon.Run.Ready.{prepare-Steps}
use claviger.Daemon.Startup.{Built, build_store, register_all, nonnegative}
use claviger.Daemon.Flags.{TlsFlags, apply_tls_flags}
use claviger.Daemon.Life.{
  Happens, Reaches, requested, asked, ticked, elapsed, here, and_then, ask_creds, sweep,
}

-- A reply of the control socket is the record of the identity that was asked for, or an error.
abbrev pub Credible : Wire → String → ControlReply → Type 0
Credible wire id reply =
    ((c : CredsResponse) × (c.identity ≡ id)
      × (reply ≡ record { status = 200; body = wire.encode_creds c }))
    ⊎ (reply.status ≢ 200)

creds_reply-Credible :
    (wire : Wire) (id : String) (r : Result Session)
    → IsNamed id r
    → Credible wire id (creds_reply wire r)
unfolding creds_reply creds_of
creds_reply-Credible wire id (ok s) named = inl (creds_of s, named, refl)
creds_reply-Credible wire id (err x) named = inr (ground arith)

module _ {W : Type 0} (cfg : Config W) (wire : Wire) where
  creds_handler-Credible :
      (path : String) (s : Store W) (w : W)
      → AllOwned s.entries
      → Credible wire (trim_prefix path "/creds/") (creds_handler wire cfg.env.now path s w).0
  unfolding creds_handler
  creds_handler-Credible path s w owned =
      let id = trim_prefix path "/creds/" in
      elim (Bool-cases (id == "")) [
        | inl blank ↦ rw blank (inr (omega arith))
        | inr given ↦ rw given (
            creds_reply-Credible wire id (Store.get cfg.env.now id s w).0
              (get-AllOwned cfg.env.now id s w owned).0)
      ]

  pub ask_creds-AllOwned :
      (path : String) (g : Live W)
      → AllOwned g.store.entries
      → AllOwned (ask_creds cfg wire path g).store.entries
  unfolding ask_creds creds_handler
  ask_creds-AllOwned path g owned =
      let id = trim_prefix path "/creds/" in
      elim (Bool-cases (id == "")) [
        | inl blank ↦ rw blank owned
        | inr given ↦ rw given (get-AllOwned cfg.env.now id g.store g.world owned).1
      ]

  Happens-AllOwned :
      {g h : Live W} → Happens cfg wire g h → AllOwned g.store.entries → AllOwned h.store.entries
  unfolding sweep
  Happens-AllOwned (requested id r g) owned = (serve-Acts cfg id r g owned).owned
  Happens-AllOwned (asked path g) owned = ask_creds-AllOwned path g owned
  Happens-AllOwned (ticked within g) owned =
      refresh_expiring-AllOwned cfg.env.now within g.store g.world owned
  Happens-AllOwned (elapsed w g) owned = owned

  pub Reaches-AllOwned :
      {start g : Live W}
      → Reaches cfg wire start g
      → AllOwned start.store.entries
      → AllOwned g.store.entries
  Reaches-AllOwned here owned = owned
  Reaches-AllOwned (and_then before next) owned =
      Happens-AllOwned next (Reaches-AllOwned before owned)

register_all-AllOwned :
    {W : Type 0} (rs : List (String × Recipe W)) (st : Store W)
    → All IsHonestEntry rs
    → AllOwned st.entries
    → AllOwned (register_all rs st).entries
unfolding register_all
register_all-AllOwned [] st honest owned = owned
register_all-AllOwned ((name, r) ∷ rs) st ((honest, filed), others) owned =
    register_all-AllOwned rs (register r st) others (register-AllOwned r st honest owned)

none_owned : {W : Type 0} → AllOwned {W = W} []
unfolding entry_of
none_owned id e found = cc found

module _ {W J P C : Type 0} (src : Sources) (lib : Builder W J P C) where
  build_store-AllOwned :
      (path : String) (tls : TlsFlags) (b : Built W)
      → build_store src lib path tls ≡ ok b
      → AllOwned b.store.entries
  unfolding build_store Store.new
  build_store-AllOwned path tls b h =
      let (cfg, loaded, h1) = bind-ok (load src path) _ b h in
      let (rs, built, h2) = bind-ok (recipes lib (apply_tls_flags tls cfg)) _ b h1 in
      subst (λ (b : Built W). AllOwned b.store.entries) (ok_injective _ b h2)
        (register_all-AllOwned rs
          (Store.new (nonnegative cfg.backoff.max_burst) (nonnegative cfg.backoff.window))
          (recipes-IsHonest lib (apply_tls_flags tls cfg) rs built) none_owned)

module _ {W J P C : Type 0} (machine : Machine) (src : Sources) (lib : Builder W J P C)
    (parts : Parts W P C) (wire : Wire) where
  -- The state in which a prepared daemon begins to serve.
  abbrev pub begin : Prepared W → W → Live W
  begin p w = record { store = p.store; csrf_cache = []; world = w; audits = []; sent = [] }

  pub prepare-AllOwned :
      (f : Flags) (p : Prepared W) (w : W) (g : Live W)
      → prepare machine src lib parts f ≡ ok p
      → Reaches p.gateway wire (begin p w) g
      → AllOwned g.store.entries
  prepare-AllOwned f p w g h reached =
      let (built, made, stored, known, required) = prepare-Steps machine src lib parts f p h in
      Reaches-AllOwned p.gateway wire reached (
        subst (λ (s : Store W). AllOwned s.entries) (sym stored)
          (build_store-AllOwned src lib f.config f.tls built made))

  -- Whatever the configuration and the flags, and whatever requests to the gateways and to the
  -- control socket, refresh ticks and changes in the world a daemon has seen so far: a request to
  -- the gateway of an identity makes it send nothing but the token request of that identity's
  -- policy and the client's request, each with a session applied, or, for an identity without a
  -- recipe, the client's request as it came; and it changes no entry and no cached token of another
  -- identity. What it sends and what it replies do not depend on the sessions and tokens of others:
  -- from any state with the same entry and token of the identity, and the same limits, world and
  -- records, whatever other identities it has, the reply and all that is sent are the same, and so
  -- are the entry, the token, the world and the audit records afterwards.
  pub prepare-Acts :
      (f : Flags) (p : Prepared W) (w : W) (g other : Live W) (id : String) (r : Incoming)
      → prepare machine src lib parts f ≡ ok p
      → Reaches p.gateway wire (begin p w) g
      → Like id g other
      → Acts (Rightful p.gateway id r (lookup id p.gateway.recipes)) id g (serve p.gateway id r g).1
        × ((serve p.gateway id r g).0 ≡ (serve p.gateway id r other).0)
        × Like id (serve p.gateway id r g).1 (serve p.gateway id r other).1
  prepare-Acts f p w g other id r h reached like =
      let (reply, left) = serve-IsBlinkered p.gateway id r g other like in
      (serve-Acts p.gateway id r g (prepare-AllOwned f p w g h reached), reply, left)

  -- Whatever a daemon has seen so far, what its control socket answers to a request for the
  -- credentials of an identity is an error, or the record of a session of that identity.
  pub prepare-Credible :
      (f : Flags) (p : Prepared W) (w : W) (g : Live W) (path : String)
      → prepare machine src lib parts f ≡ ok p
      → Reaches p.gateway wire (begin p w) g
      → Credible wire
          (trim_prefix path "/creds/")
          (creds_handler wire p.gateway.env.now path g.store g.world).0
  prepare-Credible f p w g path h reached =
      creds_handler-Credible p.gateway wire path g.store g.world
        (prepare-AllOwned f p w g h reached)
