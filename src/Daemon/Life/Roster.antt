-- ===== src/Daemon/Life/Roster.antt =====
-- The identities of a running daemon, of cmd/daemon.go.
use mathlib.Core.List.{append-nil, append_assoc}
use claviger.Prelude.Maps.{lookup}
use claviger.Prelude.{
  String, ◌≡◌, refl, sym, ap, subst, ◌∙◌, List, [], ◌∷◌, ◌++◌, none, ok, bind-ok, ok_injective, All,
  arith, ◌==◌, eq_iff, Bool-cases, inl, inr,
}
use claviger.Text.{trim_prefix}
use claviger.Recipe.{Recipe}
use claviger.Store.{Store, entry_of, put_entry, keys, register, health_of, refresh_expiring}
use claviger.Store
use claviger.Store.Entry.{Entry, new_entry}
use claviger.Store.Frame.{entry_of-put_entry}
use claviger.Store.Roster.{roster, roster-get, roster-refresh, roster-refresh_expiring}
use claviger.Config.{Builder, recipes}
use claviger.Config.Names.{IsOwn, recipes-identity}
use claviger.Config.Unique.{IsUnique, recipes-IsUnique}
use claviger.Config.Secrets.{Sources, load}
use claviger.Gateway.State.{Config, Live, store_get, store_refresh, send}
use claviger.Gateway.Setup.{Parts}
use claviger.Gateway.Still.{Blind, serve_quiet}
use claviger.Control.{Wire, creds_handler}
use claviger.Daemon.Run.{Machine, Flags, Prepared, prepare}
use claviger.Daemon.Run.Ready.{prepare-Steps}
use claviger.Daemon.Startup.{Built, build_store, register_all, nonnegative}
use claviger.Daemon.Flags.{TlsFlags, apply_tls_flags}
use claviger.Daemon.Life.{
  Happens, Reaches, requested, asked, ticked, elapsed, here, and_then, ask_creds, sweep,
}
use claviger.Daemon.Life.Isolation.{begin}

-- The identities that are known in a state, each with its recipe.
abbrev pub known : {W : Type 0} → Live W → List (String × Recipe W)
known g = roster g.store.entries

known-Blind : {W : Type 0} (cfg : Config W) → Blind cfg known
unfolding store_get store_refresh send
known-Blind cfg = record {
  to_world = λ g w. refl;
  to_cache = λ g cache w. refl;
  to_get = λ id g. roster-get cfg.env.now id g.store g.world;
  to_refresh = λ id g. roster-refresh cfg.env.now id g.store g.world;
  to_send = λ kind req g. refl;
}

module _ {W : Type 0} (cfg : Config W) (wire : Wire) where
  known-ask_creds : (path : String) (g : Live W) → known (ask_creds cfg wire path g) ≡ known g
  unfolding ask_creds creds_handler
  known-ask_creds path g =
      let id = trim_prefix path "/creds/" in
      elim (Bool-cases (id == "")) [
        | inl blank ↦ rw blank refl
        | inr given ↦ rw given (roster-get cfg.env.now id g.store g.world)
      ]

  known-Happens : {g h : Live W} → Happens cfg wire g h → known h ≡ known g
  unfolding sweep
  known-Happens (requested id r g) = serve_quiet cfg known (known-Blind cfg) (λ g a. refl) id r g
  known-Happens (asked path g) = known-ask_creds path g
  known-Happens (ticked within g) = roster-refresh_expiring cfg.env.now within g.store g.world
  known-Happens (elapsed w g) = refl

  pub known-Reaches : {start g : Live W} → Reaches cfg wire start g → known g ≡ known start
  known-Reaches here = refl
  known-Reaches (and_then before next) = known-Happens next ∙ known-Reaches before

-- The identity has no entry yet.
abbrev IsNew : {W : Type 0} → List (String × Entry W) → String × Recipe W → Type 0
IsNew es (name, r) = entry_of name es ≡ none

roster-put_new :
    {W : Type 0} (id : String) (e : Entry W) (es : List (String × Entry W))
    → entry_of id es ≡ none
    → roster (put_entry id e es) ≡ roster es ++ (id, e.recipe) ∷ []
unfolding put_entry entry_of
roster-put_new id e [] missing = refl
roster-put_new id e ((j, f) ∷ es) missing = elim (Bool-cases (j == id)) [
  | inl same ↦ ground (arith, missing, same)
  | inr other ↦
      rw other (ap (λ l. (j, f.recipe) ∷ l) (roster-put_new id e es (rw other at missing)))
]

put_entry-IsNew :
    {W : Type 0} (k : String) (e : Entry W) (es : List (String × Entry W))
    (rs : List (String × Recipe W))
    → lookup k rs ≡ none
    → All (IsNew es) rs
    → All (IsNew (put_entry k e es)) rs
unfolding lookup
put_entry-IsNew k e es [] fresh new = tt
put_entry-IsNew k e es ((n, r) ∷ rs) fresh (one, others) = (
  ground (arith, entry_of-put_entry k n e es, eq_iff k n, eq_iff n k, fresh, one),
  put_entry-IsNew k e es rs (ground (arith, fresh)) others,
)

roster-register_all :
    {W : Type 0} (rs : List (String × Recipe W)) (st : Store W)
    → All IsOwn rs
    → IsUnique rs
    → All (IsNew st.entries) rs
    → roster (register_all rs st).entries ≡ roster st.entries ++ rs
unfolding register_all register new_entry
roster-register_all [] st own u new = sym (append-nil (roster st.entries))
roster-register_all ((k, r) ∷ rs) st (own, owns) (fresh, u) (one, others) =
    let named : IsNew st.entries (r.identity, r) =
      subst (λ n. entry_of n st.entries ≡ none) (sym own) one in
    roster-register_all rs (register r st) owns u (
      put_entry-IsNew r.identity (new_entry r) st.entries rs
        (subst (λ n. lookup n rs ≡ none) (sym own) fresh) others)
    ∙ ap (λ l. l ++ rs) (roster-put_new r.identity (new_entry r) st.entries named)
    ∙ append_assoc (roster st.entries) ((r.identity, r) ∷ []) rs
    ∙ ap (λ n. roster st.entries ++ (n, r) ∷ rs) own

none-IsNew : {W : Type 0} (rs : List (String × Recipe W)) → All (IsNew {W = W} []) rs
unfolding entry_of
none-IsNew [] = tt
none-IsNew ((n, r) ∷ rs) = (refl, none-IsNew rs)

module _ {W J P C : Type 0} (machine : Machine) (src : Sources) (lib : Builder W J P C)
    (parts : Parts W P C) (wire : Wire) where
  -- A store that is built has the recipes that come with it, which are those of a configuration.
  abbrev IsComplete : Built W → Type 0
  IsComplete b = (roster b.store.entries ≡ b.recipes) × IsUnique b.recipes

  build_store-IsComplete :
      (path : String) (tls : TlsFlags) (b : Built W)
      → build_store src lib path tls ≡ ok b
      → IsComplete b
  unfolding build_store Store.new
  build_store-IsComplete path tls b h =
      let (cfg, loaded, h1) = bind-ok (load src path) _ b h in
      let (rs, built, h2) = bind-ok (recipes lib (apply_tls_flags tls cfg)) _ b h1 in
      let unique = recipes-IsUnique lib (apply_tls_flags tls cfg) rs built in
      subst IsComplete (ok_injective _ b h2) (
        roster-register_all rs
            (Store.new (nonnegative cfg.backoff.max_burst) (nonnegative cfg.backoff.window))
            (recipes-identity lib (apply_tls_flags tls cfg) rs built) unique (none-IsNew rs),
        unique,
      )

  -- Whatever a daemon has seen so far, its store has exactly the gateway's recipes, each under its
  -- own identity and in their order, and no identity twice.
  pub prepare-known :
      (f : Flags) (p : Prepared W) (w : W) (g : Live W)
      → prepare machine src lib parts f ≡ ok p
      → Reaches p.gateway wire (begin machine src lib parts wire p w) g
      → (known g ≡ p.gateway.recipes) × IsUnique p.gateway.recipes
  prepare-known f p w g h reached =
      let (built, made, stored, same, required) = prepare-Steps machine src lib parts f p h in
      let (whole, unique) = build_store-IsComplete f.config f.tls built made in
      (
        known-Reaches p.gateway wire reached
            ∙ ap (λ (s : Store W). roster s.entries) stored
            ∙ whole
            ∙ sym same,
        subst IsUnique (sym same) unique,
      )
