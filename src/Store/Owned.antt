-- ===== src/Store/Owned.antt =====
-- Whose session an entry of internal/store/store.go holds. An entry is owned if its recipe logs in
-- the identity it is filed under, and its session, a dead copy too, is of that identity.
pub mod Calls
use claviger.Prelude.{
  ℕ, String, ◌≡◌, ◌≢◌, refl, sym, ap, subst, ◌∙◌, Bool, true, false, List, [], ◌∷◌, Option, none,
  some, Error, Result, ok, err, OkThen, arith, eqb, leb, length, ◌==◌, eq_iff, if◌then◌else◌,
  Bool-cases, Option-cases, inl, inr,
}
use claviger.Session.{Session, expired}
use claviger.Recipe.{Recipe}
use claviger.Recipe.Honest.{IsNamed, IsHonest, Brings-IsNamed}
use claviger.Store.Entry.{
  Ref, Entry, object, new_entry, set_session, commit, fail, admit, prune_older_than, rate_limited,
  differs, finish,
}
use claviger.Store.{
  Store, entry_of, put_entry, live, settle, renew, login, unless_live, get_entry, refresh_with,
  refresh_limited, refresh_entry, get, refresh, register, IdentityHealth, refresh_if_due,
  refresh_due, refresh_expiring, health,
}
use claviger.Store.Frame.{entry_of-put_entry}

-- The session that a pointer points to, if any, is of the identity.
abbrev pub Belongs : String → Option Session → Type 0
Belongs id none = Unit
Belongs id (some s) = s.identity ≡ id

-- The same of an outcome that may be a nil session.
abbrev pub Names : String → Result (Option Session) → Type 0
Names id = OkThen (Belongs id)

abbrev pub IsOwned : {W : Type 0} → String → Entry W → Type 0
IsOwned id e = IsHonest e.recipe × (e.recipe.identity ≡ id) × Belongs id (object e.session)

-- Each entry of the store is owned.
abbrev pub AllOwned : {W : Type 0} → List (String × Entry W) → Type 0
AllOwned {W} es = (id : String) (e : Entry W) → entry_of id es ≡ some e → IsOwned id e

pub put_entry-AllOwned :
    {W : Type 0} (id : String) (e : Entry W) (es : List (String × Entry W))
    → IsOwned id e
    → AllOwned es
    → AllOwned (put_entry id e es)
put_entry-AllOwned id e es own owned j f found = elim (Bool-cases (id == j)) [
  | inl same ↦
      let here : id ≡ j = ground (arith, eq_iff id j, same) in
      let this : e ≡ f = ground (arith, sym (entry_of-put_entry id j e es) ∙ found, same) in
      subst (λ k. IsOwned k f) here (subst (IsOwned id) this own)
  | inr other ↦ owned j f (ground (arith, sym (entry_of-put_entry id j e es) ∙ found, other))
]

-- What an operation on an entry gives back: a session of the identity, and the entry still owned.
abbrev Kept : {W : Type 0} → String → Result Session × Entry W × W → Type 0
Kept id (r, e, w) = IsNamed id r × IsOwned id e

abbrev KeptToo : {W : Type 0} → String → Result (Option Session) × Entry W × W → Type 0
KeptToo id (r, e, w) = Names id r × IsOwned id e

module _ {W : Type 0} (clock : W → ℕ × W) (id : String) where
  live-Belongs : (c : Option Ref) (w : W) → Belongs id (object c) → Belongs id (live clock c w).0
  unfolding live
  live-Belongs none w own = tt
  live-Belongs (some r) w own = elim (Bool-cases (expired r.obj (clock w).0)) [
    | inl stale ↦ rw stale tt
    | inr fresh ↦ rw fresh own
  ]

  settle-Kept :
      (r : Result Session) (e : Entry W) (w : W)
      → IsNamed id r
      → IsOwned id e
      → Kept id (settle clock r e w)
  unfolding settle commit set_session fail
  settle-Kept (ok s) e w named (honest, filed, own) = (named, (honest, filed, named))
  settle-Kept (err x) e w named own = (tt, own)

  establish-IsNamed : (e : Entry W) (w : W) → IsOwned id e → IsNamed id (e.recipe.establish w).0
  establish-IsNamed e w (honest, filed, own) =
      subst (λ k. IsNamed k (e.recipe.establish w).0) filed (Brings-IsNamed _ _ (honest.0 w))

  refresh-IsNamed :
      (e : Entry W) (cur : Option Session) (w : W)
      → IsOwned id e
      → IsNamed id (e.recipe.refresh cur w).0
  refresh-IsNamed e cur w (honest, filed, own) =
      subst (λ k. IsNamed k (e.recipe.refresh cur w).0) filed (Brings-IsNamed _ _ (honest.1 cur w))

  -- The limiter changes nothing but the stamps.
  rate_limited-IsOwned :
      (burst window now : ℕ) (e : Entry W)
      → IsOwned id e
      → IsOwned id (rate_limited burst window now e).1
  unfolding rate_limited admit
  rate_limited-IsOwned burst window now e own =
      elim (Bool-cases (leb burst (length (prune_older_than e.stamps now window)))) [
        | inl full ↦ rw full own
        | inr room ↦ rw room own
      ]

  renew-Kept :
      (cur : Ref) (out : Result (Unit {0}) × Entry W) (w : W)
      → IsOwned id out.1
      → Kept id (renew clock cur out w)
  unfolding renew
  renew-Kept cur (err x, e) w own = (tt, own)
  renew-Kept cur (ok u, e) w own =
      settle-Kept (e.recipe.refresh (some cur.obj) w).0 e (e.recipe.refresh (some cur.obj) w).1
        (refresh-IsNamed e (some cur.obj) w own) own

  login-Kept :
      (burst window : ℕ) (c : Option Ref) (e : Entry W) (w : W)
      → IsOwned id e
      → Kept id (login clock burst window c e w)
  unfolding login
  login-Kept burst window none e w own =
      settle-Kept (e.recipe.establish w).0 e (e.recipe.establish w).1 (establish-IsNamed e w own)
        own
  login-Kept burst window (some cur) e w own =
      renew-Kept cur (rate_limited burst window (clock w).0 e) (clock w).1
        (rate_limited-IsOwned burst window (clock w).0 e own)

  unless_live-Kept :
      (out : Option Session × W) (k : W → Result Session × Entry W × W) (e : Entry W)
      → Belongs id out.0
      → ((w : W) → Kept id (k w))
      → IsOwned id e
      → Kept id (unless_live clock out k e)
  unless_live-Kept (none, w) k e named h own = h w
  unless_live-Kept (some s, w) k e named h own = (named, own)

  -- Get gives a session of the entry's identity.
  pub get_entry-Kept :
      (burst window : ℕ) (e : Entry W) (w : W)
      → IsOwned id e
      → Kept id (get_entry clock burst window e w)
  unfolding get_entry
  get_entry-Kept burst window e w own =
      unless_live-Kept (live clock e.session w) _ e (live-Belongs e.session w own.2)
        (λ w1.
          unless_live-Kept (live clock e.session w1) _ e (live-Belongs e.session w1 own.2)
            (λ w2. login-Kept burst window e.session e w2 own) own)
        own

  refresh_with-KeptToo :
      (before : Option Ref) (r : Result Session) (e : Entry W) (w : W)
      → Belongs id (object before)
      → IsNamed id r
      → IsOwned id e
      → KeptToo id (refresh_with clock before r e w)
  unfolding refresh_with finish commit set_session fail
  refresh_with-KeptToo before (ok s) e w old named (honest, filed, own) =
      (named, (honest, filed, named))
  refresh_with-KeptToo none (err x) e w old named own = (tt, own)
  refresh_with-KeptToo (some b) (err x) e w old named (honest, filed, own) =
      (tt, (honest, filed, old))

  refresh_limited-KeptToo :
      (before : Option Ref) (out : Result (Unit {0}) × Entry W) (w : W)
      → Belongs id (object before)
      → IsOwned id out.1
      → KeptToo id (refresh_limited clock before out w)
  unfolding refresh_limited
  refresh_limited-KeptToo before (err x, e) w old own = (tt, own)
  refresh_limited-KeptToo before (ok u, e) w old own =
      refresh_with-KeptToo before (e.recipe.refresh (object before) w).0 e
        (e.recipe.refresh (object before) w).1 old (refresh-IsNamed e (object before) w own) own

  -- Refresh gives a session of the entry's identity, and leaves one if it fails.
  pub refresh_entry-KeptToo :
      (burst window : ℕ) (before : Option Ref) (e : Entry W) (w : W)
      → Belongs id (object before)
      → IsOwned id e
      → KeptToo id (refresh_entry clock burst window before e w)
  unfolding refresh_entry
  refresh_entry-KeptToo burst window before e w old own =
      elim (Bool-cases (differs e.session before)) [
        | inl other ↦ rw other (own.2, own)
        | inr same ↦ rw same (
            refresh_limited-KeptToo before (rate_limited burst window (clock w).0 e) (clock w).1 old
              (rate_limited-IsOwned burst window (clock w).0 e own))
      ]
