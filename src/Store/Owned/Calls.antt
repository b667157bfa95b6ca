-- ===== src/Store/Owned/Calls.antt =====
-- The calls of internal/store/store.go leave every entry owned, and give sessions of the identity
-- that they were asked for.
use claviger.Prelude.{
  ℕ, ◌+◌, String, ◌≡◌, ◌≢◌, refl, not, ◌||◌, List, [], ◌∷◌, Error, ltb, Bool-cases, Option-cases,
  inl, inr,
}
use claviger.Session.{is_zero}
use claviger.Recipe.{Recipe}
use claviger.Recipe.Honest.{IsNamed, IsHonest}
use claviger.Store.Entry.{new_entry}
use claviger.Store.{
  Store, entry_of, get, refresh, register, IdentityHealth, refresh_if_due, refresh_due,
  refresh_expiring, health,
}
use claviger.Store.Frame.{entry_of-put_entry_ne}
use claviger.Store.Owned.{
  AllOwned, Names, get_entry-Kept, refresh_entry-KeptToo, put_entry-AllOwned,
}

pub register-AllOwned :
    {W : Type 0} (r : Recipe W) (s : Store W)
    → IsHonest r
    → AllOwned s.entries
    → AllOwned (register r s).entries
unfolding register new_entry
register-AllOwned r s honest owned =
    put_entry-AllOwned r.identity (new_entry r) s.entries (honest, refl, tt) owned

module _ {W : Type 0} (clock : W → ℕ × W) where
  pub get_frame :
      (id j : String) (s : Store W) (w : W)
      → id ≢ j
      → entry_of j (get clock id s w).1.entries ≡ entry_of j s.entries
  unfolding get entry_of
  get_frame id j s w ne = elim (Option-cases (entry_of id s.entries)) [
    | inl missing ↦ rw (missing, get) refl
    | inr (e, found) ↦ rw (found, get) (entry_of-put_entry_ne id j _ s.entries ne)
  ]

  -- Get
  pub get-AllOwned :
      (id : String) (s : Store W) (w : W)
      → AllOwned s.entries
      → IsNamed id (get clock id s w).0 × AllOwned (get clock id s w).1.entries
  unfolding get
  get-AllOwned id s w owned = elim (Option-cases (entry_of id s.entries)) [
    | inl missing ↦ rw (missing, get) (tt, owned)
    | inr (e, found) ↦
        let kept = get_entry-Kept clock id s.max_burst s.window e w (owned id e found) in
        rw (found, get) (kept.0, put_entry-AllOwned id _ s.entries kept.1 owned)
  ]

  -- Refresh
  pub refresh-AllOwned :
      (id : String) (s : Store W) (w : W)
      → AllOwned s.entries
      → Names id (refresh clock id s w).0 × AllOwned (refresh clock id s w).1.entries
  unfolding refresh
  refresh-AllOwned id s w owned = elim (Option-cases (entry_of id s.entries)) [
    | inl missing ↦ rw (missing, refresh) (tt, owned)
    | inr (e, found) ↦
        let own = owned id e found in
        let kept = refresh_entry-KeptToo clock id s.max_burst s.window e.session e w own.2 own in
        rw (found, refresh) (kept.0, put_entry-AllOwned id _ s.entries kept.1 owned)
  ]

  refresh_if_due-AllOwned :
      (now within : ℕ) (h : IdentityHealth) (errs : List (String × Error)) (s : Store W) (w : W)
      → AllOwned s.entries
      → AllOwned (refresh_if_due clock now within h errs s w).1.entries
  unfolding refresh_if_due
  refresh_if_due-AllOwned now within h errs s w owned =
      elim (Bool-cases (not h.established || is_zero h.expires_at)) [
        | inl skipped ↦ rw skipped owned
        | inr known ↦ rw known (elim (Bool-cases (ltb h.expires_at (now + within))) [
          | inl due ↦ rw due (refresh-AllOwned h.name s w owned).1
          | inr early ↦ rw early owned
        ])
      ]

  refresh_due-AllOwned :
      (now within : ℕ) (hs : List IdentityHealth) (errs : List (String × Error)) (s : Store W)
      (w : W)
      → AllOwned s.entries
      → AllOwned (refresh_due clock now within hs errs s w).1.entries
  unfolding refresh_due
  refresh_due-AllOwned now within [] errs s w owned = owned
  refresh_due-AllOwned now within (h ∷ hs) errs s w owned =
      refresh_due-AllOwned now within hs _ _ _ (refresh_if_due-AllOwned now within h errs s w owned)

  -- RefreshExpiring
  pub refresh_expiring-AllOwned :
      (within : ℕ) (s : Store W) (w : W)
      → AllOwned s.entries
      → AllOwned (refresh_expiring clock within s w).1.entries
  unfolding refresh_expiring
  refresh_expiring-AllOwned within s w owned =
      refresh_due-AllOwned (clock w).0 within (health s) [] s (clock w).1 owned
