-- ===== src/Store/Get.antt =====
-- Store.Get and Store.Refresh of internal/store/store.go on one entry: what they return, and what
-- they leave in the store.
use claviger.Prelude.{
  ℕ, ◌≡◌, true, false, Bool-cases, Option-cases, Option, none, some, Error, ok, err, arith, ◌⊎◌,
  inl, inr,
}
use claviger.Session.{Session, expired}
use claviger.Store.Entry.{Ref, Entry, object, rate_limited, admit}
use claviger.Store.{live, login, get_entry, refresh_entry}

module _ {W : Type 0} (clock : W → ℕ × W) (burst window : ℕ) where
  login_leaves :
      (c : Option Ref) (e : Entry W) (w : W) (s : Session)
      → (login clock burst window c e w).0 ≡ ok s
      → object (login clock burst window c e w).1.session ≡ some s
  unfolding login admit
  login_leaves c e w s h = ground arith

  -- What Get returns is the session that the store then holds.
  pub get_entry_holds :
      (e : Entry W) (w : W) (s : Session)
      → (get_entry clock burst window e w).0 ≡ ok s
      → object (get_entry clock burst window e w).1.session ≡ some s
  unfolding get_entry
  get_entry_holds e w s h = ground arith

  -- A Get that fails leaves the session, and its address, as they were.
  pub get_entry_fails :
      (e : Entry W) (w : W) (x : Error)
      → (get_entry clock burst window e w).0 ≡ err x
      → (get_entry clock burst window e w).1.session ≡ e.session
  unfolding get_entry admit
  get_entry_fails e w x h = ground arith

  -- The session that a Refresh returns is the one that the store then holds.
  pub refresh_entry_holds :
      (before : Option Ref) (e : Entry W) (w : W) (s : Option Session)
      → (refresh_entry clock burst window before e w).0 ≡ ok s
      → object (refresh_entry clock burst window before e w).1.session ≡ s
  unfolding refresh_entry admit
  refresh_entry_holds before e w s h = ground arith

  held_source :
      (r : Ref) (e : Entry W) (w : W) (s : Session)
      → e.session ≡ some r
      → (get_entry clock burst window e w).0 ≡ ok s
      → ((s ≡ r.obj)
          × ((expired s (clock w).0 ≡ false) ⊎ (expired s (clock (clock w).1).0 ≡ false)))
        ⊎ ((expired r.obj (clock w).0 ≡ true)
            × (expired r.obj (clock (clock w).1).0 ≡ true)
            × ((rate_limited burst window (clock (clock (clock w).1).1).0 e).0 ≡ ok tt)
            × ((e.recipe.refresh (some r.obj) (clock (clock (clock w).1).1).1).0 ≡ ok s))
  unfolding get_entry live login admit
  held_source r e w s c h = elim (Bool-cases (expired r.obj (clock w).0)) [
    | inr fresh ↦ inl (ground (arith, c, h, fresh), inl (ground (arith, c, h, fresh)))
    | inl stale ↦ elim (Bool-cases (expired r.obj (clock (clock w).1).0)) [
      | inr fresh ↦
          inl (ground (arith, c, h, stale, fresh), inr (ground (arith, c, h, stale, fresh)))
      | inl still ↦
          inr (stale, still, ground (arith, c, h, stale, still), ground (arith, c, h, stale, still))
    ]
  ]

  first_source :
      (e : Entry W) (w : W) (s : Session)
      → e.session ≡ none
      → (get_entry clock burst window e w).0 ≡ ok s
      → (e.recipe.establish w).0 ≡ ok s
  unfolding get_entry live login
  first_source e w s c h = ground (arith, c, h)

  -- A session that Get serves is the one that the store holds, and not expired at the time that the
  -- clock shows at the first check or, if it had expired then, at the check under the lock; or,
  -- where the store holds none, what the recipe's first login answers in the world that Get found;
  -- or, where the session has expired at both of these times, what the recipe's refresh of it
  -- answers, once the limiter has let it through at the third time that the clock shows.
  pub get_entry_source :
      (e : Entry W) (w : W) (s : Session)
      → (get_entry clock burst window e w).0 ≡ ok s
      → ((r : Ref) × (e.session ≡ some r)
          × (s ≡ r.obj)
          × ((expired s (clock w).0 ≡ false) ⊎ (expired s (clock (clock w).1).0 ≡ false)))
        ⊎ ((e.session ≡ none) × ((e.recipe.establish w).0 ≡ ok s))
        ⊎ ((r : Ref) × (e.session ≡ some r)
            × (expired r.obj (clock w).0 ≡ true)
            × (expired r.obj (clock (clock w).1).0 ≡ true)
            × ((rate_limited burst window (clock (clock (clock w).1).1).0 e).0 ≡ ok tt)
            × ((e.recipe.refresh (some r.obj) (clock (clock (clock w).1).1).1).0 ≡ ok s))
  get_entry_source e w s h = elim (Option-cases e.session) [
    | inl empty ↦ inr (inl (empty, first_source e w s empty h))
    | inr (r, held) ↦ elim (held_source r e w s held h) [
      | inl (same, fresh) ↦ inl (r, held, same, fresh)
      | inr (stale, still, admitted, renewed) ↦ inr (inr (r, held, stale, still, admitted, renewed))
    ]
  ]
