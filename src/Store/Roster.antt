-- ===== src/Store/Roster.antt =====
-- The identities of a store of internal/store/store.go, each with its recipe: no call but Register
-- changes them.
use claviger.Prelude.{
  ℕ, String, ◌≡◌, refl, sym, ap, ◌∙◌, List, [], ◌∷◌, Option, some, Error, arith, ◌==◌, Bool-cases,
  Option-cases, inl, inr,
}
use claviger.Prelude.Maps.{lookup}
use claviger.Recipe.{Recipe}
use claviger.Store.Entry.{Entry, admit}
use claviger.Store.{
  Store, entry_of, put_entry, get_entry, refresh_entry, get, refresh, IdentityHealth,
  refresh_if_due, refresh_due, refresh_expiring, health,
}

abbrev pub roster : {W : Type 0} → List (String × Entry W) → List (String × Recipe W)
roster [] = []
roster ((id, e) ∷ es) = (id, e.recipe) ∷ roster es

same_recipe :
    {W : Type 0} (f e : Entry W)
    → ◌≡◌ {A = Option (Entry W)} (some f) (some e)
    → f.recipe ≡ e.recipe
same_recipe {W} f e h = let same : f ≡ e = cc h in ap (λ (x : Entry W). x.recipe) same

pub lookup-roster :
    {W : Type 0} (id : String) (e : Entry W) (es : List (String × Entry W))
    → entry_of id es ≡ some e
    → lookup id (roster es) ≡ some e.recipe
unfolding lookup entry_of
lookup-roster id e [] found = cc
lookup-roster id e ((j, f) ∷ es) found = elim (Bool-cases (j == id)) [
  | inl same ↦ rw same (ap some (same_recipe f e (rw same at found)))
  | inr other ↦ rw other (lookup-roster id e es (rw other at found))
]

roster-put_entry :
    {W : Type 0} (id : String) (e new : Entry W) (es : List (String × Entry W))
    → entry_of id es ≡ some e
    → new.recipe ≡ e.recipe
    → roster (put_entry id new es) ≡ roster es
unfolding entry_of put_entry
roster-put_entry id e new [] found same = cc
roster-put_entry id e new ((j, f) ∷ es) found kept = elim (Bool-cases (j == id)) [
  | inl same ↦
      rw same (ap (λ r. (j, r) ∷ roster es) (kept ∙ sym (same_recipe f e (rw same at found))))
  | inr other ↦
      rw other (ap (λ l. (j, f.recipe) ∷ l) (roster-put_entry id e new es (rw other at found) kept))
]

module _ {W : Type 0} (clock : W → ℕ × W) where
  get_entry-recipe :
      (burst window : ℕ) (e : Entry W) (w : W)
      → (get_entry clock burst window e w).1.recipe ≡ e.recipe
  unfolding get_entry admit
  get_entry-recipe burst window e w = ground arith

  refresh_entry-recipe :
      (burst window : ℕ) (e : Entry W) (w : W)
      → (refresh_entry clock burst window e.session e w).1.recipe ≡ e.recipe
  unfolding refresh_entry admit
  refresh_entry-recipe burst window e w = ground arith

  pub roster-get :
      (id : String) (s : Store W) (w : W) → roster (get clock id s w).1.entries ≡ roster s.entries
  unfolding get
  roster-get id s w = elim (Option-cases (entry_of id s.entries)) [
    | inl missing ↦ rw (missing, get) refl
    | inr (e, found) ↦
        rw (found, get)
          (roster-put_entry id e _ s.entries found (get_entry-recipe s.max_burst s.window e w))
  ]

  pub roster-refresh :
      (id : String) (s : Store W) (w : W)
      → roster (refresh clock id s w).1.entries ≡ roster s.entries
  unfolding refresh
  roster-refresh id s w = elim (Option-cases (entry_of id s.entries)) [
    | inl missing ↦ rw (missing, refresh) refl
    | inr (e, found) ↦
        rw (found, refresh)
          (roster-put_entry id e _ s.entries found (refresh_entry-recipe s.max_burst s.window e w))
  ]

  roster-refresh_if_due :
      (now within : ℕ) (h : IdentityHealth) (errs : List (String × Error)) (s : Store W) (w : W)
      → roster (refresh_if_due clock now within h errs s w).1.entries ≡ roster s.entries
  unfolding refresh_if_due
  roster-refresh_if_due now within h errs s w = ground (arith, roster-refresh h.name s w)

  roster-refresh_due :
      (now within : ℕ) (hs : List IdentityHealth) (errs : List (String × Error)) (s : Store W)
      (w : W)
      → roster (refresh_due clock now within hs errs s w).1.entries ≡ roster s.entries
  unfolding refresh_due
  roster-refresh_due now within [] errs s w = refl
  roster-refresh_due now within (h ∷ hs) errs s w =
      roster-refresh_due now within hs _ _ _ ∙ roster-refresh_if_due now within h errs s w

  pub roster-refresh_expiring :
      (within : ℕ) (s : Store W) (w : W)
      → roster (refresh_expiring clock within s w).1.entries ≡ roster s.entries
  unfolding refresh_expiring
  roster-refresh_expiring within s w =
      roster-refresh_due (clock w).0 within (health s) [] s (clock w).1
