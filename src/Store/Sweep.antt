-- ===== src/Store/Sweep.antt =====
-- What one refresh in the loop of RefreshExpiring of internal/store/store.go comes to.
pub mod Complete
use claviger.Prelude.{
  ℕ, ◌+◌, suc, String, ◌≡◌, ◌≢◌, refl, sym, ap, subst, ◌∙◌, Bool, true, false, not, ◌&&◌, ◌||◌,
  List, [], ◌∷◌, ◌++◌, Option, none, some, Error, Result, ok, err, arith, count, any, ltb, All,
  ◌==◌, eq_iff, eq_refl, if◌then◌else◌, ◌⊎◌, inl, inr, Bool-cases, Option-cases, false≢true,
}
use claviger.Session.{Session, is_zero}
use claviger.Recipe.{Recipe}
use claviger.Store.Entry.{Ref, Entry, object, rate_limited, differs, admit}
use claviger.Store.{
  Store, IdentityHealth, entry_of, put_entry, keys, insert_name, sort_names, identities, refresh,
  refresh_with, refresh_limited, refresh_entry, health_of, add_health, health_rows, health,
  note_error, refresh_if_due, refresh_due, refresh_expiring,
}
use claviger.Store.Get.{refresh_entry_holds}
use claviger.Store.Frame.{
  entry_of-put_entry, is_due, IsSpared, refresh_due_frame, refresh_if_due_frame,
}
use claviger.Store.Refines.{differs_self}

-- How often the name is in the list.
abbrev pub times : String → List String → ℕ
times id = count (λ k. k == id)

times-insert_name :
    (id x : String) (xs : List String) → times id (insert_name x xs) ≡ times id (x ∷ xs)
unfolding insert_name
times-insert_name id x [] = refl
times-insert_name id x (y ∷ ys) = ground (arith, times-insert_name id x ys)

pub times-sort_names : (id : String) (xs : List String) → times id (sort_names xs) ≡ times id xs
unfolding sort_names
times-sort_names id [] = refl
times-sort_names id (x ∷ xs) =
    ground (arith, times-insert_name id x (sort_names xs), times-sort_names id xs)

-- An error of the identity is among those that are returned.
abbrev pub is_noted : String → List (String × Error) → Bool
is_noted id = any (λ p. p.0 == id)

any_append :
    (id : String) (xs ys : List (String × Error))
    → is_noted id (xs ++ ys) ≡ is_noted id xs || is_noted id ys
any_append id [] ys = refl
any_append id (x ∷ xs) ys = ground (arith, any_append id xs ys)

module _ {W : Type 0} (clock : W → ℕ × W) (id : String) where
  note_error_keeps :
      {A : Type 0} (j : String) (r : Result A) (errs : List (String × Error))
      → is_noted id errs ≡ true
      → is_noted id (note_error j r errs) ≡ true
  note_error_keeps j (ok a) errs noted = noted
  note_error_keeps j (err x) errs noted = ground (arith, any_append id errs ((j, x) ∷ []), noted)

  refresh_if_due_noted :
      (now within : ℕ) (h : IdentityHealth) (errs : List (String × Error)) (s : Store W) (w : W)
      → is_noted id errs ≡ true
      → is_noted id (refresh_if_due clock now within h errs s w).0 ≡ true
  unfolding refresh_if_due
  refresh_if_due_noted now within h errs s w noted =
      ground (arith, note_error_keeps h.name (refresh clock h.name s w).0 errs noted, noted)

  pub refresh_due_noted :
      (now within : ℕ) (hs : List IdentityHealth) (errs : List (String × Error)) (s : Store W)
      (w : W)
      → is_noted id errs ≡ true
      → is_noted id (refresh_due clock now within hs errs s w).0 ≡ true
  unfolding refresh_due
  refresh_due_noted now within [] errs s w noted = noted
  refresh_due_noted now within (h ∷ hs) errs s w noted =
      refresh_due_noted now within hs _ _ _ (refresh_if_due_noted now within h errs s w noted)

  -- The entry holds a session that the recipe's refresh of the one in `e` gave.
  abbrev pub IsRenewed : Entry W → Option (Entry W) → Type 0
  IsRenewed e after =
      (f : Entry W) × (t : Session) × (v : W) × (after ≡ some f)
      × (object f.session ≡ some t)
      × ((e.recipe.refresh (object e.session) v).0 ≡ ok t)

  -- What a refresh of a due identity comes to: its session is renewed, or its error is noted.
  abbrev pub IsSettled : Entry W → List (String × Error) × Store W × W → Type 0
  IsSettled e (errs, s, w) = IsRenewed e (entry_of id s.entries) ⊎ (is_noted id errs ≡ true)

  refresh_with_source :
      (before : Option Ref) (r : Result Session) (e : Entry W) (w : W) (o : Option Session)
      → (refresh_with clock before r e w).0 ≡ ok o
      → (t : Session) × (o ≡ some t) × (r ≡ ok t)
  unfolding refresh_with
  refresh_with_source before (ok s) e w o h = (s, cc, refl)
  refresh_with_source before (err x) e w o h = cc

  refresh_limited_source :
      (before : Option Ref) (out : Result (Unit {0}) × Entry W) (w : W) (o : Option Session)
      → (refresh_limited clock before out w).0 ≡ ok o
      → (t : Session) × (v : W) × (o ≡ some t) × ((out.1.recipe.refresh (object before) v).0 ≡ ok t)
  unfolding refresh_limited
  refresh_limited_source before (err x, e) w o h = cc
  refresh_limited_source before (ok u, e) w o h =
      let (t, brought, source) = refresh_with_source before _ e _ o h in (t, w, brought, source)

  rate_limited-recipe :
      (burst window now : ℕ) (e : Entry W) → (rate_limited burst window now e).1.recipe ≡ e.recipe
  unfolding rate_limited admit
  rate_limited-recipe burst window now e = ground arith

  -- A refresh of the session that is held gives the session that the recipe's refresh of it gave.
  refresh_entry_source :
      (burst window : ℕ) (e : Entry W) (w : W) (o : Option Session)
      → (refresh_entry clock burst window e.session e w).0 ≡ ok o
      → (t : Session) × (v : W) × (o ≡ some t) × ((e.recipe.refresh (object e.session) v).0 ≡ ok t)
  unfolding refresh_entry
  refresh_entry_source burst window e w o h =
      let (t, v, brought, source) =
        refresh_limited_source e.session (rate_limited burst window (clock w).0 e) (clock w).1 o
          (rw (differs_self e.session) at h) in
      (
        t,
        v,
        brought,
        subst (λ (r : Recipe W). (r.refresh (object e.session) v).0 ≡ ok t)
            (rate_limited-recipe burst window (clock w).0 e) source,
      )

  renewed_or_noted :
      (e : Entry W) (s : Store W) (w : W) (errs : List (String × Error))
      (out : Result (Option Session) × Entry W × W)
      → refresh_entry clock s.max_burst s.window e.session e w ≡ out
      → IsSettled e
          (note_error id out.0 errs, record s { entries = put_entry id out.1 s.entries }, out.2)
  renewed_or_noted e s w errs (err x, f, w1) is =
      inr (ground (arith, any_append id errs ((id, x) ∷ []), eq_refl id))
  renewed_or_noted e s w errs (ok o, f, w1) is =
      let (t, v, brought, source) =
        refresh_entry_source s.max_burst s.window e w o (ap (λ p. p.0) is) in
      inl (
        f,
        t,
        v,
        rw (entry_of-put_entry id id f s.entries, eq_refl id) refl,
        subst (λ (p : Result (Option Session) × Entry W × W). object p.1.session ≡ some t) is
            (refresh_entry_holds clock s.max_burst s.window e.session e w (some t)
              (ap (λ p. p.0) is ∙ ap ok brought)),
        source,
      )

  -- The refresh of the identity's row.
  pub refresh_settles :
      (e : Entry W) (s : Store W) (w : W) (errs : List (String × Error))
      → entry_of id s.entries ≡ some e
      → IsSettled e (
        note_error id (refresh clock id s w).0 errs,
        (refresh clock id s w).1,
        (refresh clock id s w).2,
      )
  unfolding refresh
  refresh_settles e s w errs found =
      rw (found, refresh)
        (renewed_or_noted e s w errs (refresh_entry clock s.max_burst s.window e.session e w) refl)
