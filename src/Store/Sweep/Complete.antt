-- ===== src/Store/Sweep/Complete.antt =====
-- The loop of RefreshExpiring in internal/store/store.go comes to each identity that is due.
use claviger.Prelude.{
  ℕ, String, ◌≡◌, ◌≢◌, sym, subst, ◌∙◌, true, false, List, [], ◌∷◌, Option, none, some, Error,
  arith, ◌==◌, eq_iff, inl, inr, Bool-cases, Option-cases,
}
use claviger.Store.Entry.{Entry}
use claviger.Store.{
  Store, IdentityHealth, entry_of, keys, sort_names, identities, refresh, health_of, add_health,
  health_rows, health, note_error, refresh_if_due, refresh_due, refresh_expiring,
}
use claviger.Store.Frame.{is_due, IsSpared, refresh_due_frame, refresh_if_due_frame}
use claviger.Store.Sweep.{
  times, times-sort_names, IsRenewed, IsSettled, refresh_settles, refresh_due_noted,
}

module _ {W : Type 0} (clock : W → ℕ × W) (id : String) where
  due_row :
      (now within : ℕ) (h : IdentityHealth) (errs : List (String × Error)) (s : Store W) (w : W)
      → is_due now within h ≡ true
      → refresh_if_due clock now within h errs s w ≡ (
        note_error h.name (refresh clock h.name s w).0 errs,
        (refresh clock h.name s w).1,
        (refresh clock h.name s w).2,
      )
  unfolding refresh_if_due
  due_row now within h errs s w due = ground arith

  not_named : (j : String) → (j == id) ≡ false → j ≢ id
  not_named j other p = ground (arith, eq_iff j id, other, p)

  add_health_absent :
      (now within : ℕ) (j : String) (o : Option (Entry W)) (hs : List IdentityHealth)
      → (j == id) ≡ false
      → IsSpared now within id hs
      → IsSpared now within id (add_health j o hs)
  unfolding health_of
  add_health_absent now within j none hs other rest = rest
  add_health_absent now within j (some f) hs other rest =
      ((λ p. absurd (not_named j other p)), rest)

  -- No row is the identity's.
  absent-IsSpared :
      (now within : ℕ) (es : List (String × Entry W)) (ids : List String)
      → times id ids ≡ 0
      → IsSpared now within id (health_rows es ids)
  unfolding health_rows
  absent-IsSpared now within es [] none_left = tt
  absent-IsSpared now within es (j ∷ ids) none_left =
      add_health_absent now within j (entry_of j es) (health_rows es ids)
        (ground (arith, none_left)) (absent-IsSpared now within es ids (ground (arith, none_left)))

  later_rows :
      (now within : ℕ) (e : Entry W) (es : List (String × Entry W)) (ids : List String)
      (out : List (String × Error) × Store W × W)
      → times id ids ≡ 0
      → IsSettled clock id e out
      → IsSettled clock id e (refresh_due clock now within (health_rows es ids) out.0 out.1 out.2)
  later_rows now within e es ids (errs, s, w) none_left (inl renewed) = inl (
      subst (IsRenewed clock id e)
        (sym (
          refresh_due_frame clock now within id (health_rows es ids) errs s w
            (absent-IsSpared now within es ids none_left)))
        renewed)
  later_rows now within e es ids (errs, s, w) none_left (inr noted) =
      inr (refresh_due_noted clock id now within (health_rows es ids) errs s w noted)

  rows_bring :
      (now within : ℕ) (e : Entry W) (es : List (String × Entry W)) (ids : List String)
      (errs : List (String × Error)) (s : Store W) (w : W)
      → entry_of id es ≡ some e
      → entry_of id s.entries ≡ some e
      → is_due now within (health_of id e) ≡ true
      → times id ids ≡ 1
      → IsSettled clock id e (refresh_due clock now within (health_rows es ids) errs s w)
  unfolding health_rows refresh_due health_of
  rows_bring now within e es [] errs s w listed found due one = absurd (omega (arith, one))
  rows_bring now within e es (j ∷ ids) errs s w listed found due one = elim (Bool-cases (j == id)) [
    | inl same ↦
        let named : id ≡ j = ground (arith, eq_iff j id, same) in
        let row : entry_of j es ≡ some e = subst (λ k. entry_of k es ≡ some e) named listed in
        let settled : IsSettled clock id e
            (refresh_if_due clock now within (health_of j e) errs s w) =
          subst (IsSettled clock id e) (sym (due_row now within (health_of j e) errs s w due)) (
            subst
              (λ k. IsSettled clock id e (
                note_error k (refresh clock k s w).0 errs,
                (refresh clock k s w).1,
                (refresh clock k s w).2,
              ))
              named (refresh_settles clock id e s w errs found)) in
        rw (row) (
          later_rows now within e es ids (refresh_if_due clock now within (health_of j e) errs s w)
            (ground (arith, one, same)) settled)
    | inr other ↦ elim (Option-cases (entry_of j es)) [
      | inl missing ↦
          rw (missing)
            (rows_bring now within e es ids errs s w listed found due (ground (arith, one, other)))
      | inr (f, present) ↦ rw (present) (
          rows_bring now within e es ids _ _ _ listed
            (refresh_if_due_frame clock now within id (health_of j f) errs s w
                (λ p. absurd (not_named j other p))
              ∙ found)
            due (ground (arith, one, other)))
    ]
  ]

  -- After RefreshExpiring, an identity that has one entry, with a session whose known expiry lies
  -- inside the window, holds a session that its recipe's refresh of the old one has just given, or
  -- its error is among those returned.
  pub refresh_expiring_settles :
      (within : ℕ) (e : Entry W) (s : Store W) (w : W)
      → entry_of id s.entries ≡ some e
      → times id (keys s.entries) ≡ 1
      → is_due (clock w).0 within (health_of id e) ≡ true
      → IsSettled clock id e (refresh_expiring clock within s w)
  unfolding refresh_expiring health identities
  refresh_expiring_settles within e s w found one due =
      rows_bring (clock w).0 within e s.entries (sort_names (keys s.entries)) [] s (clock w).1 found
        found due (times-sort_names id (keys s.entries) ∙ one)
