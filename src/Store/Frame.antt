-- ===== src/Store/Frame.antt =====
-- What Refresh and RefreshExpiring of internal/store/store.go leave alone.
use claviger.Prelude.{
  ℕ, ◌+◌, String, ◌≡◌, ◌≢◌, refl, sym, ◌∙◌, ap, Bool, false, not, ◌&&◌, List, [], ◌∷◌, Option, none,
  some, Error, arith, ltb, All, ◌==◌, eq_iff, if◌then◌else◌, Bool-cases, Option-cases, false≢true,
  inl, inr,
}
use claviger.Session.{is_zero}
use claviger.Store.Entry.{Entry}
use claviger.Store.{
  Store, IdentityHealth, entry_of, put_entry, refresh, health_of, add_health, health_rows, health,
  identities, refresh_if_due, refresh_due, refresh_expiring,
}

pub entry_of-put_entry :
    {W : Type 0} (id j : String) (e : Entry W) (es : List (String × Entry W))
    → entry_of j (put_entry id e es) ≡ (if id == j then some e else entry_of j es)
unfolding entry_of put_entry
entry_of-put_entry id j e [] = refl
entry_of-put_entry id j e ((i, f) ∷ es) =
    ground (arith, eq_iff id j, eq_iff i id, eq_iff i j, entry_of-put_entry id j e es)

pub entry_of-put_entry_ne :
    {W : Type 0} (id j : String) (e : Entry W) (es : List (String × Entry W))
    → id ≢ j
    → entry_of j (put_entry id e es) ≡ entry_of j es
entry_of-put_entry_ne id j e es ne = ground (arith, entry_of-put_entry id j e es, eq_iff id j)

module _ {W : Type 0} (clock : W → ℕ × W) where
  -- Refresh of one identity changes the entry of no other.
  pub refresh_frame :
      (id j : String) (s : Store W) (w : W)
      → id ≢ j
      → entry_of j (refresh clock id s w).1.entries ≡ entry_of j s.entries
  unfolding refresh entry_of
  refresh_frame id j s w ne = elim (Option-cases (entry_of id s.entries)) [
    | inl missing ↦ rw (missing, refresh) refl
    | inr (e, found) ↦ rw (found, refresh) (entry_of-put_entry_ne id j _ s.entries ne)
  ]

-- The test of RefreshExpiring's loop: established, with a known expiry inside the window.
abbrev pub is_due : ℕ → ℕ → IdentityHealth → Bool
is_due now within h = h.established && not (is_zero h.expires_at) && ltb h.expires_at (now + within)

-- Every row for the identity is not due.
abbrev pub IsSpared : ℕ → ℕ → String → List IdentityHealth → Type 0
IsSpared now within id = All λ h. h.name ≡ id → is_due now within h ≡ false

add_health-IsSpared :
    {W : Type 0} (now within : ℕ) (id j : String) (e : Entry W) (o : Option (Entry W))
    (hs : List IdentityHealth)
    → is_due now within (health_of id e) ≡ false
    → (j ≡ id → o ≡ some e)
    → IsSpared now within id hs
    → IsSpared now within id (add_health j o hs)
unfolding health_of
add_health-IsSpared now within id j e none hs spared same rest = rest
add_health-IsSpared now within id j e (some f) hs spared same rest =
    ((λ p. ground (arith, same p)), rest)

health_rows-IsSpared :
    {W : Type 0} (now within : ℕ) (id : String) (e : Entry W) (es : List (String × Entry W))
    (ids : List String)
    → entry_of id es ≡ some e
    → is_due now within (health_of id e) ≡ false
    → IsSpared now within id (health_rows es ids)
unfolding health_rows
health_rows-IsSpared now within id e es [] found spared = tt
health_rows-IsSpared now within id e es (j ∷ ids) found spared =
    add_health-IsSpared now within id j e (entry_of j es) (health_rows es ids) spared
      (λ p. ap (λ k. entry_of k es) p ∙ found)
      (health_rows-IsSpared now within id e es ids found spared)

module _ {W : Type 0} (clock : W → ℕ × W) where
  pub refresh_if_due_frame :
      (now within : ℕ) (id : String) (h : IdentityHealth) (errs : List (String × Error))
      (s : Store W) (w : W)
      → (h.name ≡ id → is_due now within h ≡ false)
      → entry_of id (refresh_if_due clock now within h errs s w).1.entries ≡ entry_of id s.entries
  unfolding refresh_if_due
  refresh_if_due_frame now within id h errs s w spared = elim (Bool-cases (is_due now within h)) [
    | inl due ↦
        ground (arith, refresh_frame clock h.name id s w (λ p. false≢true (sym (spared p) ∙ due)))
    | inr early ↦ ground arith
  ]

  pub refresh_due_frame :
      (now within : ℕ) (id : String) (hs : List IdentityHealth) (errs : List (String × Error))
      (s : Store W) (w : W)
      → IsSpared now within id hs
      → entry_of id (refresh_due clock now within hs errs s w).1.entries ≡ entry_of id s.entries
  unfolding refresh_due
  refresh_due_frame now within id [] errs s w spared = refl
  refresh_due_frame now within id (h ∷ hs) errs s w spared =
      refresh_due_frame now within id hs _ _ _ spared.1
      ∙ refresh_if_due_frame now within id h errs s w spared.0

  -- RefreshExpiring leaves an identity as it is that has no session, or one of unknown expiry, or
  -- one that expires only after the window.
  pub refresh_expiring_spares :
      (within : ℕ) (id : String) (e : Entry W) (s : Store W) (w : W)
      → entry_of id s.entries ≡ some e
      → is_due (clock w).0 within (health_of id e) ≡ false
      → entry_of id (refresh_expiring clock within s w).1.entries ≡ some e
  unfolding refresh_expiring health
  refresh_expiring_spares within id e s w found spared =
      refresh_due_frame (clock w).0 within id (health s) [] s (clock w).1
        (health_rows-IsSpared (clock w).0 within id e s.entries (identities s) found spared)
      ∙ found
