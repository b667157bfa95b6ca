-- ===== src/Store/Refines.antt =====
-- The store of internal/store/store.go implements the contract of Store/Contract.
use mathlib.Core.List.{append-nil, append_assoc}
use claviger.Prelude.{
  ℕ, String, ◌≡◌, refl, sym, ◌∙◌, ap, subst, List, [], ◌∷◌, ◌++◌, Option, none, some, Error, Result,
  ok, err, arith, ◌⊎◌, inl, inr, eq_iff, Option-cases, Bool-cases, false, not, ◌||◌, ltb, ◌+◌,
}
use claviger.Session.{Session, is_zero}
use claviger.Store.Entry.{Ref, Entry, object, rate_limited, differs, new_entry}
use claviger.Store.{
  Store, IdentityHealth, entry_of, put_entry, register, get, refresh, get_entry, refresh_entry,
  refresh_with, refresh_limited, refresh_if_due, refresh_due, refresh_expiring, health, note_error,
  new,
}
use claviger.Store.Get.{get_entry_holds, get_entry_fails}
use claviger.Store.Frame.{entry_of-put_entry}
use claviger.Store.Flight.Single.{rate_limited_keeps}
use claviger.Store.Flight.Adopt.{dead_copy}
use claviger.Store.Contract.{
  View, view, assign, Agrees, Gets, unknown, gives, fails, Refreshes, renews, stays, expires,
  Sweeps, done, renewed, failed, Does, History, Call, registers, gets, refreshes, sweeps, perform,
  run_calls,
}

view-put :
    {W : Type 0} (s : Store W) (id : String) (e : Entry W) (o : Option Session)
    → object e.session ≡ o
    → Agrees (view (record s { entries = put_entry id e s.entries })) (assign id o (view s))
unfolding view
view-put s id e o h j = ground (arith, h, entry_of-put_entry id j e s.entries)

view-found :
    {W : Type 0} (s : Store W) (id : String) (e : Entry W)
    → entry_of id s.entries ≡ some e
    → view s id ≡ some (object e.session)
unfolding view
view-found s id e h = rw h refl

view-missing :
    {W : Type 0} (s : Store W) (id : String) → entry_of id s.entries ≡ none → view s id ≡ none
unfolding view
view-missing s id h = rw h refl

-- Putting back an entry with the session that it had changes nothing that is seen.
view-put_same :
    {W : Type 0} (s : Store W) (id : String) (e f : Entry W)
    → entry_of id s.entries ≡ some e
    → object f.session ≡ object e.session
    → Agrees (view (record s { entries = put_entry id f s.entries })) (view s)
unfolding view
view-put_same s id e f found same j =
    ground (arith, found, same, entry_of-put_entry id j f s.entries, eq_iff id j)

Result-cases {ℓ} :
    {A : Type ℓ} (r : Result A) → ((a : A) × (r ≡ ok a)) ⊎ ((x : Error) × (r ≡ err x))
Result-cases (ok a) = inl (a, refl)
Result-cases (err x) = inr (x, refl)

pub differs_self : (c : Option Ref) → differs c c ≡ false
unfolding differs
differs_self none = refl
differs_self (some r) = ground arith

module _ {W : Type 0} (clock : W → ℕ × W) where
  get-Gets :
      (id : String) (s : Store W) (w : W)
      → Gets (view s) id (get clock id s w).0 (view (get clock id s w).1)
  unfolding get
  get-Gets id s w = elim (Option-cases (entry_of id s.entries)) [
    | inl missing ↦
        unknown (view-missing s id missing) (rw (missing, get) refl) (λ j. rw (missing, get) refl)
    | inr (e, found) ↦ elim (Result-cases (get_entry clock s.max_burst s.window e w).0) [
      | inl (a, h) ↦ gives (object e.session) a (view-found s id e found) (rw (found, get) h) (λ j.
          rw (found, get)
            (view-put s id _ (some a) (get_entry_holds clock s.max_burst s.window e w a h) j))
      | inr (x, h) ↦ fails (object e.session) x (view-found s id e found) (rw (found, get) h) (λ j.
          rw (found, get)
            (view-put_same s id e _ found
              (ap object (get_entry_fails clock s.max_burst s.window e w x h)) j))
    ]
  ]

  -- The outcome of a refresh from the session `c` that leaves the session `c'`.
  abbrev Outcome : Option Ref → Result (Option Session) → Option Ref → Type 0
  Outcome c r c' =
      ((a : Session) × (r ≡ ok (some a)) × (object c' ≡ some a))
      ⊎ ((x : Error) × (r ≡ err x) × (object c' ≡ object c))
      ⊎ ((x : Error) × (b : Session) × (object c ≡ some b)
          × (r ≡ err x)
          × (object c' ≡ some (dead_copy b)))

  refresh_with-Outcome :
      (c : Option Ref) (r : Result Session) (e : Entry W) (w : W)
      → e.session ≡ c
      → Outcome c (refresh_with clock c r e w).0 (refresh_with clock c r e w).1.session
  unfolding refresh_with
  refresh_with-Outcome c (ok a) e w same = inl (a, refl, refl)
  refresh_with-Outcome none (err x) e w same = inr (inl (x, refl, ap object same))
  refresh_with-Outcome (some b) (err x) e w same = inr (inr (x, b.obj, refl, refl, refl))

  refresh_limited-Outcome :
      (c : Option Ref) (gate : Result (Unit {0}) × Entry W) (w : W)
      → gate.1.session ≡ c
      → Outcome c (refresh_limited clock c gate w).0 (refresh_limited clock c gate w).1.session
  unfolding refresh_limited
  refresh_limited-Outcome c (err x, e) w same = inr (inl (x, refl, ap object same))
  refresh_limited-Outcome c (ok u, e) w same =
      let (r, w') = e.recipe.refresh (object c) w in refresh_with-Outcome c r e w' same

  -- A Refresh that starts from the session that the entry holds does not adopt another.
  refresh_entry-Outcome :
      (e : Entry W) (w : W) (burst window : ℕ)
      → Outcome e.session
          (refresh_entry clock burst window e.session e w).0
          (refresh_entry clock burst window e.session e w).1.session
  unfolding refresh_entry
  refresh_entry-Outcome e w burst window = rw (differs_self e.session) (
      refresh_limited-Outcome e.session (rate_limited burst window (clock w).0 e) (clock w).1
        (rate_limited_keeps burst window (clock w).0 e).0)

  refresh-Refreshes :
      (id : String) (s : Store W) (w : W)
      → Refreshes (view s) id (refresh clock id s w).0 (view (refresh clock id s w).1)
  unfolding refresh
  refresh-Refreshes id s w = elim (Option-cases (entry_of id s.entries)) [
    | inl missing ↦
        unknown (view-missing s id missing) (rw (missing, refresh) refl)
          (λ j. rw (missing, refresh) refl)
    | inr (e, found) ↦ elim (refresh_entry-Outcome e w s.max_burst s.window) [
      | inl (a, h, held) ↦
          renews (object e.session) a (view-found s id e found) (rw (found, refresh) h)
            (λ j. rw (found, refresh) (view-put s id _ (some a) held j))
      | inr (inl (x, h, held)) ↦
          stays (object e.session) x (view-found s id e found) (rw (found, refresh) h)
            (λ j. rw (found, refresh) (view-put_same s id e _ found held j))
      | inr (inr (x, b, old, h, held)) ↦
          expires b x (view-found s id e found ∙ ap some old) (rw (found, refresh) h)
            (λ j. rw (found, refresh) (view-put s id _ (some (dead_copy b)) held j))
    ]
  ]

  -- One round of the loop of RefreshExpiring: nothing, or one refresh.
  refresh_if_due-cases :
      (now within : ℕ) (h : IdentityHealth) (errs : List (String × Error)) (s : Store W) (w : W)
      → (refresh_if_due clock now within h errs s w ≡ (errs, s, w))
        ⊎ (refresh_if_due clock now within h errs s w ≡ (
          note_error h.name (refresh clock h.name s w).0 errs,
          (refresh clock h.name s w).1,
          (refresh clock h.name s w).2,
        ))
  unfolding refresh_if_due
  refresh_if_due-cases now within h errs s w =
      elim (Bool-cases (not h.established || is_zero h.expires_at)) [
        | inl skipped ↦ inl (rw skipped refl)
        | inr known ↦ elim (Bool-cases (ltb h.expires_at (now + within))) [
          | inl due ↦ inr (rw (known, due) refl)
          | inr early ↦ inl (rw (known, early) refl)
        ]
      ]

  -- The errors that the loop adds to those that it starts with.
  abbrev Swept : View → List (String × Error) → List (String × Error) → View → Type 0
  Swept v errs out u = (rest : List (String × Error)) × (out ≡ errs ++ rest) × Sweeps v rest u

  Swept-note_error :
      (id : String) (r : Result (Option Session)) (errs out : List (String × Error)) (v m u : View)
      → Refreshes v id r m
      → Swept m (note_error id r errs) out u
      → Swept v errs out u
  Swept-note_error id (ok o) errs out v m u step (rest, e, sw) = (rest, e, renewed id o step sw)
  Swept-note_error id (err x) errs out v m u step (rest, e, sw) =
      ((id, x) ∷ rest, e ∙ append_assoc errs ((id, x) ∷ []) rest, failed id x step sw)

  -- The rest of the loop after a round with the outcome `p`.
  abbrev Onward :
      ℕ
      → ℕ
      → List IdentityHealth
      → View
      → List (String × Error)
      → List (String × Error) × Store W × W
      → Type 0
  Onward now within hs v errs p =
      Swept v errs (refresh_due clock now within hs p.0 p.1 p.2).0
        (view (refresh_due clock now within hs p.0 p.1 p.2).1)

  refresh_due-Swept :
      (now within : ℕ) (hs : List IdentityHealth) (errs : List (String × Error)) (s : Store W)
      (w : W)
      → Onward now within hs (view s) errs (errs, s, w)
  unfolding refresh_due
  refresh_due-Swept now within [] errs s w = ([], sym (append-nil errs), done (λ j. refl))
  refresh_due-Swept now within (h ∷ hs) errs s w =
      elim (refresh_if_due-cases now within h errs s w) [
        | inl same ↦
            subst (Onward now within hs (view s) errs) (sym same)
              (refresh_due-Swept now within hs errs s w)
        | inr step ↦ subst (Onward now within hs (view s) errs) (sym step) (
            Swept-note_error h.name (refresh clock h.name s w).0 errs _ (view s)
              (view (refresh clock h.name s w).1) _ (refresh-Refreshes h.name s w)
              (refresh_due-Swept now within hs _ (refresh clock h.name s w).1
                (refresh clock h.name s w).2))
      ]

  refresh_expiring-Sweeps :
      (within : ℕ) (s : Store W) (w : W)
      → Sweeps
          (view s)
          (refresh_expiring clock within s w).0
          (view (refresh_expiring clock within s w).1)
  unfolding refresh_expiring
  refresh_expiring-Sweeps within s w =
      let (rest, e, sw) = refresh_due-Swept (clock w).0 within (health s) [] s (clock w).1 in
      rw e sw

  perform-Does :
      (c : Call W) (s : Store W) (w : W)
      → Does (view s) (perform clock c s w).0 (view (perform clock c s w).1)
  perform-Does (registers r) s w =
      unfold register in view-put s r.identity (new_entry r) none (unfold new_entry in refl)
  perform-Does (gets id) s w = get-Gets id s w
  perform-Does (refreshes id) s w = refresh-Refreshes id s w
  perform-Does (sweeps within) s w = refresh_expiring-Sweeps within s w

  run_calls-History :
      (cs : List (Call W)) (s : Store W) (w : W)
      → History (view s) (run_calls clock cs s w).0 (view (run_calls clock cs s w).1)
  unfolding run_calls
  run_calls-History [] s w = λ j. refl
  run_calls-History (c ∷ cs) s w =
      let (ev, s1, w1) = perform clock c s w in
      (view s1, perform-Does c s w, run_calls-History cs s1 w1)

  -- The store refines its contract: whatever calls of Register, Get, Refresh and RefreshExpiring
  -- are made on a new store, in whatever order, with whatever recipes and clock, what the callers
  -- see is a history that the contract allows, from the empty map to what the store then holds.
  pub store_refines :
      (burst window : ℕ) (cs : List (Call W)) (w : W)
      → History
          (λ id. none)
          (run_calls clock cs (new burst window) w).0
          (view (run_calls clock cs (new burst window) w).1)
  unfolding new view entry_of
  store_refines burst window cs w = run_calls-History cs (new burst window) w
