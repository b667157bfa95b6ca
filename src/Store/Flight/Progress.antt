-- ===== src/Store/Flight/Progress.antt =====
-- The lock of one entry of internal/store/store.go: one thread at a time is in the critical
-- section.
use claviger.Prelude.{ℕ, ◌≡◌, refl, sym, subst, ◌∙◌, ap, Bool, true, false, arith, false≢true}
use claviger.Recipe.{Recipe}
use claviger.Store.Flight.{
  Phase, idle, inside, returned, waiting, Flight, Lock, free, refresher, getter, update, Step, snap,
  adopts, refused, logs_in, finishes, get_refused, get_logs_in, get_finishes, again, Reach, here,
  next, start,
}

abbrev pub is_inside : Phase → Bool
is_inside inside = true
is_inside idle = false
is_inside returned = false
is_inside (waiting b) = false

-- The thread that holds the lock is inside, and no other is.
abbrev pub Owns : ℕ → (ℕ → Phase) → Type 0
Owns t phase = (is_inside (phase t) ≡ true) × ((u : ℕ) → is_inside (phase u) ≡ true → u ≡ t)

abbrev pub Held : Lock → (ℕ → Phase) → Type 0
Held free phase = (u : ℕ) → is_inside (phase u) ≡ false
Held (refresher t b) phase = Owns t phase
Held (getter t) phase = Owns t phase

Owns-update :
    (t o : ℕ) (p : Phase) (phase : ℕ → Phase)
    → is_inside (phase t) ≡ false
    → is_inside p ≡ false
    → Owns o phase
    → Owns o (update t p phase)
Owns-update t o p phase out stay (own, only) = (ground arith, (λ u h. ground (arith, only u, h)))

-- A thread that is outside, and stays outside, does not touch the lock.
Held-update :
    (t : ℕ) (p : Phase) (l : Lock) (phase : ℕ → Phase)
    → is_inside (phase t) ≡ false
    → is_inside p ≡ false
    → Held l phase
    → Held l (update t p phase)
Held-update t p free phase out stay h = λ u. ground (arith, h u)
Held-update t p (refresher o b) phase out stay h = Owns-update t o p phase out stay h
Held-update t p (getter o) phase out stay h = Owns-update t o p phase out stay h

Held-enter : (t : ℕ) (phase : ℕ → Phase) → Held free phase → Owns t (update t inside phase)
Held-enter t phase h = (ground arith, (λ u i. ground (arith, h u, i)))

Held-leave : (t : ℕ) (phase : ℕ → Phase) → Owns t phase → Held free (update t returned phase)
Held-leave t phase (own, only) u = ground (arith, only u)

Held-unique :
    (l : Lock) (phase : ℕ → Phase) (t u : ℕ)
    → Held l phase
    → is_inside (phase t) ≡ true
    → is_inside (phase u) ≡ true
    → t ≡ u
Held-unique free phase t u h p q = absurd (false≢true (sym (h t) ∙ p))
Held-unique (refresher o b) phase t u (own, only) p q = only t p ∙ sym (only u q)
Held-unique (getter o) phase t u (own, only) p q = only t p ∙ sym (only u q)

abbrev pub Inv : {W : Type 0} → Flight W → Type 0
Inv s = Held s.lock s.phase

pub out_of : (p q : Phase) → p ≡ q → is_inside q ≡ false → is_inside p ≡ false
out_of p q e h = ap is_inside e ∙ h

module _ {W : Type 0} (burst window : ℕ) where
  pub Step-Inv : {s u : Flight W} → Step burst window s u → Inv s → Inv u
  Step-Inv {s} {u} (snap t p e) i =
      subst Inv (sym e) (Held-update t _ s.lock s.phase (out_of _ _ p refl) refl i)
  Step-Inv {s} {u} (adopts t b p k d e) i =
      subst Inv (sym e) (Held-update t _ s.lock s.phase (out_of _ _ p refl) refl i)
  Step-Inv {s} {u} (refused t now b x p k d r e) i =
      subst Inv (sym e) (Held-update t _ s.lock s.phase (out_of _ _ p refl) refl i)
  Step-Inv {s} {u} (logs_in t now b p k d r e) i =
      subst Inv (sym e) (Held-enter t s.phase (rw k at i))
  Step-Inv {s} {u} (finishes t now b r k e) i = subst Inv (sym e) (Held-leave t s.phase (rw k at i))
  Step-Inv {s} {u} (get_refused t now x p k f r e) i =
      subst Inv (sym e) (Held-update t _ s.lock s.phase (out_of _ _ p refl) refl i)
  Step-Inv {s} {u} (get_logs_in t now p k f r e) i =
      subst Inv (sym e) (Held-enter t s.phase (rw k at i))
  Step-Inv {s} {u} (get_finishes t now r k e) i =
      subst Inv (sym e) (Held-leave t s.phase (rw k at i))
  Step-Inv {s} {u} (again t p e) i =
      subst Inv (sym e) (Held-update t _ s.lock s.phase (out_of _ _ p refl) refl i)

  pub Reach-Inv : {s u : Flight W} → Inv s → Reach burst window s u → Inv u
  Reach-Inv i here = i
  Reach-Inv i (next r st) = Step-Inv st (Reach-Inv i r)

  pub start-Inv : (r : Recipe W) → Inv (start r)
  unfolding start
  start-Inv r = λ u. refl

  -- At most one thread is in the critical section of an entry, however the calls interleave.
  pub inside_unique :
      (r : Recipe W) (s : Flight W) (t u : ℕ)
      → Reach burst window (start r) s
      → s.phase t ≡ inside
      → s.phase u ≡ inside
      → t ≡ u
  inside_unique r s t u reach p q =
      Held-unique s.lock s.phase t u (Reach-Inv (start-Inv r) reach) (ap is_inside p)
        (ap is_inside q)
