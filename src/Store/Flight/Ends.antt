-- ===== src/Store/Flight/Ends.antt =====
-- The calls of internal/store/store.go on one entry come to an end: a call of Refresh that waits
-- for the lock, and the steps that a call takes.
use claviger.Prelude.{
  ℕ, ◌+◌, ◌≡◌, refl, Option, Error, Result, ok, err, arith, eqb, Bool-cases, inl, inr, ◌⊎◌,
  if◌then◌else◌,
}
use claviger.Session.{Session}
use claviger.Recipe.{Recipe}
use claviger.Store.Entry.{Ref, rate_limited, differs}
use claviger.Store.Flight.{
  Phase, idle, inside, returned, waiting, Flight, Lock, free, refresher, getter, update, Step, snap,
  adopts, refused, logs_in, finishes, get_refused, get_logs_in, get_finishes, again, Reach, here,
  next, start,
}
use claviger.Store.Flight.Progress.{Owns, Inv, out_of, Reach-Inv, start-Inv}

gate-cases : (g : Result (Unit {0})) → (g ≡ ok tt) ⊎ ((x : Error) × (g ≡ err x))
gate-cases (ok u) = inl refl
gate-cases (err x) = inr (x, refl)

update-same : (t : ℕ) (p : Phase) (phase : ℕ → Phase) → update t p phase t ≡ p
update-same t p phase = ground arith

-- How many steps of its call the thread can still take.
abbrev pub rank : Phase → ℕ
rank idle = 3
rank (waiting b) = 2
rank inside = 1
rank returned = 0

module _ {W : Type 0} (burst window : ℕ) where
  -- The step reads this time, if it reads one, and gets this answer of a login, if it ends one.
  abbrev pub Sees : ℕ → Result Session → {s u : Flight W} → Step burst window s u → Type 0
  Sees now answer (snap t p e) = Unit
  Sees now answer (adopts t b p k d e) = Unit
  Sees now answer (refused t at b x p k d r e) = at ≡ now
  Sees now answer (logs_in t at b p k d r e) = at ≡ now
  Sees now answer (finishes t at b r k e) = (at ≡ now) × (r ≡ answer)
  Sees now answer (get_refused t at x p k f r e) = at ≡ now
  Sees now answer (get_logs_in t at p k f r e) = at ≡ now
  Sees now answer (get_finishes t at r k e) = (at ≡ now) × (r ≡ answer)
  Sees now answer (again t p e) = Unit

  -- All steps of the run do.
  abbrev pub AllSee : ℕ → Result Session → {s u : Flight W} → Reach burst window s u → Type 0
  AllSee now answer here = Unit
  AllSee now answer (next r st) = AllSee now answer r × Sees now answer st

  -- 1 if the step is one of the thread.
  abbrev pub step_of : ℕ → {s u : Flight W} → Step burst window s u → ℕ
  step_of v (snap t p e) = if eqb t v then 1 else 0
  step_of v (adopts t b p k d e) = if eqb t v then 1 else 0
  step_of v (refused t at b x p k d r e) = if eqb t v then 1 else 0
  step_of v (logs_in t at b p k d r e) = if eqb t v then 1 else 0
  step_of v (finishes t at b r k e) = if eqb t v then 1 else 0
  step_of v (get_refused t at x p k f r e) = if eqb t v then 1 else 0
  step_of v (get_logs_in t at p k f r e) = if eqb t v then 1 else 0
  step_of v (get_finishes t at r k e) = if eqb t v then 1 else 0
  step_of v (again t p e) = if eqb t v then 1 else 0

  -- 1 if the thread starts its next call in the step.
  abbrev pub call_of : ℕ → {s u : Flight W} → Step burst window s u → ℕ
  call_of v (snap t p e) = 0
  call_of v (adopts t b p k d e) = 0
  call_of v (refused t at b x p k d r e) = 0
  call_of v (logs_in t at b p k d r e) = 0
  call_of v (finishes t at b r k e) = 0
  call_of v (get_refused t at x p k f r e) = 0
  call_of v (get_logs_in t at p k f r e) = 0
  call_of v (get_finishes t at r k e) = 0
  call_of v (again t p e) = if eqb t v then 1 else 0

  abbrev pub steps_of : ℕ → {s u : Flight W} → Reach burst window s u → ℕ
  steps_of v here = 0
  steps_of v (next r st) = steps_of v r + step_of v st

  abbrev pub calls_of : ℕ → {s u : Flight W} → Reach burst window s u → ℕ
  calls_of v here = 0
  calls_of v (next r st) = calls_of v r + call_of v st

  -- A run from `s` to a state in which the thread has come back, which sees these times and answers
  -- alone, and in which the thread starts no further call.
  abbrev pub Returns : ℕ → ℕ → Result Session → Flight W → Type 0
  Returns t now answer s =
      (u : Flight W) × (run : Reach burst window s u) × AllSee now answer run
      × (calls_of t run ≡ 0)
      × (u.phase t ≡ returned)

  module _ (t now : ℕ) (answer : Result Session) where
    -- The step and the run after it.
    Reach-after :
        {s m u : Flight W} (st : Step burst window s m) (run : Reach burst window m u)
        → Sees now answer st
        → call_of t st ≡ 0
        → AllSee now answer run
        → calls_of t run ≡ 0
        → (all : Reach burst window s u) × AllSee now answer all × (calls_of t all ≡ 0)
    Reach-after st here sees quiet all none = (next here st, (tt, sees), omega (arith, quiet))
    Reach-after st (next r last) sees quiet (before, at_last) none =
        let (all, see, still) = Reach-after st r sees quiet before (omega (arith, none)) in
        (next all last, (see, at_last), omega (arith, none, still))

    after :
        {s m : Flight W} (st : Step burst window s m)
        → Sees now answer st
        → call_of t st ≡ 0
        → Returns t now answer m
        → Returns t now answer s
    after st sees quiet (u, run, see, still, e) =
        let (all, see', still') = Reach-after st run sees quiet see still in
        (u, all, see', still', e)

    module _ (before : Option Ref) where
      -- With the lock free, the thread adopts, or is refused, or logs in and leaves.
      Returns-free :
          (s : Flight W) → s.phase t ≡ waiting before → s.lock ≡ free → Returns t now answer s
      Returns-free s p k = elim (Bool-cases (differs s.entry.session before)) [
        | inl moved ↦ (
          _,
          next here (adopts t before p k moved refl),
          (tt, tt),
          refl,
          update-same t returned s.phase,
        )
        | inr same ↦ elim (gate-cases (rate_limited burst window now s.entry).0) [
          | inl passed ↦ (
            _,
            next (next here (logs_in t now before p k same passed refl))
                (finishes t now before answer refl refl),
            ((tt, refl), (refl, refl)),
            refl,
            update-same t returned (update t inside s.phase),
          )
          | inr (x, limited) ↦ (
            _,
            next here (refused t now before x p k same limited refl),
            (tt, refl),
            refl,
            update-same t returned s.phase,
          )
        ]
      ]

      module _ (s : Flight W) (p : s.phase t ≡ waiting before) (i : Inv s) where
        -- The waiting thread is not the one that holds the lock.
        apart : (o : ℕ) → Owns o s.phase → update o returned s.phase t ≡ waiting before
        apart o own = ground (arith, p, own.0, out_of (s.phase t) (waiting before) p refl)

        Returns-from : (l : Lock) → s.lock ≡ l → Returns t now answer s
        Returns-from free k = Returns-free s p k
        Returns-from (refresher o b) k =
            let left = apart o (rw k at i) in
            after (finishes o now b answer k refl) (refl, refl) refl (Returns-free _ left refl)
        Returns-from (getter o) k =
            let left = apart o (rw k at i) in
            after (get_finishes o now answer k refl) (refl, refl) refl (Returns-free _ left refl)

  -- No caller of Refresh waits in vain: in every reachable state in which a call waits for the lock,
  -- for every time and every answer of a login, a failure too, there is a run in which the clock
  -- shows that time at each reading and each login ends with that answer, and at the end of which
  -- the waiting call has returned, its thread having started no other.
  pub waiting-Returns :
      (r : Recipe W) (s : Flight W) (t now : ℕ) (answer : Result Session) (before : Option Ref)
      → Reach burst window (start r) s
      → s.phase t ≡ waiting before
      → Returns t now answer s
  waiting-Returns r s t now answer before reach p =
      Returns-from t now answer before s p (Reach-Inv burst window (start-Inv burst window r) reach)
        s.lock refl
