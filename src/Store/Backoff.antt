-- ===== src/Store/Backoff.antt =====
-- entry.rateLimited and pruneOlderThan of internal/store/store.go over a whole history of refresh
-- attempts: the sliding window never holds more than the ceiling.
use claviger.Prelude.{
  ℕ, ◌+◌, ◌≤◌, ◌<◌, ◌≡◌, refl, List, [], ◌∷◌, ◌++◌, Bool, true, false, ◌&&◌, Result, ok, err, arith,
  ltb, leb, length, count, length-append, count-append, All, All-append, ltb→lt, ltb→le,
  refresh_rate_limit, Bool-cases, inl, inr, if◌then◌else◌,
}
use claviger.Recipe.{Recipe}
use claviger.Store.Entry.{Entry, new_entry, prune_older_than, rate_limited, admit}

-- The times of a history do not fall, and none is before `m`.
abbrev pub Rising : ℕ → List ℕ → Type 0
Rising m [] = Unit {0}
Rising m (t ∷ ts) = (m ≤ t) × Rising t ts

-- The attempt `a` lies in the window of length `window` that ends at `t`.
abbrev pub in_window : ℕ → ℕ → ℕ → Bool
in_window window t a = leb a t && ltb t (a + window)

abbrev note_attempt {ℓ} : {A : Type ℓ} → ℕ → Result A → List ℕ → List ℕ
note_attempt t (ok _) as' = t ∷ as'
note_attempt t (err _) as' = as'

-- The attempts that the limiter lets through when it is asked at the given times.
unfoldable pub attempts : {W : Type 0} → ℕ → ℕ → List ℕ → Entry W → List ℕ
unfolding rate_limited
attempts burst window [] e = []
attempts burst window (t ∷ ts) e =
    let (r, e') = rate_limited burst window t e in note_attempt t r (attempts burst window ts e')

count-le-length {ℓ} : {A : Type ℓ} (p : A → Bool) (xs : List A) → count p xs ≤ length xs
count-le-length p [] = omega arith
count-le-length p (x ∷ xs) = ground (arith, count-le-length p xs)

length-prune : (ts : List ℕ) (now w : ℕ) → length (prune_older_than ts now w) ≤ length ts
unfolding prune_older_than
length-prune [] now w = omega arith
length-prune (t ∷ ts) now w = ground (arith, length-prune ts now w)

prune-All :
    (ts : List ℕ) (m now w : ℕ) → All (λ t. t ≤ m) ts → All (λ t. t ≤ m) (prune_older_than ts now w)
unfolding prune_older_than
prune-All [] m now w h = tt
prune-All (t ∷ ts) m now w h = ground (arith, prune-All ts m now w h.1)

-- What is pruned at `a` lies in no window that ends at or after `a`.
count-prune :
    (ts : List ℕ) (a t w : ℕ)
    → a ≤ t
    → count (in_window w t) (prune_older_than ts a w) ≡ count (in_window w t) ts
unfolding prune_older_than
count-prune [] a t w h = refl
count-prune (x ∷ ts) a t w h = ground (arith, count-prune ts a t w h)

-- Attempts after `t` lie in no window that ends at `t`.
count-attempts_after :
    {W : Type 0} (burst w t m : ℕ) (ts : List ℕ) (e : Entry W)
    → Rising m ts
    → t < m
    → count (in_window w t) (attempts burst w ts e) ≡ 0
unfolding attempts admit
count-attempts_after burst w t m [] e h lt = refl
count-attempts_after burst w t m (x ∷ ts) e h lt =
    ground (arith, count-attempts_after burst w t x ts (rate_limited burst w x e).1 h.1)

All-le_mono : (ts : List ℕ) (m n : ℕ) → m ≤ n → All (λ t. t ≤ m) ts → All (λ t. t ≤ n) ts
All-le_mono [] m n h a = tt
All-le_mono (t ∷ ts) m n h a = (omega arith, All-le_mono ts m n h a.1)

-- The bound on the stamps and the attempts to come, which the induction carries along.
abbrev Within : {W : Type 0} → ℕ → ℕ → ℕ → List ℕ → Entry W → Type 0
Within burst w t ts e =
    count (in_window w t) e.stamps + count (in_window w t) (attempts burst w ts e) ≤ burst

module _ {W : Type 0} (burst w t x : ℕ) (ts : List ℕ) (e : Entry W) where
  abbrev kept : List ℕ
  kept = prune_older_than e.stamps x w

  step_late : Rising x ts → t < x → length e.stamps ≤ burst → Within burst w t (x ∷ ts) e
  step_late rising late short = omega (
    arith,
    count-attempts_after burst w t x (x ∷ ts) e (omega arith, rising) late,
    count-le-length (in_window w t) e.stamps,
  )

  step_limited :
      x ≤ t
      → leb burst (length kept) ≡ true
      → Within burst w t ts (record e { stamps = kept })
      → Within burst w t (x ∷ ts) e
  unfolding attempts admit
  step_limited early full ih = rw full (omega (arith, ih, count-prune e.stamps x t w early))

  step_admitted :
      x ≤ t
      → leb burst (length kept) ≡ false
      → Within burst w t ts (record e { stamps = kept ++ x ∷ [] })
      → Within burst w t (x ∷ ts) e
  unfolding attempts admit
  step_admitted early room ih = rw room (
      omega
        (arith, ih, count-prune e.stamps x t w early, count-append (in_window w t) kept (x ∷ [])))

window_holds :
    {W : Type 0} (burst w t m : ℕ) (ts : List ℕ) (e : Entry W)
    → Rising m ts
    → All (λ s. s ≤ m) e.stamps
    → length e.stamps ≤ burst
    → Within burst w t ts e
window_holds burst w t m [] e rising past short =
    unfold attempts in omega (arith, count-le-length (in_window w t) e.stamps)
window_holds burst w t m (x ∷ ts) e rising past short = elim (Bool-cases (ltb t x)) [
  | inl late ↦ step_late burst w t x ts e rising.1 (omega (arith, ltb→lt t x late)) short
  | inr early ↦ elim (Bool-cases (leb burst (length (kept burst w t x ts e)))) [
    | inl full ↦ step_limited burst w t x ts e (ltb→le t x early) full (
        window_holds burst w t x ts (record e { stamps = kept burst w t x ts e }) rising.1
          (prune-All e.stamps x x w (All-le_mono e.stamps m x rising.0 past))
          (omega (arith, length-prune e.stamps x w)))
    | inr room ↦ step_admitted burst w t x ts e (ltb→le t x early) room (
        window_holds burst w t x ts (record e { stamps = kept burst w t x ts e ++ x ∷ [] }) rising.1
          (All-append (λ s. s ≤ x) (kept burst w t x ts e) (x ∷ [])
            (prune-All e.stamps x x w (All-le_mono e.stamps m x rising.0 past)) (omega arith, tt))
          (ground (arith, length-append (kept burst w t x ts e) (x ∷ []))))
  ]
]

-- In every window of the configured length, whatever its end, the limiter of a new entry lets at
-- most `burst` refresh attempts through, when the times at which it is asked do not fall.
pub attempts_per_window :
    {W : Type 0} (burst window t : ℕ) (ts : List ℕ) (r : Recipe W)
    → Rising 0 ts
    → count (in_window window t) (attempts burst window ts (new_entry r)) ≤ burst
unfolding new_entry
attempts_per_window burst window t ts r rising =
    omega (arith, window_holds burst window t 0 ts (new_entry r) rising tt (omega arith))

length-prune-eq-count :
    (ts : List ℕ) (now w : ℕ)
    → All (λ t. t ≤ now) ts
    → length (prune_older_than ts now w) ≡ count (in_window w now) ts
unfolding prune_older_than
length-prune-eq-count [] now w h = refl
length-prune-eq-count (t ∷ ts) now w h = ground (arith, length-prune-eq-count ts now w h.1)

-- The limiter refuses exactly when the stamps in the window that ends now have reached the
-- ceiling, for stamps that are not in the future.
pub rate_limited_exact :
    {W : Type 0} (burst window now : ℕ) (e : Entry W)
    → All (λ s. s ≤ now) e.stamps
    → (rate_limited burst window now e).0 ≡ (
        if leb burst (count (in_window window now) e.stamps)
        then err (refresh_rate_limit e.recipe.identity burst window)
        else ok tt)
unfolding rate_limited
rate_limited_exact burst window now e past =
    rw (← length-prune-eq-count e.stamps now window past) (unfold admit in ground arith)
