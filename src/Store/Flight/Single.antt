-- ===== src/Store/Flight/Single.antt =====
-- Each session is renewed at most once, however the threads interleave.
use claviger.Prelude.{
  ℕ, ◌≡◌, ◌≢◌, ◌<◌, refl, true, false, List, [], ◌∷◌, Option, none, some, Result, ok, err, arith,
  eqb, All, suc, eqb→eq, any, subst, sym, ◌∙◌, false≢true, Bool-cases, inl, inr,
}
use claviger.Session.{Session}
use claviger.Recipe.{Recipe}
use claviger.Store.Entry.{Ref, Entry, unix_one, rate_limited, admit, differs, finish}
use claviger.Store.Flight.{
  Flight, Lock, free, refresher, getter, Step, snap, adopts, refused, logs_in, finishes,
  get_refused, get_logs_in, get_finishes, again, Reach, here, next, start, get_gate, get_finish,
  note,
}

-- No two elements are equal.
abbrev pub Distinct : List ℕ → Type 0
Distinct [] = Unit {0}
Distinct (a ∷ l) = All (λ b. b ≢ a) l × Distinct l

-- The session is none of those in the list.
abbrev pub IsUnused : Option Ref → List ℕ → Type 0
IsUnused none l = Unit {0}
IsUnused (some r) l = All (λ a. a ≢ r.addr) l

abbrev IsAllocated : Option Ref → ℕ → Type 0
IsAllocated none n = Unit {0}
IsAllocated (some r) n = r.addr < n

-- While a Refresh is in its critical section, the session is the one that it renews; at any other
-- time no Refresh has renewed the session.
abbrev Guarded : Lock → Option Ref → List ℕ → Type 0
Guarded free c l = IsUnused c l
Guarded (getter t) c l = IsUnused c l
Guarded (refresher t b) c l = differs c b ≡ false

-- The invariant, over the fields of a state that it reads.
abbrev Fields : Option Ref → ℕ → Lock → List ℕ → Type 0
Fields c n k l = All (λ a. a < n) l × IsAllocated c n × Distinct l × Guarded k c l

abbrev Inv : {W : Type 0} → Flight W → Type 0
Inv s = Fields s.entry.session s.entry.allocs s.lock s.renewed

ne_of_below : (n : ℕ) (l : List ℕ) → All (λ a. a < n) l → All (λ a. a ≢ n) l
ne_of_below n [] h = tt
ne_of_below n (a ∷ l) h = ((λ e. omega (arith, e, h.0)), ne_of_below n l h.1)

below-suc : (n : ℕ) (l : List ℕ) → All (λ a. a < n) l → All (λ a. a < suc n) l
below-suc n [] h = tt
below-suc n (a ∷ l) h = (omega arith, below-suc n l h.1)

pub rate_limited_keeps :
    {W : Type 0} (burst window now : ℕ) (e : Entry W)
    → ((rate_limited burst window now e).1.session ≡ e.session)
      × ((rate_limited burst window now e).1.allocs ≡ e.allocs)
unfolding rate_limited admit
rate_limited_keeps burst window now e = ground arith

get_gate_keeps :
    {W : Type 0} (burst window now : ℕ) (e : Entry W)
    → ((get_gate burst window now e).1.session ≡ e.session)
      × ((get_gate burst window now e).1.allocs ≡ e.allocs)
unfolding get_gate admit
get_gate_keeps burst window now e = ground arith

-- A thread that goes on to the recipe adds its session to the list, where it is not yet.
logs_in-Fields :
    (c b : Option Ref) (n t : ℕ) (l : List ℕ)
    → differs c b ≡ false
    → Fields c n free l
    → Fields c n (refresher t b) (note b l)
unfolding differs
logs_in-Fields none none n t l d (p, q, r, g) = (p, q, r, refl)
logs_in-Fields none (some b) n t l d h = cc
logs_in-Fields (some c) none n t l d h = cc
logs_in-Fields (some c) (some b) n t l d (p, q, r, g) =
    let same : c.addr ≡ b.addr = ground arith in ((rw (← same) q, p), q, (rw (← same) g, r), d)

IsUnused-nil : (c : Option Ref) (l : List ℕ) → differs c none ≡ false → IsUnused c l
unfolding differs
IsUnused-nil none l d = tt
IsUnused-nil (some c) l d = cc

-- A session at a fresh address satisfies the invariant with the lock free.
fresh-Fields :
    (s : Session) (n : ℕ) (l : List ℕ)
    → All (λ a. a < n) l
    → Distinct l
    → Fields (some (record { addr = n; obj = s })) (suc n) free l
fresh-Fields s n l p r = (below-suc n l p, omega arith, r, ne_of_below n l p)

finish-Fields :
    {W : Type 0} (b : Option Ref) (r : Result Session) (now t : ℕ) (e : Entry W) (l : List ℕ)
    → Fields e.session e.allocs (refresher t b) l
    → Fields (finish b r now e).session (finish b r now e).allocs free l
unfolding finish
finish-Fields b (ok s) now t e l (p, q, d, g) = fresh-Fields s e.allocs l p d
finish-Fields none (err x) now t e l (p, q, d, g) = (p, q, d, IsUnused-nil e.session l g)
finish-Fields (some b) (err x) now t e l (p, q, d, g) =
    fresh-Fields (record b.obj { expires_at = unix_one }) e.allocs l p d

get_finish-Fields :
    {W : Type 0} (r : Result Session) (now t : ℕ) (e : Entry W) (l : List ℕ)
    → Fields e.session e.allocs (getter t) l
    → Fields (get_finish r now e).session (get_finish r now e).allocs free l
unfolding get_finish
get_finish-Fields (ok s) now t e l (p, q, d, g) = fresh-Fields s e.allocs l p d
get_finish-Fields (err x) now t e l h = h

unused_ne : (q b : ℕ) (l : List ℕ) → All (λ a. a ≢ q) l → any (λ a. eqb a b) l ≡ true → q ≢ b
unused_ne q b [] h was = absurd (false≢true was)
unused_ne q b (a ∷ l) h was = elim (Bool-cases (eqb a b)) [
  | inl hit ↦ λ e. h.0 (eqb→eq a b hit ∙ sym e)
  | inr miss ↦ unused_ne q b l h.1 (rw miss at was)
]

unused_differs :
    (c : Option Ref) (b : Ref) (l : List ℕ)
    → IsUnused c l
    → any (λ a. eqb a b.addr) l ≡ true
    → differs c (some b) ≡ true
unfolding differs
unused_differs none b l h was = refl
unused_differs (some c) b l h was =
    let apart : c.addr ≢ b.addr = unused_ne c.addr b.addr l h was in ground arith

module _ {W : Type 0} (burst window : ℕ) where
  Step-Inv : {s u : Flight W} → Step burst window s u → Inv s → Inv u
  Step-Inv {s} {u} (snap t p e) i = subst Inv (sym e) i
  Step-Inv {s} {u} (adopts t b p k d e) i = subst Inv (sym e) i
  Step-Inv {s} {u} (refused t now b x p k d r e) i =
      let (c, n) = rate_limited_keeps burst window now s.entry in subst Inv (sym e) (rw (c, n) i)
  Step-Inv {s} {u} (logs_in t now b p k d r e) i =
      let (c, n) = rate_limited_keeps burst window now s.entry in
      subst Inv (sym e)
        (rw (c, n) (logs_in-Fields s.entry.session b s.entry.allocs t s.renewed d (rw k at i)))
  Step-Inv {s} {u} (finishes t now b r k e) i =
      subst Inv (sym e) (finish-Fields b r now t s.entry s.renewed (rw k at i))
  Step-Inv {s} {u} (get_refused t now x p k f r e) i =
      let (c, n) = get_gate_keeps burst window now s.entry in subst Inv (sym e) (rw (c, n) i)
  Step-Inv {s} {u} (get_logs_in t now p k f r e) i =
      let (c, n) = get_gate_keeps burst window now s.entry in
      subst Inv (sym e) (rw (c, n) (rw k at i))
  Step-Inv {s} {u} (get_finishes t now r k e) i =
      subst Inv (sym e) (get_finish-Fields r now t s.entry s.renewed (rw k at i))
  Step-Inv {s} {u} (again t p e) i = subst Inv (sym e) i

  Reach-Inv : {s u : Flight W} → Inv s → Reach burst window s u → Inv u
  Reach-Inv i here = i
  Reach-Inv i (next r st) = Step-Inv st (Reach-Inv i r)

  start-Inv : (r : Recipe W) → Inv (start r)
  unfolding start
  start-Inv r = (tt, tt, tt, tt)

  -- However calls of Refresh and Get interleave, from the registration on, no session is renewed
  -- by the recipe in two calls of Refresh.
  pub renewed-Distinct :
      (r : Recipe W) (s : Flight W) → Reach burst window (start r) s → Distinct s.renewed
  renewed-Distinct r s reach = (Reach-Inv (start-Inv r) reach).2

  -- Once a Refresh has renewed a session and the lock is free again, the pointers differ: a caller
  -- that still waits with that session adopts what has replaced it, and cannot log in again.
  pub renewed_differs :
      (r : Recipe W) (s : Flight W) (before : Ref)
      → Reach burst window (start r) s
      → s.lock ≡ free
      → any (λ a. eqb a before.addr) s.renewed ≡ true
      → differs s.entry.session (some before) ≡ true
  renewed_differs r s before reach unlocked was =
      unused_differs s.entry.session before s.renewed
        (rw unlocked at (Reach-Inv (start-Inv r) reach)).3 was
