-- ===== src/Effect/Task.antt =====
-- Code that others may interrupt between two of its actions on a state they share: a goroutine, cut
-- at its actions. Run without interruption it is an action itself.
use claviger.Prelude.{◌≡◌, refl, ap, ◌∙◌, Result, ok, err}
use claviger.Effect.{Eff, and_then, ◌>>=◌}

pub data Task (S A : Type 0) : Type 1 where
  -- it has ended
  done : A → Task S A
  -- its next action, and the rest
  act : {B : Type 0} → (S → B × S) → (B → Task S A) → Task S A

module _ {S : Type 0} where
  -- The one task after the other.
  unfoldable pub after : {A B : Type 0} → Task S A → (A → Task S B) → Task S B
  after (done a) k = k a
  after (act m rest) k = act m (λ b. after (rest b) k)

  abbrev pub once : {A : Type 0} → (S → A × S) → Task S A
  once m = act m done

  abbrev pub if_ok : {A B : Type 0} → (A → Task S (Result B)) → Result A → Task S (Result B)
  if_ok k (ok a) = k a
  if_ok k (err x) = done (err x)

  -- The one task, and if it did not fail the other.
  abbrev pub then_task :
      {A B : Type 0} → Task S (Result A) → (A → Task S (Result B)) → Task S (Result B)
  then_task t k = after t (if_ok k)

  -- The task without interruption.
  unfoldable pub run : {A : Type 0} → Task S A → S → A × S
  run (done a) s = (a, s)
  run (act m rest) s = let (b, s') = m s in run (rest b) s'

  pub run-after :
      {A B : Type 0} (t : Task S A) (k : A → Task S B) (s : S)
      → run (after t k) s ≡ run (k (run t s).0) (run t s).1
  unfolding run after
  run-after (done a) k s = refl
  run-after (act m rest) k s = run-after (rest (m s).0) k (m s).1

  -- The task does what the action does.
  abbrev pub Agrees : {A : Type 0} → Task S A → (S → A × S) → Type 0
  Agrees t m = (s : S) → run t s ≡ m s

  pub once-Agrees : {A : Type 0} (m : S → A × S) → Agrees (once m) m
  unfolding run
  once-Agrees m s = refl

  if_ok-Agrees :
      {A B : Type 0} (k : A → Task S (Result B)) (f : A → Eff S B) (r : Result A) (s : S)
      → ((a : A) → Agrees (k a) (f a))
      → run (if_ok k r) s ≡ and_then r f s
  unfolding run
  if_ok-Agrees k f (ok a) s h = h a s
  if_ok-Agrees k f (err x) s h = refl

  pub then_task-Agrees :
      {A B : Type 0} (t : Task S (Result A)) (k : A → Task S (Result B)) (m : Eff S A)
      (f : A → Eff S B)
      → Agrees t m
      → ((a : A) → Agrees (k a) (f a))
      → Agrees (then_task t k) (m >>= f)
  then_task-Agrees t k m f h hs s =
      run-after t (if_ok k) s
      ∙ ap (λ p. run (if_ok k p.0) p.1) (h s)
      ∙ if_ok-Agrees k f (m s).0 (m s).1 hs
