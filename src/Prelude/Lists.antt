-- ===== src/Prelude/Lists.antt =====
-- Lists measured by native numbers, and predicates on their elements by recursion.
use Prim.Native.Nat.{ℕ, suc, ◌+◌}
use mathlib.Core.Path.{◌≡◌, refl}
use mathlib.Core.Bool.{Bool, true, false, false≢true, ◌&&◌, ◌||◌}
use mathlib.Core.List.{List, [], ◌∷◌, ◌++◌}
use mathlib.Core.Logic.{◌⊎◌, inl, inr}
use native.Mathlib.Omega.{arith}
use claviger.Prelude.Tests.{if◌then◌else◌}

module _ {ℓ} {A : Type ℓ} where
  abbrev pub length : List A → ℕ
  length [] = 0
  length (x ∷ xs) = suc (length xs)

  abbrev pub all : (A → Bool) → List A → Bool
  all p [] = true
  all p (x ∷ xs) = p x && all p xs

  abbrev pub any : (A → Bool) → List A → Bool
  any p [] = false
  any p (x ∷ xs) = p x || any p xs

  -- How many elements pass the test.
  abbrev pub count : (A → Bool) → List A → ℕ
  count p [] = 0
  count p (x ∷ xs) = (if p x then 1 else 0) + count p xs

  pub length-append : (xs ys : List A) → length (xs ++ ys) ≡ length xs + length ys
  length-append [] ys = omega arith
  length-append (x ∷ xs) ys = omega (arith, length-append xs ys)

  pub count-append : (p : A → Bool) (xs ys : List A) → count p (xs ++ ys) ≡ count p xs + count p ys
  count-append p [] ys = omega arith
  count-append p (x ∷ xs) ys = omega (arith, count-append p xs ys)

-- Every element satisfies `P`.
abbrev pub All {ℓ κ} : {A : Type ℓ} → (A → Type κ) → List A → Type κ
All P [] = Unit
All P (x ∷ xs) = P x × All P xs

pub All-append {ℓ κ} :
    {A : Type ℓ} (P : A → Type κ) (xs ys : List A) → All P xs → All P ys → All P (xs ++ ys)
All-append P [] ys hx hy = hy
All-append P (x ∷ xs) ys hx hy = (hx.0, All-append P xs ys hx.1 hy)

-- Some element satisfies `P`.
abbrev pub Some {ℓ} : {A : Type ℓ} → (A → Type 0) → List A → Type 0
Some P [] = ⊥
Some P (x ∷ xs) = P x ⊎ Some P xs

module _ {ℓ} {A : Type ℓ} (P : A → Type 0) where
  pub Some-left : (xs ys : List A) → Some P xs → Some P (xs ++ ys)
  Some-left [] ys h = absurd h
  Some-left (x ∷ xs) ys (inl h) = inl h
  Some-left (x ∷ xs) ys (inr h) = inr (Some-left xs ys h)

  pub Some-right : (xs ys : List A) → Some P ys → Some P (xs ++ ys)
  Some-right [] ys h = h
  Some-right (x ∷ xs) ys h = inr (Some-right xs ys h)

  pub Some-append : (xs ys : List A) → Some P (xs ++ ys) → Some P xs ⊎ Some P ys
  Some-append [] ys h = inr h
  Some-append (x ∷ xs) ys (inl h) = inl (inl h)
  Some-append (x ∷ xs) ys (inr h) = elim (Some-append xs ys h) [
    | inl first ↦ inl (inr first)
    | inr later ↦ inr later
  ]

  -- An element that is there only if the test holds.
  pub Some-if :
      (b : Bool) (x : A) (xs : List A)
      → Some P (if b then x ∷ xs else xs)
      → ((b ≡ true) × P x) ⊎ Some P xs
  Some-if true x xs (inl h) = inl (refl, h)
  Some-if true x xs (inr h) = inr h
  Some-if false x xs h = inr h

  pub if-Some :
      (b : Bool) (x : A) (xs : List A)
      → ((b ≡ true) × P x) ⊎ Some P xs
      → Some P (if b then x ∷ xs else xs)
  if-Some true x xs (inl (on, h)) = inl h
  if-Some true x xs (inr h) = inr h
  if-Some false x xs (inl (on, h)) = absurd (false≢true on)
  if-Some false x xs (inr h) = h

pub Some-map {ℓ} :
    {A : Type ℓ} (P Q : A → Type 0) (xs : List A) → ((x : A) → P x → Q x) → Some P xs → Some Q xs
Some-map P Q [] f h = h
Some-map P Q (x ∷ xs) f (inl h) = inl (f x h)
Some-map P Q (x ∷ xs) f (inr h) = inr (Some-map P Q xs f h)
