-- ===== src/Prelude/Results.antt =====
-- Errors as values. The errors that the program tells apart have a constructor each; an error
-- made by code outside the program is `external` with its text.
use Prim.Native.Nat.{ℕ}
use Prim.Native.String.{String}
use mathlib.Core.Path.{◌≡◌, refl, subst}
use mathlib.Core.List.{List, ◌∷◌}
use claviger.Prelude.Lists.{All}

pub data Error : Type 0 where
  -- store.ErrUnknownIdentity, with the identity
  unknown_identity : String → Error
  -- the burst ceiling: identity, ceiling, window
  refresh_rate_limit : String → ℕ → ℕ → Error
  -- a login endpoint answered with an error status
  bad_status : String → ℕ → Error
  -- a login that yielded neither a cookie nor a token
  no_session_material : String → Error
  no_access_token : String → Error
  -- a configuration error, with the identity it names
  bad_config : String → String → Error
  bad_input : String → Error
  -- a corpus line that is refused, with its number
  bad_line : ℕ → String → Error
  -- an error of one step of a multi-step login, with its number
  at_step : ℕ → Error → Error
  external : String → Error

pub data Result {ℓ} (A : Type ℓ) : Type ℓ where
  ok : A → Result A
  err : Error → Result A

infixl 5 ◌>>=◌
abbrev pub ◌>>=◌ {ℓ κ} : {A : Type ℓ} {B : Type κ} → Result A → (A → Result B) → Result B
ok value >>= next = next value
err failure >>= next = err failure

-- What a result has, if there is one.
abbrev pub OkThen {ℓ κ} : {A : Type ℓ} → (A → Type κ) → Result A → Type κ
OkThen P (ok a) = P a
OkThen P (err x) = Unit

pub OkThen-bind {ℓ κ μ} :
    {A : Type ℓ} {B : Type μ} (P : A → Type κ) (m : Result B) (f : B → Result A)
    → ((b : B) → m ≡ ok b → OkThen P (f b))
    → OkThen P (m >>= f)
OkThen-bind P (err x) f h = tt
OkThen-bind P (ok b) f h = h b refl

-- What a list has, if there is one.
abbrev pub AllOk {ℓ κ} : {A : Type ℓ} → (A → Type κ) → Result (List A) → Type κ
AllOk P (ok xs) = All P xs
AllOk P (err failure) = Unit

pub AllOk-ok {ℓ κ} :
    {A : Type ℓ} (P : A → Type κ) (r : Result (List A)) (xs : List A)
    → r ≡ ok xs
    → AllOk P r
    → All P xs
AllOk-ok P r xs e h = subst (AllOk P) e h

pub AllOk-cons {ℓ κ μ} :
    {A : Type ℓ} {B : Type μ} (P : A → Type κ) (m : Result B) (f : B → A) (rest : Result (List A))
    → ((b : B) → P (f b))
    → AllOk P rest
    → AllOk P (m >>= λ b. rest >>= λ xs. ok (f b ∷ xs))
AllOk-cons P (err x) f rest h k = tt
AllOk-cons P (ok b) f (err x) h k = tt
AllOk-cons P (ok b) f (ok xs) h k = (h b, k)

pub AllOk-bind {ℓ κ μ} :
    {A : Type ℓ} {B : Type μ} (P : A → Type κ) (m : Result B) (f : B → Result (List A))
    → ((b : B) → AllOk P (f b))
    → AllOk P (m >>= f)
AllOk-bind P (err x) f h = tt
AllOk-bind P (ok b) f h = h b

-- A bind that gives a value was given one.
pub bind-ok {ℓ κ} :
    {A : Type ℓ} {B : Type κ} (m : Result A) (f : A → Result B) (b : B)
    → (m >>= f) ≡ ok b
    → (a : A) × (m ≡ ok a) × (f a ≡ ok b)
bind-ok (ok a) f b h = (a, refl, h)
bind-ok (err x) f b h = cc

pub ok_injective {ℓ} : {A : Type ℓ} (a b : A) → ok a ≡ ok b → a ≡ b
ok_injective a b h = cc h
