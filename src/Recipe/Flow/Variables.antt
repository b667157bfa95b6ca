-- ===== src/Recipe/Flow/Variables.antt =====
-- The variables of a multi-step login after a step of internal/recipe/multistep.go.
use claviger.Prelude.{
  ℕ, String, ◌≡◌, refl, Bool, true, false, not, List, [], ◌∷◌, Option, none, some, Result, ok, err,
  ◌>>=◌, arith, All, ◌==◌, eq_refl, Bool-cases, inl, inr, subst,
}
use claviger.Prelude.Maps.{lookup, insert, lookup-insert}
use claviger.Http.{Response}
use claviger.Recipe.Flow.{ExtractRule, Readers, apply_extract, need_value, extract_all}

abbrev is_filled : Option String → Bool
is_filled none = false
is_filled (some v) = not (v == "")

-- The variable has a value that is not empty.
abbrev pub has_value : List (String × String) → String → Bool
has_value vars name = is_filled (lookup name vars)

has_value-insert :
    (vars : List (String × String)) (name other value : String)
    → (value == "") ≡ false
    → has_value vars other ≡ true
    → has_value (insert name value vars) other ≡ true
has_value-insert vars name other value full h = ground (arith, lookup-insert name other value vars)

has_value-insert_same :
    (vars : List (String × String)) (name value : String)
    → (value == "") ≡ false
    → has_value (insert name value vars) name ≡ true
has_value-insert_same vars name value full =
    rw (lookup-insert name name value vars, eq_refl name, full) refl

-- What holds of the variables, if there are any.
abbrev Then : (List (String × String) → Type 0) → Result (List (String × String)) → Type 0
Then P (ok vars) = P vars
Then P (err x) = Unit

need_value-Then :
    (P : List (String × String) → Type 0) (i : ℕ) (m : Result String)
    (f : String → Result (List (String × String)))
    → ((value : String) → (value == "") ≡ false → Then P (f value))
    → Then P (need_value i m >>= f)
need_value-Then P i (err x) f h = tt
need_value-Then P i (ok value) f h = elim (Bool-cases (value == "")) [
  | inl empty ↦ rw empty tt
  | inr full ↦ rw full (h value full)
]

extract_all-keeps :
    (read : Readers) (i : ℕ) (rules : List ExtractRule) (resp : Response)
    (vars : List (String × String)) (name : String)
    → has_value vars name ≡ true
    → Then (λ out. has_value out name ≡ true) (extract_all read i rules resp vars)
unfolding extract_all
extract_all-keeps read i [] resp vars name h = h
extract_all-keeps read i (rule ∷ rules) resp vars name h =
    need_value-Then (λ out. has_value out name ≡ true) i (apply_extract read rule resp) _
      (λ value full.
        extract_all-keeps read i rules resp (insert rule.name value vars) name
          (has_value-insert vars rule.name name value full h))

Then-both :
    (P Q : List (String × String) → Type 0) (m : Result (List (String × String)))
    → Then P m
    → Then Q m
    → Then (λ out. P out × Q out) m
Then-both P Q (ok vars) p q = (p, q)
Then-both P Q (err x) p q = tt

extract_all-Then :
    (read : Readers) (i : ℕ) (rules : List ExtractRule) (resp : Response)
    (vars : List (String × String))
    → Then
        (λ out. All (λ rule. has_value out rule.name ≡ true) rules)
        (extract_all read i rules resp vars)
unfolding extract_all
extract_all-Then read i [] resp vars = tt
extract_all-Then read i (rule ∷ rules) resp vars =
    need_value-Then _ i (apply_extract read rule resp) _ (λ value full.
      Then-both (λ out. has_value out rule.name ≡ true) _
        (extract_all read i rules resp (insert rule.name value vars))
        (extract_all-keeps read i rules resp (insert rule.name value vars) rule.name
          (has_value-insert_same vars rule.name value full))
        (extract_all-Then read i rules resp (insert rule.name value vars)))

-- When a step passes, every one of its rules has given its variable a value that is not empty, also
-- where two rules name the same variable.
pub extract_all-has_value :
    (read : Readers) (i : ℕ) (rules : List ExtractRule) (resp : Response)
    (vars out : List (String × String))
    → extract_all read i rules resp vars ≡ ok out
    → All (λ rule. has_value out rule.name ≡ true) rules
extract_all-has_value read i rules resp vars out h =
    subst (Then (λ out. All (λ rule. has_value out rule.name ≡ true) rules)) h
      (extract_all-Then read i rules resp vars)
