-- ===== src/Prelude/Maps.antt =====
-- Maps with texts for keys, as lists of entries.
use Prim.Native.String.{String}
use mathlib.Core.Path.{◌≡◌, refl}
use mathlib.Core.List.{List, [], ◌∷◌}
use mathlib.Core.Option.{Option, none, some}
use native.Mathlib.Omega.{arith}
use text.Mathlib.Text.{◌==◌}
use text.Mathlib.TextEquality.{eq_iff}
use claviger.Prelude.Tests.{if◌then◌else◌}

-- m[name] of a map with texts for keys
unfoldable pub lookup {ℓ} : {V : Type ℓ} → String → List (String × V) → Option V
lookup name [] = none
lookup name ((key, value) ∷ rest) = if key == name then some value else lookup name rest

-- m[name] = new
unfoldable pub insert {ℓ} : {V : Type ℓ} → String → V → List (String × V) → List (String × V)
insert name new [] = (name, new) ∷ []
insert name new ((key, old) ∷ rest) =
    if key == name then (key, new) ∷ rest else (key, old) ∷ insert name new rest

-- delete(m, name)
unfoldable pub remove {ℓ} : {V : Type ℓ} → String → List (String × V) → List (String × V)
remove name [] = []
remove name ((key, value) ∷ rest) =
    let others = remove name rest in if key == name then others else (key, value) ∷ others

pub lookup-insert {ℓ} :
    {V : Type ℓ} (name other : String) (new : V) (cache : List (String × V))
    → lookup other (insert name new cache)
      ≡ (if name == other then some new else lookup other cache)
unfolding lookup insert
lookup-insert name other new [] = refl
lookup-insert name other new ((key, old) ∷ rest) =
    let later = lookup-insert name other new rest in
    ground (arith, later, eq_iff key name, eq_iff key other, eq_iff name other)

pub lookup-remove {ℓ} :
    {V : Type ℓ} (name : String) (cache : List (String × V))
    → lookup name (remove name cache) ≡ none
unfolding lookup remove
lookup-remove name [] = refl
lookup-remove name ((key, old) ∷ rest) = ground (arith, lookup-remove name rest, eq_iff key name)
