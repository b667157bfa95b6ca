-- ===== src/Recipe/Flow/Paths.antt =====
-- jsonPath of internal/recipe/multistep.go: a path finds what is nested under its keys.
use claviger.Prelude.{String, ◌≡◌, refl, List, [], ◌∷◌, some, eq_refl}
use claviger.Text.{split_on}
use claviger.Recipe.Flow.{Json, Fields, object, field, field_of, json_walk, json_path, leaf_text}

-- The value under the keys, each in an object with other fields behind.
abbrev pub nest : Fields → List String → Json → Json
nest rest [] leaf = leaf
nest rest (part ∷ parts) leaf = object (field part (nest rest parts leaf) rest)

json_walk-nest :
    (rest : Fields) (parts : List String) (leaf : Json)
    → json_walk parts (some (nest rest parts leaf)) ≡ some leaf
unfolding json_walk field_of
json_walk-nest rest [] leaf = refl
json_walk-nest rest (part ∷ parts) leaf = rw (eq_refl part) (json_walk-nest rest parts leaf)

-- A dotted path finds the value that is nested under its keys, and gives its text: a text as it is,
-- a number as it is formatted, a truth value by name, and nothing for an object, an array or null.
pub json_path-nest :
    (fs rest : Fields) (path : String) (leaf : Json)
    → object fs ≡ nest rest (split_on b'.' path) leaf
    → json_path fs path ≡ leaf_text leaf
unfolding json_path
json_path-nest fs rest path leaf nested = rw (nested, json_walk-nest) refl
