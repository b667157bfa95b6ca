-- ===== src/Recipe/Flow.antt =====
-- internal/recipe/multistep.go: the parts of a scripted login, its templates and its extraction
-- rules.
pub mod Establish
pub mod Paths
pub mod Variables
mod Examples
use Prim.Native.String.{◌++◌}
use claviger.Prelude.{
  ℕ, String, Bool, true, false, not, ◌||◌, List, [], ◌∷◌, Option, none, some, Result, ok, err,
  at_step, bad_input, ◌>>=◌, ◌==◌, if◌then◌else◌,
}
use claviger.Prelude.Maps.{insert}
use claviger.Text.{split_on, replace_all}
use claviger.Http.{Response}
use claviger.Http.Header

-- ExtractRule; `source` is its From
pub record ExtractRule : Type 0 where
  pub name : String
  pub source : String
  pub pattern : String

-- Step
pub record FlowStep : Type 0 where
  pub method : String
  pub url : String
  pub form : List (String × String)
  pub body : String
  pub extract : List ExtractRule

pub record CaptureSpec : Type 0 where
  pub csrf : String
  pub bearer : Option ExtractRule

-- Decoded JSON. A number is the text that FormatFloat gives for it; `other` is null or an array.
mutual
  pub data Json : Type 0 where
    text : String → Json
    number : String → Json
    boolean : Bool → Json
    object : Fields → Json
    other : Json

  pub data Fields : Type 0 where
    no_fields : Fields
    field : String → Json → Fields → Fields

-- m[key]
unfoldable pub field_of : String → Fields → Option Json
field_of key no_fields = none
field_of key (field k value rest) = if k == key then some value else field_of key rest

-- The leaf as a text.
abbrev pub leaf_text : Json → String
leaf_text (text s) = s
leaf_text (number s) = s
leaf_text (boolean true) = "true"
leaf_text (boolean false) = "false"
leaf_text (object fs) = ""
leaf_text other = ""

-- The loop of jsonPath; `none` is a path that runs off the object.
unfoldable pub json_walk : List String → Option Json → Option Json
json_walk [] cur = cur
json_walk (part ∷ parts) (some (object fs)) = json_walk parts (field_of part fs)
json_walk (part ∷ parts) cur = none

abbrev pub text_or_empty : Option Json → String
text_or_empty none = ""
text_or_empty (some v) = leaf_text v

-- jsonPath
unfoldable pub json_path : Fields → String → String
json_path fs path = text_or_empty (json_walk (split_on b'.' path) (some (object fs)))

-- subst, which goes through the variables in the order of the list
unfoldable pub subst_vars : List (String × String) → String → String
subst_vars [] s = s
subst_vars ((k, v) ∷ vars) s = subst_vars vars (replace_all s ("{{" ++ k ++ "}}") v)

-- What the flow takes from regexp and encoding/json: the submatch of a pattern that compiles, and
-- the object that a body decodes to.
pub record Readers : Type 0 where
  pub find_submatch : String → String → Result (Option (List String))
  pub decode_object : String → Result Fields

-- The first group, or the whole match.
abbrev pub group_or_whole : Option (List String) → String
group_or_whole none = ""
group_or_whole (some []) = ""
group_or_whole (some (whole ∷ [])) = whole
group_or_whole (some (whole ∷ group ∷ groups)) = group

-- applyExtract
unfoldable pub apply_extract : Readers → ExtractRule → Response → Result String
apply_extract read rule resp =
    if (rule.source == "") || (rule.source == "body")
    then (read.find_submatch rule.pattern resp.body >>= λ m. ok (group_or_whole m))
    else if rule.source == "header"
    then ok (Header.get resp.header rule.pattern)
    else if rule.source == "json"
    then (read.decode_object resp.body >>= λ fs. ok (json_path fs rule.pattern))
    else err (bad_input "unknown source")

-- The error of step i, or the value that is not empty.
abbrev pub need_value : ℕ → Result String → Result String
need_value i (err x) = err (at_step i x)
need_value i (ok value) =
    if value == "" then err (at_step i (bad_input "extract yielded nothing")) else ok value

-- The loop over the rules of step i.
unfoldable pub extract_all :
    Readers
    → ℕ
    → List ExtractRule
    → Response
    → List (String × String)
    → Result (List (String × String))
extract_all read i [] resp vars = ok vars
extract_all read i (rule ∷ rules) resp vars =
    need_value i (apply_extract read rule resp) >>= λ value.
    extract_all read i rules resp (insert rule.name value vars)
