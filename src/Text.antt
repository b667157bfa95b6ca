-- ===== src/Text.antt =====
-- The functions of Go's strings package that the program calls, over characters. White space is that
-- of Unicode, upper and lower case are those of ASCII: the methods, schemes and header names that the
-- program compares are ASCII tokens. Corpus/Requests, which reads any text, takes ToUpper as given.
mod Tests
pub mod Words
pub mod Prefix
pub mod Order
use Prim.Native.Char.{Char, code}
use Prim.Native.String.{String, ◌++◌, len}
use claviger.Prelude.{
  ℕ, zero, suc, ◌-◌, Bool, true, false, not, ◌&&◌, ◌||◌, List, [], ◌∷◌, ltb, leb, eqb,
  if◌then◌else◌,
}

-- The character at a position of a table, or `d` past its end.
char_or : Char → ℕ → String → Char
char_or d i String.[] = d
char_or d zero (String.◌∷◌ c s) = c
char_or d (suc i) (String.◌∷◌ c s) = char_or d i s

upper_char : Char → Char
unfolding char_or
upper_char c =
    if leb b'a' (code c) && leb (code c) b'z'
    then char_or c (code c - b'a') "ABCDEFGHIJKLMNOPQRSTUVWXYZ"
    else c

lower_char : Char → Char
unfolding char_or
lower_char c =
    if leb b'A' (code c) && leb (code c) b'Z'
    then char_or c (code c - b'A') "abcdefghijklmnopqrstuvwxyz"
    else c

-- strings.ToUpper
unfoldable pub to_upper : String → String
unfolding upper_char
to_upper String.[] = ""
to_upper (String.◌∷◌ c s) = String.◌∷◌ (upper_char c) (to_upper s)

-- strings.ToLower
unfoldable pub to_lower : String → String
unfolding lower_char
to_lower String.[] = ""
to_lower (String.◌∷◌ c s) = String.◌∷◌ (lower_char c) (to_lower s)

-- strings.HasPrefix s p
unfoldable pub has_prefix : String → String → Bool
has_prefix s String.[] = true
has_prefix String.[] (String.◌∷◌ d p) = false
has_prefix (String.◌∷◌ c s) (String.◌∷◌ d p) = eqb (code c) (code d) && has_prefix s p

-- strings.Contains s p
unfoldable pub contains : String → String → Bool
unfolding has_prefix
contains String.[] p = has_prefix "" p
contains (String.◌∷◌ c s) p = has_prefix (String.◌∷◌ c s) p || contains s p

abbrev pub is_empty : String → Bool
is_empty String.[] = true
is_empty (String.◌∷◌ c s) = false

-- strings.TrimLeftFunc
unfoldable pub trim_left : (Char → Bool) → String → String
trim_left p String.[] = ""
trim_left p (String.◌∷◌ c s) = let rest = trim_left p s in if p c then rest else String.◌∷◌ c s

-- strings.TrimRightFunc: a character goes when it and all that follows are in the set.
unfoldable pub trim_right : (Char → Bool) → String → String
trim_right p String.[] = ""
trim_right p (String.◌∷◌ c s) =
    let rest = trim_right p s in if is_empty rest && p c then "" else String.◌∷◌ c rest

-- The characters of a cutset.
abbrev among : String → Char → Bool
among String.[] c = false
among (String.◌∷◌ d s) c = eqb (code c) (code d) || among s c

-- unicode.IsSpace
unfoldable pub is_space : Char → Bool
is_space c =
    eqb (code c) 32
    || (leb 9 (code c) && leb (code c) 13)
    || eqb (code c) 0x85
    || eqb (code c) 0xA0
    || eqb (code c) 0x1680
    || (leb 0x2000 (code c) && leb (code c) 0x200A)
    || eqb (code c) 0x2028
    || eqb (code c) 0x2029
    || eqb (code c) 0x202F
    || eqb (code c) 0x205F
    || eqb (code c) 0x3000

-- strings.TrimSpace
unfoldable pub trim_space : String → String
unfolding trim_left trim_right is_space
trim_space s = trim_right is_space (trim_left is_space s)

-- strings.TrimRight s cutset
unfoldable pub trim_right_of : String → String → String
unfolding trim_right
trim_right_of s cutset = trim_right (among cutset) s

-- strings.Trim s cutset
unfoldable pub trim_of : String → String → String
unfolding trim_left trim_right
trim_of s cutset = trim_right (among cutset) (trim_left (among cutset) s)

reverse_onto : String → String → String
reverse_onto String.[] t = t
reverse_onto (String.◌∷◌ c s) t = reverse_onto s (String.◌∷◌ c t)

-- The text less a prefix that it has.
drop_prefix : String → String → String
drop_prefix s String.[] = s
drop_prefix String.[] (String.◌∷◌ d p) = ""
drop_prefix (String.◌∷◌ c s) (String.◌∷◌ d p) = drop_prefix s p

-- strings.TrimPrefix s p
unfoldable pub trim_prefix : String → String → String
unfolding has_prefix drop_prefix
trim_prefix s p = if has_prefix s p then drop_prefix s p else s

-- strings.HasSuffix s p
unfoldable pub has_suffix : String → String → Bool
unfolding has_prefix reverse_onto
has_suffix s p = has_prefix (reverse_onto s "") (reverse_onto p "")

-- strings.TrimSuffix s p
unfoldable pub trim_suffix : String → String → String
unfolding trim_prefix reverse_onto
trim_suffix s p = reverse_onto (trim_prefix (reverse_onto s "") (reverse_onto p "")) ""

-- A piece in front of the first of the pieces.
abbrev pub onto_first : Char → List String → List String
onto_first c [] = String.◌∷◌ c "" ∷ []
onto_first c (p ∷ ps) = String.◌∷◌ c p ∷ ps

-- strings.Split by a separator of one character
unfoldable pub split_on : ℕ → String → List String
split_on sep String.[] = "" ∷ []
split_on sep (String.◌∷◌ c s) =
    let rest = split_on sep s in if eqb (code c) sep then "" ∷ rest else onto_first c rest

unfoldable pub split_space : String → List String
unfolding is_space
split_space String.[] = "" ∷ []
split_space (String.◌∷◌ c s) =
    let rest = split_space s in if is_space c then "" ∷ rest else onto_first c rest

abbrev drop_empty : List String → List String
drop_empty [] = []
drop_empty (p ∷ ps) = if is_empty p then drop_empty ps else p ∷ drop_empty ps

-- strings.Fields
unfoldable pub fields : String → List String
unfolding split_space
fields s = drop_empty (split_space s)

-- strings.ReplaceAll s old new for an `old` that is not empty. `skip` counts the characters of an
-- occurrence that are still to be passed over.
replace_from : ℕ → String → String → String → String
unfolding has_prefix
replace_from skip old new String.[] = ""
replace_from (suc skip) old new (String.◌∷◌ c s) = replace_from skip old new s
replace_from zero old new (String.◌∷◌ c s) =
    let here = replace_from (len old - 1) old new s in
    let later = replace_from zero old new s in
    if has_prefix (String.◌∷◌ c s) old then new ++ here else String.◌∷◌ c later

unfoldable pub replace_all : String → String → String → String
unfolding replace_from
replace_all s old new = replace_from 0 old new s

-- A letter, a digit or one of the marks that a header name may hold.
is_token_char : Char → Bool
is_token_char c =
    (leb b'a' (code c) && leb (code c) b'z')
    || (leb b'A' (code c) && leb (code c) b'Z')
    || (leb b'0' (code c) && leb (code c) b'9')
    || among "!#$%&'*+-.^_`|~" c

abbrev pub all_chars : (Char → Bool) → String → Bool
all_chars p String.[] = true
all_chars p (String.◌∷◌ c s) = p c && all_chars p s

capitalize : Bool → String → String
unfolding upper_char lower_char
capitalize up String.[] = ""
capitalize up (String.◌∷◌ c s) =
    String.◌∷◌ (if up then upper_char c else lower_char c) (capitalize (eqb (code c) b'-') s)

-- textproto.CanonicalMIMEHeaderKey: a name with other characters stays as it is.
unfoldable pub canonical : String → String
unfolding is_token_char capitalize
canonical s = if all_chars is_token_char s then capitalize true s else s
