-- ===== src/Text/Words.antt =====
-- Words: texts without white space, as the fields of a line.
use Prim.Native.Char.{Char}
use Prim.Native.String.{String}
use claviger.Prelude.{◌≡◌, refl, Bool, true, false, not, ◌&&◌, List, [], ◌∷◌, arith}
use claviger.Text.{
  is_space, all_chars, is_empty, trim_left, trim_right, trim_space, split_space, fields,
}

-- The text has no white space.
abbrev pub is_solid : String → Bool
is_solid s = all_chars (λ c. not (is_space c)) s

-- A text that is not empty and has no white space.
abbrev pub is_word : String → Bool
is_word s = not (is_empty s) && is_solid s

-- Two texts with a space between them.
abbrev pub spaced : String → String → String
spaced String.[] p = String.◌∷◌ " " p
spaced (String.◌∷◌ c m) p = String.◌∷◌ c (spaced m p)

-- trim_right keeps a character in front of a text of which something is kept.
trim_right-cons :
    (c : Char) (s : String)
    → trim_right is_space s ≡ s
    → not (is_empty s && is_space c) ≡ true
    → trim_right is_space (String.◌∷◌ c s) ≡ String.◌∷◌ c s
unfolding trim_right
trim_right-cons c s h k = rw h (ground arith)

trim_right-word : (s : String) → is_solid s ≡ true → trim_right is_space s ≡ s
trim_right-word String.[] h = unfold trim_right in refl
trim_right-word (String.◌∷◌ c s) h =
    trim_right-cons c s (trim_right-word s (ground arith)) (ground arith)

is_empty-two : (m p : String) → is_empty (spaced m p) ≡ false
is_empty-two String.[] p = refl
is_empty-two (String.◌∷◌ c m) p = refl

trim_right-two : (m p : String) → is_word p ≡ true → trim_right is_space (spaced m p) ≡ spaced m p
trim_right-two String.[] p h =
    trim_right-cons " " p (trim_right-word p (ground arith)) (ground arith)
trim_right-two (String.◌∷◌ c m) p h =
    trim_right-cons c (spaced m p) (trim_right-two m p h) (rw (is_empty-two m p) refl)

trim_left-solid :
    (c : Char) (s : String)
    → is_space c ≡ false
    → trim_left is_space (String.◌∷◌ c s) ≡ String.◌∷◌ c s
unfolding trim_left
trim_left-solid c s h = rw h refl

pub trim_space-two :
    (m p : String) → is_word m ≡ true → is_word p ≡ true → trim_space (spaced m p) ≡ spaced m p
unfolding trim_space
trim_space-two String.[] p h k = ground arith
trim_space-two (String.◌∷◌ c m) p h k =
    rw (trim_left-solid c (spaced m p) (ground arith)) (trim_right-two (String.◌∷◌ c m) p k)

split_space-cons :
    (c : Char) (s t : String) (ts : List String)
    → is_space c ≡ false
    → split_space s ≡ t ∷ ts
    → split_space (String.◌∷◌ c s) ≡ String.◌∷◌ c t ∷ ts
unfolding split_space
split_space-cons c s t ts h k = rw (h, k) refl

split_space-word : (s : String) → is_solid s ≡ true → split_space s ≡ s ∷ []
split_space-word String.[] h = unfold split_space in refl
split_space-word (String.◌∷◌ c s) h =
    split_space-cons c s s [] (ground arith) (split_space-word s (ground arith))

split_space-two :
    (m p : String) → is_solid m ≡ true → is_solid p ≡ true → split_space (spaced m p) ≡ m ∷ p ∷ []
split_space-two String.[] p h k = unfold split_space is_space in rw (split_space-word p k) refl
split_space-two (String.◌∷◌ c m) p h k =
    split_space-cons c (spaced m p) m (p ∷ []) (ground arith) (split_space-two m p (ground arith) k)

-- The fields of two words with a space between them are the two words.
pub fields-two :
    (m p : String) → is_word m ≡ true → is_word p ≡ true → fields (spaced m p) ≡ m ∷ p ∷ []
unfolding fields
fields-two m p h k = rw (split_space-two m p (ground arith) (ground arith)) (ground arith)
