-- ===== src/Text/Order.antt =====
-- Go's order of strings, by which sort.Strings sorts: it is total, and its sorting forgets the order
-- of its input.
use Prim.Native.Nat.{Ordering, compare as compare_ℕ}
use Prim.Native.Char.{Char, code}
use Prim.Native.String.{compare, then}
use Prim.Native.String.compare
use text.Mathlib.TextEquality.{Char-path}
use claviger.Prelude.{
  ℕ, String, ◌≡◌, refl, ap, ◌∙◌, Bool, true, false, arith, ltb, eqb, if◌then◌else◌,
}

abbrev pub no_later : Ordering → Bool
no_later Ordering.gt = false
no_later _ = true

-- The first text does not come after the second.
abbrev pub is_ordered : String → String → Bool
is_ordered s t = no_later (compare s t)

no_later-then :
    (m n : ℕ) (o : Ordering)
    → no_later ((then) (compare_ℕ m n) o)
      ≡ (if ltb m n then true else if eqb m n then no_later o else false)
no_later-then m n o = ground arith

is_ordered-cons :
    (c d : Char) (s t : String)
    → is_ordered (String.◌∷◌ c s) (String.◌∷◌ d t) ≡ (
        if ltb (code c) (code d)
        then true
        else if eqb (code c) (code d)
        then is_ordered s t
        else false)
is_ordered-cons c d s t =
    ap no_later (compare.cons-cons c d s t) ∙ no_later-then (code c) (code d) (compare s t)

is_ordered_nil : (d : Char) (t : String) → is_ordered String.[] (String.◌∷◌ d t) ≡ true
is_ordered_nil d t = ap no_later (compare.nil-cons d t)

is_ordered-nil : (c : Char) (s : String) → is_ordered (String.◌∷◌ c s) String.[] ≡ false
is_ordered-nil c s = ap no_later (compare.cons-nil c s)

pub is_ordered_total : (s t : String) → is_ordered s t ≡ false → is_ordered t s ≡ true
is_ordered_total String.[] String.[] h = refl
is_ordered_total String.[] (String.◌∷◌ d t) h = ground (arith, h, is_ordered_nil d t)
is_ordered_total (String.◌∷◌ c s) String.[] h = is_ordered_nil c s
is_ordered_total (String.◌∷◌ c s) (String.◌∷◌ d t) h =
    ground (arith, h, is_ordered-cons c d s t, is_ordered-cons d c t s, is_ordered_total s t)

pub is_ordered_trans :
    (s t u : String) → is_ordered s t ≡ true → is_ordered t u ≡ true → is_ordered s u ≡ true
is_ordered_trans String.[] t String.[] h k = refl
is_ordered_trans String.[] t (String.◌∷◌ e u) h k = is_ordered_nil e u
is_ordered_trans (String.◌∷◌ c s) String.[] u h k = ground (arith, h, is_ordered-nil c s)
is_ordered_trans (String.◌∷◌ c s) (String.◌∷◌ d t) String.[] h k =
    ground (arith, k, is_ordered-nil d t)
is_ordered_trans (String.◌∷◌ c s) (String.◌∷◌ d t) (String.◌∷◌ e u) h k = ground (
  arith,
  h,
  k,
  is_ordered-cons c d s t,
  is_ordered-cons d e t u,
  is_ordered-cons c e s u,
  is_ordered_trans s t u,
)

pub is_ordered_antisym : (s t : String) → is_ordered s t ≡ true → is_ordered t s ≡ true → s ≡ t
is_ordered_antisym String.[] String.[] h k = refl
is_ordered_antisym String.[] (String.◌∷◌ d t) h k = absurd (ground (arith, k, is_ordered-nil d t))
is_ordered_antisym (String.◌∷◌ c s) String.[] h k = absurd (ground (arith, h, is_ordered-nil c s))
is_ordered_antisym (String.◌∷◌ c s) (String.◌∷◌ d t) h k =
    let same : c ≡ d =
      Char-path c d (ground (arith, h, k, is_ordered-cons c d s t, is_ordered-cons d c t s)) in
    let rest : s ≡ t =
      is_ordered_antisym s t
        (ground (arith, h, k, is_ordered-cons c d s t, is_ordered-cons d c t s))
        (ground (arith, h, k, is_ordered-cons c d s t, is_ordered-cons d c t s)) in
    rw (same, rest) refl
