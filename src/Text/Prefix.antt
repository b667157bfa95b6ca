-- ===== src/Text/Prefix.antt =====
-- A text less a prefix that was put in front of it.
use Prim.Native.String.{String, ◌++◌}
use text.Mathlib.TextLemmas.{nil-append, cons-append}
use claviger.Prelude.{◌≡◌, refl, true, arith}
use claviger.Text.{has_prefix, trim_prefix, drop_prefix}

pub has_prefix-append : (p x : String) → has_prefix (p ++ x) p ≡ true
unfolding has_prefix
has_prefix-append String.[] x = refl
has_prefix-append (String.◌∷◌ c p) x =
    rw (cons-append c p x) (ground (arith, has_prefix-append p x))

drop_prefix-append : (p x : String) → drop_prefix (p ++ x) p ≡ x
unfolding drop_prefix
drop_prefix-append String.[] x = nil-append x
drop_prefix-append (String.◌∷◌ c p) x = rw (cons-append c p x) (drop_prefix-append p x)

pub trim_prefix-append : (p x : String) → trim_prefix (p ++ x) p ≡ x
unfolding trim_prefix
trim_prefix-append p x = rw (has_prefix-append p x) (drop_prefix-append p x)
