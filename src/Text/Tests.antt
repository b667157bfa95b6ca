-- ===== src/Text/Tests.antt =====
-- The text functions at small inputs.
use claviger.Prelude.{◌≡◌, refl, true, [], ◌∷◌}
use claviger.Text.{
  canonical, trim_of, trim_space, split_on, trim_suffix, to_lower, trim_right_of, contains,
  to_upper, fields, replace_all,
}

canonical_test : canonical "x-CSRF-token" ≡ "X-Csrf-Token"
unfolding canonical
canonical_test = refl

trim_test : trim_of (trim_space " [::1] ") "[]" ≡ "::1"
unfolding trim_of trim_space
trim_test = refl

split_test : split_on b',' "a, b" ≡ "a" ∷ " b" ∷ []
unfolding split_on
split_test = refl

suffix_test : trim_suffix (to_lower "LOCALHOST.") "." ≡ "localhost"
unfolding trim_suffix to_lower
suffix_test = refl

contains_test : contains (to_upper "/login?x") "LOGIN" ≡ true
unfolding contains to_upper
contains_test = refl

trim_right_test : trim_right_of "https://t//" "/" ≡ "https://t"
unfolding trim_right_of
trim_right_test = refl

fields_test : fields " GET  /a " ≡ "GET" ∷ "/a" ∷ []
unfolding fields
fields_test = refl

replace_test : replace_all "a{{x}}{{x}}b{{" "{{x}}" "1" ≡ "a11b{{"
unfolding replace_all
replace_test = refl
