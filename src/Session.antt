-- ===== src/Session.antt =====
-- internal/session/session.go. A time is the number of nanoseconds since Go's zero Time, so that
-- 0 is the zero Time.
pub mod Apply
mod Examples
use claviger.Prelude.{ℕ, String, Bool, not, ◌&&◌, List, [], ◌∷◌, ltb, eqb, ◌==◌, if◌then◌else◌}
use claviger.Http.{Cookie, Request}
use claviger.Http.Header
use Prim.Native.String.{◌++◌}

pub record Session : Type 0 where
  pub identity : String
  pub cookies : List Cookie
  pub bearer_token : String
  pub refresh_token : String
  pub csrf : String
  pub headers : Header.Header
  pub expires_at : ℕ

-- t.IsZero()
abbrev pub is_zero : ℕ → Bool
is_zero t = eqb t 0

-- Session.Expired: `now.After(s.ExpiresAt)` on a known expiry.
unfoldable pub expired : Session → ℕ → Bool
expired s now = not (is_zero s.expires_at) && ltb s.expires_at now

-- the header after `if v != "" { req.Header.Set(k, prefix+v) }`
unfoldable pub set_nonempty : String → String → String → Header.Header → Header.Header
unfolding Header.set
set_nonempty k prefix v h = if v == "" then h else Header.set k (prefix ++ v) h

-- `pair` is the name and value of a cookie as net/http writes them.
module _ (pair : Cookie → String) where
  -- req.AddCookie on the header
  unfoldable pub add_cookie : Cookie → Header.Header → Header.Header
  unfolding Header.get Header.set
  add_cookie c h =
      let old = Header.get h "Cookie" in
      if old == ""
      then Header.set "Cookie" (pair c) h
      else Header.set "Cookie" (old ++ "; " ++ pair c) h

  unfoldable pub add_cookies : List Cookie → Header.Header → Header.Header
  unfolding add_cookie
  add_cookies [] h = h
  add_cookies (c ∷ cs) h = add_cookies cs (add_cookie c h)

  -- Session.Apply on the header
  unfoldable pub apply_header : Session → Header.Header → Header.Header
  unfolding set_nonempty add_cookies Header.add_all
  apply_header s h =
      let h1 = set_nonempty "Authorization" "Bearer " s.bearer_token h in
      let h2 = add_cookies s.cookies h1 in
      let h3 = set_nonempty "X-CSRF-Token" "" s.csrf h2 in Header.add_all s.headers h3

  -- Session.Apply
  unfoldable pub apply : Session → Request → Request
  unfolding apply_header
  apply s req = record req { header = apply_header s req.header }
