-- ===== src/Session/Apply.antt =====
-- What Session.Apply does to a request's header, name by name.
use Prim.Native.String.{◌++◌}
use mathlib.Core.List.{◌++◌ as append}
use text.Mathlib.TextLemmas.{nil-append}
use claviger.Prelude.{
  String, ◌≡◌, ◌≢◌, refl, ◌∙◌, List, [], ◌∷◌, arith, ◌==◌, eq_iff, if◌then◌else◌, not, ◌&&◌,
}
use claviger.Text.{canonical}
use claviger.Http.{Cookie, Request}
use claviger.Http.Header
use claviger.Http.Header.Laws.{index-set, index-add_all, gathered}
use claviger.Session.{Session, add_cookie, add_cookies, set_nonempty, apply_header, apply}

pub canonical_authorization : canonical "Authorization" ≡ "Authorization"
unfolding canonical
canonical_authorization = refl

pub canonical_csrf : canonical "X-CSRF-Token" ≡ "X-Csrf-Token"
unfolding canonical
canonical_csrf = refl

pub canonical_cookie : canonical "Cookie" ≡ "Cookie"
unfolding canonical
canonical_cookie = refl

-- `req.Header.Set` under a test of the value, name by name.
index-set_nonempty :
    (k p v j : String) (h : Header.Header)
    → Header.index (set_nonempty k p v h) j
      ≡ (if not (v == "") && (canonical k == j) then (p ++ v) ∷ [] else Header.index h j)
unfolding set_nonempty
index-set_nonempty k p v j h = ground (arith, index-set k (p ++ v) j h)

-- The values that the session puts in place of those of the request under a name.
abbrev pub injected : Session → String → List String → List String
injected s j old =
    if not (s.csrf == "") && ("X-Csrf-Token" == j)
    then s.csrf ∷ []
    else if not (s.bearer_token == "") && ("Authorization" == j)
    then ("Bearer " ++ s.bearer_token) ∷ []
    else old

module _ (pair : Cookie → String) where
  index-add_cookie :
      (c : Cookie) (j : String) (h : Header.Header)
      → j ≢ "Cookie"
      → Header.index (add_cookie pair c h) j ≡ Header.index h j
  unfolding add_cookie
  index-add_cookie c j h ne = ground (
    arith,
    canonical_cookie,
    index-set "Cookie" (pair c) j h,
    index-set "Cookie" (Header.get h "Cookie" ++ "; " ++ pair c) j h,
    eq_iff "Cookie" j,
  )

  index-add_cookies :
      (cs : List Cookie) (j : String) (h : Header.Header)
      → j ≢ "Cookie"
      → Header.index (add_cookies pair cs h) j ≡ Header.index h j
  unfolding add_cookies
  index-add_cookies [] j h ne = refl
  index-add_cookies (c ∷ cs) j h ne =
      index-add_cookies cs j (add_cookie pair c h) ne ∙ index-add_cookie c j h ne

  pub index-apply_header :
      (s : Session) (h : Header.Header) (j : String)
      → j ≢ "Cookie"
      → Header.index (apply_header pair s h) j
        ≡ append (injected s j (Header.index h j)) (gathered s.headers j)
  unfolding apply_header
  index-apply_header s h j ne =
      let h1 = set_nonempty "Authorization" "Bearer " s.bearer_token h in
      let h2 = add_cookies pair s.cookies h1 in
      let h3 = set_nonempty "X-CSRF-Token" "" s.csrf h2 in
      ground (
        arith,
        index-add_all s.headers h3 j,
        index-set_nonempty "X-CSRF-Token" "" s.csrf j h2,
        canonical_csrf,
        index-add_cookies s.cookies j h1 ne,
        index-set_nonempty "Authorization" "Bearer " s.bearer_token j h,
        canonical_authorization,
        nil-append s.csrf,
      )

  -- Under every name but Cookie the request that Apply yields has the bearer token, or the CSRF
  -- value, in place of what it had if the session has one, and what it had if not, followed by the
  -- values of the session's extra headers. The method, the target and the body stay.
  pub apply_values :
      (s : Session) (req : Request) (j : String)
      → j ≢ "Cookie"
      → (Header.index (apply pair s req).header j
          ≡ append (injected s j (Header.index req.header j)) (gathered s.headers j))
        × ((apply pair s req).method ≡ req.method)
        × ((apply pair s req).target ≡ req.target)
        × ((apply pair s req).body ≡ req.body)
  unfolding apply
  apply_values s req j ne = (index-apply_header s req.header j ne, refl, refl, refl)
