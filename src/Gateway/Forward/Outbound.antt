-- ===== src/Gateway/Forward/Outbound.antt =====
-- Which header values outbound requests carry, of forward in internal/gateway/gateway.go.
use claviger.Prelude.{
  String, ◌≡◌, ◌≢◌, refl, sym, ap, ◌∙◌, true, none, Result, ok, not, ◌&&◌, ◌||◌, List, [], ◌∷◌,
  ◌++◌, arith, ◌==◌, if◌then◌else◌,
}
use claviger.Text.{canonical}
use claviger.Http.{Request, Cookie}
use claviger.Http.Header
use claviger.Http.Header.Laws.{index-del, index-set, gathered}
use claviger.Session.{Session, apply}
use claviger.Session.Apply.{injected, apply_values}
use claviger.Gateway.Headers.{copy_header, hop_by_hop}
use claviger.Gateway.Headers.Laws.{index-copy_header}
use claviger.Gateway.State.{Config, Live, Incoming, forwarded, store_get, check_request, send}
use claviger.Gateway.Forward.{outbound_header, outbound_url, set_csrf, authorize, forward}

canonical_token : canonical "X-Claviger-Token" ≡ "X-Claviger-Token"
unfolding canonical
canonical_token = refl

canonical_identity : canonical "X-Claviger-Identity" ≡ "X-Claviger-Identity"
unfolding canonical
canonical_identity = refl

-- The values of the client's header that go on to the target: none for the gateway's own two
-- names and for the hop-by-hop ones, all for the others.
abbrev pub passed_on : Header.Header → String → List String
passed_on h j =
    if ("X-Claviger-Token" == j)
      || ("X-Claviger-Identity" == j)
      || hop_by_hop (Header.get h "Connection") j
    then []
    else gathered h j

pub index-outbound_header :
    (h : Header.Header) (j : String) → Header.index (outbound_header h) j ≡ passed_on h j
unfolding outbound_header Header.index
index-outbound_header h j =
    let h1 = copy_header [] h in
    let h2 = Header.del "X-Claviger-Identity" h1 in
    ground (
      arith,
      index-del "X-Claviger-Token" j h2,
      canonical_token,
      index-del "X-Claviger-Identity" j h1,
      canonical_identity,
      index-copy_header [] h j,
    )

index-set_csrf :
    (header token j : String) (req : Request)
    → Header.index (set_csrf header token req).header j ≡ (
        if not (header == "") && not (token == "") && (canonical header == j)
        then token ∷ []
        else Header.index req.header j)
unfolding set_csrf
index-set_csrf header token j req = ground (arith, index-set header token j req.header)

set_csrf_keeps :
    (header token : String) (req : Request)
    → ((set_csrf header token req).method ≡ req.method)
      × ((set_csrf header token req).target ≡ req.target)
      × ((set_csrf header token req).body ≡ req.body)
unfolding set_csrf
set_csrf_keeps header token req = (ground arith, ground arith, ground arith)

apply_keeps :
    (pair : Cookie → String) (s : Session) (req : Request)
    → ((apply pair s req).method ≡ req.method)
      × ((apply pair s req).target ≡ req.target)
      × ((apply pair s req).body ≡ req.body)
unfolding apply
apply_keeps pair s req = (ground arith, ground arith, ground arith)

check_request_ok :
    {W : Type 0} (cfg : Config W) (method url : String) (g : Live W)
    → cfg.env.request_error method url ≡ none
    → check_request cfg method url g ≡ (ok tt, g)
check_request_ok cfg method url g fine = rw (fine, check_request) refl

store_get-sent :
    {W : Type 0} (cfg : Config W) (id : String) (g : Live W) (out : Result Session) (g1 : Live W)
    → store_get cfg id g ≡ (out, g1)
    → g1.sent ≡ g.sent
unfolding store_get
store_get-sent cfg id g out g1 got = sym (ap (λ p. p.1.sent) got)

signed_values :
    (pair : Cookie → String) (s : Session) (req : Request) (h : Header.Header)
    (csrf_header token j : String)
    → j ≢ "Cookie"
    → Header.index
        (set_csrf csrf_header token
          (apply pair s (record req { header = outbound_header h }))).header
        j
      ≡ (if not (csrf_header == "") && not (token == "") && (canonical csrf_header == j)
          then token ∷ []
          else injected s j (passed_on h j) ++ gathered s.headers j)
signed_values pair s req h csrf_header token j ne =
    let sent : Request = record req { header = outbound_header h } in
    ground (
      arith,
      index-set_csrf csrf_header token j (apply pair s sent),
      (apply_values pair s sent j ne).0,
      index-outbound_header h j,
    )

module _ {W : Type 0} (cfg : Config W) where
  -- When the request for the target can be built and the store gives a session for the identity,
  -- forward sends one request, the client's: its method, its body, and the target's URL. Under every
  -- name but Cookie it has the anti-CSRF token, if there is one for that name, and else what Apply
  -- makes of the session and of the client's values that are passed on.
  pub forward_values :
      (r : Incoming) (body id csrf_header token j : String) (g g1 : Live W) (s : Session)
      → cfg.env.request_error r.method (outbound_url cfg r) ≡ none
      → store_get cfg id g ≡ (ok s, g1)
      → j ≢ "Cookie"
      → (req : Request) × ((forward cfg r body id true csrf_header token g).1.sent
          ≡ g.sent ++ forwarded req ∷ [])
        × (req.method ≡ r.method)
        × (req.target ≡ outbound_url cfg r)
        × (req.body ≡ body)
        × (Header.index req.header j ≡ (
            if not (csrf_header == "") && not (token == "") && (canonical csrf_header == j)
            then token ∷ []
            else injected s j (passed_on r.header j) ++ gathered s.headers j))
  unfolding forward authorize send
  forward_values r body id csrf_header token j g g1 s fine got ne =
      let bare : Request = record {
        method = r.method;
        target = outbound_url cfg r;
        header = r.header;
        body = body;
      } in
      let signed : Request =
        apply cfg.env.cookie_pair s (record bare { header = outbound_header r.header }) in
      let kept : g1.sent ≡ g.sent = store_get-sent cfg id g (ok s) g1 got in
      let (am, at_, ab) =
        apply_keeps cfg.env.cookie_pair s (record bare { header = outbound_header r.header }) in
      let (m, t, b) = set_csrf_keeps csrf_header token signed in
      (
        set_csrf csrf_header token signed,
        rw (check_request_ok cfg r.method (outbound_url cfg r) g fine, forward, got, authorize)
            (ap (λ l. l ++ forwarded (set_csrf csrf_header token signed) ∷ []) kept),
        m ∙ am,
        t ∙ at_,
        b ∙ ab,
        signed_values cfg.env.cookie_pair s bare r.header csrf_header token j ne,
      )
