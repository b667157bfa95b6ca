-- ===== src/Corpus/Har/Stripped.antt =====
-- What of a captured header internal/corpus/har.go keeps.
use mathlib.Core.List.{append-nil, append_assoc}
use claviger.Prelude.{
  String, ◌≡◌, not, ◌&&◌, ◌||◌, List, [], ◌∷◌, ◌++◌, Result, ok, arith, All, AllOk, AllOk-ok,
  AllOk-cons, AllOk-bind, Bool-cases, inl, inr, ◌==◌, eq_iff, if◌then◌else◌,
}
use claviger.Text.{has_prefix, canonical}
use claviger.Http.Header
use claviger.Http.Header.Laws.{index-add}
use claviger.Corpus.{CorpusRequest}
use claviger.Corpus.Har.{HarRequest, har_drops, har_header, har_request, har_requests, load_har}

-- The values captured under the name `j`, of the headers that are not HTTP/2 pseudo-headers.
abbrev pub captured : List (String × String) → String → List String
captured [] j = []
captured ((name, value) ∷ hds) j =
    (if not (has_prefix name ":") && (canonical name == j) then value ∷ [] else [])
    ++ captured hds j

index-har_header_onto :
    (hds : List (String × String)) (h : Header.Header) (j : String)
    → Header.index (har_header hds h) j
      ≡ Header.index h j ++ (if har_drops j then [] else captured hds j)
unfolding har_header
index-har_header_onto [] h j = ground (arith, append-nil (Header.index h j))
index-har_header_onto ((name, value) ∷ hds) h j = ground (
  arith,
  index-har_header_onto hds h j,
  index-har_header_onto hds (Header.add name value h) j,
  index-add name value j h,
  eq_iff (canonical name) j,
  append_assoc (Header.index h j) (value ∷ []) (captured hds j),
)

-- The header of a loaded request has, under every name, no value if the name is one of the four
-- that are dropped, and else the captured values in order.
pub index-har_header :
    (hds : List (String × String)) (j : String)
    → Header.index (har_header hds []) j ≡ (if har_drops j then [] else captured hds j)
unfolding Header.index
index-har_header hds j = index-har_header_onto hds [] j

-- The request has no value under any of the names that carry credentials.
abbrev pub IsClean : CorpusRequest → Type 0
IsClean req =
    (Header.index req.header "Cookie" ≡ [])
    × (Header.index req.header "Authorization" ≡ [])
    × (Header.index req.header "Proxy-Authorization" ≡ [])
    × (Header.index req.header "X-Csrf-Token" ≡ [])

har_request-IsClean : (r : HarRequest) (uri : String) → IsClean (har_request r uri)
unfolding har_request har_drops canonical
har_request-IsClean r uri = (
  index-har_header r.headers "Cookie",
  index-har_header r.headers "Authorization",
  index-har_header r.headers "Proxy-Authorization",
  index-har_header r.headers "X-Csrf-Token",
)

har_requests-AllOk :
    (request_uri : String → Result String) (rs : List HarRequest)
    → AllOk IsClean (har_requests request_uri rs)
unfolding har_requests
har_requests-AllOk request_uri [] = tt
har_requests-AllOk request_uri (r ∷ rs) =
    let rest : AllOk IsClean (har_requests request_uri rs) = har_requests-AllOk request_uri rs in
    elim (Bool-cases ((r.method == "") || (r.url == ""))) [
      | inl skipped ↦ rw skipped rest
      | inr kept ↦ rw kept (
          AllOk-cons IsClean (request_uri r.url) (λ uri. har_request r uri)
            (har_requests request_uri rs) (λ uri. har_request-IsClean r uri) rest)
    ]

-- No request of a HAR export carries a captured value of Cookie, Authorization,
-- Proxy-Authorization or X-CSRF-Token, in whatever case the export spells the name.
pub load_har-IsClean :
    (decode : String → Result (List HarRequest)) (request_uri : String → Result String)
    (text : String) (reqs : List CorpusRequest)
    → load_har decode request_uri text ≡ ok reqs
    → All IsClean reqs
unfolding load_har
load_har-IsClean decode request_uri text reqs h =
    AllOk-ok IsClean (load_har decode request_uri text) reqs h
      (AllOk-bind IsClean (decode text) _ (λ rs. har_requests-AllOk request_uri rs))
