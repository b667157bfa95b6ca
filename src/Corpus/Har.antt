-- ===== src/Corpus/Har.antt =====
-- internal/corpus/har.go: the requests of a browser's export, without the credentials of the user
-- who captured it.
pub mod Stripped
use claviger.Prelude.{
  String, Bool, ◌||◌, List, [], ◌∷◌, Option, none, some, Result, ok, err, ◌>>=◌, any, ◌==◌,
  if◌then◌else◌,
}
use claviger.Text.{to_upper, has_prefix, canonical}
use claviger.Http.Header
use claviger.Corpus.{CorpusRequest}

-- harDropHeaders, before they are put in canonical form
abbrev pub har_drop_headers : List String
har_drop_headers = "Cookie" ∷ "Authorization" ∷ "Proxy-Authorization" ∷ "X-CSRF-Token" ∷ []

-- harDropHeaders[name] of a canonical name
unfoldable pub har_drops : String → Bool
har_drops name = any (λ d. canonical d == name) har_drop_headers

-- The request of a harFile entry; `post` is the text of its postData.
pub record HarRequest : Type 0 where
  pub method : String
  pub url : String
  pub headers : List (String × String)
  pub post : Option String

-- The loop over the captured headers.
unfoldable pub har_header : List (String × String) → Header.Header → Header.Header
har_header [] h = h
har_header ((name, value) ∷ hds) h =
    har_header hds
      (if has_prefix name ":" || har_drops (canonical name) then h else Header.add name value h)

abbrev pub or_empty : Option String → String
or_empty none = ""
or_empty (some s) = s

-- The request that an entry with this RequestURI becomes.
unfoldable pub har_request : HarRequest → String → CorpusRequest
har_request r uri = record {
  method = to_upper r.method;
  path = uri;
  header = har_header r.headers [];
  body = or_empty r.post;
}

-- The loop of loadHAR. `request_uri` is the RequestURI of url.Parse.
unfoldable pub har_requests :
    (String → Result String) → List HarRequest → Result (List CorpusRequest)
har_requests request_uri [] = ok []
har_requests request_uri (r ∷ rs) =
    let rest = har_requests request_uri rs in
    if (r.method == "") || (r.url == "")
    then rest
    else request_uri r.url >>= λ uri. rest >>= λ reqs. ok (har_request r uri ∷ reqs)

-- loadHAR, where `decode` is json.Unmarshal to a harFile
unfoldable pub load_har :
    (String → Result (List HarRequest))
    → (String → Result String)
    → String
    → Result (List CorpusRequest)
load_har decode request_uri text = decode text >>= λ rs. har_requests request_uri rs
