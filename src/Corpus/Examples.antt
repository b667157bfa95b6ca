-- ===== src/Corpus/Examples.antt =====
-- The corpus loaders at small files.
use claviger.Prelude.{
  String, ◌≡◌, refl, true, false, List, [], ◌∷◌, Option, none, Result, ok, All, Error,
}
use claviger.Text.{to_upper, is_space, has_prefix, canonical}
use claviger.Http.Header
use claviger.Corpus.{CorpusRequest}
use claviger.Corpus.Requests.{read_lines}
use claviger.Corpus.Requests.Print.{IsPlain, print, read_lines-print}
use claviger.Corpus.Har.{HarRequest, har_header, har_drops, load_har, har_requests, har_request}
use claviger.Corpus.Har.Stripped.{IsClean, load_har-IsClean}
use claviger.Corpus.Openapi.{load_openapi, spec_requests, is_among, safe_methods, sort_requests}
use claviger.Corpus.Openapi.Safe.{load_openapi-safe}
use claviger.Corpus.Load.{Files}

abbrev orders : CorpusRequest
orders = record { method = "GET"; path = "/orders"; header = []; body = "" }

orders-IsPlain : IsPlain to_upper orders
unfolding has_prefix to_upper is_space
orders-IsPlain = record {
  method = refl;
  raised = refl;
  no_comment = refl;
  path = refl;
  slash = refl;
  bare = refl;
}

read_lines-print_example : read_lines to_upper 1 (print orders ∷ []) ≡ ok (orders ∷ [])
read_lines-print_example = read_lines-print to_upper 1 (orders ∷ []) (orders-IsPlain, tt)

-- A file of one request, as bufio.Scanner reads it.
abbrev one_line : String → List String × Option Error
one_line text = (text ∷ "# done" ∷ [], none)

abbrev captured_headers : List (String × String)
captured_headers = ("cookie", "sid=1") ∷ ("x-csrf-token", "t") ∷ ("Accept", "json") ∷ []

abbrev entry : HarRequest
entry = record { method = "get"; url = "http://t/orders"; headers = captured_headers; post = none }

abbrev decode : String → Result (List HarRequest)
decode text = ok (entry ∷ [])

abbrev uri : String → Result String
uri url = ok "/orders"

abbrev kept : CorpusRequest
kept = record orders { header = ("Accept", "json" ∷ []) ∷ [] }

har_loaded : load_har decode uri "{}" ≡ ok (kept ∷ [])
unfolding load_har har_requests har_request har_header har_drops canonical to_upper has_prefix
    Header.add Header.put Header.index
har_loaded = refl

load_har-IsClean_example : All IsClean (kept ∷ [])
load_har-IsClean_example = load_har-IsClean decode uri "{}" (kept ∷ []) har_loaded

abbrev spec : List (String × List String)
spec = ("/orders", "post" ∷ "get" ∷ []) ∷ []

abbrev decode_spec : String → Result (List (String × List String))
decode_spec text = ok spec

spec_loaded : load_openapi decode_spec false "" ≡ ok (orders ∷ [])
unfolding load_openapi sort_requests spec_requests to_upper
spec_loaded = refl

load_openapi-safe_example : All (λ req. is_among safe_methods req.method ≡ true) (orders ∷ [])
load_openapi-safe_example = load_openapi-safe decode_spec "" (orders ∷ []) spec_loaded

abbrev files : Files
files = record {
  read_file = λ path. ok "{}";
  upper = to_upper;
  scan_lines = one_line;
  decode_har = decode;
  request_uri = uri;
  decode_spec = decode_spec;
}
