-- ===== src/Corpus/Openapi.antt =====
-- internal/corpus/openapi.go: the operations of an OpenAPI document.
pub mod Safe
use Prim.Native.Nat.{Ordering}
use Prim.Native.String.{compare}
use claviger.Prelude.{
  String, Bool, true, false, ◌&&◌, ◌||◌, List, [], ◌∷◌, ◌++◌, Result, ok, ◌>>=◌, any, not, ◌==◌,
  if◌then◌else◌,
}
use claviger.Text.{to_upper}
use claviger.Corpus.{CorpusRequest}

-- safeMethods
abbrev pub safe_methods : List String
safe_methods = "GET" ∷ "HEAD" ∷ "OPTIONS" ∷ []

-- unsafeMethods
abbrev pub unsafe_methods : List String
unsafe_methods = "POST" ∷ "PUT" ∷ "PATCH" ∷ "DELETE" ∷ []

unfoldable pub is_among : List String → String → Bool
is_among names m = any (λ n. n == m) names

-- safeMethods[m] || (includeUnsafe && unsafeMethods[m])
unfoldable pub is_included : Bool → String → Bool
unfolding is_among
is_included include_unsafe m =
    is_among safe_methods m || (include_unsafe && is_among unsafe_methods m)

-- The inner loop, over the operations of one path.
unfoldable pub path_requests : Bool → String → List String → List CorpusRequest
unfolding is_included to_upper
path_requests include_unsafe path [] = []
path_requests include_unsafe path (op ∷ ops) =
    let rest = path_requests include_unsafe path ops in
    if is_included include_unsafe (to_upper op)
    then record { method = to_upper op; path = path; header = []; body = "" } ∷ rest
    else rest

unfoldable pub spec_requests : Bool → List (String × List String) → List CorpusRequest
unfolding path_requests
spec_requests include_unsafe [] = []
spec_requests include_unsafe ((path, ops) ∷ paths) =
    path_requests include_unsafe path ops ++ spec_requests include_unsafe paths

abbrev pub is_less : String → String → Bool
is_less a b = elim (compare a b) [ Ordering.lt ↦ true | _ ↦ false ]

-- The order of sort.Slice: by path, then by method.
unfoldable pub comes_before : CorpusRequest → CorpusRequest → Bool
comes_before a b =
    if not (a.path == b.path) then is_less a.path b.path else is_less a.method b.method

unfoldable pub insert_request : CorpusRequest → List CorpusRequest → List CorpusRequest
unfolding comes_before
insert_request r [] = r ∷ []
insert_request r (q ∷ qs) =
    let rest = insert_request r qs in if comes_before q r then q ∷ rest else r ∷ q ∷ qs

-- sort.Slice, as insertion
unfoldable pub sort_requests : List CorpusRequest → List CorpusRequest
unfolding insert_request
sort_requests [] = []
sort_requests (r ∷ rs) = insert_request r (sort_requests rs)

-- loadOpenAPI, where `decode` is yaml.Unmarshal: the paths with the keys of their operations
unfoldable pub load_openapi :
    (String → Result (List (String × List String))) → Bool → String → Result (List CorpusRequest)
unfolding sort_requests spec_requests
load_openapi decode include_unsafe text =
    decode text >>= λ spec. ok (sort_requests (spec_requests include_unsafe spec))
