-- ===== src/Corpus/Openapi/Safe.antt =====
-- Which operations internal/corpus/openapi.go takes, and in which order.
use claviger.Prelude.{
  String, ◌≡◌, refl, Bool, true, false, List, [], ◌∷◌, Result, ok, arith, All, AllOk-ok, AllOk-bind,
  All-append, Bool-cases, inl, inr, if◌then◌else◌, count, ◌+◌,
}
use claviger.Text.{to_upper}
use claviger.Corpus.{CorpusRequest}
use claviger.Corpus.Openapi.{
  is_included, is_among, safe_methods, path_requests, spec_requests, insert_request, sort_requests,
  load_openapi, comes_before,
}

-- The operation may be sent under this choice of the operator.
abbrev pub IsAllowed : Bool → CorpusRequest → Type 0
IsAllowed include_unsafe req = is_included include_unsafe req.method ≡ true

path_requests-IsAllowed :
    (b : Bool) (path : String) (ops : List String) → All (IsAllowed b) (path_requests b path ops)
unfolding path_requests
path_requests-IsAllowed b path [] = tt
path_requests-IsAllowed b path (op ∷ ops) =
    let rest : All (IsAllowed b) (path_requests b path ops) = path_requests-IsAllowed b path ops in
    elim (Bool-cases (is_included b (to_upper op))) [
      | inl taken ↦ rw taken (taken, rest)
      | inr left ↦ rw left rest
    ]

spec_requests-IsAllowed :
    (b : Bool) (spec : List (String × List String)) → All (IsAllowed b) (spec_requests b spec)
unfolding spec_requests
spec_requests-IsAllowed b [] = tt
spec_requests-IsAllowed b ((path, ops) ∷ paths) =
    All-append (IsAllowed b) (path_requests b path ops) (spec_requests b paths)
      (path_requests-IsAllowed b path ops) (spec_requests-IsAllowed b paths)

-- How often a test holds is not changed by an insertion.
count-insert_request :
    (p : CorpusRequest → Bool) (r : CorpusRequest) (rs : List CorpusRequest)
    → count p (insert_request r rs) ≡ (if p r then 1 else 0) + count p rs
unfolding insert_request
count-insert_request p r [] = ground arith
count-insert_request p r (q ∷ qs) = ground (arith, count-insert_request p r qs)

count-sort_requests :
    (p : CorpusRequest → Bool) (rs : List CorpusRequest) → count p (sort_requests rs) ≡ count p rs
unfolding sort_requests
count-sort_requests p [] = refl
count-sort_requests p (r ∷ rs) =
    ground (arith, count-insert_request p r (sort_requests rs), count-sort_requests p rs)

insert_request-All :
    (P : CorpusRequest → Type 0) (r : CorpusRequest) (rs : List CorpusRequest)
    → P r
    → All P rs
    → All P (insert_request r rs)
unfolding insert_request
insert_request-All P r [] h k = (h, k)
insert_request-All P r (q ∷ qs) h (k, ks) = elim (Bool-cases (comes_before q r)) [
  | inl before ↦ rw before (k, insert_request-All P r qs h ks)
  | inr after ↦ rw after (h, (k, ks))
]

sort_requests-All :
    (P : CorpusRequest → Type 0) (rs : List CorpusRequest) → All P rs → All P (sort_requests rs)
unfolding sort_requests
sort_requests-All P [] h = tt
sort_requests-All P (r ∷ rs) (h, hs) =
    insert_request-All P r (sort_requests rs) h (sort_requests-All P rs hs)

All-safe :
    (rs : List CorpusRequest)
    → All (IsAllowed false) rs
    → All (λ req. is_among safe_methods req.method ≡ true) rs
unfolding is_included
All-safe [] h = tt
All-safe (r ∷ rs) (h, hs) = (ground (arith, h), All-safe rs hs)

-- Unless the operator asks for the unsafe methods, every request that an OpenAPI document yields
-- is a GET, a HEAD or an OPTIONS.
pub load_openapi-safe :
    (decode : String → Result (List (String × List String))) (text : String)
    (reqs : List CorpusRequest)
    → load_openapi decode false text ≡ ok reqs
    → All (λ req. is_among safe_methods req.method ≡ true) reqs
unfolding load_openapi
load_openapi-safe decode text reqs h = All-safe reqs (
    AllOk-ok (IsAllowed false) (load_openapi decode false text) reqs h (
      AllOk-bind (IsAllowed false) (decode text) _ (λ spec.
        sort_requests-All (IsAllowed false) (spec_requests false spec)
          (spec_requests-IsAllowed false spec))))

-- Nothing is lost or added by the sorting: for every test, as many requests pass it as of the
-- operations that were taken.
pub count-load_openapi :
    (decode : String → Result (List (String × List String))) (include_unsafe : Bool) (text : String)
    (spec : List (String × List String)) (p : CorpusRequest → Bool) (reqs : List CorpusRequest)
    → decode text ≡ ok spec
    → load_openapi decode include_unsafe text ≡ ok reqs
    → count p reqs ≡ count p (spec_requests include_unsafe spec)
unfolding load_openapi
count-load_openapi decode include_unsafe text spec p reqs d h =
    let sorted : sort_requests (spec_requests include_unsafe spec) ≡ reqs =
      (let e : ok (sort_requests (spec_requests include_unsafe spec)) ≡ ok reqs = rw d at h in
        cc e) in
    rw (← sorted) (count-sort_requests p (spec_requests include_unsafe spec))
