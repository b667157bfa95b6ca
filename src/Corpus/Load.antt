-- ===== src/Corpus/Load.antt =====
-- LoadOptions and detectFormat of internal/corpus/corpus.go.
use claviger.Prelude.{
  String, Bool, ◌||◌, List, Option, Error, bad_input, Result, err, ◌>>=◌, ◌==◌, if◌then◌else◌,
}
use claviger.Text.{to_lower, has_suffix, contains}
use claviger.Corpus.{CorpusRequest}
use claviger.Corpus.Requests.{load_requests}
use claviger.Corpus.Har.{HarRequest, load_har}
use claviger.Corpus.Openapi.{load_openapi}

-- detectFormat
unfoldable pub detect_format : String → String → String
detect_format path text =
    let lower = to_lower path in
    if has_suffix lower ".har"
    then "har"
    else if has_suffix lower ".yaml" || has_suffix lower ".yml" || has_suffix lower ".json"
    then (let c = to_lower text in
        if contains c "openapi" || contains c "swagger" then "openapi" else "requests")
    else "requests"

-- What the loaders take from os, bufio, strings, encoding/json, net/url and yaml.
pub record Files : Type 0 where
  pub read_file : String → Result String
  -- strings.ToUpper, of all of Unicode
  pub upper : String → String
  pub scan_lines : String → List String × Option Error
  pub decode_har : String → Result (List HarRequest)
  pub request_uri : String → Result String
  pub decode_spec : String → Result (List (String × List String))

-- The switch on the format.
unfoldable pub load_as : Files → String → Bool → String → Result (List CorpusRequest)
load_as files format include_unsafe text =
    if format == "requests"
    then load_requests files.upper files.scan_lines text
    else if format == "har"
    then load_har files.decode_har files.request_uri text
    else if format == "openapi"
    then load_openapi files.decode_spec include_unsafe text
    else err (bad_input "unknown corpus format")

-- LoadOptions
unfoldable pub load_options : Files → String → String → Bool → Result (List CorpusRequest)
load_options files path format include_unsafe = files.read_file path >>= λ text.
    load_as files (if format == "" then detect_format path text else format) include_unsafe text
