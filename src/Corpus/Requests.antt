-- ===== src/Corpus/Requests.antt =====
-- loadRequests of internal/corpus/corpus.go: a line is `METHOD /path`, a comment, or blank.
pub mod Print
use claviger.Prelude.{
  ℕ, suc, String, Bool, true, false, ◌||◌, List, [], ◌∷◌, Option, none, some, Error, bad_line,
  Result, ok, err, ◌>>=◌, ◌==◌, if◌then◌else◌,
}
use claviger.Text.{trim_space, has_prefix, fields}
use claviger.Corpus.{CorpusRequest}

abbrev pub push : Option CorpusRequest → List CorpusRequest → List CorpusRequest
push none rs = rs
push (some r) rs = r ∷ rs

-- `upper` is strings.ToUpper, of all of Unicode.
module _ (upper : String → String) where
  -- Two fields of line n, the second with a leading slash.
  unfoldable pub request_of : ℕ → List String → Result (Option CorpusRequest)
  request_of n (method ∷ path ∷ []) =
      if has_prefix path "/"
      then ok (some (record { method = upper method; path = path; header = []; body = "" }))
      else err (bad_line n "path must start with \"/\"")
  request_of n words = err (bad_line n "expected `METHOD /path`")

  -- The body of loadRequests' loop; `none` is a line that is skipped.
  unfoldable pub parse_line : ℕ → String → Result (Option CorpusRequest)
  parse_line n line =
      let text = trim_space line in
      if (text == "") || has_prefix text "#" then ok none else request_of n (fields text)

  -- The loop of loadRequests, from line n on.
  unfoldable pub read_lines : ℕ → List String → Result (List CorpusRequest)
  unfolding parse_line
  read_lines n [] = ok []
  read_lines n (line ∷ lines) =
      parse_line n line >>= λ r. read_lines (suc n) lines >>= λ rs. ok (push r rs)

  -- loadRequests, on the lines of bufio.Scanner and the error that it stopped with
  unfoldable pub load_requests :
      (String → List String × Option Error) → String → Result (List CorpusRequest)
  unfolding read_lines
  load_requests scan text =
      let (lines, failure) = scan text in
      read_lines 1 lines >>= λ rs. elim failure [ none ↦ ok rs | some x ↦ err x ]
