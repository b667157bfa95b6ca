-- ===== src/Replay/Examples.antt =====
-- Runs of the replay at concrete identities.
use claviger.Prelude.{ℕ, ◌+◌, ◌≡◌, List, [], ◌∷◌, map, none, external, ok, err}
use claviger.Http.{Response}
use claviger.Corpus.{CorpusRequest}
use claviger.Replay.{Row, Runner, run_corpus, failed_row, answer_row}
use claviger.Replay.Rows.{rows-run_corpus, summary}

abbrev answer : Response
answer = record { status = 200; header = []; cookies = []; body = "ok" }

abbrev runner : Runner ℕ
runner = record {
  now = λ w. (w, w + 1);
  request_error = λ m u. none;
  client = λ req w. (ok (answer, none), w + 1);
  cookie_pair = λ c. c.name;
  source = λ id w. (err (external "refused"), w + 1);
}

abbrev entry : CorpusRequest
entry = record { method = "GET"; path = "/a"; header = []; body = "" }

abbrev refused : Row
refused = failed_row "alice" 0 (external "refused")

rows-run_corpus_example :
    map summary (run_corpus runner ("anon" ∷ []) (entry ∷ []) "http://t/" 0).0
    ≡ (entry, "anon" ∷ []) ∷ []
rows-run_corpus_example = rows-run_corpus runner ("anon" ∷ []) (entry ∷ []) "http://t/" 0

abbrev rows : List Row
rows =
    answer_row "anon" 1 (record answer { status = 401 }) none
    ∷ refused
    ∷ answer_row "bob" 1 answer none
    ∷ []
