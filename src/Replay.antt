-- ===== src/Replay.antt =====
-- internal/replay: one request, or a corpus of them, under several identities.
pub mod Rows
pub mod Verdict
mod Examples
use Prim.Native.String.{◌++◌, len}
use claviger.Prelude.{
  ℕ, ◌-◌, String, Bool, true, false, List, [], ◌∷◌, Option, none, some, Error, Result, ok, err,
  ◌==◌, if◌then◌else◌,
}
use claviger.Text.{trim_right_of}
use claviger.Http.{Cookie, Request, Response}
use claviger.Http.Header
use claviger.Corpus.{CorpusRequest}
use claviger.Session.{Session, apply}
use claviger.Effect.{Eff}

-- Result of internal/replay/replay.go
pub record Row : Type 0 where
  pub identity : String
  pub status : ℕ
  pub size : ℕ
  pub duration : ℕ
  pub body : String
  pub error : Option Error

pub record CorpusRow : Type 0 where
  pub request : CorpusRequest
  pub results : List Row

-- What a run uses: the clock, the error of http.NewRequest, the client, whose answer may come with
-- an error of reading its body, the cookies as AddCookie writes them, and the session source.
pub record Runner (W : Type 0) : Type 0 where
  pub now : W → ℕ × W
  pub request_error : String → String → Option Error
  pub client : Request → Eff W (Response × Option Error)
  pub cookie_pair : Cookie → String
  pub source : String → Eff W Session

abbrev pub failed_row : String → ℕ → Error → Row
failed_row id duration x = record {
  identity = id;
  status = 0;
  size = 0;
  duration = duration;
  body = "";
  error = some x;
}

abbrev pub answer_row : String → ℕ → Response → Option Error → Row
answer_row id duration resp failure = record {
  identity = id;
  status = resp.status;
  size = len resp.body;
  duration = duration;
  body = resp.body;
  error = failure;
}

module _ {W : Type 0} (run : Runner W) where
  abbrev row_of : String → ℕ → Result (Response × Option Error) × W → Row × W
  row_of id start (err x, w) = let (stop, w') = run.now w in (failed_row id (stop - start) x, w')
  row_of id start (ok (resp, failure), w) =
      let (stop, w') = run.now w in (answer_row id (stop - start) resp failure, w')

  -- The request goes out, and its time is taken.
  unfoldable pub send_row : String → Request → W → Row × W
  send_row id req w = let (start, w') = run.now w in row_of id start (run.client req w')

  abbrev with_session : String → Request → Result Session × W → Row × W
  with_session id req (err x, w) = (failed_row id 0 x, w)
  with_session id req (ok s, w) = send_row id (apply run.cookie_pair s req) w

  -- One round of the loop of Run.
  unfoldable pub run_one : String → Request → W → Row × W
  run_one id req w = elim (run.request_error req.method req.target) [
    | some x ↦ (failed_row id 0 x, w)
    | none ↦ if id == "anon" then send_row id req w else with_session id req (run.source id w)
  ]

  -- Run, on the request with its header added
  unfoldable pub run_all : List String → Request → W → List Row × W
  run_all [] req w = ([], w)
  run_all (id ∷ ids) req w =
      let (row, w1) = run_one id req w in let (rows, w2) = run_all ids req w1 in (row ∷ rows, w2)

  -- RunCorpus
  unfoldable pub run_corpus : List String → List CorpusRequest → String → W → List CorpusRow × W
  run_corpus ids [] base w = ([], w)
  run_corpus ids (req ∷ reqs) base w =
      let (rows, w1) =
        run_all ids
          (record {
            method = req.method;
            target = trim_right_of base "/" ++ req.path;
            header = Header.add_all req.header [];
            body = req.body;
          })
          w in
      let (rest, w2) = run_corpus ids reqs base w1 in
      (record { request = req; results = rows } ∷ rest, w2)
