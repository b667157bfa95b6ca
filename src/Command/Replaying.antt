-- ===== src/Command/Replaying.antt =====
-- RunE and runCorpus of cmd/replay.go.
use Prim.Native.String.{◌++◌}
use claviger.Prelude.{
  String, Bool, not, List, [], ◌∷◌, Option, Error, bad_input, Result, ok, err, ◌>>=◌, ◌==◌,
  if◌then◌else◌,
}
use claviger.Text.{has_prefix, to_upper, trim_space, trim_right_of}
use claviger.Http.{Request, Response}
use claviger.Httpx.{TlsClientConfig}
use claviger.Httpx
use claviger.Effect.{Eff}
use claviger.Config.{Config, to_httpx}
use claviger.Config.Secrets.{load}
use claviger.Corpus.{CorpusRequest}
use claviger.Corpus.Load.{Files, load_options}
use claviger.Replay.{Row, CorpusRow, Runner, run_all, run_corpus}
use claviger.Replay.Verdict.{replay_exit, corpus_exit}
use claviger.Daemon.Flags.{TlsFlags, apply_tls_flags}
use claviger.Command.{Tool, Source, replay_source, source_get}

-- The flags of the command; `path` and `method` are given with whether they were changed.
pub record ReplayFlags : Type 0 where
  pub config : String
  pub socket : String
  pub tls : TlsFlags
  pub ids : List String
  pub corpus : String
  pub format : String
  pub include_unsafe : Bool
  pub path : String
  pub path_changed : Bool
  pub method : String
  pub method_changed : Bool

-- What the command prints: its rows, a matrix for a corpus, and how it exits.
pub record Report : Type 0 where
  pub rows : List Row
  pub matrix : List CorpusRow
  pub exit : Result (Unit {0})

abbrev pub refused : Error → Report
refused x = record { rows = []; matrix = []; exit = err x }

module _ {W J P C : Type 0} (tool : Tool W J P C) (files : Files)
    (dial : TlsClientConfig P C → Request → Eff W (Response × Option Error)) where
  abbrev lift : {A : Type 0} → (W → A × W) → Source W × W → A × (Source W × W)
  lift m (src, w) = let (a, w') = m w in (a, (src, w'))

  -- What the run uses: the client, and the sessions of the source.
  abbrev pub runner : (Request → Eff W (Response × Option Error)) → Runner (Source W × W)
  runner client = record {
    now = lift tool.builder.env.now;
    request_error = tool.builder.env.request_error;
    client = λ req. lift (client req);
    cookie_pair = tool.builder.env.cookie_pair;
    source = source_get tool;
  }

  abbrev single_report : List Row → Report
  single_report rows = record { rows = rows; matrix = []; exit = replay_exit rows }

  abbrev matrix_report : List CorpusRow → Report
  matrix_report rows = record { rows = []; matrix = rows; exit = corpus_exit rows }

  -- The source and the client of a run, or the error of making them.
  unfoldable pub run_parts :
      ReplayFlags → Config → Result (Source W × (Request → Eff W (Response × Option Error)))
  run_parts f cfg = replay_source tool f.socket f.config f.tls >>= λ src.
      Httpx.client tool.builder.certs dial (to_httpx cfg.tls) >>= λ client. ok (src, client)

  abbrev pub single_with :
      List String
      → Request
      → Result (Source W × (Request → Eff W (Response × Option Error)))
      → W
      → Report × W
  single_with ids req (err x) w = (refused x, w)
  single_with ids req (ok (src, client)) w =
      let (rows, (src', w')) = run_all (runner client) ids req (src, w) in (single_report rows, w')

  -- The request of single-request replay.
  abbrev pub single_request : ReplayFlags → Config → Request
  single_request f cfg = record {
    method = to_upper (trim_space f.method);
    target = trim_right_of cfg.target "/" ++ f.path;
    header = [];
    body = "";
  }

  unfoldable pub replay_single : ReplayFlags → Config → W → Report × W
  replay_single f cfg w =
      if not (has_prefix f.path "/")
      then (refused (bad_input "--path must begin with '/'"), w)
      else single_with f.ids (single_request f cfg) (run_parts f cfg) w

  abbrev matrix_with :
      List String
      → List CorpusRequest
      → String
      → Result (Source W × (Request → Eff W (Response × Option Error)))
      → W
      → Report × W
  matrix_with ids reqs target (err x) w = (refused x, w)
  matrix_with ids reqs target (ok (src, client)) w =
      let (rows, (src', w')) = run_corpus (runner client) ids reqs target (src, w) in
      (matrix_report rows, w')

  abbrev corpus_with : ReplayFlags → Config → Result (List CorpusRequest) → W → Report × W
  corpus_with f cfg (err x) w = (refused x, w)
  corpus_with f cfg (ok []) w = (refused (bad_input "corpus has no requests"), w)
  corpus_with f cfg (ok (req ∷ reqs)) w =
      matrix_with f.ids (req ∷ reqs) cfg.target (run_parts f cfg) w

  -- runCorpus
  unfoldable pub replay_corpus : ReplayFlags → Config → W → Report × W
  replay_corpus f cfg w =
      corpus_with f cfg (load_options files f.corpus f.format f.include_unsafe) w

  -- The checks of the arguments, and the choice of the mode.
  unfoldable pub replay_with : ReplayFlags → Config → W → Report × W
  replay_with f cfg w = elim f.ids [
    | [] ↦ (refused (bad_input "at least one --as identity is required"), w)
    | id ∷ ids ↦
        if not (f.corpus == "")
        then (if f.path_changed
            then (refused (bad_input "--corpus and --path are mutually exclusive"), w)
            else if f.method_changed
            then (refused (bad_input "--method cannot be combined with --corpus"), w)
            else replay_corpus f cfg w)
        else replay_single f cfg w
  ]

  abbrev loaded_with : ReplayFlags → Result Config → W → Report × W
  loaded_with f (err x) w = (refused x, w)
  loaded_with f (ok cfg) w = replay_with f (apply_tls_flags f.tls cfg) w

  -- RunE of the replay command
  unfoldable pub replay_command : ReplayFlags → W → Report × W
  replay_command f w = loaded_with f (load tool.sources f.config) w
