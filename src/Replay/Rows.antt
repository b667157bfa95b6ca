-- ===== src/Replay/Rows.antt =====
-- The shape of a run of internal/replay: which rows there are, and what they depend on.
use claviger.Prelude.{String, ◌≡◌, refl, List, [], ◌∷◌, map, arith}
use claviger.Http.{Request}
use claviger.Session.{Session}
use claviger.Effect.{Eff}
use claviger.Corpus.{CorpusRequest}
use claviger.Replay.{CorpusRow, Runner, run_one, send_row, run_all, run_corpus}

-- A corpus row without its answers.
abbrev pub summary : CorpusRow → CorpusRequest × List String
summary row = (row.request, map (λ r. r.identity) row.results)

abbrev pub with_ids : List String → CorpusRequest → CorpusRequest × List String
with_ids ids req = (req, ids)

module _ {W : Type 0} (run : Runner W) where
  identity-send_row :
      (id : String) (req : Request) (w : W) → (send_row run id req w).0.identity ≡ id
  unfolding send_row
  identity-send_row id req w = ground arith

  identity-run_one : (id : String) (req : Request) (w : W) → (run_one run id req w).0.identity ≡ id
  unfolding run_one
  identity-run_one id req w = grind (arith, identity-send_row)

  -- A run has one row for each identity, in the order in which they are given, whichever of them
  -- fail to log in, to send, or to read.
  pub identities-run_all :
      (ids : List String) (req : Request) (w : W)
      → map (λ row. row.identity) (run_all run ids req w).0 ≡ ids
  unfolding run_all
  identities-run_all [] req w = refl
  identities-run_all (id ∷ ids) req w =
      cc (identity-run_one id req w, identities-run_all ids req (run_one run id req w).1)

  -- A corpus run has one row for each request, in order, and each row has one result for each
  -- identity, in order.
  pub rows-run_corpus :
      (ids : List String) (reqs : List CorpusRequest) (base : String) (w : W)
      → map summary (run_corpus run ids reqs base w).0 ≡ map (λ req. with_ids ids req) reqs
  unfolding run_corpus
  rows-run_corpus ids [] base w = refl
  rows-run_corpus ids (req ∷ reqs) base w =
      grind (arith, identities-run_all, rows-run_corpus ids reqs base)

  -- The identity "anon" goes out with the bare request: its row, and what the run does to the
  -- world, are the same for every session source.
  pub run_one_anon :
      (source : String → Eff W Session) (req : Request) (w : W)
      → run_one (record run { source = source }) "anon" req w ≡ run_one run "anon" req w
  unfolding run_one send_row
  run_one_anon source req w = ground arith
