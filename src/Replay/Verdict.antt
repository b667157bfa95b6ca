-- ===== src/Replay/Verdict.antt =====
-- The verdicts of cmd/replay.go on the rows of a run.
use claviger.Prelude.{
  ◌≡◌, refl, Bool, true, false, not, ◌&&◌, List, [], ◌∷◌, Option, none, some, Result, ok, err,
  bad_input, arith, eqb, ltb, all, if◌then◌else◌, length, ◌+◌, ◌≤◌, ℕ,
}
use claviger.Replay.{Row, CorpusRow}

abbrev pub has_error : Row → Bool
has_error r = elim r.error [ none ↦ false | some x ↦ true ]

-- The loop of statusesDiffer. `first` is the status seen first, none for its sentinel -1.
unfoldable pub differ_from : Option ℕ → List Row → Bool
differ_from first [] = false
differ_from none (r ∷ rs) = differ_from (if has_error r then none else some r.status) rs
differ_from (some k) (r ∷ rs) =
    let rest = differ_from (some k) rs in
    if has_error r then rest else if not (eqb r.status k) then true else rest

-- statusesDiffer
unfoldable pub statuses_differ : List Row → Bool
statuses_differ rs = differ_from none rs

-- The statuses of the rows without an error.
abbrev pub answered : List Row → List ℕ
answered [] = []
answered (r ∷ rs) = if has_error r then answered rs else r.status ∷ answered rs

abbrev pub all_same : List ℕ → Bool
all_same [] = true
all_same (k ∷ ks) = all (λ n. eqb n k) ks

differ_from-some :
    (k : ℕ) (rs : List Row) → differ_from (some k) rs ≡ not (all (λ n. eqb n k) (answered rs))
unfolding differ_from
differ_from-some k [] = refl
differ_from-some k (r ∷ rs) = ground (arith, differ_from-some k rs)

differ_from-none : (rs : List Row) → differ_from none rs ≡ not (all_same (answered rs))
unfolding differ_from
differ_from-none [] = refl
differ_from-none (r ∷ rs) = ground (arith, differ_from-none rs, differ_from-some r.status rs)

-- A row of the matrix is marked exactly when the statuses of the identities that were answered
-- are not all the same.
pub statuses_differ_iff : (rs : List Row) → statuses_differ rs ≡ not (all_same (answered rs))
unfolding statuses_differ
statuses_differ_iff rs = differ_from-none rs

-- The count of failures in a row of results.
unfoldable pub failures : List Row → ℕ
failures [] = 0
failures (r ∷ rs) = (if has_error r then 1 else 0) + failures rs

-- The exit rule of single-request replay: an error when there are results and all of them failed.
unfoldable pub replay_exit : List Row → Result (Unit {0})
replay_exit rs =
    if ltb 0 (length rs) && eqb (failures rs) (length rs)
    then err (bad_input "all identities failed")
    else ok tt

-- The count of the corpus rows in which every result failed.
unfoldable pub all_failed : List CorpusRow → ℕ
all_failed [] = 0
all_failed (row ∷ rows) =
    (if eqb (failures row.results) (length row.results) then 1 else 0) + all_failed rows

-- The exit rule of runCorpus.
unfoldable pub corpus_exit : List CorpusRow → Result (Unit {0})
corpus_exit rows =
    if ltb 0 (length rows) && eqb (all_failed rows) (length rows)
    then err (bad_input "all requests failed")
    else ok tt

failures-le : (rs : List Row) → failures rs ≤ length rs
unfolding failures
failures-le [] = omega arith
failures-le (r ∷ rs) = ground (arith, failures-le rs)

failures-all : (rs : List Row) → eqb (failures rs) (length rs) ≡ all has_error rs
unfolding failures
failures-all [] = refl
failures-all (r ∷ rs) = ground (arith, failures-all rs, failures-le rs)

-- A replay with results that exits without an error has one that was answered.
pub replay_exit_ok :
    (rs : List Row) → 1 ≤ length rs → replay_exit rs ≡ ok tt → all has_error rs ≡ false
unfolding replay_exit
replay_exit_ok rs some_rows h = ground (arith, h, failures-all rs)

all_failed-le : (rows : List CorpusRow) → all_failed rows ≤ length rows
unfolding all_failed
all_failed-le [] = omega arith
all_failed-le (row ∷ rows) = ground (arith, all_failed-le rows)

all_failed-all :
    (rows : List CorpusRow)
    → eqb (all_failed rows) (length rows) ≡ all (λ row. all has_error row.results) rows
unfolding all_failed
all_failed-all [] = refl
all_failed-all (row ∷ rows) =
    ground (arith, failures-all row.results, all_failed-all rows, all_failed-le rows)

-- Corpus replay exits with an error exactly when it has a request, and every result of every
-- request has an error.
pub corpus_exit_lem :
    (rows : List CorpusRow)
    → corpus_exit rows ≡ (
        if ltb 0 (length rows) && all (λ row. all has_error row.results) rows
        then err (bad_input "all requests failed")
        else ok tt)
unfolding corpus_exit
corpus_exit_lem rows = rw all_failed-all
