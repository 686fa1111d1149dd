-- ===== src/Backtests/Merge.antt =====
-- src/app/backtests/merge.py: the reports of the shards of a plan are merged. The files are a function
-- from paths: where there is a file, its reading, validation and hydration from its artifacts give the
-- results of the shard, or raise. What the rest of the report is made of (the configuration that is
-- loaded and its digest, the aggregates) is a function of the results, which may raise too; what it
-- gives is only carried and left out, as are the time and the version.
pub mod Merged
use web_enigma.Base.{
  ℕ, suc, ◌+◌, ◌-◌, ◌==◌, Bool, true, false, if◌then◌else◌, Option, none, some, List, [], ◌∷◌, ◌++◌,
}
use web_enigma.Base.Lists.{length}
use web_enigma.Base.Texts.{Text, codes, text_eq}
use web_enigma.Base.Result.{Result, ok, raises, ◌>>=◌, file_not_found}

pub record RunResult : Type 0 where
  pub run_id : Text
  pub status : Text

pub record BacktestReport : Type 0 where
  pub total_runs : ℕ
  pub successful_runs : ℕ
  pub failed_runs : ℕ
  pub report_status : Text
  pub results : List RunResult

-- _aggregate_status
unfoldable pub aggregate_status : ℕ → ℕ → Text
aggregate_status successful failed =
    if failed == 0
    then codes "success"
    else if successful == 0
    then codes "failure"
    else codes "partial_failure"

-- The loop of merge_shard_reports, over the paths of the shards.
unfoldable pub collect_results :
    (Text → Option (Result (List RunResult))) → List Text → Result (List RunResult)
collect_results files [] = ok []
collect_results files (path ∷ paths) = elim (files path) [
  | none ↦ raises file_not_found
  | some loaded ↦
      loaded >>= (λ results. collect_results files paths >>= (λ rest. ok (results ++ rest)))
]

-- sum(1 for result in results if result.status == "success")
unfoldable pub count_successful : List RunResult → ℕ
count_successful [] = 0
count_successful (r ∷ results) =
    let rest = count_successful results in
    if text_eq r.status (codes "success") then suc rest else rest

-- merge_shard_reports; `remainder` is the configuration and the aggregates of the results.
unfoldable pub merge_shard_reports :
    (Text → Option (Result (List RunResult)))
    → (List RunResult → Result (Unit {0}))
    → List Text
    → Result BacktestReport
merge_shard_reports files remainder paths = collect_results files paths >>= (λ results.
    let successful = count_successful results in
    let failed = length results - successful in
    remainder results >>= (λ _. ok (record {
      total_runs = length results;
      successful_runs = successful;
      failed_runs = failed;
      report_status = aggregate_status successful failed;
      results = results;
    })))

-- merge_exit_code
unfoldable pub merge_exit_code : BacktestReport → ℕ
merge_exit_code report =
    if text_eq report.report_status (codes "success")
    then 0
    else if text_eq report.report_status (codes "partial_failure")
    then 10
    else 20
