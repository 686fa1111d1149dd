-- ===== src/Backtests/Runs.antt =====
-- Reconciliations and merges of concrete backtests.
use web_enigma.Base.{◌≡◌, refl, true, false, none, some, List, [], ◌∷◌, if◌then◌else◌}
use web_enigma.Base.Texts.{codes, text_eq, lower}
use web_enigma.Base.Dict.{text_key}
use web_enigma.Base.Result.{Result, ok}
use web_enigma.Backtests.Reconciler.{
  BacktestListItem, Observation, Repository, reconcile_item, reconcile_status, reconcile_completed,
  mapped_status, is_settled, is_argo,
}
use web_enigma.Backtests.Merge.{RunResult}
use web_enigma.Backtests.Merge.Merged.{Files}

abbrev vectorbt_item : BacktestListItem
vectorbt_item = record {
  id = codes "b1";
  backtest_type = codes "vectorbt";
  updated_at = 0;
  status = codes "running";
  report_status = none;
  total_runs = 1;
  completed_runs = 0;
  successful_runs = 0;
  failed_runs = 0;
  error_message = none;
  execution_backend = codes "argo";
  workflow_name = some (codes "wf");
  started_at = some 0;
  finished_at = none;
}

abbrev jobs : Repository
jobs = (codes "b1", vectorbt_item) ∷ []

abbrev succeeded : Observation
succeeded = record { phase = some (codes "Succeeded"); report_exists = false; report = none }

-- The workflow of a vectorbt job succeeded: the job is returned as completed, and the stored one runs.
not_saved :
    reconcile_item jobs vectorbt_item succeeded 9
    ≡ ok (
      record vectorbt_item { status = codes "completed"; updated_at = 9; finished_at = some 9 },
      true,
      jobs,
    )
unfolding reconcile_item reconcile_status reconcile_completed mapped_status is_settled is_argo
    text_eq lower
not_saved = refl

abbrev files : Files
files path =
    if text_eq path (codes "a")
    then some (ok (record { run_id = codes "r1"; status = codes "success" } ∷ []))
    else some (ok (record { run_id = codes "r2"; status = codes "failed" } ∷ []))

abbrev remainder : List RunResult → Result (Unit {0})
remainder results = ok tt
