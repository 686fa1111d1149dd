-- ===== src/Backtests/Reconciler.antt =====
-- src/app/backtests/argo_reconciler.py, with the marks and the finalization of a job of
-- src/app/backtests/service.py. The repository is the dictionary of the stored items; the phase of
-- the workflow, whether a report exists and the report that is loaded are arguments, and so is the
-- time, which is one for a call. Fields that no reconciliation changes are left out.
pub mod Stored
use web_enigma.Base.{
  ℕ, suc, ◌==◌, Bool, true, false, not, ◌&&◌, ◌||◌, if◌then◌else◌, Option, none, some, List, [],
  ◌∷◌, ◌++◌,
}
use web_enigma.Base.Texts.{Text, codes, text_eq, is_empty, lower}
use web_enigma.Base.Decimal.{decimal}
use web_enigma.Base.Dict.{Dict, get, put, has_key, text_key}
use web_enigma.Base.Result.{Result, ok, raises, ◌>>=◌, key_error}

pub record BacktestListItem : Type 0 where
  pub id : Text
  pub backtest_type : Text
  pub updated_at : ℕ
  pub status : Text
  pub report_status : Option Text
  pub total_runs : ℕ
  pub completed_runs : ℕ
  pub successful_runs : ℕ
  pub failed_runs : ℕ
  pub error_message : Option Text
  pub execution_backend : Text
  pub workflow_name : Option Text
  pub started_at : Option ℕ
  pub finished_at : Option ℕ

-- What is read of a report.
pub record Report : Type 0 where
  pub report_result : Text
  pub report_total : ℕ
  pub report_successful : ℕ
  pub report_failed : ℕ

abbrev pub Repository : Type 0
Repository = Dict Text BacktestListItem

-- What is seen of the outside: the phase of the workflow, and the report.
pub record Observation : Type 0 where
  pub phase : Option Text
  pub report_exists : Bool
  pub report : Option Report

-- SqlAlchemyBacktestJobRepository.update
unfoldable pub update : Repository → BacktestListItem → Result Repository
update jobs item = if has_key jobs item.id then ok (put jobs item.id item) else raises key_error

abbrev pub or_now : Option ℕ → ℕ → Option ℕ
or_now none now = some now
or_now (some t) now = some t

-- _mark_running
abbrev pub mark_running : BacktestListItem → ℕ → BacktestListItem
mark_running item now = record item {
  status = codes "running";
  updated_at = now;
  started_at = or_now item.started_at now;
}

-- _mark_terminal
abbrev pub mark_terminal : BacktestListItem → Text → ℕ → BacktestListItem
mark_terminal item status now = record item {
  status = status;
  updated_at = now;
  finished_at = or_now item.finished_at now;
}

-- The item of finalize_job_from_report, where there is metadata.
unfoldable pub finalized : BacktestListItem → Report → ℕ → BacktestListItem
finalized item report now = record item {
  status =
      (if text_eq report.report_result (codes "failure")
        then codes "failed"
        else codes "completed");
  report_status = some report.report_result;
  completed_runs = report.report_total;
  successful_runs = report.report_successful;
  failed_runs = report.report_failed;
  error_message =
      (if report.report_failed == 0
        then none
        else some (decimal report.report_failed ++ codes " run(s) failed"));
  updated_at = now;
  finished_at = or_now item.finished_at now;
}

-- _map_workflow_phase
unfoldable pub map_workflow_phase : Option Text → Bool → Option Text
map_workflow_phase none report_exists = none
map_workflow_phase (some phase) report_exists =
    let normalized = lower phase in
    if text_eq normalized (codes "succeeded")
    then some (if report_exists then codes "completed" else codes "running")
    else if text_eq normalized (codes "failed") || text_eq normalized (codes "error")
    then some (codes "failed")
    else some (codes "running")

abbrev pub is_vectorbt : BacktestListItem → Bool
is_vectorbt item = text_eq item.backtest_type (codes "vectorbt")

-- The status of _reconcile_item: a vectorbt job is completed with its workflow.
unfoldable pub mapped_status : BacktestListItem → Observation → Option Text
mapped_status item seen = elim seen.phase [
  | none ↦ none
  | some phase ↦
      if text_eq (lower phase) (codes "succeeded") && is_vectorbt item
      then some (codes "completed")
      else map_workflow_phase (some phase) seen.report_exists
]

-- value is not None
abbrev pub has_value : Option Text → Bool
has_value none = false
has_value (some t) = true

-- item.status in {"completed", "failed"} and item.report_status is not None
unfoldable pub is_settled : BacktestListItem → Bool
is_settled item =
    (text_eq item.status (codes "completed") || text_eq item.status (codes "failed"))
    && has_value item.report_status

-- item.execution_backend == "argo" and item.workflow_name
unfoldable pub is_argo : BacktestListItem → Bool
is_argo item =
    text_eq item.execution_backend (codes "argo")
    && elim item.workflow_name [ none ↦ false | some name ↦ not (is_empty name) ]

-- The branch of _reconcile_item for a completed workflow. A repository without the item creates it.
unfoldable pub reconcile_completed :
    Repository → BacktestListItem → Observation → ℕ → BacktestListItem × Bool × Repository
reconcile_completed jobs item seen now =
    if is_vectorbt item && not seen.report_exists
    then (record (mark_terminal item (codes "completed") now) { error_message = none }, true, jobs)
    else elim seen.report [
      | none ↦ (item, false, jobs)
      | some report ↦
          if seen.report_exists && not (has_value item.report_status)
          then (finalized item report now, true, put jobs item.id (finalized item report now))
          else (item, false, jobs)
    ]

-- The text of the error of a failed workflow.
abbrev pub phase_text : Option Text → Text
phase_text none = codes "None"
phase_text (some phase) = phase

-- The branches of _reconcile_item by the status.
unfoldable pub reconcile_status :
    Repository
    → BacktestListItem
    → Observation
    → Text
    → ℕ
    → Result (BacktestListItem × Bool × Repository)
reconcile_status jobs item seen status now =
    let failed : BacktestListItem = record (mark_terminal item (codes "failed") now) {
      error_message = some (codes "Argo workflow phase=" ++ phase_text seen.phase);
    } in
    let running = mark_running item now in
    if text_eq status (codes "completed")
    then ok (reconcile_completed jobs item seen now)
    else if text_eq status (codes "failed")
    then update jobs failed >>= (λ jobs'. ok (failed, true, jobs'))
    else if text_eq status (codes "running") && not (text_eq item.status (codes "running"))
    then update jobs running >>= (λ jobs'. ok (running, true, jobs'))
    else ok (item, false, jobs)

-- _reconcile_item: the item, whether it is changed, and the repository
unfoldable pub reconcile_item :
    Repository → BacktestListItem → Observation → ℕ → Result (BacktestListItem × Bool × Repository)
reconcile_item jobs item seen now =
    if not (is_argo item)
    then ok (item, false, jobs)
    else if is_settled item
    then ok (item, false, jobs)
    else elim (mapped_status item seen) [
      | none ↦ ok (item, false, jobs)
      | some status ↦ reconcile_status jobs item seen status now
    ]

-- reconcile_backtest; `configured` is that the submitter is
unfoldable pub reconcile_backtest :
    Repository → Text → Bool → Observation → ℕ → Result (Option BacktestListItem × Repository)
reconcile_backtest jobs backtest_id configured seen now = elim (get jobs backtest_id) [
  | none ↦ ok (none, jobs)
  | some item ↦
      if not (is_argo item) || is_settled item || not configured
      then ok (some item, jobs)
      else reconcile_item jobs item seen now
        >>= (λ (updated, changed, jobs'). ok (some updated, jobs'))
]

-- The loop of reconcile_backtest_workflows over the recent items, with what is seen of each.
unfoldable pub reconcile_items :
    Repository → List BacktestListItem → (Text → Observation) → ℕ → Result (ℕ × Repository)
reconcile_items jobs [] seen now = ok (0, jobs)
reconcile_items jobs (item ∷ items) seen now =
    (if text_eq item.execution_backend (codes "argo")
      then reconcile_item jobs item (seen item.id) now
      else ok (item, false, jobs))
    >>= (λ (updated, changed, jobs').
        reconcile_items jobs' items seen now
        >>= (λ (count, jobs''). ok ((if changed then suc count else count), jobs'')))
