-- ===== src/Backtests/Reconciler/Stored.antt =====
-- src/app/backtests/argo_reconciler.py: what a reconciliation stores.
use web_enigma.Base.{ℕ, ◌≡◌, Bool, true, false, ◌||◌, Option, none, some, ◌⊎◌}
use web_enigma.Base.Texts.{Text, codes, text_eq, lower}
use web_enigma.Base.Dict.{get, text_key}
use web_enigma.Base.Result.{Result, ok}
use web_enigma.Backtests.Reconciler.{
  BacktestListItem, Report, Repository, Observation, mark_running, finalized, is_settled, is_argo,
  is_vectorbt, has_value,
}

abbrev pub Reconciled : Type 0
Reconciled = BacktestListItem × Bool × Repository

abbrev pub is_success : Option Text → Bool
is_success none = false
is_success (some phase) = text_eq (lower phase) (codes "succeeded")

abbrev pub is_failure : Option Text → Bool
is_failure none = false
is_failure (some phase) =
    text_eq (lower phase) (codes "failed") || text_eq (lower phase) (codes "error")

-- Why an item is left as it is: it is no workflow's, or is settled, or nothing is known of its
-- workflow; or the workflow succeeded and there is a report, which cannot be loaded or is known; or
-- the workflow goes on and the item is running.
abbrev pub IsLeft : BacktestListItem → Observation → Type 0
IsLeft item seen =
    (is_argo item ≡ false)
    ⊎ (is_settled item ≡ true)
    ⊎ (seen.phase ≡ none)
    ⊎ (is_success seen.phase ≡ true)
      × (seen.report_exists ≡ true)
      × ((seen.report ≡ none) ⊎ (has_value item.report_status ≡ true))
    ⊎ (is_failure seen.phase ≡ false) × (text_eq item.status (codes "running") ≡ true)

-- The item that is stored: failed with a failed workflow, finalized from its report with one that
-- succeeded, running where the workflow neither failed nor succeeded with a report.
abbrev pub IsStep : BacktestListItem → Observation → ℕ → BacktestListItem → Type 0
IsStep item seen now updated =
    (is_failure seen.phase ≡ true) × (updated.status ≡ codes "failed")
    ⊎ ((report : Report) × (seen.report ≡ some report)
        × (is_success seen.phase ≡ true)
        × (seen.report_exists ≡ true)
        × (updated ≡ finalized item report now))
    ⊎ (is_failure seen.phase ≡ false)
      × ((is_success seen.phase ≡ false) ⊎ (seen.report_exists ≡ false))
      × (updated ≡ mark_running item now)

-- The item that is returned is the one that is stored, but for a vectorbt job without a report.
abbrev pub IsStored :
    Repository → BacktestListItem → Observation → ℕ → BacktestListItem → Bool → Repository → Type 0
IsStored jobs item seen now updated changed jobs' =
    ((changed ≡ false) × (updated ≡ item) × (jobs' ≡ jobs) × IsLeft item seen)
    ⊎ ((changed ≡ true) × (get jobs' item.id ≡ some updated) × IsStep item seen now updated)
    ⊎ ((changed ≡ true)
        × (is_success seen.phase ≡ true)
        × (is_vectorbt item ≡ true)
        × (seen.report_exists ≡ false)
        × (updated.status ≡ codes "completed")
        × (jobs' ≡ jobs))

abbrev pub KeepsOthers : Repository → Text → Repository → Type 0
KeepsOthers jobs id jobs' =
    (other : Text) → text_eq id other ≡ false → get jobs' other ≡ get jobs other

-- What the status says of the workflow.
abbrev IsMapped : BacktestListItem → Observation → Text → Type 0
IsMapped item seen status =
    (status ≡ codes "completed")
      × (is_success seen.phase ≡ true)
      × ((is_vectorbt item ≡ true) ⊎ (seen.report_exists ≡ true))
    ⊎ (status ≡ codes "failed") × (is_failure seen.phase ≡ true)
    ⊎ (status ≡ codes "running")
      × (is_failure seen.phase ≡ false)
      × ((is_success seen.phase ≡ false) ⊎ (seen.report_exists ≡ false))

module _ (jobs : Repository) (item : BacktestListItem) (seen : Observation) (now : ℕ) where
  -- The call returns, with an item that is stored as described.
  abbrev pub IsExplained : Result Reconciled → Type 0
  IsExplained run =
      (updated : BacktestListItem) × (changed : Bool) × (jobs' : Repository) × (run
        ≡ ok (updated, changed, jobs'))
      × IsStored jobs item seen now updated changed jobs'
      × KeepsOthers jobs item.id jobs'
