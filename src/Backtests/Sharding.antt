-- ===== src/Backtests/Sharding.antt =====
-- src/app/backtests/sharding.py: how the runs of a backtest are grouped into shards. Of a run, its
-- identifier, the symbol of its data (if it has one) and the name of its trigger (if any) are
-- modelled; of a raw configuration, the text under workflow.split_by.
pub mod Groups
use web_enigma.Base.{
  Bool, true, false, ◌||◌, if◌then◌else◌, Option, none, some, List, [], ◌∷◌, ◌++◌,
}
use web_enigma.Base.Texts.{Text, codes, text_eq, is_empty, strip, upper}
use web_enigma.Base.TextSet.{contains}
use web_enigma.Base.Dict.{Dict, get, put, text_key}
use web_enigma.Base.Result.{Result, ok, raises, ◌>>=◌, assertion_error}

pub record BacktestRunConfig : Type 0 where
  pub run_id : Text
  pub data_symbol : Option Text
  pub trigger_name : Option Text

-- normalize_split_by
unfoldable pub normalize_split_by : Text → Text
normalize_split_by value =
    if text_eq (strip value) (codes "strategy")
    then codes "trigger"
    else if text_eq (strip value) (codes "symbol_strategy")
    then codes "symbol_trigger"
    else strip value

-- _symbol_from_run
unfoldable pub symbol_of : Option Text → Text
symbol_of (some symbol) = upper symbol
symbol_of none = codes "unknown"

-- assert run.trigger is not None
unfoldable pub trigger_of : Option Text → Result Text
trigger_of (some name) = ok name
trigger_of none = raises assertion_error

-- _group_key_for_run
unfoldable pub group_key_for_run : BacktestRunConfig → Text → Result Text
group_key_for_run run split_by =
    if text_eq split_by (codes "run")
    then ok run.run_id
    else if text_eq split_by (codes "symbol")
    then ok (symbol_of run.data_symbol)
    else if text_eq split_by (codes "trigger")
    then trigger_of run.trigger_name
    else do name ← trigger_of run.trigger_name; ok (symbol_of run.data_symbol ++ codes ":" ++ name)

abbrev runs_or_none : Option (List BacktestRunConfig) → List BacktestRunConfig
runs_or_none none = []
runs_or_none (some runs) = runs

-- grouped.setdefault(key, []).append(run)
abbrev pub add_run :
    Dict Text (List BacktestRunConfig)
    → Text
    → BacktestRunConfig
    → Dict Text (List BacktestRunConfig)
add_run grouped key run = put grouped key (runs_or_none (get grouped key) ++ run ∷ [])

-- The loop of `_collect_runs_by_split`.
unfoldable pub group_runs :
    Text
    → Dict Text (List BacktestRunConfig)
    → List BacktestRunConfig
    → Result (Dict Text (List BacktestRunConfig))
group_runs split_by grouped [] = ok grouped
group_runs split_by grouped (run ∷ runs) = do
  key ← group_key_for_run run split_by
  group_runs split_by (add_run grouped key run) runs

-- {run.run_id: [run] for run in config.runs}
unfoldable pub single_runs :
    Dict Text (List BacktestRunConfig) → List BacktestRunConfig → Dict Text (List BacktestRunConfig)
single_runs grouped [] = grouped
single_runs grouped (run ∷ runs) = single_runs (put grouped run.run_id (run ∷ [])) runs

-- _collect_runs_by_split
unfoldable pub collect_runs_by_split :
    List BacktestRunConfig → Text → Result (Dict Text (List BacktestRunConfig))
collect_runs_by_split runs split_by =
    if text_eq split_by (codes "run") then ok (single_runs [] runs) else group_runs split_by [] runs

abbrev split_names : List Text
split_names =
    codes "run"
    ∷ codes "symbol"
    ∷ codes "trigger"
    ∷ codes "symbol_trigger"
    ∷ codes "strategy"
    ∷ codes "symbol_strategy"
    ∷ []

abbrev configured_split : Option Text → Text → Text
configured_split none platform_default = platform_default
configured_split (some split_by) platform_default =
    if contains split_by split_names then split_by else platform_default

-- resolve_split_by, with `none` where workflow.split_by is missing or no text
unfoldable pub resolve_split_by : Option Text → Option Text → Text → Text
resolve_split_by configured none platform_default =
    normalize_split_by (configured_split configured platform_default)
resolve_split_by configured (some override) platform_default =
    if is_empty override
    then normalize_split_by (configured_split configured platform_default)
    else normalize_split_by override
