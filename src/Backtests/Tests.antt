-- ===== src/Backtests/Tests.antt =====
-- A concrete backtest: three runs with two triggers.
use web_enigma.Base.{◌≡◌, refl, false, some, List, [], ◌∷◌}
use web_enigma.Base.Lists.{All}
use web_enigma.Base.Texts.{Text, codes, text_eq, strip}
use web_enigma.Base.Dict.{Dict, get, IsUnique, text_key}
use web_enigma.Base.Result.{ok}
use web_enigma.Backtests.Sharding.{
  BacktestRunConfig, group_key_for_run, trigger_of, collect_runs_by_split, normalize_split_by,
}
use web_enigma.Backtests.Sharding.Groups.{
  runs_of_key, some_runs, HasKey, collect_runs_by_split-groups,
}

abbrev macd_run : BacktestRunConfig
macd_run = record {
  run_id = codes "r1";
  data_symbol = some (codes "spy");
  trigger_name = some (codes "macd");
}

abbrev rsi_run : BacktestRunConfig
rsi_run = record {
  run_id = codes "r2";
  data_symbol = some (codes "spy");
  trigger_name = some (codes "rsi");
}

abbrev other_run : BacktestRunConfig
other_run = record {
  run_id = codes "r3";
  data_symbol = some (codes "qqq");
  trigger_name = some (codes "macd");
}

abbrev three_runs : List BacktestRunConfig
three_runs = macd_run ∷ rsi_run ∷ other_run ∷ []

normalize_split_by-strategy : normalize_split_by (codes " strategy") ≡ codes "trigger"
unfolding normalize_split_by strip text_eq
normalize_split_by-strategy = refl

three_runs-HasKey : All (HasKey (codes "trigger")) three_runs
unfolding group_key_for_run trigger_of text_eq
three_runs-HasKey = ((codes "macd", refl), ((codes "rsi", refl), ((codes "macd", refl), tt)))

trigger_is_no_run : text_eq (codes "trigger") (codes "run") ≡ false
unfolding text_eq
trigger_is_no_run = refl

macd_runs : runs_of_key (codes "trigger") (codes "macd") three_runs ≡ macd_run ∷ other_run ∷ []
unfolding group_key_for_run trigger_of text_eq
macd_runs = refl

collect_runs_by_split-groups_example :
    (d : Dict Text (List BacktestRunConfig)) × (collect_runs_by_split three_runs (codes "trigger")
      ≡ ok d)
    × ((key : Text) → get d key ≡ some_runs (runs_of_key (codes "trigger") key three_runs))
    × IsUnique d
collect_runs_by_split-groups_example =
    collect_runs_by_split-groups (codes "trigger") three_runs trigger_is_no_run three_runs-HasKey
