-- ===== src/Shards/Tests.antt =====
-- A concrete plan: four symbols, one of them twice, in two shards.
use web_enigma.Base.{◌≤◌, ◌*◌, ◌≡◌, refl, false, List, [], ◌∷◌, arith}
use web_enigma.Base.Lists.{All, length}
use web_enigma.Base.Texts.{Text, codes, text_eq, text_le, upper, lower, strip}
use web_enigma.Base.Result.{ok}
use web_enigma.Base.TextSet.{contains}
use web_enigma.Base.Sorted.{sorted, insert_sorted}
use web_enigma.Shards.{
  normalize_dataset_symbols, normalize_into, build_symbol_groups, shard_groups_for,
  resolution_weight, non_empty_groups, place_all, place_at, lightest, least_index, is_lighter,
  split_groups_to_symbol_limit, chunks,
}
use web_enigma.Shards.Symbols.{occurrences, Distinct}
use web_enigma.Shards.Groups.{flatten, IsBalanced, build_symbol_groups-fair}
use web_enigma.Shards.Split.{WithinCap, shard_groups_for-partition}
use web_enigma.Shards.Plan.{PlanRequest, DatasetShardPlan, build_dataset_shard_plan}
use web_enigma.Shards.Plan.Sound.{build_dataset_shard_plan-IsPlanOf}
use web_enigma.Shards.Plan.Total.{IsPlanOf, build_dataset_shard_plan-total}

abbrev given : List Text
given = codes " tsla" ∷ codes "AAPL" ∷ codes "TSLA" ∷ codes "msft\n" ∷ codes "" ∷ codes "SPY" ∷ []

abbrev normalized : List Text
normalized = codes "TSLA" ∷ codes "AAPL" ∷ codes "MSFT" ∷ codes "SPY" ∷ []

given-normalized : normalize_dataset_symbols given ≡ normalized
unfolding normalize_dataset_symbols normalize_into upper strip contains text_eq
given-normalized = refl

given-groups :
    build_symbol_groups given 3
    ≡ (codes "AAPL" ∷ codes "TSLA" ∷ []) ∷ (codes "MSFT" ∷ []) ∷ (codes "SPY" ∷ []) ∷ []
unfolding normalize_dataset_symbols normalize_into upper strip contains text_eq build_symbol_groups
    non_empty_groups place_all sorted insert_sorted text_le place_at lightest least_index is_lighter
given-groups = refl

-- A cap that the count of shards does not allow for splits a group.
given-split :
    shard_groups_for normalized 1 3
    ≡ (codes "AAPL" ∷ codes "MSFT" ∷ codes "SPY" ∷ []) ∷ (codes "TSLA" ∷ []) ∷ []
unfolding normalize_dataset_symbols normalize_into upper strip contains text_eq build_symbol_groups
    non_empty_groups place_all sorted insert_sorted text_le place_at lightest least_index is_lighter
    shard_groups_for split_groups_to_symbol_limit chunks
given-split = refl

build_symbol_groups-fair_example :
    ((x : Text)
      → occurrences x (flatten (build_symbol_groups given 3))
        ≡ occurrences x (normalize_dataset_symbols given))
    × Distinct (normalize_dataset_symbols given)
    × IsBalanced (build_symbol_groups given 3)
build_symbol_groups-fair_example = build_symbol_groups-fair given 3

shard_groups_for-partition_example :
    ((x : Text)
      → occurrences x (flatten (shard_groups_for (normalize_dataset_symbols given) 1 3))
        ≡ occurrences x (normalize_dataset_symbols given))
    × Distinct (normalize_dataset_symbols given)
    × All (WithinCap 3) (shard_groups_for (normalize_dataset_symbols given) 1 3)
shard_groups_for-partition_example = shard_groups_for-partition given 1 3

abbrev request : PlanRequest
request = record {
  dataset_id = codes "d1";
  symbols = given;
  provider = codes " Alpaca";
  resolution = codes "1d";
  start_date = 100;
  end_date = 109;
  options_enabled = false;
  options_feed = codes "indicative";
  work_dir = codes "/data/d1";
  max_shards = 2;
  max_pods = 4;
  target_work_units = 5000;
  max_symbols_per_shard = 2;
}

build_dataset_shard_plan-total_example :
    (plan : DatasetShardPlan) × (build_dataset_shard_plan (λ text. text) request ≡ ok plan)
    × IsPlanOf request plan
unfolding resolution_weight text_eq lower strip
build_dataset_shard_plan-total_example =
    build_dataset_shard_plan-total (λ text. text) request (codes "TSLA")
      (codes "AAPL" ∷ codes "MSFT" ∷ codes "SPY" ∷ []) 1 given-normalized refl refl (omega arith)
      (omega arith) (omega arith) (omega arith)

request-planned :
    (plan : DatasetShardPlan) × (build_dataset_shard_plan (λ text. text) request ≡ ok plan)
    × IsPlanOf request plan
unfolding resolution_weight text_eq lower strip
request-planned =
    build_dataset_shard_plan-total (λ text. text) request (codes "TSLA")
      (codes "AAPL" ∷ codes "MSFT" ∷ codes "SPY" ∷ []) 1 given-normalized refl refl (omega arith)
      (omega arith) (omega arith) (omega arith)

build_dataset_shard_plan-IsPlanOf_example :
    IsPlanOf request request-planned.0 × (length request-planned.0.symbols ≤ 2 * 2)
build_dataset_shard_plan-IsPlanOf_example =
    build_dataset_shard_plan-IsPlanOf (λ text. text) request request-planned.0 request-planned.1
