-- ===== src/Shards/Plan.antt =====
-- src/app/datasets/sharding.py: the plan, its validators and `build_dataset_shard_plan`.
-- `work_dir` is the resolved output directory; the directories that the function makes are left
-- out. `sha1_hex` is the hex digest of a text's UTF-8 bytes. The versions and split keys, which
-- are constants, are left out of the plan. A `ValidationError` is a `ValueError`.
pub mod Outcome
pub mod Total
pub mod Sound
use web_enigma.Base.{
  ℕ, zero, suc, ◌+◌, ◌*◌, ◌/◌, ◌%◌, ◌==◌, ltb, leb, min, max, Bool, true, false, not, ◌&&◌, ◌||◌,
  if◌then◌else◌, Option, none, some, List, [], ◌∷◌, ◌++◌,
}
use web_enigma.Base.Lists.{length, take}
use web_enigma.Base.Texts.{Text, codes, text_eq, is_empty, strip, lower}
use web_enigma.Base.Decimal.{decimal}
use web_enigma.Base.Result.{Result, ok, raises, ◌>>=◌, value_error}
use web_enigma.Shards.{
  normalize_dataset_symbols, resolution_weight, days_span, doubled_if, estimate_dataset_shard_count,
  shard_groups_for,
}

-- The keyword arguments of `build_dataset_shard_plan`.
pub record PlanRequest : Type 0 where
  pub dataset_id : Text
  pub symbols : List Text
  pub provider : Text
  pub resolution : Text
  pub start_date : ℕ
  pub end_date : ℕ
  pub options_enabled : Bool
  pub options_feed : Text
  pub work_dir : Text
  pub max_shards : ℕ
  pub max_pods : ℕ
  pub target_work_units : ℕ
  pub max_symbols_per_shard : ℕ

pub record DatasetShardSpec : Type 0 where
  pub shard_id : Text
  pub shard_index : ℕ
  pub shard_count : ℕ
  pub symbols : List Text
  pub symbols_csv : Text
  pub symbol_count : ℕ
  pub output_dir : Text
  pub progress_total_units : ℕ
  pub progress_symbol_units : ℕ
  pub market_parquet_path : Text
  pub market_manifest_path : Text
  pub options_parquet_path : Option Text
  pub options_manifest_path : Option Text
  pub work_units : ℕ

pub record DatasetShardPlan : Type 0 where
  pub dataset_id : Text
  pub symbol : Text
  pub symbols : List Text
  pub provider : Text
  pub resolution : Text
  pub start_date : ℕ
  pub end_date : ℕ
  pub options_enabled : Bool
  pub options_feed : Text
  pub output_dir : Text
  pub plan_path : Text
  pub dataset_output_path : Text
  pub dataset_manifest_path : Text
  pub options_output_path : Option Text
  pub options_manifest_path : Option Text
  pub estimated_total_work_units : ℕ
  pub base_symbol_work_units : ℕ
  pub download_weight_units : ℕ
  pub combine_weight_units : ℕ
  pub max_shards : ℕ
  pub max_pods : ℕ
  pub max_symbols_per_shard : ℕ
  pub shard_count : ℕ
  pub parallelism : ℕ
  pub shards : List DatasetShardSpec

-- separator.join(texts)
abbrev pub join : Text → List Text → Text
join separator [] = []
join separator (t ∷ []) = t
join separator (t ∷ u ∷ ts) = t ++ separator ++ join separator (u ∷ ts)

abbrev pub comma_separated : List Text → Text
comma_separated = join (codes ",")

-- directory / name
abbrev pub child : Text → Text → Text
child directory name = directory ++ codes "/" ++ name

abbrev pub if_enabled : Bool → Text → Option Text
if_enabled true path = some path
if_enabled false path = none

-- DatasetShardSpec(...): the bounds of the fields, `normalize_symbols`, `validate_symbol_count`
unfoldable pub make_shard_spec : DatasetShardSpec → Result DatasetShardSpec
make_shard_spec spec =
    let symbols = normalize_dataset_symbols spec.symbols in
    let expected_csv = comma_separated symbols in
    if spec.shard_count == 0
      || spec.progress_total_units == 0
      || spec.progress_symbol_units == 0
      || spec.work_units == 0
    then raises value_error
    else if not (spec.symbol_count == length symbols)
    then raises value_error
    else if not (is_empty spec.symbols_csv) && not (text_eq spec.symbols_csv expected_csv)
    then raises value_error
    else ok (record spec {
      symbols = symbols;
      symbols_csv = if is_empty spec.symbols_csv then expected_csv else spec.symbols_csv;
    })

-- self.symbols and self.symbol != self.symbols[0]
abbrev pub is_not_primary : Text → List Text → Bool
is_not_primary symbol [] = false
is_not_primary symbol (s ∷ ss) = not (text_eq symbol s)

-- DatasetShardPlan(...): the bounds of the fields, `normalize_symbols`, `validate_shards`
unfoldable pub make_shard_plan : DatasetShardPlan → Result DatasetShardPlan
make_shard_plan plan =
    let symbols = normalize_dataset_symbols plan.symbols in
    if plan.base_symbol_work_units == 0
      || plan.download_weight_units == 0
      || plan.combine_weight_units == 0
      || plan.max_shards == 0
      || plan.max_pods == 0
      || plan.max_symbols_per_shard == 0
      || plan.shard_count == 0
      || plan.parallelism == 0
    then raises value_error
    else if not (plan.shard_count == length plan.shards)
    then raises value_error
    else if ltb plan.max_pods plan.parallelism
    then raises value_error
    else if ltb plan.max_shards plan.shard_count
    then raises value_error
    else if is_not_primary plan.symbol symbols
    then raises value_error
    else ok (record plan { symbols = symbols })

-- f"shard-{index:03d}"
abbrev pub padded : ℕ → Text
padded n =
    if ltb n 10
    then codes "00" ++ decimal n
    else if ltb n 100
    then codes "0" ++ decimal n
    else decimal n

-- _shard_work_units, its first component
abbrev pub per_symbol_units : PlanRequest → ℕ → ℕ
per_symbol_units r weight =
    doubled_if r.options_enabled (days_span r.start_date r.end_date * weight)

-- The arguments that `DatasetShardSpec` is given for the shard at an index.
abbrev pub shard_spec_at : PlanRequest → ℕ → ℕ → ℕ → List Text → DatasetShardSpec
shard_spec_at r weight group_count shard_index shard_symbols =
    let shard_id = codes "shard-" ++ padded shard_index in
    let shard_output_dir = child (child r.work_dir (codes "shards")) shard_id in
    let work_units = max 1 (length shard_symbols * per_symbol_units r weight) in
    record {
      shard_id = shard_id;
      shard_index = shard_index;
      shard_count = group_count;
      symbols = shard_symbols;
      symbols_csv = comma_separated shard_symbols;
      symbol_count = length shard_symbols;
      output_dir = shard_output_dir;
      progress_total_units = work_units;
      progress_symbol_units = max 1 (per_symbol_units r weight);
      market_parquet_path = child shard_output_dir (codes "market.parquet");
      market_manifest_path = child shard_output_dir (codes "market.manifest.json");
      options_parquet_path =
          if_enabled r.options_enabled (child shard_output_dir (codes "options.parquet"));
      options_manifest_path =
          if_enabled r.options_enabled (child shard_output_dir (codes "options.manifest.json"));
      work_units = work_units;
    }

-- The loop over `enumerate(shard_groups)`, from an index on.
unfoldable pub make_shards :
    PlanRequest → ℕ → ℕ → ℕ → List (List Text) → Result (List DatasetShardSpec)
make_shards r weight group_count shard_index [] = ok []
make_shards r weight group_count shard_index (g ∷ gs) = do
  shard ← make_shard_spec (shard_spec_at r weight group_count shard_index g)
  shards ← make_shards r weight group_count (suc shard_index) gs
  ok (shard ∷ shards)

module _ (sha1_hex : Text → Text) where
  -- dataset_slug
  abbrev pub dataset_slug : List Text → Text
  dataset_slug symbols =
      let normalized = normalize_dataset_symbols symbols in
      if is_empty normalized
      then codes "dataset"
      else if leb (length normalized) 3
      then join (codes "-") normalized
      else take 12 (sha1_hex (comma_separated normalized))

  -- The arguments that `DatasetShardPlan` is given.
  abbrev pub plan_of :
      PlanRequest → Text → List Text → ℕ → ℕ → List DatasetShardSpec → DatasetShardPlan
  plan_of r symbol normalized_symbols weight group_count shards =
      let provider = lower (strip r.provider) in
      let slug = dataset_slug normalized_symbols in
      let name = slug ++ codes "-" ++ provider ++ codes "-" ++ r.resolution in
      let options_name = slug ++ codes "-alpaca-options-" ++ r.resolution in
      let total = max 1 (length normalized_symbols * per_symbol_units r weight) in
      record {
        dataset_id = r.dataset_id;
        symbol = symbol;
        symbols = normalized_symbols;
        provider = provider;
        resolution = r.resolution;
        start_date = r.start_date;
        end_date = r.end_date;
        options_enabled = r.options_enabled;
        options_feed = r.options_feed;
        output_dir = r.work_dir;
        plan_path = child r.work_dir (codes "shard-plan.json");
        dataset_output_path = child r.work_dir (name ++ codes ".parquet");
        dataset_manifest_path = child r.work_dir (name ++ codes ".manifest.json");
        options_output_path =
            if_enabled r.options_enabled (child r.work_dir (options_name ++ codes ".parquet"));
        options_manifest_path =
            if_enabled r.options_enabled
              (child r.work_dir (options_name ++ codes ".manifest.json"));
        estimated_total_work_units = total;
        base_symbol_work_units = per_symbol_units r weight;
        download_weight_units = total;
        combine_weight_units = max 1 (length shards);
        max_shards = r.max_shards;
        max_pods = r.max_pods;
        max_symbols_per_shard = r.max_symbols_per_shard;
        shard_count = length shards;
        parallelism = max 1 (min r.max_pods group_count);
        shards = shards;
      }

  -- The body of `build_dataset_shard_plan`, from the normalized symbols on.
  unfoldable pub build_for : PlanRequest → List Text → Result DatasetShardPlan
  build_for r [] = raises value_error
  build_for r (symbol ∷ others) =
      let normalized_symbols = symbol ∷ others in
      if not (
        text_eq (lower (strip r.provider)) (codes "alpaca")
        || text_eq (lower (strip r.provider)) (codes "yahoo"))
      then raises value_error
      else do
        shard_count ←
            estimate_dataset_shard_count (length normalized_symbols) r.resolution r.start_date
              r.end_date r.options_enabled r.max_shards r.target_work_units r.max_symbols_per_shard
        let shard_groups = shard_groups_for normalized_symbols shard_count r.max_symbols_per_shard
        if ltb r.max_shards (length shard_groups) then raises value_error else do
          weight ← resolution_weight r.resolution
          shards ← make_shards r weight (length shard_groups) 0 shard_groups
          make_shard_plan (plan_of r symbol normalized_symbols weight (length shard_groups) shards)

  -- build_dataset_shard_plan
  unfoldable pub build_dataset_shard_plan : PlanRequest → Result DatasetShardPlan
  build_dataset_shard_plan r = build_for r (normalize_dataset_symbols r.symbols)
