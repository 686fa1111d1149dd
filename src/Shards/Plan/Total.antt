-- ===== src/Shards/Plan/Total.antt =====
-- src/app/datasets/sharding.py, `build_dataset_shard_plan`: a plan is made wherever one can be.
use web_enigma.Base.{
  ℕ, suc, ◌*◌, ◌≤◌, ◌<◌, ◌==◌, ltb, ◌≡◌, refl, sym, ap, subst, ◌∙◌, true, false, ◌||◌, List, [],
  ◌∷◌, arith,
}
use web_enigma.Base.Lists.{length, All}
use web_enigma.Base.Texts.{Text, codes, text_eq, text_eq_refl, lower, strip}
use web_enigma.Base.Result.{ok}
use web_enigma.Shards.{
  normalize_dataset_symbols, resolution_weight, estimate_dataset_shard_count, shard_groups_for,
  estimate_symbol_work_units, shard_count_for,
}
use web_enigma.Shards.Symbols.{occurrences, Distinct, IsNormal, normalize-IsNormal, normalize_idem}
use web_enigma.Shards.Groups.{flatten}
use web_enigma.Shards.Split.{WithinCap, shard_groups_for-partition}
use web_enigma.Shards.Count.{shard_groups_for-count}
use web_enigma.Shards.Estimate.{shard_count_for-bounds}
use web_enigma.Shards.Occurrences.{groups-normal}
use web_enigma.Shards.Plan.{
  PlanRequest, DatasetShardPlan, make_shard_plan, make_shards, per_symbol_units, plan_of, build_for,
  build_dataset_shard_plan,
}
use web_enigma.Shards.Plan.Outcome.{
  specs_from, make_shards-All, shard_symbols, shard_symbols-specs_from, length-specs_from,
  resolution_weight-positive, per_symbol_units-positive,
}

make_shard_plan-accepts :
    (plan : DatasetShardPlan) (others : List Text)
    → 0 < plan.base_symbol_work_units
    → 0 < plan.download_weight_units
    → 0 < plan.combine_weight_units
    → 0 < plan.max_symbols_per_shard
    → 0 < plan.parallelism
    → 0 < plan.shard_count
    → plan.shard_count ≡ length plan.shards
    → plan.parallelism ≤ plan.max_pods
    → plan.shard_count ≤ plan.max_shards
    → normalize_dataset_symbols plan.symbols ≡ plan.symbols
    → plan.symbols ≡ plan.symbol ∷ others
    → make_shard_plan plan ≡ ok plan
unfolding make_shard_plan
make_shard_plan-accepts plan others a b c d e f counted pods shards normal primary =
    let positive : (plan.base_symbol_work_units == 0
          || plan.download_weight_units == 0
          || plan.combine_weight_units == 0
          || plan.max_shards == 0
          || plan.max_pods == 0
          || plan.max_symbols_per_shard == 0
          || plan.shard_count == 0
          || plan.parallelism == 0)
        ≡ false =
      ground arith in
    let same_count : (plan.shard_count == length plan.shards) ≡ true = ground arith in
    let within_pods : ltb plan.max_pods plan.parallelism ≡ false = ground arith in
    let within_shards : ltb plan.max_shards plan.shard_count ≡ false = ground arith in
    rw (normal, positive, same_count, within_pods, within_shards, primary, text_eq_refl plan.symbol)
      refl

estimate-ok :
    (r : PlanRequest) (n weight : ℕ)
    → resolution_weight r.resolution ≡ ok weight
    → estimate_dataset_shard_count
        (suc n)
        r.resolution
        r.start_date
        r.end_date
        r.options_enabled
        r.max_shards
        r.target_work_units
        r.max_symbols_per_shard
      ≡ ok (
          shard_count_for
            (suc n)
            (suc n * per_symbol_units r weight)
            r.max_shards
            r.target_work_units
            r.max_symbols_per_shard)
unfolding estimate_dataset_shard_count estimate_symbol_work_units
estimate-ok r n weight e = rw e refl

-- Some group holds the first symbol, so there is one.
pub groups-positive :
    (symbol : Text) (others : List Text) (groups : List (List Text))
    → occurrences symbol (flatten groups) ≡ occurrences symbol (symbol ∷ others)
    → 0 < length groups
groups-positive symbol others [] e = ground (arith, text_eq_refl symbol)
groups-positive symbol others (g ∷ gs) e = omega arith

-- What a caller relies on of a plan for a request: the symbols are those of the request,
-- normalized; each of them is in the shards as often as there, and there at most once; each
-- shard has a symbol, and at most the cap; the shards, and the pods at a time, are within bounds.
abbrev pub IsPlanOf : PlanRequest → DatasetShardPlan → Type 0
IsPlanOf r plan =
    (plan.symbols ≡ normalize_dataset_symbols r.symbols)
    × ((x : Text)
        → occurrences x (flatten (shard_symbols plan.shards)) ≡ occurrences x plan.symbols)
    × Distinct plan.symbols
    × All (WithinCap r.max_symbols_per_shard) (shard_symbols plan.shards)
    × (length plan.shards ≤ r.max_shards)
    × (plan.parallelism ≤ r.max_pods)

module _ (sha1_hex : Text → Text) (r : PlanRequest) (symbol : Text) (others : List Text)
    (weight : ℕ) (normal : normalize_dataset_symbols r.symbols ≡ symbol ∷ others)
    (supported : (text_eq (lower (strip r.provider)) (codes "alpaca")
        || text_eq (lower (strip r.provider)) (codes "yahoo"))
      ≡ true)
    (weighed : resolution_weight r.resolution ≡ ok weight) (shards : 0 < r.max_shards)
    (pods : 0 < r.max_pods) (cap : 0 < r.max_symbols_per_shard)
    (room : length (symbol ∷ others) ≤ r.max_shards * r.max_symbols_per_shard) where
  count : ℕ
  count =
      shard_count_for (length (symbol ∷ others))
        (length (symbol ∷ others) * per_symbol_units r weight) r.max_shards r.target_work_units
        r.max_symbols_per_shard

  groups : List (List Text)
  groups = shard_groups_for (symbol ∷ others) count r.max_symbols_per_shard

  the_plan : DatasetShardPlan
  the_plan =
      plan_of sha1_hex r symbol (symbol ∷ others) weight (length groups)
        (specs_from r weight (length groups) 0 groups)

  partition :
      ((x : Text) → occurrences x (flatten groups) ≡ occurrences x (symbol ∷ others))
      × Distinct (symbol ∷ others)
      × All (WithinCap r.max_symbols_per_shard) groups
  unfolding groups
  partition =
      subst
        (λ n.
          ((x : Text)
            → occurrences x (flatten (shard_groups_for n count r.max_symbols_per_shard))
              ≡ occurrences x n)
          × Distinct n
          × All (WithinCap r.max_symbols_per_shard)
              (shard_groups_for n count r.max_symbols_per_shard))
        normal (shard_groups_for-partition r.symbols count r.max_symbols_per_shard)

  normal_idem : normalize_dataset_symbols (symbol ∷ others) ≡ symbol ∷ others
  normal_idem = subst (λ n. normalize_dataset_symbols n ≡ n) normal (normalize_idem r.symbols)

  groups-within : length groups ≤ r.max_shards
  unfolding groups count
  groups-within =
      let (low, high, enough) =
        shard_count_for-bounds (length (symbol ∷ others))
          (length (symbol ∷ others) * per_symbol_units r weight) r.max_shards r.target_work_units
          r.max_symbols_per_shard (omega arith) shards cap room in
      omega (
        arith,
        shard_groups_for-count (symbol ∷ others) count r.max_symbols_per_shard normal_idem low
            enough,
      )

  groups-some : 0 < length groups
  groups-some = groups-positive symbol others groups (partition.0 symbol)

  groups-each : All (λ g. normalize_dataset_symbols g ≡ g) groups
  groups-each =
      groups-normal (symbol ∷ others) groups
        (subst (All IsNormal) normal (normalize-IsNormal r.symbols)) partition.1
        (λ x. omega (arith, partition.0 x))

  specs-all :
      make_shards r weight (length groups) 0 groups
      ≡ ok (specs_from r weight (length groups) 0 groups)
  specs-all = make_shards-All r weight (length groups) 0 groups groups-some groups-each

  plan-accepted : make_shard_plan the_plan ≡ ok the_plan
  unfolding the_plan
  plan-accepted =
      let size = length-specs_from r weight (length groups) 0 groups in
      let units =
        per_symbol_units-positive r weight
          (resolution_weight-positive r.resolution weight weighed) in
      make_shard_plan-accepts the_plan others units (omega arith) (omega arith) cap (omega arith)
        (omega (arith, groups-some)) refl (omega arith) (omega (arith, groups-within)) normal_idem
        refl

  build_for-the_plan : build_for sha1_hex r (symbol ∷ others) ≡ ok the_plan
  unfolding build_for groups count the_plan
  build_for-the_plan =
      let within : ltb r.max_shards (length groups) ≡ false = ground (arith, groups-within) in
      rw (supported, estimate-ok r (length others) weight weighed, within, weighed, specs-all)
        plan-accepted

  build-the_plan : build_dataset_shard_plan sha1_hex r ≡ ok the_plan
  unfolding build_dataset_shard_plan
  build-the_plan = rw normal build_for-the_plan

  the_plan-IsPlanOf : IsPlanOf r the_plan
  unfolding the_plan
  the_plan-IsPlanOf =
      let symbols_of = shard_symbols-specs_from r weight (length groups) 0 groups in
      (
        sym normal,
        λ x. ap (λ g. occurrences x (flatten g)) symbols_of ∙ partition.0 x,
        partition.1,
        subst (All (WithinCap r.max_symbols_per_shard)) (sym symbols_of) partition.2,
        omega (arith, length-specs_from r weight (length groups) 0 groups, groups-within),
        omega arith,
      )

  -- A request for at least one symbol, of a supported provider and resolution, with positive
  -- limits, gets a plan wherever `max_shards` shards of `max_symbols_per_shard` symbols can hold
  -- the normalized symbols; and the plan is one of the request: it has the normalized symbols,
  -- each in exactly one shard, once; no shard is empty or over the cap; and the shards, and the
  -- pods at a time, are within their limits. `sha1_hex` is any function.
  pub build_dataset_shard_plan-total :
      (plan : DatasetShardPlan) × (build_dataset_shard_plan sha1_hex r ≡ ok plan) × IsPlanOf r plan
  build_dataset_shard_plan-total = (the_plan, build-the_plan, the_plan-IsPlanOf)
