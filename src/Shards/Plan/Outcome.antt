-- ===== src/Shards/Plan/Outcome.antt =====
-- src/app/datasets/sharding.py, `build_dataset_shard_plan`: when there is a plan, and what it holds.
use native.Mathlib.Nat.{mul-le-mul}
use web_enigma.Base.{
  ℕ, suc, ◌*◌, ◌≤◌, ◌<◌, ◌==◌, ◌≡◌, refl, sym, ap, Bool, true, false, not, ◌||◌, ◌&&◌,
  if◌then◌else◌, List, [], ◌∷◌, arith,
}
use web_enigma.Base.Lists.{length, All}
use web_enigma.Base.Texts.{Text, text_eq, text_eq_refl, is_empty}
use web_enigma.Base.Result.{ok}
use web_enigma.Shards.{normalize_dataset_symbols, resolution_weight, days_span, doubled_if}
use web_enigma.Shards.Plan.{
  PlanRequest, DatasetShardSpec, make_shard_spec, shard_spec_at, make_shards, comma_separated,
  per_symbol_units,
}

filled_csv :
    (given expected : Text)
    → given ≡ expected
    → (if is_empty given then expected else given) ≡ given
filled_csv [] expected e = sym e
filled_csv (c ∷ given) expected e = refl

-- The validators of a shard change nothing where the symbols are normalized, the count and the
-- text are theirs, and the units are positive.
make_shard_spec-accepts :
    (spec : DatasetShardSpec)
    → 0 < spec.shard_count
    → 0 < spec.progress_total_units
    → 0 < spec.progress_symbol_units
    → 0 < spec.work_units
    → normalize_dataset_symbols spec.symbols ≡ spec.symbols
    → spec.symbol_count ≡ length spec.symbols
    → spec.symbols_csv ≡ comma_separated spec.symbols
    → make_shard_spec spec ≡ ok spec
unfolding make_shard_spec
make_shard_spec-accepts spec a b c d e n k =
    let same = filled_csv spec.symbols_csv (comma_separated spec.symbols) k in
    let matches : text_eq spec.symbols_csv (comma_separated spec.symbols) ≡ true =
      rw k (text_eq_refl (comma_separated spec.symbols)) in
    let positive : (spec.shard_count == 0
          || spec.progress_total_units == 0
          || spec.progress_symbol_units == 0
          || spec.work_units == 0)
        ≡ false =
      ground arith in
    let counted : (spec.symbol_count == length spec.symbols) ≡ true = ground arith in
    let agrees : (not (is_empty spec.symbols_csv)
          && not (text_eq spec.symbols_csv (comma_separated spec.symbols)))
        ≡ false =
      ground (arith, matches) in
    rw (e, positive, counted, agrees, same) refl

-- A shard of normalized symbols is accepted by its validators as it is.
make_shard_spec-own :
    (r : PlanRequest) (weight group_count index : ℕ) (g : List Text)
    → 0 < group_count
    → normalize_dataset_symbols g ≡ g
    → make_shard_spec (shard_spec_at r weight group_count index g)
      ≡ ok (shard_spec_at r weight group_count index g)
make_shard_spec-own r weight group_count index g h e =
    make_shard_spec-accepts (shard_spec_at r weight group_count index g) h (omega arith)
      (omega arith) (omega arith) e refl refl

abbrev pub specs_from : PlanRequest → ℕ → ℕ → ℕ → List (List Text) → List DatasetShardSpec
specs_from r weight group_count index [] = []
specs_from r weight group_count index (g ∷ gs) =
    shard_spec_at r weight group_count index g ∷ specs_from r weight group_count (suc index) gs

pub make_shards-All :
    (r : PlanRequest) (weight group_count index : ℕ) (groups : List (List Text))
    → 0 < group_count
    → All (λ g. normalize_dataset_symbols g ≡ g) groups
    → make_shards r weight group_count index groups
      ≡ ok (specs_from r weight group_count index groups)
unfolding make_shards
make_shards-All r weight group_count index [] h a = refl
make_shards-All r weight group_count index (g ∷ gs) h (e, a) =
    rw
      (
        make_shard_spec-own r weight group_count index g h e,
        make_shards-All r weight group_count (suc index) gs h a,
      )
      refl

-- The symbols of each shard.
abbrev pub shard_symbols : List DatasetShardSpec → List (List Text)
shard_symbols [] = []
shard_symbols (s ∷ ss) = s.symbols ∷ shard_symbols ss

pub shard_symbols-specs_from :
    (r : PlanRequest) (weight group_count index : ℕ) (groups : List (List Text))
    → shard_symbols (specs_from r weight group_count index groups) ≡ groups
shard_symbols-specs_from r weight group_count index [] = refl
shard_symbols-specs_from r weight group_count index (g ∷ gs) =
    ap (λ t. g ∷ t) (shard_symbols-specs_from r weight group_count (suc index) gs)

pub length-specs_from :
    (r : PlanRequest) (weight group_count index : ℕ) (groups : List (List Text))
    → length (specs_from r weight group_count index groups) ≡ length groups
length-specs_from r weight group_count index [] = refl
length-specs_from r weight group_count index (g ∷ gs) =
    omega (arith, length-specs_from r weight group_count (suc index) gs)

pub resolution_weight-positive :
    (resolution : Text) (weight : ℕ) → resolution_weight resolution ≡ ok weight → 0 < weight
unfolding resolution_weight
resolution_weight-positive resolution weight e = ground arith

doubled_if-positive : (b : Bool) (n : ℕ) → 0 < n → 0 < doubled_if b n
doubled_if-positive true n h = omega arith
doubled_if-positive false n h = h

days_span-positive : (start_date end_date : ℕ) → 1 ≤ days_span start_date end_date
days_span-positive start_date end_date = omega arith

pub per_symbol_units-positive :
    (r : PlanRequest) (weight : ℕ) → 0 < weight → 0 < per_symbol_units r weight
per_symbol_units-positive r weight h =
    doubled_if-positive r.options_enabled (days_span r.start_date r.end_date * weight)
      (omega (arith, mul-le-mul {n₁ = 1} {m₁ = 1} (days_span-positive r.start_date r.end_date) h))
