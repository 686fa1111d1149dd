-- ===== src/Shards.antt =====
-- src/app/datasets/sharding.py: how the symbols of a dataset are dealt out to shards. Dates are
-- day numbers. The paths of the plan are left out; `math.ceil` of a quotient is taken exactly.
pub mod Symbols
pub mod Balance
pub mod Groups
pub mod Split
pub mod Count
pub mod Estimate
pub mod Occurrences
mod Tests
pub mod Plan
use web_enigma.Base.{
  ℕ, zero, suc, ◌+◌, ◌-◌, ◌*◌, ◌/◌, ◌==◌, ltb, leb, min, max, Bool, true, false, not, ◌&&◌, ◌||◌,
  if◌then◌else◌, Option, none, some, List, [], ◌∷◌, ◌++◌,
}
use web_enigma.Base.Lists.{length, take, drop, replicate}
use web_enigma.Base.Texts.{Text, codes, text_eq, text_le, is_empty, strip, upper, lower}
use web_enigma.Base.Sorted.{sorted}
use web_enigma.Base.TextSet.{contains}
use web_enigma.Base.Result.{Result, ok, raises, ◌>>=◌, value_error}

unfoldable pub normalize_into : List Text → List Text → List Text
normalize_into normalized [] = normalized
normalize_into normalized (value ∷ values) =
    let symbol = upper (strip value) in
    normalize_into
      (if is_empty symbol || contains symbol normalized
        then normalized
        else normalized ++ symbol ∷ [])
      values

-- normalize_dataset_symbols
unfoldable pub normalize_dataset_symbols : List Text → List Text
normalize_dataset_symbols = normalize_into []

-- resolution_weight
unfoldable pub resolution_weight : Text → Result ℕ
resolution_weight resolution =
    if text_eq resolution (codes "1m")
    then ok 60
    else if text_eq resolution (codes "5m")
    then ok 12
    else if text_eq resolution (codes "15m")
    then ok 4
    else if text_eq resolution (codes "1h")
    then ok 1
    else if text_eq resolution (codes "1d")
    then ok 1
    else raises value_error

-- max(1, (end_date - start_date).days + 1)
abbrev pub days_span : ℕ → ℕ → ℕ
days_span start_date end_date = max 1 (end_date + 1 - start_date)

abbrev pub doubled_if : Bool → ℕ → ℕ
doubled_if true n = n * 2
doubled_if false n = n

-- estimate_symbol_work_units
unfoldable pub estimate_symbol_work_units : ℕ → Text → ℕ → ℕ → Bool → Result ℕ
estimate_symbol_work_units zero resolution start_date end_date options_enabled = ok 0
estimate_symbol_work_units (suc n) resolution start_date end_date options_enabled = do
  weight ← resolution_weight resolution
  ok (suc n * doubled_if options_enabled (days_span start_date end_date * weight))

-- math.ceil(a / b)
abbrev pub ceil_div : ℕ → ℕ → ℕ
ceil_div a b = (a + b - 1) / b

-- The last lines of `estimate_dataset_shard_count`, when the work is known.
unfoldable pub shard_count_for : ℕ → ℕ → ℕ → ℕ → ℕ → ℕ
shard_count_for symbol_count total_work_units max_shards target_work_units max_symbols_per_shard =
    let min_shards_for_symbol_cap = ceil_div symbol_count (max 1 max_symbols_per_shard) in
    let estimated =
      max (ceil_div total_work_units (max 1 target_work_units)) min_shards_for_symbol_cap in
    if total_work_units == 0
    then max 1 (min symbol_count (min max_shards min_shards_for_symbol_cap))
    else max 1 (min symbol_count (min max_shards estimated))

-- estimate_dataset_shard_count
unfoldable pub estimate_dataset_shard_count : ℕ → Text → ℕ → ℕ → Bool → ℕ → ℕ → ℕ → Result ℕ
estimate_dataset_shard_count zero resolution start_date end_date options_enabled max_shards target
      cap =
    ok 1
estimate_dataset_shard_count (suc n) resolution start_date end_date options_enabled max_shards
      target cap =
    do
      work ← estimate_symbol_work_units (suc n) resolution start_date end_date options_enabled
      ok (shard_count_for (suc n) work max_shards target cap)

-- groups[i] with loads[i]
pub record Bin : Type 0 where
  pub group : List Text
  pub load : ℕ

-- (loads[i], len(groups[i])) < (loads[j], len(groups[j]))
unfoldable pub is_lighter : Bin → Bin → Bool
is_lighter a b = ltb a.load b.load || (a.load == b.load && ltb (length a.group) (length b.group))

-- The loop of `min`: the best index so far with its bin, and the next index with the bins left.
unfoldable pub least_index : ℕ → Bin → ℕ → List Bin → ℕ
least_index best b i [] = best
least_index best b i (c ∷ cs) = elim (is_lighter c b) [
  | true ↦ least_index i c (suc i) cs
  | false ↦ least_index best b (suc i) cs
]

-- min(range(shard_count), key=lambda idx: (loads[idx], len(groups[idx]), idx))
unfoldable pub lightest : List Bin → ℕ
lightest [] = 0
lightest (b ∷ bs) = least_index 0 b 1 bs

-- groups[i].append(symbol); loads[i] += 1
unfoldable pub place_at : ℕ → Text → List Bin → List Bin
place_at i symbol [] = []
place_at zero symbol (b ∷ bs) = record { group = b.group ++ symbol ∷ []; load = b.load + 1 } ∷ bs
place_at (suc i) symbol (b ∷ bs) = b ∷ place_at i symbol bs

unfoldable pub place_all : List Text → List Bin → List Bin
place_all [] bins = bins
place_all (s ∷ ss) bins = place_all ss (place_at (lightest bins) s bins)

-- [group for group in groups if group]
unfoldable pub non_empty_groups : List Bin → List (List Text)
non_empty_groups [] = []
non_empty_groups (b ∷ bs) =
    let rest = non_empty_groups bs in if is_empty b.group then rest else b.group ∷ rest

abbrev pub empty_bins : ℕ → List Bin
empty_bins n = replicate n (record { group = []; load = 0 })

-- _build_symbol_groups
unfoldable pub build_symbol_groups : List Text → ℕ → List (List Text)
build_symbol_groups symbols shard_count =
    non_empty_groups
      (place_all (sorted (normalize_dataset_symbols symbols)) (empty_bins (max 1 shard_count)))

-- The chunks group[start : start + limit] for start in range(0, len(group), limit). Each chunk
-- takes at least one symbol off, so the length is enough fuel.
unfoldable pub chunks : ℕ → ℕ → List Text → List (List Text)
chunks zero limit group = []
chunks (suc fuel) limit [] = []
chunks (suc fuel) limit (s ∷ ss) = take limit (s ∷ ss) ∷ chunks fuel limit (drop limit (s ∷ ss))

-- _split_groups_to_symbol_limit
unfoldable pub split_groups_to_symbol_limit : List (List Text) → ℕ → List (List Text)
split_groups_to_symbol_limit [] max_symbols_per_shard = []
split_groups_to_symbol_limit (g ∷ gs) max_symbols_per_shard =
    chunks (length g) (max 1 max_symbols_per_shard) g
    ++ split_groups_to_symbol_limit gs max_symbols_per_shard

-- The symbols of the shards that `build_dataset_shard_plan` makes for normalized symbols.
unfoldable pub shard_groups_for : List Text → ℕ → ℕ → List (List Text)
shard_groups_for normalized_symbols shard_count max_symbols_per_shard =
    split_groups_to_symbol_limit (build_symbol_groups normalized_symbols shard_count)
      max_symbols_per_shard
