-- ===== src/Shards/Plan/Sound.antt =====
-- src/app/datasets/sharding.py, `build_dataset_shard_plan`: every plan that it returns is sound.
use native.Mathlib.Nat.{mul-le-mul_right}
use web_enigma.Base.{
  ℕ, ◌*◌, ◌≤◌, ◌<◌, ltb, ◌≡◌, refl, sym, ap, subst, ◌∙◌, false, ◌||◌, List, [], ◌∷◌, arith, max,
  inl, inr, Bool-cases,
}
use web_enigma.Base.Lists.{length, All, All-map}
use web_enigma.Base.Texts.{Text, codes, text_eq, lower, strip}
use web_enigma.Base.Result.{ok, Result-cases}
use web_enigma.Shards.{
  normalize_dataset_symbols, resolution_weight, estimate_dataset_shard_count, shard_groups_for,
  build_symbol_groups,
}
use web_enigma.Shards.Symbols.{occurrences, Distinct, IsNormal, normalize-IsNormal, normalize_idem}
use web_enigma.Shards.Groups.{flatten}
use web_enigma.Shards.Split.{WithinCap, shard_groups_for-partition, flatten-split}
use web_enigma.Shards.Count.{flatten-length, length-build_symbol_groups}
use web_enigma.Shards.Occurrences.{groups-normal}
use web_enigma.Shards.Plan.{
  PlanRequest, DatasetShardPlan, make_shard_plan, make_shards, plan_of, build_for,
  build_dataset_shard_plan,
}
use web_enigma.Shards.Plan.Outcome.{specs_from, make_shards-All, shard_symbols-specs_from}
use web_enigma.Shards.Plan.Total.{IsPlanOf, groups-positive}

make_shard_plan-inverts :
    (plan made : DatasetShardPlan)
    → make_shard_plan plan ≡ ok made
    → (made ≡ record plan { symbols = normalize_dataset_symbols plan.symbols })
      × (0 < plan.max_symbols_per_shard)
      × (plan.shard_count ≤ plan.max_shards)
      × (plan.parallelism ≤ plan.max_pods)
unfolding make_shard_plan
make_shard_plan-inverts plan made e = ground arith

module _ (sha1_hex : Text → Text) (r : PlanRequest) (symbol : Text) (others : List Text)
    (normal : normalize_dataset_symbols r.symbols ≡ symbol ∷ others) (plan : DatasetShardPlan)
    (made : build_for sha1_hex r (symbol ∷ others) ≡ ok plan) where
  groups_at : ℕ → List (List Text)
  groups_at c = shard_groups_for (symbol ∷ others) c r.max_symbols_per_shard

  groups_at_partition :
      (c : ℕ)
      → ((x : Text) → occurrences x (flatten (groups_at c)) ≡ occurrences x (symbol ∷ others))
        × Distinct (symbol ∷ others)
        × All (WithinCap r.max_symbols_per_shard) (groups_at c)
  unfolding groups_at
  groups_at_partition c =
      subst
        (λ n.
          ((x : Text)
            → occurrences x (flatten (shard_groups_for n c r.max_symbols_per_shard))
              ≡ occurrences x n)
          × Distinct n
          × All (WithinCap r.max_symbols_per_shard) (shard_groups_for n c r.max_symbols_per_shard))
        normal (shard_groups_for-partition r.symbols c r.max_symbols_per_shard)

  length-groups_at : (c : ℕ) → length (flatten (groups_at c)) ≡ length (symbol ∷ others)
  unfolding groups_at shard_groups_for
  length-groups_at c =
      ap length (flatten-split (build_symbol_groups (symbol ∷ others) c) r.max_symbols_per_shard)
      ∙ length-build_symbol_groups (symbol ∷ others) c
      ∙ ap length (subst (λ n. normalize_dataset_symbols n ≡ n) normal (normalize_idem r.symbols))

  made_specs :
      (weight c : ℕ)
      → make_shards r weight (length (groups_at c)) 0 (groups_at c)
        ≡ ok (specs_from r weight (length (groups_at c)) 0 (groups_at c))
  made_specs weight c =
      let (same, distinct, sizes) = groups_at_partition c in
      make_shards-All r weight (length (groups_at c)) 0 (groups_at c)
        (groups-positive symbol others (groups_at c) (same symbol))
        (groups-normal (symbol ∷ others) (groups_at c)
          (subst (All IsNormal) normal (normalize-IsNormal r.symbols)) distinct
          (λ x. omega (arith, same x)))

  Holds : Type 0
  Holds = IsPlanOf r plan × (length plan.symbols ≤ r.max_shards * r.max_symbols_per_shard)

  holds_of_plan :
      (weight c : ℕ)
      → ltb r.max_shards (length (groups_at c)) ≡ false
      → make_shard_plan (
          plan_of sha1_hex r symbol
            (symbol ∷ others)
            weight
            (length (groups_at c))
            (specs_from r weight (length (groups_at c)) 0 (groups_at c)))
        ≡ ok plan
      → Holds
  unfolding Holds
  holds_of_plan weight c within e =
      let cap = r.max_symbols_per_shard in
      let groups = groups_at c in
      let specs = specs_from r weight (length groups) 0 groups in
      let made_from = plan_of sha1_hex r symbol (symbol ∷ others) weight (length groups) specs in
      let (form, positive, shards, pods) = make_shard_plan-inverts made_from plan e in
      let (same, distinct, sizes) = groups_at_partition c in
      let symbols_of = shard_symbols-specs_from r weight (length groups) 0 groups in
      let idem = subst (λ n. normalize_dataset_symbols n ≡ n) normal (normalize_idem r.symbols) in
      let caps : max 1 cap ≡ cap = omega arith in
      let held =
        flatten-length cap groups
          (All-map (λ g (some_symbol, most). subst (λ n. length g ≤ n) caps most) groups sizes) in
      let fewer : length groups ≤ r.max_shards = ground arith in
      subst (λ p. IsPlanOf r p × (length p.symbols ≤ r.max_shards * cap)) (sym form)
        (
          (
            idem ∙ sym normal,
            (λ x.
                ap (λ g. occurrences x (flatten g)) symbols_of
                ∙ same x
                ∙ ap (occurrences x) (sym idem)),
            subst Distinct (sym idem) distinct,
            subst (All (WithinCap cap)) (sym symbols_of) sizes,
            shards,
            pods,
          ),
          omega (arith, ap length idem, length-groups_at c, held, mul-le-mul_right cap fewer),
        )

  build_for-Holds : Holds
  unfolding build_for groups_at
  build_for-Holds =
      elim (Bool-cases (
        text_eq (lower (strip r.provider)) (codes "alpaca")
        || text_eq (lower (strip r.provider)) (codes "yahoo"))) [
          | inr unknown ↦ cc (rw unknown at made)
          | inl known ↦
              elim (Result-cases (
                estimate_dataset_shard_count (length (symbol ∷ others)) r.resolution r.start_date
                  r.end_date r.options_enabled r.max_shards r.target_work_units
                  r.max_symbols_per_shard)) [
                    | inr (x, failed) ↦ cc (rw (known, failed) at made)
                    | inl (c, counted) ↦
                        elim (Bool-cases (ltb r.max_shards (length (groups_at c)))) [
                          | inl over ↦ cc (rw (known, counted, over) at made)
                          | inr within ↦ elim (Result-cases (resolution_weight r.resolution)) [
                            | inr (x, failed) ↦ cc (rw (known, counted, within, failed) at made)
                            | inl (weight, weighed) ↦
                                holds_of_plan weight c within (
                                  rw (known, counted, within, weighed, made_specs weight c) at made)
                          ]
                        ]
                  ]
        ]

-- A plan that is returned is one of the request, and holds no more symbols than `max_shards` shards
-- of `max_symbols_per_shard` symbols do. `sha1_hex` is any function.
pub build_dataset_shard_plan-IsPlanOf :
    (sha1_hex : Text → Text) (r : PlanRequest) (plan : DatasetShardPlan)
    → build_dataset_shard_plan sha1_hex r ≡ ok plan
    → IsPlanOf r plan × (length plan.symbols ≤ r.max_shards * r.max_symbols_per_shard)
unfolding build_dataset_shard_plan build_for Holds
build_dataset_shard_plan-IsPlanOf sha1_hex r plan made =
    go (normalize_dataset_symbols r.symbols) refl
  where
    go :
        (normalized : List Text)
        → normalize_dataset_symbols r.symbols ≡ normalized
        → IsPlanOf r plan × (length plan.symbols ≤ r.max_shards * r.max_symbols_per_shard)
    go [] e = cc (rw e at made)
    go (symbol ∷ others) e = build_for-Holds sha1_hex r symbol others e plan (rw e at made)
