-- ===== src/Shards/Split.antt =====
-- src/app/datasets/sharding.py, `_split_groups_to_symbol_limit` and the groups of a plan.
use mathlib.Core.List.{append_assoc}
use web_enigma.Base.{
  ℕ, zero, suc, ◌≤◌, ◌<◌, ◌≡◌, refl, sym, ap, ◌∙◌, List, [], ◌∷◌, ◌++◌, arith, max,
}
use web_enigma.Base.Lists.{
  length, length-take, length-drop, take, drop, take-append-drop, All, All-append,
}
use web_enigma.Base.Texts.{Text}
use web_enigma.Shards.{
  chunks, split_groups_to_symbol_limit, build_symbol_groups, shard_groups_for,
  normalize_dataset_symbols,
}
use web_enigma.Shards.Symbols.{occurrences, Distinct, normalize-Distinct, normalize_idem}
use web_enigma.Shards.Groups.{flatten, build_symbol_groups_complete}

flatten-append : (gs hs : List (List Text)) → flatten (gs ++ hs) ≡ flatten gs ++ flatten hs
flatten-append [] hs = refl
flatten-append (g ∷ gs) hs =
    ap (λ t. g ++ t) (flatten-append gs hs) ∙ sym (append_assoc g (flatten gs) (flatten hs))

module _ (limit : ℕ) (positive : 0 < limit) where
  flatten-chunks :
      (fuel : ℕ) (group : List Text)
      → length group ≤ fuel
      → flatten (chunks fuel limit group) ≡ group
  unfolding chunks
  flatten-chunks zero [] h = refl
  flatten-chunks zero (s ∷ ss) h = absurd (omega arith)
  flatten-chunks (suc fuel) [] h = refl
  flatten-chunks (suc fuel) (s ∷ ss) h =
      ap (λ t. take limit (s ∷ ss) ++ t)
        (flatten-chunks fuel (drop limit (s ∷ ss)) (omega (arith, length-drop limit (s ∷ ss))))
      ∙ take-append-drop limit (s ∷ ss)

  chunks-sizes :
      (fuel : ℕ) (group : List Text)
      → All (λ g. (0 < length g) × (length g ≤ limit)) (chunks fuel limit group)
  unfolding chunks
  chunks-sizes zero group = tt
  chunks-sizes (suc fuel) [] = tt
  chunks-sizes (suc fuel) (s ∷ ss) = (
    (omega (arith, length-take limit (s ∷ ss)), omega (arith, length-take limit (s ∷ ss))),
    chunks-sizes fuel (drop limit (s ∷ ss)),
  )

pub flatten-split :
    (groups : List (List Text)) (cap : ℕ)
    → flatten (split_groups_to_symbol_limit groups cap) ≡ flatten groups
unfolding split_groups_to_symbol_limit
flatten-split [] cap = refl
flatten-split (g ∷ gs) cap =
    flatten-append (chunks (length g) (max 1 cap) g) (split_groups_to_symbol_limit gs cap)
    ∙ rw (flatten-chunks (max 1 cap) (omega arith) (length g) g (omega arith), flatten-split gs cap)

abbrev pub WithinCap : ℕ → List Text → Type 0
WithinCap cap g = (0 < length g) × (length g ≤ max 1 cap)

split-WithinCap :
    (groups : List (List Text)) (cap : ℕ)
    → All (WithinCap cap) (split_groups_to_symbol_limit groups cap)
unfolding split_groups_to_symbol_limit
split-WithinCap [] cap = tt
split-WithinCap (g ∷ gs) cap =
    All-append (WithinCap cap) (chunks (length g) (max 1 cap) g)
      (split_groups_to_symbol_limit gs cap) (chunks-sizes (max 1 cap) (omega arith) (length g) g)
      (split-WithinCap gs cap)

-- The groups of a plan partition the symbols: for any symbols, any shard count and any cap,
-- every symbol is in the groups as often as in the normalized list, where it is at most once;
-- every group has at least one symbol, and at most the cap (one, where the cap is 0).
pub shard_groups_for-partition :
    (symbols : List Text) (shard_count cap : ℕ)
    → ((x : Text)
        → occurrences x
            (flatten (shard_groups_for (normalize_dataset_symbols symbols) shard_count cap))
          ≡ occurrences x (normalize_dataset_symbols symbols))
      × Distinct (normalize_dataset_symbols symbols)
      × All (WithinCap cap) (shard_groups_for (normalize_dataset_symbols symbols) shard_count cap)
unfolding shard_groups_for
shard_groups_for-partition symbols shard_count cap =
    let normalized = normalize_dataset_symbols symbols in
    let groups = build_symbol_groups normalized shard_count in
    (
      λ x.
          ap (occurrences x) (flatten-split groups cap)
          ∙ build_symbol_groups_complete x normalized shard_count
          ∙ ap (occurrences x) (normalize_idem symbols),
      normalize-Distinct symbols,
      split-WithinCap groups cap,
    )
