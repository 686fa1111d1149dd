-- ===== src/Shards/Groups.antt =====
-- src/app/datasets/sharding.py, `_build_symbol_groups`: what the groups hold, and their sizes.
use web_enigma.Base.{
  ℕ, zero, suc, ◌+◌, ◌≤◌, ◌<◌, ◌≡◌, refl, List, [], ◌∷◌, ◌++◌, arith, if◌then◌else◌, max,
}
use web_enigma.Base.Lists.{length, length-replicate, All, All-map}
use web_enigma.Base.Texts.{Text, is_empty}
use web_enigma.Base.Sorted.{sorted}
use web_enigma.Shards.{
  Bin, lightest, place_at, place_all, non_empty_groups, empty_bins, build_symbol_groups,
  normalize_dataset_symbols,
}
use web_enigma.Shards.Symbols.{
  occurrences, occurrences-append, occurrences-sorted, Distinct, normalize-Distinct,
}
use web_enigma.Shards.Balance.{
  Fair, place_all-Fair, empty_bins-Fair, length-place_at, lightest-bound,
}

-- All the symbols of some groups.
abbrev pub flatten : List (List Text) → List Text
flatten [] = []
flatten (g ∷ gs) = g ++ flatten gs

abbrev bin_occurrences : Text → List Bin → ℕ
bin_occurrences x [] = 0
bin_occurrences x (b ∷ bs) = occurrences x b.group + bin_occurrences x bs

module _ (x : Text) where
  occurrences-place_at :
      (i : ℕ) (s : Text) (bins : List Bin)
      → i < length bins
      → bin_occurrences x (place_at i s bins) ≡ occurrences x (s ∷ []) + bin_occurrences x bins
  unfolding place_at
  occurrences-place_at i s [] h = absurd (omega arith)
  occurrences-place_at zero s (b ∷ bs) h = omega (arith, occurrences-append x b.group (s ∷ []))
  occurrences-place_at (suc i) s (b ∷ bs) h =
      omega (arith, occurrences-place_at i s bs (omega arith))

  occurrences-place_all :
      (ss : List Text) (bins : List Bin)
      → 0 < length bins
      → bin_occurrences x (place_all ss bins) ≡ occurrences x ss + bin_occurrences x bins
  unfolding place_all
  occurrences-place_all [] bins h = omega arith
  occurrences-place_all (s ∷ ss) bins h = omega (
    arith,
    occurrences-place_all ss (place_at (lightest bins) s bins)
        (omega (arith, length-place_at (lightest bins) s bins)),
    occurrences-place_at (lightest bins) s bins (lightest-bound bins h),
  )

  occurrences-empty_bins : (n : ℕ) → bin_occurrences x (empty_bins n) ≡ 0
  occurrences-empty_bins zero = refl
  occurrences-empty_bins (suc n) = omega (arith, occurrences-empty_bins n)

  occurrences-kept :
      (g : List Text) (rest : List (List Text))
      → occurrences x (flatten (if is_empty g then rest else g ∷ rest))
        ≡ occurrences x g + occurrences x (flatten rest)
  occurrences-kept [] rest = omega arith
  occurrences-kept (s ∷ g) rest = occurrences-append x (s ∷ g) (flatten rest)

  occurrences-non_empty_groups :
      (bins : List Bin) → occurrences x (flatten (non_empty_groups bins)) ≡ bin_occurrences x bins
  unfolding non_empty_groups
  occurrences-non_empty_groups [] = refl
  occurrences-non_empty_groups (b ∷ bs) =
      omega (arith, occurrences-kept b.group (non_empty_groups bs), occurrences-non_empty_groups bs)

  -- The groups hold each symbol as often as the normalized list of symbols does.
  pub build_symbol_groups_complete :
      (symbols : List Text) (shard_count : ℕ)
      → occurrences x (flatten (build_symbol_groups symbols shard_count))
        ≡ occurrences x (normalize_dataset_symbols symbols)
  unfolding build_symbol_groups
  build_symbol_groups_complete symbols shard_count =
      let ss = sorted (normalize_dataset_symbols symbols) in
      let bins = empty_bins (max 1 shard_count) in
      omega (
        arith,
        occurrences-non_empty_groups (place_all ss bins),
        occurrences-place_all ss bins (
            omega (
              arith,
              length-replicate {A = Bin} (max 1 shard_count) (record { group = []; load = 0 }),
            )),
        occurrences-empty_bins (max 1 shard_count),
        occurrences-sorted x (normalize_dataset_symbols symbols),
      )

-- A group that is not empty and has m or m + 1 symbols.
abbrev SizedGroup : ℕ → List Text → Type 0
SizedGroup m g = (m ≤ length g) × (length g ≤ suc m) × (0 < length g)

non_empty_groups-step :
    (m : ℕ) (g : List Text) (rest : List (List Text))
    → m ≤ length g
    → length g ≤ suc m
    → All (SizedGroup m) rest
    → All (SizedGroup m) (if is_empty g then rest else g ∷ rest)
non_empty_groups-step m [] rest low high a = a
non_empty_groups-step m (s ∷ g) rest low high a = ((low, high, omega arith), a)

non_empty_groups-SizedGroup :
    (m : ℕ) (bins : List Bin) → Fair m bins → All (SizedGroup m) (non_empty_groups bins)
unfolding non_empty_groups
non_empty_groups-SizedGroup m [] f = tt
non_empty_groups-SizedGroup m (b ∷ bs) ((low, high, counted), f) =
    non_empty_groups-step m b.group (non_empty_groups bs) (omega arith) (omega arith)
      (non_empty_groups-SizedGroup m bs f)

build_symbol_groups-SizedGroup :
    (symbols : List Text) (shard_count : ℕ)
    → (m : ℕ) × All (SizedGroup m) (build_symbol_groups symbols shard_count)
unfolding build_symbol_groups
build_symbol_groups-SizedGroup symbols shard_count =
    let (m, fair) =
      place_all-Fair 0 (sorted (normalize_dataset_symbols symbols)) (empty_bins (max 1 shard_count))
        (omega
          (arith, length-replicate {A = Bin} (max 1 shard_count) (record { group = []; load = 0 })))
        (empty_bins-Fair (max 1 shard_count)) in
    (
      m,
      non_empty_groups-SizedGroup m
          (place_all (sorted (normalize_dataset_symbols symbols)) (empty_bins (max 1 shard_count)))
          fair,
    )

-- The groups differ by at most one symbol in size, and none is empty.
abbrev pub IsBalanced : List (List Text) → Type 0
IsBalanced groups = All (λ g. (0 < length g) × All (λ h. length g ≤ suc (length h)) groups) groups

pub build_symbol_groups-IsBalanced :
    (symbols : List Text) (shard_count : ℕ) → IsBalanced (build_symbol_groups symbols shard_count)
build_symbol_groups-IsBalanced symbols shard_count =
    let (m, sized) = build_symbol_groups-SizedGroup symbols shard_count in
    let groups = build_symbol_groups symbols shard_count in
    All-map
      (λ g (low, high, some_symbol).
        (some_symbol, All-map (λ h (low', high', _). omega arith) groups sized))
      groups sized

-- `_build_symbol_groups` deals the normalized symbols out: every symbol is in the groups as
-- often as in the normalized list, where it is at most once; no group is empty; no group has
-- over one symbol more than another.
pub build_symbol_groups-fair :
    (symbols : List Text) (shard_count : ℕ)
    → ((x : Text)
        → occurrences x (flatten (build_symbol_groups symbols shard_count))
          ≡ occurrences x (normalize_dataset_symbols symbols))
      × Distinct (normalize_dataset_symbols symbols)
      × IsBalanced (build_symbol_groups symbols shard_count)
build_symbol_groups-fair symbols shard_count = (
  λ x. build_symbol_groups_complete x symbols shard_count,
  normalize-Distinct symbols,
  build_symbol_groups-IsBalanced symbols shard_count,
)
