-- ===== src/Shards/Count.antt =====
-- src/app/datasets/sharding.py: how many groups come out, and when the cap splits none of them.
use web_enigma.Base.{
  ℕ, zero, suc, ◌+◌, ◌*◌, ◌≤◌, ◌<◌, ◌≡◌, refl, ap, ◌∙◌, List, [], ◌∷◌, inl, inr, arith, max, leb,
  if◌then◌else◌, Bool-cases,
}
use web_enigma.Base.Lists.{length, length-append, take, drop, All, length-replicate}
use web_enigma.Base.Texts.{Text, is_empty}
use web_enigma.Base.Sorted.{sorted}
use web_enigma.Shards.{
  Bin, lightest, place_at, place_all, non_empty_groups, empty_bins, chunks,
  split_groups_to_symbol_limit, build_symbol_groups, shard_groups_for, normalize_dataset_symbols,
}
use web_enigma.Shards.Symbols.{length-sorted}
use web_enigma.Shards.Groups.{flatten}
use web_enigma.Shards.Balance.{
  Fair, place_all-Fair, empty_bins-Fair, length-place_at, lightest-bound,
}

abbrev total_load : List Bin → ℕ
total_load [] = 0
total_load (b ∷ bs) = b.load + total_load bs

total_load-place_at :
    (i : ℕ) (s : Text) (bins : List Bin)
    → i < length bins
    → total_load (place_at i s bins) ≡ suc (total_load bins)
unfolding place_at
total_load-place_at i s [] h = absurd (omega arith)
total_load-place_at zero s (b ∷ bs) h = omega arith
total_load-place_at (suc i) s (b ∷ bs) h = omega (arith, total_load-place_at i s bs (omega arith))

total_load-place_all :
    (ss : List Text) (bins : List Bin)
    → 0 < length bins
    → total_load (place_all ss bins) ≡ length ss + total_load bins
unfolding place_all
total_load-place_all [] bins h = omega arith
total_load-place_all (s ∷ ss) bins h = omega (
  arith,
  total_load-place_all ss (place_at (lightest bins) s bins)
      (omega (arith, length-place_at (lightest bins) s bins)),
  total_load-place_at (lightest bins) s bins (lightest-bound bins h),
)

length-place_all : (ss : List Text) (bins : List Bin) → length (place_all ss bins) ≡ length bins
unfolding place_all
length-place_all [] bins = refl
length-place_all (s ∷ ss) bins =
    length-place_all ss (place_at (lightest bins) s bins) ∙ length-place_at (lightest bins) s bins

total_load-empty_bins : (n : ℕ) → total_load (empty_bins n) ≡ 0
total_load-empty_bins zero = refl
total_load-empty_bins (suc n) = omega (arith, total_load-empty_bins n)

total_load-AtLeast :
    (m k : ℕ) (bins : List Bin) → k ≤ m → Fair m bins → length bins * k ≤ total_load bins
total_load-AtLeast m k [] h f = omega arith
total_load-AtLeast m k (b ∷ bs) h ((low, high, counted), f) =
    omega (arith, total_load-AtLeast m k bs h f)

unfoldable AtMost : ℕ → List Bin → Type 0
AtMost cap = All (λ b. length b.group ≤ cap)

-- Loads that are at least the cap, and in all no more than the caps, are at most the cap.
AtMost-of_total :
    (m cap : ℕ) (bins : List Bin)
    → cap ≤ m
    → Fair m bins
    → total_load bins ≤ length bins * cap
    → AtMost cap bins
unfolding AtMost
AtMost-of_total m cap [] h f t = tt
AtMost-of_total m cap (b ∷ bs) h ((low, high, counted), f) t =
    (omega (arith, total_load-AtLeast m cap bs h f), AtMost-of_total m cap bs h f (omega arith))

AtMost-of_low : (m cap : ℕ) (bins : List Bin) → m < cap → Fair m bins → AtMost cap bins
unfolding AtMost
AtMost-of_low m cap [] h f = tt
AtMost-of_low m cap (b ∷ bs) h ((low, high, counted), f) = (omega arith, AtMost-of_low m cap bs h f)

Fair-AtMost :
    (m cap : ℕ) (bins : List Bin)
    → Fair m bins
    → total_load bins ≤ length bins * cap
    → AtMost cap bins
Fair-AtMost m cap bins f t = elim (Bool-cases (leb cap m)) [
  | inl large ↦ AtMost-of_total m cap bins (ground arith) f t
  | inr small ↦ AtMost-of_low m cap bins (ground arith) f
]

take-all : (n : ℕ) (g : List Text) → length g ≤ n → take n g ≡ g
take-all zero [] h = refl
take-all zero (s ∷ g) h = absurd (omega arith)
take-all (suc n) [] h = refl
take-all (suc n) (s ∷ g) h = ap (λ t. s ∷ t) (take-all n g (omega arith))

drop-all : (n : ℕ) (g : List Text) → length g ≤ n → drop n g ≡ []
drop-all zero [] h = refl
drop-all zero (s ∷ g) h = absurd (omega arith)
drop-all (suc n) [] h = refl
drop-all (suc n) (s ∷ g) h = drop-all n g (omega arith)

chunks-nil : (fuel limit : ℕ) → chunks fuel limit [] ≡ []
unfolding chunks
chunks-nil zero limit = refl
chunks-nil (suc fuel) limit = refl

-- A group of at most `limit` symbols is one chunk.
chunks-whole :
    (limit : ℕ) (g : List Text)
    → 0 < length g
    → length g ≤ limit
    → chunks (length g) limit g ≡ g ∷ []
unfolding chunks
chunks-whole limit [] h k = absurd (omega arith)
chunks-whole limit (s ∷ ss) h k =
    rw (take-all limit (s ∷ ss) k, drop-all limit (s ∷ ss) k, chunks-nil (length ss) limit) refl

split-step :
    (cap : ℕ) (g : List Text) (rest : List (List Text))
    → length g ≤ cap
    → split_groups_to_symbol_limit rest cap ≡ rest
    → split_groups_to_symbol_limit (if is_empty g then rest else g ∷ rest) cap
      ≡ (if is_empty g then rest else g ∷ rest)
unfolding split_groups_to_symbol_limit
split-step cap [] rest h e = e
split-step cap (s ∷ g) rest h e =
    rw (chunks-whole (max 1 cap) (s ∷ g) (omega arith) (omega arith), e) refl

split-unchanged :
    (cap : ℕ) (bins : List Bin)
    → AtMost cap bins
    → split_groups_to_symbol_limit (non_empty_groups bins) cap ≡ non_empty_groups bins
unfolding AtMost non_empty_groups split_groups_to_symbol_limit
split-unchanged cap [] a = refl
split-unchanged cap (b ∷ bs) (h, a) =
    split-step cap b.group (non_empty_groups bs) h (split-unchanged cap bs a)

length-non_empty_groups : (bins : List Bin) → length (non_empty_groups bins) ≤ length bins
unfolding non_empty_groups
length-non_empty_groups [] = omega arith
length-non_empty_groups (b ∷ bs) = ground (arith, length-non_empty_groups bs)

-- With shards enough for the cap, the cap splits no group.
pub shard_groups_for-count :
    (normalized : List Text) (shard_count cap : ℕ)
    → normalize_dataset_symbols normalized ≡ normalized
    → 0 < shard_count
    → length normalized ≤ shard_count * cap
    → length (shard_groups_for normalized shard_count cap) ≤ shard_count
unfolding shard_groups_for build_symbol_groups
shard_groups_for-count normalized shard_count cap e h t =
    let c = max 1 shard_count in
    let ss = sorted (normalize_dataset_symbols normalized) in
    let bins = place_all ss (empty_bins c) in
    let size = length-replicate {A = Bin} c (record { group = []; load = 0 }) in
    let bins_size = length-place_all ss (empty_bins c) in
    let (m, fair) = place_all-Fair 0 ss (empty_bins c) (omega arith) (empty_bins-Fair c) in
    let total = total_load-place_all ss (empty_bins c) (omega arith) in
    let symbols = length-sorted (normalize_dataset_symbols normalized) in
    let none_yet = total_load-empty_bins c in
    let same = ap length e in
    let all_shards : length bins ≡ shard_count = omega arith in
    let fits = ap (λ n. n * cap) all_shards in
    let whole = split-unchanged cap bins (Fair-AtMost m cap bins fair (omega arith)) in
    rw whole (omega (arith, length-non_empty_groups bins))

-- The counterpart: groups within the cap hold no more symbols than the caps in all.
pub flatten-length :
    (cap : ℕ) (groups : List (List Text))
    → All (λ g. length g ≤ cap) groups
    → length (flatten groups) ≤ length groups * cap
flatten-length cap [] a = omega arith
flatten-length cap (g ∷ gs) (h, a) =
    omega (arith, length-append g (flatten gs), flatten-length cap gs a)

length-flatten_kept :
    (g : List Text) (rest : List (List Text))
    → length (flatten (if is_empty g then rest else g ∷ rest)) ≡ length g + length (flatten rest)
length-flatten_kept [] rest = omega arith
length-flatten_kept (s ∷ g) rest = length-append (s ∷ g) (flatten rest)

length-flatten_groups :
    (m : ℕ) (bins : List Bin)
    → Fair m bins
    → length (flatten (non_empty_groups bins)) ≡ total_load bins
unfolding non_empty_groups
length-flatten_groups m [] f = refl
length-flatten_groups m (b ∷ bs) ((low, high, counted), f) =
    omega (arith, length-flatten_kept b.group (non_empty_groups bs), length-flatten_groups m bs f)

-- The groups hold as many symbols as there are normalized.
pub length-build_symbol_groups :
    (symbols : List Text) (shard_count : ℕ)
    → length (flatten (build_symbol_groups symbols shard_count))
      ≡ length (normalize_dataset_symbols symbols)
unfolding build_symbol_groups
length-build_symbol_groups symbols shard_count =
    let c = max 1 shard_count in
    let ss = sorted (normalize_dataset_symbols symbols) in
    let size = length-replicate {A = Bin} c (record { group = []; load = 0 }) in
    let (m, fair) = place_all-Fair 0 ss (empty_bins c) (omega arith) (empty_bins-Fair c) in
    omega (
      arith,
      length-flatten_groups m (place_all ss (empty_bins c)) fair,
      total_load-place_all ss (empty_bins c) (omega arith),
      total_load-empty_bins c,
      length-sorted (normalize_dataset_symbols symbols),
    )
