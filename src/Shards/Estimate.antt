-- ===== src/Shards/Estimate.antt =====
-- src/app/datasets/sharding.py, `estimate_dataset_shard_count`: bounds of the estimate.
use native.Mathlib.Nat.{div-lt_iff_lt-mul, lt-div-mul-add, mul-le-mul_left, mul-le-mul_right}
use web_enigma.Base.{
  ℕ, suc, ◌+◌, ◌-◌, ◌*◌, ◌≤◌, ◌<◌, ◌≡◌, inl, inr, arith, min, max, ◌==◌, Bool-cases,
}
use web_enigma.Shards.{shard_count_for, ceil_div}

-- math.ceil
module _ (n cap : ℕ) (positive : 0 < cap) where
  pub ceil_div-enough : n ≤ ceil_div n cap * cap
  ceil_div-enough = ground (arith, lt-div-mul-add {a = n + cap - 1} positive)

  pub ceil_div-least : (k : ℕ) → n ≤ k * cap → ceil_div n cap ≤ k
  ceil_div-least k h =
      let below = (div-lt_iff_lt-mul {x = n + cap - 1} {y = suc k} positive).1 (omega arith) in
      omega arith

-- A choice between the shards that the cap needs and the most that are allowed.
chosen-bounds :
    (n max_shards cap estimated : ℕ)
    → 0 < n
    → 0 < cap
    → n ≤ max_shards * cap
    → ceil_div n cap ≤ estimated
    → (0 < max 1 (min n (min max_shards estimated)))
      × (max 1 (min n (min max_shards estimated)) ≤ max 1 max_shards)
      × (n ≤ max 1 (min n (min max_shards estimated)) * cap)
chosen-bounds n max_shards cap estimated h l t e =
    let needed = ceil_div-least n cap l max_shards t in
    let own =
      ceil_div-least n cap l n (omega (arith, mul-le-mul_left {m = 1} {n = cap} n (omega arith))) in
    let chosen : ceil_div n cap ≤ max 1 (min n (min max_shards estimated)) = omega arith in
    (omega arith, omega arith, omega (arith, ceil_div-enough n cap l, mul-le-mul_right cap chosen))

-- The number of shards that is estimated is between 1 and `max_shards`, and is enough for the cap
-- where `max_shards` is.
pub shard_count_for-bounds :
    (n work max_shards target cap : ℕ)
    → 0 < n
    → 0 < max_shards
    → 0 < cap
    → n ≤ max_shards * cap
    → (0 < shard_count_for n work max_shards target cap)
      × (shard_count_for n work max_shards target cap ≤ max_shards)
      × (n ≤ shard_count_for n work max_shards target cap * cap)
unfolding shard_count_for
shard_count_for-bounds n work max_shards target cap h k l t =
    let by_cap : max 1 cap ≡ cap = omega arith in
    rw by_cap (elim (Bool-cases (work == 0)) [
      | inl idle ↦
          let (low, high, enough) =
            chosen-bounds n max_shards cap (ceil_div n cap) h l t (omega arith) in
          rw idle (low, omega arith, enough)
      | inr busy ↦
          let (low, high, enough) =
            chosen-bounds n max_shards cap (max (ceil_div work (max 1 target)) (ceil_div n cap)) h l
              t (omega arith) in
          rw busy (low, omega arith, enough)
    ])
