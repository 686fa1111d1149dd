-- ===== src/Forecast/WalkForward/Tests.antt =====
-- src/app/daily_index_forecast/walk_forward.py: the laws at a concrete history.
use web_enigma.Base.{
  ℕ, zero, suc, ◌+◌, ◌*◌, ◌/◌, ◌≤◌, ◌≡◌, refl, Option, some, List, [], ◌∷◌, arith,
}
use web_enigma.Base.Lists.{All}
use web_enigma.Base.Result.{Result}
use web_enigma.Forecast.WalkForward.{
  DailyIndexWalkForwardFold, DailyIndexWalkForwardSplit, DailyIndexWalkForwardConfig, one_day,
  scale_window_sizes, make_walk_forward_folds, trim_windows, trim_window,
}
use web_enigma.Forecast.WalkForward.Windows.{IsFitting, scale_window_sizes_lem}
use web_enigma.Forecast.WalkForward.Split.{IsSession, IsOutcome, make_walk_forward_folds_lem}

-- int(d * (n / m)) in exact arithmetic
abbrev scaled_exactly : ℕ → ℕ → ℕ → ℕ
scaled_exactly d n m = d * n / m

abbrev config : DailyIndexWalkForwardConfig
config = record {
  train_days = 3;
  validation_days = 1;
  test_days = 1;
  step_days = 2;
  embargo_days = 1;
  min_train_rows = 2;
  min_validation_rows = 1;
  min_test_rows = 1;
  min_holdout_rows = 1;
  holdout_days = 2;
}

abbrev midnights : ℕ → ℕ → List (Option ℕ)
midnights first zero = []
midnights first (suc n) = some (first * one_day) ∷ midnights (first + 1) n

midnights-IsSession : (first n : ℕ) → All IsSession (midnights first n)
midnights-IsSession first zero = tt
midnights-IsSession first (suc n) = ((first, refl), midnights-IsSession (first + 1) n)

-- Three windows of two days share the four days that there are.
scaled_windows : scale_window_sizes scaled_exactly 10 5 5 4 ≡ some (2, 1, 1)
unfolding scale_window_sizes trim_windows trim_window
scaled_windows = refl

scale_window_sizes_lem_example :
    (a b c : ℕ) × (scale_window_sizes scaled_exactly 10 5 5 2 ≡ some (a, b, c))
    × IsFitting 2 a b c
    × (10 + 5 + 5 ≤ 2 → (a ≡ 10) × (b ≡ 5) × (c ≡ 5))
scale_window_sizes_lem_example =
    scale_window_sizes_lem scaled_exactly 10 5 5 2 (omega arith) (omega arith) (omega arith)

make_walk_forward_folds_lem_example :
    (result : Result (List DailyIndexWalkForwardFold × DailyIndexWalkForwardSplit))
    × (make_walk_forward_folds scaled_exactly (midnights 20 10) config ≡ some result)
    × IsOutcome config result
make_walk_forward_folds_lem_example =
    make_walk_forward_folds_lem scaled_exactly (midnights 20 10) config (midnights-IsSession 20 10)
