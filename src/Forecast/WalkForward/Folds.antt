-- ===== src/Forecast/WalkForward/Folds.antt =====
-- src/app/daily_index_forecast/walk_forward.py: the folds of `make_walk_forward_folds`.
use web_enigma.Base.{
  ℕ, zero, suc, ◌+◌, ◌-◌, ◌≤◌, ◌<◌, leb, ltb, ◌≡◌, refl, subst, false, some, List, [], ◌∷◌, arith,
  inl, inr, Bool-cases,
}
use web_enigma.Base.Lists.{length, All}
use web_enigma.Base.Result.{ok}
use web_enigma.Forecast.WalkForward.{
  DailyIndexWalkForwardFold, DailyIndexWalkForwardConfig, one_day, date_at, count_between, fold_at,
  is_short, folds_from,
}
use web_enigma.Forecast.WalkForward.Sessions.{
  IsMidnight, day_apart, IsIncreasing, date_at-All, date_at-ordered,
}

-- The windows follow one another, and all of them are over when the holdout starts.
abbrev pub IsOrdered : ℕ → DailyIndexWalkForwardFold → Type 0
IsOrdered holdout_start fold =
    (fold.train_start < fold.train_end)
    × (fold.train_end ≡ fold.validation_start)
    × (fold.validation_start < fold.validation_end)
    × (fold.validation_end ≤ fold.test_start)
    × (fold.test_start < fold.test_end)
    × (fold.test_end ≤ holdout_start)

-- The folds are numbered from `n`.
abbrev pub IsNumbered : ℕ → List DailyIndexWalkForwardFold → Type 0
IsNumbered n [] = Unit {0}
IsNumbered n (fold ∷ folds) = (fold.fold_id ≡ n) × IsNumbered (suc n) folds

-- A fold is ordered, and no window of it has too few rows.
abbrev pub IsSound : DailyIndexWalkForwardConfig → ℕ → DailyIndexWalkForwardFold → Type 0
IsSound config holdout_start fold = IsOrdered holdout_start fold × (is_short config fold ≡ false)

-- A day before the holdout.
abbrev pub IsPast : ℕ → ℕ → Type 0
IsPast holdout_start date = IsMidnight date × (date < holdout_start)

pub date_at-ordered_weak :
    (dates : List ℕ) (i j d e : ℕ)
    → IsIncreasing dates
    → i ≤ j
    → date_at dates i ≡ ok d
    → date_at dates j ≡ ok e
    → d ≤ e
date_at-ordered_weak dates i j d e h le hi hj = elim (Bool-cases (ltb i j)) [
  | inl l ↦
      let less : d < e = date_at-ordered dates i j d e h (ground (arith, l)) hi hj in
      omega (arith, less)
  | inr l ↦
      let same : i ≡ j = ground (arith, le, l) in
      let both : date_at dates j ≡ ok d = subst (λ k. date_at dates k ≡ ok d) same hi in
      let equal : d ≡ e = ground (arith, both, hj) in omega (arith, equal)
]

module _ (dates historical : List ℕ) (holdout_start : ℕ) (increasing : IsIncreasing historical)
    (past : All (IsPast holdout_start) historical) (midnight : IsMidnight holdout_start) where
  fold_at_lem :
      (train validation test embargo fold_id anchor : ℕ)
      → 0 < train
      → 0 < validation
      → 0 < test
      → anchor + train + validation + embargo + test ≤ length historical
      → (fold : DailyIndexWalkForwardFold) × (fold_at dates historical train validation test embargo
            fold_id anchor
          ≡ ok fold)
        × IsOrdered holdout_start fold
        × (fold.fold_id ≡ fold_id)
  unfolding fold_at
  fold_at_lem train validation test embargo fold_id anchor ht hv hs fits =
      let read = date_at-All (IsPast holdout_start) historical in
      let (d0, e0, p0) = read anchor (omega arith) past in
      let (d1, e1, p1) = read (anchor + train - 1) (omega arith) past in
      let (d2, e2, p2) = read (anchor + train + validation - 1) (omega arith) past in
      let (d3, e3, p3) = read (anchor + train + validation + embargo) (omega arith) past in
      let (d4, e4, p4) =
        read (anchor + train + validation + embargo + test - 1) (omega arith) past in
      let first : d0 ≤ d1 =
        date_at-ordered_weak historical anchor (anchor + train - 1) d0 d1 increasing (omega arith)
          e0 e1 in
      let second : d1 < d2 =
        date_at-ordered historical (anchor + train - 1) (anchor + train + validation - 1) d1 d2
          increasing (omega arith) e1 e2 in
      let third : d2 < d3 =
        date_at-ordered historical (anchor + train + validation - 1)
          (anchor + train + validation + embargo) d2 d3 increasing (omega arith) e2 e3 in
      let fourth : d3 ≤ d4 =
        date_at-ordered_weak historical (anchor + train + validation + embargo)
          (anchor + train + validation + embargo + test - 1) d3 d4 increasing (omega arith) e3 e4 in
      let gap = day_apart d2 d3 p2.0 p3.0 third in
      let over = day_apart d4 holdout_start p4.0 midnight p4.1 in
      (
        record {
          fold_id = fold_id;
          train_start = d0;
          train_end = d1 + one_day;
          validation_start = d1 + one_day;
          validation_end = d2 + one_day;
          test_start = d3;
          test_end = d4 + one_day;
          n_train = count_between d0 (d1 + one_day) dates;
          n_validation = count_between (d1 + one_day) (d2 + one_day) dates;
          n_test = count_between d3 (d4 + one_day) dates;
        },
        rw (e0, e1, e2, e3, e4) refl,
        (omega (arith, first), refl, omega (arith, second), gap, omega (arith, fourth), over),
        refl,
      )

  pub folds_from_lem :
      (config : DailyIndexWalkForwardConfig) (fuel train validation test fold_id anchor : ℕ)
      → 0 < train
      → 0 < validation
      → 0 < test
      → 0 < config.step_days
      → 0 < fuel
      → length historical < fuel + anchor
      → (folds : List DailyIndexWalkForwardFold) × (folds_from fuel config dates historical train
            validation test fold_id anchor
          ≡ some (ok folds))
        × All (IsSound config holdout_start) folds
        × IsNumbered fold_id folds
  unfolding folds_from
  folds_from_lem config zero train validation test fold_id anchor ht hv hs step some_fuel enough =
      absurd (omega arith)
  folds_from_lem config (suc fuel) train validation test fold_id anchor ht hv hs step some_fuel
        enough =
      let total = anchor + train + validation + config.embargo_days + test in
      elim (Bool-cases (leb total (length historical))) [
        | inr e ↦ ([], rw e refl, tt, tt)
        | inl e ↦
            let (fold, made, ordered, number) =
              fold_at_lem train validation test config.embargo_days fold_id anchor ht hv hs
                (ground (arith, e)) in
            elim (Bool-cases (is_short config fold)) [
              | inl short ↦
                  let (folds, run, sound, numbered) =
                    folds_from_lem config fuel train validation test fold_id
                      (anchor + config.step_days) ht hv hs step (ground (arith, e)) (omega arith) in
                  (folds, rw (e, made, short) run, sound, numbered)
              | inr short ↦
                  let (folds, run, sound, numbered) =
                    folds_from_lem config fuel train validation test (suc fold_id)
                      (anchor + config.step_days) ht hv hs step (ground (arith, e)) (omega arith) in
                  (
                    fold ∷ folds,
                    rw (e, made, short, run) refl,
                    ((ordered, short), sound),
                    (number, numbered),
                  )
            ]
      ]
