-- ===== src/Forecast/WalkForward/Split.antt =====
-- src/app/daily_index_forecast/walk_forward.py: what `make_walk_forward_folds` ends with.
use web_enigma.Base.{
  ℕ, suc, ◌+◌, ◌-◌, ◌≤◌, ◌<◌, ◌==◌, leb, ltb, max, min, ◌≡◌, refl, false, ◌||◌, if◌then◌else◌,
  Option, none, some, List, [], ◌∷◌, arith, ◌⊎◌, inl, inr, Bool-cases,
}
use web_enigma.Base.Lists.{length, All, All-both}
use web_enigma.Base.Texts.{is_empty}
use web_enigma.Base.Result.{Result, ok, raises, value_error}
use web_enigma.Forecast.WalkForward.{
  DailyIndexWalkForwardFold, DailyIndexWalkForwardSplit, DailyIndexWalkForwardConfig, one_day,
  session_dates, unique_dates, dates_before, dates_from, date_at, resolve_holdout_start,
  historical_folds, dated_folds, make_walk_forward_folds,
}
use web_enigma.Forecast.WalkForward.Sessions.{
  IsMidnight, unique_dates-All, dates_before-All, date_at-All, dates_before_lem,
  unique_dates-IsIncreasing,
}
use web_enigma.Forecast.WalkForward.Windows.{scale_window_sizes_lem}
use web_enigma.Forecast.WalkForward.Folds.{
  IsSound, IsNumbered, IsPast, date_at-ordered_weak, folds_from_lem,
}

-- A value of the column that is a timestamp is a midnight.
abbrev pub IsSession : Option ℕ → Type 0
IsSession none = Unit {0}
IsSession (some date) = IsMidnight date

-- Only ValueError is raised; else there are folds, numbered from 0, each of them sound.
abbrev pub IsOutcome :
    DailyIndexWalkForwardConfig
    → Result (List DailyIndexWalkForwardFold × DailyIndexWalkForwardSplit)
    → Type 0
IsOutcome config (raises e) = e ≡ value_error
IsOutcome config (ok (folds, split)) =
    (is_empty folds ≡ false)
    × All (IsSound config split.holdout_start) folds
    × IsNumbered 0 folds
    × (split.holdout_start < split.holdout_end)

session_dates_lem :
    (column : List (Option ℕ))
    → All IsSession column
    → ((dates : List ℕ) × (session_dates column ≡ ok dates) × All IsMidnight dates)
      ⊎ (session_dates column ≡ raises value_error)
unfolding session_dates
session_dates_lem [] a = inl ([], refl, tt)
session_dates_lem (none ∷ column) a = inr refl
session_dates_lem (some date ∷ column) a = elim (session_dates_lem column a.1) [
  | inl (dates, run, midnights) ↦ inl (date ∷ dates, rw run refl, (a.0, midnights))
  | inr run ↦ inr (rw run refl)
]

historical_folds_lem :
    (scaled : ℕ → ℕ → ℕ → ℕ) (config : DailyIndexWalkForwardConfig) (dates : List ℕ)
    (holdout_start : ℕ)
    → All IsMidnight dates
    → IsMidnight holdout_start
    → 0 < config.train_days
    → 0 < config.validation_days
    → 0 < config.test_days
    → 0 < config.step_days
    → ((folds : List DailyIndexWalkForwardFold) × (historical_folds scaled config dates
            holdout_start
          ≡ some (ok folds))
        × All (IsSound config holdout_start) folds
        × IsNumbered 0 folds)
      ⊎ (historical_folds scaled config dates holdout_start ≡ some (raises value_error))
unfolding historical_folds
historical_folds_lem scaled config dates holdout_start midnights midnight ht hv hs step =
    let before = dates_before holdout_start dates in
    let historical = unique_dates before in
    let past = unique_dates-All (IsPast holdout_start) before (
      All-both IsMidnight (λ d. d < holdout_start) before
        (dates_before-All IsMidnight holdout_start dates midnights)
        (dates_before_lem holdout_start dates)) in
    let (a, b, c, sized, fit, asked) =
      scale_window_sizes_lem scaled config.train_days config.validation_days config.test_days
        (length historical) ht hv hs in
    let (folds, run, sound, numbered) =
      folds_from_lem dates historical holdout_start (unique_dates-IsIncreasing before) past midnight
        config (suc (length historical)) a b c 0 0 fit.0 fit.1 fit.2 step (omega arith)
        (omega arith) in
    elim (Bool-cases (ltb (length historical) (a + b + c))) [
      | inl few ↦ inr (rw (sized, few, historical_folds) refl)
      | inr few ↦ inl (folds, rw (sized, few, historical_folds) run, sound, numbered)
    ]

-- The last date is not before the holdout that is resolved, which is one of the dates.
resolve_holdout_start_lem :
    (dates : List ℕ) (holdout_days : ℕ)
    → All IsMidnight dates
    → holdout_days < length (unique_dates dates)
    → (holdout_start last : ℕ) × (resolve_holdout_start dates holdout_days ≡ ok holdout_start)
      × IsMidnight holdout_start
      × (date_at (unique_dates dates) (length (unique_dates dates) - 1) ≡ ok last)
      × (holdout_start ≤ last)
unfolding resolve_holdout_start
resolve_holdout_start_lem dates holdout_days midnights h =
    let unique = unique_dates dates in
    let index = if holdout_days == 0 then 0 else length unique - holdout_days in
    let within : index < length unique = ground arith in
    let before : index ≤ length unique - 1 = omega (arith, within) in
    let all = unique_dates-All IsMidnight dates midnights in
    let (start, e, p) = date_at-All IsMidnight unique index within all in
    let (last, e', p') = date_at-All IsMidnight unique (length unique - 1) (omega arith) all in
    let many : leb (length unique) holdout_days ≡ false = ground arith in
    (
      start,
      last,
      rw (many, e) refl,
      p,
      e',
      date_at-ordered_weak unique index (length unique - 1) start last
          (unique_dates-IsIncreasing dates) before e e',
    )

dated_folds_lem :
    (scaled : ℕ → ℕ → ℕ → ℕ) (dates : List ℕ) (config : DailyIndexWalkForwardConfig)
    → All IsMidnight dates
    → 0 < config.train_days
    → 0 < config.validation_days
    → 0 < config.test_days
    → 0 < config.step_days
    → (result : Result (List DailyIndexWalkForwardFold × DailyIndexWalkForwardSplit)) × (dated_folds
          scaled dates config
        ≡ some result)
      × IsOutcome config result
unfolding dated_folds
dated_folds_lem scaled dates config midnights ht hv hs step =
    let unique = unique_dates dates in
    let holdout_days = min config.holdout_days (max 1 (length unique - 3)) in
    elim (Bool-cases (ltb (length unique) 4)) [
      | inl few ↦ (raises value_error, rw few refl, refl)
      | inr few ↦
          let (start, last, held, midnight, ended, le) =
            resolve_holdout_start_lem dates holdout_days midnights (ground (arith, few)) in
          elim (Bool-cases (ltb (length (dates_from start dates)) config.min_holdout_rows)) [
            | inl short ↦ (raises value_error, rw (few, held, short) refl, refl)
            | inr short ↦
                elim (historical_folds_lem scaled config dates start midnights midnight ht hv hs
                  step) [
                    | inr bad ↦ (raises value_error, rw (few, held, short, bad) refl, refl)
                    | inl (folds, run, sound, numbered) ↦ elim (Bool-cases (is_empty folds)) [
                      | inl empty ↦
                          (raises value_error, rw (few, held, short, run, empty) refl, refl)
                      | inr empty ↦
                          let split : DailyIndexWalkForwardSplit = record {
                            holdout_start = start;
                            holdout_end = last + one_day;
                          } in
                          (
                            ok (folds, split),
                            rw (few, held, short, run, empty, ended) refl,
                            (empty, sound, numbered, omega (arith, le)),
                          )
                    ]
                  ]
          ]
    ]

-- Where the timestamps of the column are midnights, the loops end, whatever the sizes and the
-- rounding are. What is raised is a ValueError, never the IndexError of a date out of range; else
-- there is a fold, the folds are numbered from 0, and each has enough rows in every window, trains on
-- days before those that it validates on, tests on days after both, and is over before the holdout.
pub make_walk_forward_folds_lem :
    (scaled : ℕ → ℕ → ℕ → ℕ) (column : List (Option ℕ)) (config : DailyIndexWalkForwardConfig)
    → All IsSession column
    → (result : Result (List DailyIndexWalkForwardFold × DailyIndexWalkForwardSplit))
      × (make_walk_forward_folds scaled column config ≡ some result)
      × IsOutcome config result
unfolding make_walk_forward_folds
make_walk_forward_folds_lem scaled column config sessions =
    let zero_size =
      config.train_days == 0
      || config.validation_days == 0
      || config.test_days == 0
      || config.step_days == 0 in
    elim (Bool-cases zero_size) [
      | inl z ↦ (raises value_error, rw z refl, refl)
      | inr z ↦ elim (session_dates_lem column sessions) [
        | inr bad ↦ (raises value_error, rw (z, bad) refl, refl)
        | inl (dates, read, midnights) ↦
            let (result, run, outcome) =
              dated_folds_lem scaled dates config midnights (ground (arith, z)) (ground (arith, z))
                (ground (arith, z)) (ground (arith, z)) in
            (result, rw (z, read) run, outcome)
      ]
    ]
