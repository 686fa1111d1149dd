-- ===== src/Forecast/WalkForward.antt =====
-- src/app/daily_index_forecast/walk_forward.py. A frame is its column of session dates, a timestamp
-- is a number of microseconds, and `none` is a value that is no timestamp. The window sizes are
-- natural numbers, as `DailyIndexWalkForwardConfig` asks, and `int(day_count * scale)`, which
-- computes with floats, is a parameter.
pub mod Windows
pub mod Sessions
pub mod Folds
pub mod Split
pub mod Tests
use web_enigma.Base.{
  ℕ, zero, suc, ◌+◌, ◌-◌, ◌*◌, ◌==◌, leb, ltb, max, min, Bool, true, false, not, ◌&&◌, ◌||◌,
  if◌then◌else◌, Option, none, some, List, [], ◌∷◌, ◌++◌,
}
use web_enigma.Base.Lists.{length}
use web_enigma.Base.Texts.{is_empty}
use web_enigma.Base.Result.{Result, ok, raises, ◌>>=◌, value_error, index_error}

pub record DailyIndexWalkForwardFold : Type 0 where
  pub fold_id : ℕ
  pub train_start : ℕ
  pub train_end : ℕ
  pub validation_start : ℕ
  pub validation_end : ℕ
  pub test_start : ℕ
  pub test_end : ℕ
  pub n_train : ℕ
  pub n_validation : ℕ
  pub n_test : ℕ

pub record DailyIndexWalkForwardSplit : Type 0 where
  pub holdout_start : ℕ
  pub holdout_end : ℕ

pub record DailyIndexWalkForwardConfig : Type 0 where
  pub train_days : ℕ
  pub validation_days : ℕ
  pub test_days : ℕ
  pub step_days : ℕ
  pub embargo_days : ℕ
  pub min_train_rows : ℕ
  pub min_validation_rows : ℕ
  pub min_test_rows : ℕ
  pub min_holdout_rows : ℕ
  pub holdout_days : ℕ

-- pd.Timedelta(days=1)
abbrev pub one_day : ℕ
one_day = 86400000000

-- _session_dates
unfoldable pub session_dates : List (Option ℕ) → Result (List ℕ)
session_dates [] = ok []
session_dates (none ∷ column) = raises value_error
session_dates (some date ∷ column) = session_dates column >>= (λ dates. ok (date ∷ dates))

-- Where `date` is among the dates, they are as they were.
unfoldable pub insert_date : ℕ → List ℕ → List ℕ
insert_date date [] = date ∷ []
insert_date date (d ∷ dates) =
    let rest = insert_date date dates in
    if date == d then d ∷ dates else if ltb date d then date ∷ d ∷ dates else d ∷ rest

-- pd.Index(dates.unique()).sort_values()
unfoldable pub unique_dates : List ℕ → List ℕ
unique_dates [] = []
unique_dates (date ∷ dates) = insert_date date (unique_dates dates)

-- dates[index]
unfoldable pub date_at : List ℕ → ℕ → Result ℕ
date_at [] index = raises index_error
date_at (d ∷ dates) zero = ok d
date_at (d ∷ dates) (suc index) = date_at dates index

-- (dates >= start) & (dates < end), summed
unfoldable pub count_between : ℕ → ℕ → List ℕ → ℕ
count_between start end [] = 0
count_between start end (d ∷ dates) =
    let rest = count_between start end dates in if leb start d && ltb d end then suc rest else rest

-- ordered.loc[~holdout_mask]
unfoldable pub dates_before : ℕ → List ℕ → List ℕ
dates_before start [] = []
dates_before start (d ∷ dates) =
    let rest = dates_before start dates in if leb start d then rest else d ∷ rest

-- ordered.loc[holdout_mask]
unfoldable pub dates_from : ℕ → List ℕ → List ℕ
dates_from start [] = []
dates_from start (d ∷ dates) =
    let rest = dates_from start dates in if leb start d then d ∷ rest else rest

-- The body of the `while` of _scale_window_sizes: the largest window, the first of them where there
-- are several, loses a day; otherwise the first that can; `none` is the `break`.
unfoldable pub trim_window : ℕ → ℕ → ℕ → Option (ℕ × ℕ × ℕ)
trim_window a b c =
    if leb b a && leb c a && ltb 1 a
    then some (a - 1, b, c)
    else if not (leb b a && leb c a) && leb c b && ltb 1 b
    then some (a, b - 1, c)
    else if not (leb b a && leb c a) && not (leb c b) && ltb 1 c
    then some (a, b, c - 1)
    else if ltb 1 a
    then some (a - 1, b, c)
    else if ltb 1 b
    then some (a, b - 1, c)
    else if ltb 1 c
    then some (a, b, c - 1)
    else none

-- The `while` of _scale_window_sizes; `none` is that the fuel was not enough.
unfoldable pub trim_windows : ℕ → ℕ → ℕ → ℕ → ℕ → Option (ℕ × ℕ × ℕ)
trim_windows zero available a b c = none
trim_windows (suc fuel) available a b c =
    if leb (a + b + c) available then some (a, b, c) else elim (trim_window a b c) [
      | none ↦ some (a, b, c)
      | some (a', b', c') ↦ trim_windows fuel available a' b' c'
    ]

-- resolve_holdout_start
unfoldable pub resolve_holdout_start : List ℕ → ℕ → Result ℕ
resolve_holdout_start dates holdout_days =
    let unique = unique_dates dates in
    if leb (length unique) holdout_days
    then raises value_error
    else date_at unique (if holdout_days == 0 then 0 else length unique - holdout_days)

-- The fold at an anchor, with what it reads of the dates of the history.
unfoldable pub fold_at : List ℕ → List ℕ → ℕ → ℕ → ℕ → ℕ → ℕ → ℕ → Result DailyIndexWalkForwardFold
fold_at dates historical train validation test embargo fold_id anchor =
    date_at historical anchor >>= (λ train_start.
      date_at historical (anchor + train - 1) >>= (λ last_train.
        date_at historical (anchor + train + validation - 1) >>= (λ last_validation.
          date_at historical (anchor + train + validation + embargo) >>= (λ test_start.
            date_at historical (anchor + train + validation + embargo + test - 1) >>= (λ last_test.
              ok (record {
                fold_id = fold_id;
                train_start = train_start;
                train_end = last_train + one_day;
                validation_start = last_train + one_day;
                validation_end = last_validation + one_day;
                test_start = test_start;
                test_end = last_test + one_day;
                n_train = count_between train_start (last_train + one_day) dates;
                n_validation =
                    count_between (last_train + one_day) (last_validation + one_day) dates;
                n_test = count_between test_start (last_test + one_day) dates;
              }))))))

-- The fold has a window with too few rows.
unfoldable pub is_short : DailyIndexWalkForwardConfig → DailyIndexWalkForwardFold → Bool
is_short config fold =
    ltb fold.n_train config.min_train_rows
    || ltb fold.n_validation config.min_validation_rows
    || ltb fold.n_test config.min_test_rows

-- The `while` of make_walk_forward_folds; `none` is that the fuel was not enough.
unfoldable pub folds_from :
    ℕ
    → DailyIndexWalkForwardConfig
    → List ℕ
    → List ℕ
    → ℕ
    → ℕ
    → ℕ
    → ℕ
    → ℕ
    → Option (Result (List DailyIndexWalkForwardFold))
folds_from zero config dates historical train validation test fold_id anchor = none
folds_from (suc fuel) config dates historical train validation test fold_id anchor =
    if leb (anchor + train + validation + config.embargo_days + test) (length historical)
    then elim (fold_at dates historical train validation test config.embargo_days fold_id anchor) [
      | raises e ↦ some (raises e)
      | ok fold ↦ elim (is_short config fold) [
        | true ↦
            folds_from fuel config dates historical train validation test fold_id
              (anchor + config.step_days)
        | false ↦
            elim (folds_from fuel config dates historical train validation test (suc fold_id)
              (anchor + config.step_days)) [
                | none ↦ none
                | some (raises e) ↦ some (raises e)
                | some (ok folds) ↦ some (ok (fold ∷ folds))
              ]
      ]
    ]
    else some (ok [])

module _ (scaled : ℕ → ℕ → ℕ → ℕ) where
  -- _scale_window_sizes; `scaled d n m` is `int(d * (n / m))`.
  unfoldable pub scale_window_sizes : ℕ → ℕ → ℕ → ℕ → Option (ℕ × ℕ × ℕ)
  scale_window_sizes train validation test available =
      let total = train + validation + test in
      let a = max 1 (scaled train available total) in
      let b = max 1 (scaled validation available total) in
      let c = max 1 (scaled test available total) in
      if leb total available
      then some (train, validation, test)
      else trim_windows (suc (a + b + c)) available a b c

  -- The folds over the history, once the holdout is set aside; the rest of make_walk_forward_folds.
  unfoldable pub historical_folds :
      DailyIndexWalkForwardConfig → List ℕ → ℕ → Option (Result (List DailyIndexWalkForwardFold))
  historical_folds config dates holdout_start =
      let historical = unique_dates (dates_before holdout_start dates) in
      elim (scale_window_sizes config.train_days config.validation_days config.test_days
        (length historical)) [
          | none ↦ none
          | some (train, validation, test) ↦
              if ltb (length historical) (train + validation + test)
              then some (raises value_error)
              else folds_from (suc (length historical)) config dates historical train validation
                  test 0 0
        ]

  -- make_walk_forward_folds once the dates are read. Its sums over rows do not depend on the order
  -- of the rows.
  unfoldable pub dated_folds :
      List ℕ
      → DailyIndexWalkForwardConfig
      → Option (Result (List DailyIndexWalkForwardFold × DailyIndexWalkForwardSplit))
  dated_folds dates config =
      let unique = unique_dates dates in
      let holdout_days = min config.holdout_days (max 1 (length unique - 3)) in
      if ltb (length unique) 4
      then some (raises value_error)
      else elim (resolve_holdout_start dates holdout_days) [
        | raises e ↦ some (raises e)
        | ok holdout_start ↦
            if ltb (length (dates_from holdout_start dates)) config.min_holdout_rows
            then some (raises value_error)
            else elim (historical_folds config dates holdout_start) [
              | none ↦ none
              | some (raises e) ↦ some (raises e)
              | some (ok folds) ↦
                  if is_empty folds
                  then some (raises value_error)
                  else some (
                      date_at unique (length unique - 1) >>= (λ last. ok (
                        folds,
                        record { holdout_start = holdout_start; holdout_end = last + one_day },
                      )))
            ]
      ]

  -- make_walk_forward_folds
  unfoldable pub make_walk_forward_folds :
      List (Option ℕ)
      → DailyIndexWalkForwardConfig
      → Option (Result (List DailyIndexWalkForwardFold × DailyIndexWalkForwardSplit))
  make_walk_forward_folds column config =
      if config.train_days == 0
        || config.validation_days == 0
        || config.test_days == 0
        || config.step_days == 0
      then some (raises value_error)
      else elim (session_dates column) [
        | raises e ↦ some (raises e)
        | ok dates ↦ dated_folds dates config
      ]
