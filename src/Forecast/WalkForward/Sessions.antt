-- ===== src/Forecast/WalkForward/Sessions.antt =====
-- src/app/daily_index_forecast/walk_forward.py: the sorted distinct dates and what is read of them.
use web_enigma.Base.{
  ℕ, zero, suc, ◌+◌, ◌*◌, ◌≤◌, ◌<◌, ◌==◌, ltb, ◌≡◌, refl, subst, List, [], ◌∷◌, arith, inl, inr,
  Bool-cases,
}
use web_enigma.Base.Lists.{length, All, All-map}
use web_enigma.Base.Result.{ok}
use web_enigma.Forecast.WalkForward.{one_day, insert_date, unique_dates, date_at, dates_before}

-- The timestamp is the start of a day.
abbrev pub IsMidnight : ℕ → Type 0
IsMidnight date = (day : ℕ) × (date ≡ day * one_day)

-- Distinct days are a day apart.
pub day_apart : (d e : ℕ) → IsMidnight d → IsMidnight e → d < e → d + one_day ≤ e
day_apart d e (i, hi) (j, hj) h = omega (arith, hi, hj)

abbrev pub IsIncreasing : List ℕ → Type 0
IsIncreasing [] = Unit {0}
IsIncreasing (d ∷ dates) = All (λ e. d < e) dates × IsIncreasing dates

module _ (P : ℕ → Type 0) where
  pub insert_date-All :
      (date : ℕ) (dates : List ℕ) → P date → All P dates → All P (insert_date date dates)
  unfolding insert_date
  insert_date-All date [] p a = (p, tt)
  insert_date-All date (d ∷ dates) p a =
      ground (arith, p, a.0, a.1, insert_date-All date dates p a.1)

  pub unique_dates-All : (dates : List ℕ) → All P dates → All P (unique_dates dates)
  unfolding unique_dates
  unique_dates-All [] a = tt
  unique_dates-All (d ∷ dates) a =
      insert_date-All d (unique_dates dates) a.0 (unique_dates-All dates a.1)

  pub dates_before-All :
      (start : ℕ) (dates : List ℕ) → All P dates → All P (dates_before start dates)
  unfolding dates_before
  dates_before-All start [] a = tt
  dates_before-All start (d ∷ dates) a = ground (arith, a.0, a.1, dates_before-All start dates a.1)

  pub date_at-All :
      (dates : List ℕ) (index : ℕ)
      → index < length dates
      → All P dates
      → (d : ℕ) × (date_at dates index ≡ ok d) × P d
  unfolding date_at
  date_at-All [] index h a = absurd (omega arith)
  date_at-All (d ∷ dates) zero h a = (d, refl, a.0)
  date_at-All (d ∷ dates) (suc index) h a = date_at-All dates index (omega arith) a.1

  pub date_at-ok : (dates : List ℕ) (index d : ℕ) → All P dates → date_at dates index ≡ ok d → P d
  unfolding date_at
  date_at-ok [] index d a h = absurd (ground (arith, h))
  date_at-ok (x ∷ dates) zero d a h = let first : x ≡ d = ground (arith, h) in subst P first a.0
  date_at-ok (x ∷ dates) (suc index) d a h = date_at-ok dates index d a.1 h

pub dates_before_lem :
    (start : ℕ) (dates : List ℕ) → All (λ d. d < start) (dates_before start dates)
unfolding dates_before
dates_before_lem start [] = tt
dates_before_lem start (d ∷ dates) = ground (arith, dates_before_lem start dates)

insert_date-IsIncreasing :
    (date : ℕ) (dates : List ℕ) → IsIncreasing dates → IsIncreasing (insert_date date dates)
unfolding insert_date
insert_date-IsIncreasing date [] h = (tt, tt)
insert_date-IsIncreasing date (d ∷ dates) h = elim (Bool-cases (date == d)) [
  | inl e ↦ rw e h
  | inr e ↦ elim (Bool-cases (ltb date d)) [
    | inl l ↦
        let before : date < d = ground (arith, l) in
        rw (e, l) ((before, All-map (λ x k. omega (arith, before, k)) dates h.0), h)
    | inr l ↦
        let after : d < date = ground (arith, e, l) in
        rw (e, l)
          (
            insert_date-All (λ x. d < x) date dates after h.0,
            insert_date-IsIncreasing date dates h.1,
          )
  ]
]

pub unique_dates-IsIncreasing : (dates : List ℕ) → IsIncreasing (unique_dates dates)
unfolding unique_dates
unique_dates-IsIncreasing [] = tt
unique_dates-IsIncreasing (d ∷ dates) =
    insert_date-IsIncreasing d (unique_dates dates) (unique_dates-IsIncreasing dates)

pub date_at-ordered :
    (dates : List ℕ) (i j d e : ℕ)
    → IsIncreasing dates
    → i < j
    → date_at dates i ≡ ok d
    → date_at dates j ≡ ok e
    → d < e
unfolding date_at
date_at-ordered [] i j d e h lt hi hj = absurd (ground (arith, hi))
date_at-ordered (x ∷ dates) i zero d e h lt hi hj = absurd (omega arith)
date_at-ordered (x ∷ dates) zero (suc j) d e h lt hi hj =
    let first : x ≡ d = ground (arith, hi) in
    subst (λ y. y < e) first (date_at-ok (λ y. x < y) dates j e h.0 hj)
date_at-ordered (x ∷ dates) (suc i) (suc j) d e h lt hi hj =
    date_at-ordered dates i j d e h.1 (omega arith) hi hj
