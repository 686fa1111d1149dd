-- ===== src/Forecast/WalkForward/Windows.antt =====
-- src/app/daily_index_forecast/walk_forward.py: the sizes that `_scale_window_sizes` returns.
use web_enigma.Base.{
  ℕ, zero, suc, ◌+◌, ◌≤◌, ◌<◌, leb, max, ◌≡◌, refl, none, some, arith, inl, inr, Option-cases,
  Bool-cases,
}
use web_enigma.Forecast.WalkForward.{trim_window, trim_windows, scale_window_sizes}

-- The sizes are positive, and they fit the days that are available where three days are.
abbrev pub IsFitting : ℕ → ℕ → ℕ → ℕ → Type 0
IsFitting available a b c = (0 < a) × (0 < b) × (0 < c) × (a + b + c ≤ max 3 available)

trim_window-none : (a b c : ℕ) → trim_window a b c ≡ none → a + b + c ≤ 3
unfolding trim_window
trim_window-none a b c h = ground arith

trim_window-some :
    (a b c a' b' c' : ℕ)
    → 0 < a
    → 0 < b
    → 0 < c
    → trim_window a b c ≡ some (a', b', c')
    → (a' + b' + c' + 1 ≡ a + b + c)
      × (0 < a')
      × (0 < b')
      × (0 < c')
      × (a' ≤ a)
      × (b' ≤ b)
      × (c' ≤ c)
unfolding trim_window
trim_window-some a b c a' b' c' ha hb hc h = (
  ground arith,
  ground arith,
  ground arith,
  ground arith,
  ground arith,
  ground arith,
  ground arith,
)

trim_windows_lem :
    (fuel available a b c : ℕ)
    → a + b + c < fuel
    → 0 < a
    → 0 < b
    → 0 < c
    → (a' b' c' : ℕ) × (trim_windows fuel available a b c ≡ some (a', b', c'))
      × IsFitting available a' b' c'
      × (a' ≤ a)
      × (b' ≤ b)
      × (c' ≤ c)
unfolding trim_windows
trim_windows_lem zero available a b c h ha hb hc = absurd (omega arith)
trim_windows_lem (suc fuel) available a b c h ha hb hc =
    elim (Bool-cases (leb (a + b + c) available)) [
      | inl e ↦
          (a, b, c, rw e refl, (ha, hb, hc, ground arith), omega arith, omega arith, omega arith)
      | inr e ↦ elim (Option-cases (trim_window a b c)) [
        | inl n ↦ (
          a,
          b,
          c,
          rw (e, n) refl,
          (ha, hb, hc, omega (arith, trim_window-none a b c n)),
          omega arith,
          omega arith,
          omega arith,
        )
        | inr ((a', b', c'), s) ↦
            let t = trim_window-some a b c a' b' c' ha hb hc s in
            let (x, y, z, run, fit, p, q, r) =
              trim_windows_lem fuel available a' b' c' (omega arith) t.1 t.2 t.3 in
            (x, y, z, rw (e, s) run, fit, omega arith, omega arith, omega arith)
      ]
    ]

-- For sizes that are positive the scaling ends, whatever the rounding of the float product is: it
-- returns positive sizes whose sum is at most the days that are available, or three where fewer are
-- available, and the sizes that were asked for where they fit.
pub scale_window_sizes_lem :
    (scaled : ℕ → ℕ → ℕ → ℕ) (train validation test available : ℕ)
    → 0 < train
    → 0 < validation
    → 0 < test
    → (a b c : ℕ) × (scale_window_sizes scaled train validation test available ≡ some (a, b, c))
      × IsFitting available a b c
      × (train + validation + test ≤ available → (a ≡ train) × (b ≡ validation) × (c ≡ test))
unfolding scale_window_sizes
scale_window_sizes_lem scaled train validation test available ht hv hs =
    let total = train + validation + test in
    let a = max 1 (scaled train available total) in
    let b = max 1 (scaled validation available total) in
    let c = max 1 (scaled test available total) in
    elim (Bool-cases (leb total available)) [
      | inl e ↦
          (train, validation, test, rw e refl, (ht, hv, hs, ground arith), λ h. (refl, refl, refl))
      | inr e ↦
          let (x, y, z, run, fit, p, q, r) =
            trim_windows_lem (suc (a + b + c)) available a b c (omega arith) (omega arith)
              (omega arith) (omega arith) in
          (x, y, z, rw e run, fit, λ h. absurd (ground arith))
    ]
