-- ===== src/Forecast.antt =====
-- src/app/daily_index_forecast: the walk-forward folds of the daily index forecast.
pub mod WalkForward
