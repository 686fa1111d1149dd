-- ===== src/Backtests.antt =====
-- src/app/backtests: how a backtest's runs are split into jobs, merged, and followed to their end.
pub mod Sharding
pub mod Reconciler
pub mod Merge
mod Tests
mod Runs
