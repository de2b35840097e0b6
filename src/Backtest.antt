-- ===== src/Backtest.antt =====
-- src/stock_daily_report/backtest/: the comparison of analyzers on past data.
pub mod Replay
pub mod Execution
