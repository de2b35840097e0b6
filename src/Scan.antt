-- ===== src/Scan.antt =====
-- src/stock_daily_report/market_scan/: the scan of the whole market.
pub mod Reasons
pub mod Filters
pub mod State
pub mod Scoring
pub mod Retries
pub mod Collect
pub mod Checkpoints
pub mod Resumable
pub mod Runner
