-- ===== src/Providers.antt =====
-- src/stock_daily_report/providers/: retrieval of history, its cache and its limits.
pub mod Gate
pub mod Redact
pub mod Cache
pub mod Service
