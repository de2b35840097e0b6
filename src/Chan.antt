-- ===== src/Chan.antt =====
-- The structural analyzers of src/stock_daily_report/chan/.
pub mod Common
pub mod Inclusion
pub mod Fractals
pub mod Strokes
pub mod Central
pub mod Simplified
pub mod Observations
pub mod Strict
