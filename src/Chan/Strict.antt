-- ===== src/Chan/Strict.antt =====
-- src/stock_daily_report/chan/strict.py: the strict benchmark analyzer.
pub mod Events
pub mod Inclusion
pub mod Fractals
pub mod Strokes
pub mod Central
pub mod Segments
pub mod Signals
