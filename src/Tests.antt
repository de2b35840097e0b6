-- ===== src/Tests.antt =====
-- Runs of the model at small inputs, and each theorem at an input that meets its hypotheses.
mod Chan
mod Strict
mod Quality
mod Decision
mod Scan
mod Backtest
mod Providers
mod Resumable
mod Scoring
mod Collect
mod Runner
