-- ===== src/Lib.antt =====
-- Verification of the stock daily report's rule-first core.
--
-- The program validates daily bars, derives indicators, structural observations and a trend from
-- them, applies risk rules, decides on one label for each stock, scans the market for candidates, and
-- compares its analyzers on past data. Its deterministic rules are modelled here.
--
-- Files and the code that they model (paths from the repository's root):
--   Prelude            names, tests and list lemmas that the modules share
--   Bars               src/stock_daily_report/models.py: DailyBar
--   Floats             Python floats as far as rules test and compare them; _finite, _positive_finite
--   Quality            src/stock_daily_report/quality/checks.py: validate_bars and its helpers
--     Calendar           the weekdays of _most_recent_weekday, _weekday_distance and _is_stale
--     Clean, Decide      what the checks decide
--   Chan               src/stock_daily_report/chan/
--     Common             common.py: the records of the structural observations
--     Inclusion          simplified.py: _includes, _direction, _process_inclusion
--     Fractals           simplified.py: _trade_date_after, _find_fractals
--     Strokes            simplified.py: _find_strokes, _is_more_extreme, _overlap
--     Central            simplified.py: _find_central_candidates, _find_central_areas
--     Observations       simplified.py: _find_observations
--     Simplified         simplified.py: _find_support_resistance, _state, analyze
--     Strict             strict.py: a child for the profile and events, for each step, and analyze
--   Metrics            src/stock_daily_report/indicators/technical.py: TechnicalMetrics
--   Risk               src/stock_daily_report/risk/rules.py: evaluate_risk_rules
--   Decision           src/stock_daily_report/decision.py: _label, _derived_label, _key_levels
--   Trend              src/stock_daily_report/indicators/trend.py: classify_trend
--   Texts              Python strings as lists of code points
--   Providers          src/stock_daily_report/providers/
--     Gate               requests.py: ProviderRequestGate
--     Redact             service.py: _redact, _is_sensitive_key
--     Cache              service.py: RawResponseCache.load and store, commit_staged_cache_writes
--     Service            service.py: MarketDataService.fetch, _require_sequence
--   Scan               src/stock_daily_report/market_scan/
--     Reasons, Filters   filters.py: both filters and EligibilityResult
--     State              state.py: breadth, index trend, classification
--     Scoring            scoring.py: a child for the components' scores, for score_candidate and for
--                        rank_scores with _ranking_records and _consensus of runner.py
--     Collect            runner.py: _collect_with_timeout
--     Retries            resumable.py: _process_candidate_with_retries
--     Runner             runner.py: scan_market, with the statuses and the published rankings
--     Checkpoints        resume.py: ScanCheckpoint
--     Resumable          resumable.py: _run_resumable_scan; resume.py: load_checkpoint
--   Backtest           src/stock_daily_report/backtest/
--     Replay             replay.py: replay, _coalesce_visible, execution_signals
--     Execution          execution.py: execute_signal
--   Tests              runs at small inputs, and the theorems at concrete inputs
--
-- How they meet: Scan.Filters calls Quality, as filter_history calls validate_bars. Decision calls
-- Risk, and Trend.Agrees ties Trend to Decision. Backtest.Replay takes any analyzer as a parameter.
-- Providers.Service calls Quality on a response and hands its failures to Gate's record_failure; what
-- acquiring at Gate and asking come to, and what Cache loads, are its arguments. Cache stores what
-- Redact returns. Scan.Resumable calls Scan.Filters, and Scan.Retries under the verdicts of
-- Scan.Collect; Scan.Runner, the scan that it ends with, calls Scan.Filters and ranks with
-- Scan.Scoring, which scores a result of Chan.Simplified.
--
-- A date is its ordinal. Where the code only compares prices, a price is the rank of the double
-- among the finite doubles that are not negative; other floats have NaN, infinities and signs.
-- Floating-point arithmetic is a parameter (the distance from MA20, the price limit with its
-- decimals, the scores and the coverage), or left out with the indicators that need it. Clock times
-- and durations are whole ticks. Lists that a loop appends to are emitted in order. A ValueError
-- is `none` or an error value. Theorems on weekdays ask for an ordinal of 1 or more, which every date
-- has.
--
-- Fuel: the searches for central areas run on the number of strokes, of which each round uses one or
-- more; the simplified one's theorem covers that. Going back to a weekday runs on two rounds, which
-- its theorem shows to be enough. The scan's loop over the batches runs on more than the number of
-- quotes, and the wait at the gate on one round for each tick of waiting and one more, which their
-- theorems show to be enough. All other loops are structural recursion.
--
-- Not modelled: the network providers, the recovery journal of the cache's staged commit (what a
-- recovery after a crash leaves in a file is one of the changes by others that Cache allows), file
-- formats and locks, the child process of a history request with its timeout, the classification of
-- its result (the resumable scan takes the results, and the verdicts of the collection, as
-- arguments), the hashes of the scan's artifact, the pipeline, formatting of reports, the evidence
-- texts of decisions, notifications and the YAML and command-line configuration.
pub mod Prelude
pub mod Texts
pub mod Bars
pub mod Chan
pub mod Floats
pub mod Quality
pub mod Metrics
pub mod Risk
pub mod Decision
pub mod Trend
pub mod Scan
pub mod Backtest
pub mod Providers
pub mod Tests
