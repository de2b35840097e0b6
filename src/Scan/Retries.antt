-- ===== src/Scan/Retries.antt =====
-- src/stock_daily_report/market_scan/resumable.py: `_process_candidate_with_retries`. Of a candidate's
-- result only what the scan's control flow reads is modelled: its quote, status, reasons and metrics.
--
-- Parameter: `process n` is what the call of `_process_candidate` at attempt n returns for the quote.

pub mod Attempts
use stock_daily_report.Prelude.{ℕ, Bool, true, false, ◌&&◌, ◌||◌, List, [], ◌∷◌, ◌++◌, map}
use stock_daily_report.Texts.{Text}
use stock_daily_report.Scan.Filters.{UniverseQuote}
use stock_daily_report.Providers.Service.{ProviderRequestMetric}

pub data ResultStatus : Type 0 where
  valid history_excluded history_failed : ResultStatus

pub data FailureReason : Type 0 where
  network_error all_providers_failed provider_circuit_open invalid_remote_response : FailureReason
  other_reason : Text → FailureReason

-- `_CandidateResult`
pub record CandidateResult : Type 0 where
  pub quote : UniverseQuote
  pub status : ResultStatus
  pub reason_codes : List FailureReason
  pub provider_metrics : List ProviderRequestMetric

-- `reason in _RETRYABLE_HISTORY_FAILURES`
abbrev pub is_retryable : FailureReason → Bool
is_retryable (other_reason _) = false
is_retryable _ = true

abbrev pub any : (FailureReason → Bool) → List FailureReason → Bool
any test [] = false
any test (r ∷ rs) = test r || any test rs

abbrev pub is_failed : ResultStatus → Bool
is_failed history_failed = true
is_failed _ = false

unfoldable pub should_retry : CandidateResult → Bool
should_retry r = is_failed r.status && any is_retryable r.reason_codes

abbrev pub as_retry : ProviderRequestMetric → ProviderRequestMetric
as_retry m = record {
  provider_name = m.provider_name;
  outcome = m.outcome;
  cache_hit = m.cache_hit;
  retry = true;
  error_code = m.error_code;
}

abbrev pub with_metrics : CandidateResult → List ProviderRequestMetric → CandidateResult
with_metrics r metrics = record {
  quote = r.quote;
  status = r.status;
  reason_codes = r.reason_codes;
  provider_metrics = metrics;
}

-- `range(1, HISTORY_FAILURE_ATTEMPTS)`
abbrev pub retry_numbers : List ℕ
retry_numbers = 1 ∷ 2 ∷ []

module _ (process : ℕ → CandidateResult) where
  -- The loop: the last result, under the metrics of all the attempts.
  unfoldable pub retry_from :
      List ℕ → CandidateResult → List ProviderRequestMetric → CandidateResult
  retry_from [] r metrics = with_metrics r metrics
  retry_from (n ∷ ns) r metrics = elim (should_retry r) [
    | false ↦ with_metrics r metrics
    | true ↦ retry_from ns (process n) (metrics ++ map as_retry (process n).provider_metrics)
  ]

  unfoldable pub process_candidate_with_retries : CandidateResult
  process_candidate_with_retries = retry_from retry_numbers (process 0) (process 0).provider_metrics
