-- ===== src/Providers/Service.antt =====
-- src/stock_daily_report/providers/service.py: `MarketDataService.fetch`.
--
-- Parameters: `request p` is what acquiring the gate and then asking provider p for bars comes to,
-- `parse` is the parsing of an item's fields by the quality checks, and `normalize` is
-- `_normalize_bar`, whose validation is pydantic's. `cached p` is what the cache loads for p. The two
-- providers of the selection differ, as the constructor checks. Durations and messages are left out.
pub mod Selection
pub mod Outcome
use stock_daily_report.Prelude.{
  ℕ, Bool, true, false, not, List, [], ◌∷◌, ◌++◌, map, Option, none, some, if◌then◌else◌,
}
use stock_daily_report.Bars.{Date, DailyBar}
use stock_daily_report.Quality.{
  BarRecord, DataQualitySettings, DataQualityResult, invalid_bar, invalid_response, validate_bars,
  with_issue,
}
use stock_daily_report.Providers.Redact.{Value, items, Values, nil, cons}

pub data Provider : Type 0 where
  primary fallback : Provider

pub data ErrorCode : Type 0 where
  provider_circuit_open data_quality_rejected bar_rejected : ErrorCode
  upstream : ℕ → ErrorCode

-- `crashes` is any exception but a ProviderAvailabilityError.
pub data Reply : Type 0 where
  answers : Value → Reply
  unavailable : ErrorCode → Reply
  crashes : Reply

pub data MetricOutcome : Type 0 where
  hit failure success data_rejected : MetricOutcome

pub record ProviderRequestMetric : Type 0 where
  pub provider_name : Provider
  pub outcome : MetricOutcome
  pub cache_hit : Bool
  pub retry : Bool
  pub error_code : Option ErrorCode

pub record FetchedBars : Type 0 where
  pub provider_name : Provider
  pub bars : List DailyBar
  pub quality : DataQualityResult
  pub from_cache : Bool

-- `rejected` is the DataQualityError, `all_failed` the AllProvidersFailedError.
pub data FetchOutcome : Type 0 where
  fetched : FetchedBars → FetchOutcome
  rejected : Provider → DataQualityResult → FetchOutcome
  all_failed : List (Provider × ErrorCode) → FetchOutcome
  crashed : FetchOutcome

-- What `fetch` comes to: its result with the metrics that it carries, the providers whose failure is
-- recorded at the gate, and the response to be cached, now or with the batch.
pub record Fetch : Type 0 where
  pub outcome : FetchOutcome
  pub metrics : List ProviderRequestMetric
  pub recorded : List Provider
  pub persisted : Option (Provider × Value)

abbrev pub list_of : Values → List Value
list_of nil = []
list_of (cons v vs) = v ∷ list_of vs

-- A sequence that is no text: what `_require_sequence` lets pass.
unfoldable pub sequence_of : Value → Option (List Value)
sequence_of (items vs) = some (list_of vs)
sequence_of _ = none

abbrev prepend : Option DailyBar → Option (List DailyBar) → Option (List DailyBar)
prepend (some b) (some bs) = some (b ∷ bs)
prepend _ _ = none

unfoldable pub normalize_all : (Value → Option DailyBar) → List Value → Option (List DailyBar)
normalize_all normalize [] = some []
normalize_all normalize (v ∷ vs) = prepend (normalize v) (normalize_all normalize vs)

-- `retry=bool(failures)`
abbrev pub metric :
    Provider
    → MetricOutcome
    → Bool
    → List (Provider × ErrorCode)
    → Option ErrorCode
    → ProviderRequestMetric
metric p outcome cache_hit failures error_code = record {
  provider_name = p;
  outcome = outcome;
  cache_hit = cache_hit;
  retry = elim failures [ [] ↦ false | _ ∷ _ ↦ true ];
  error_code = error_code;
}

-- The failed attempts so far, with their metrics and the failures recorded at the gate.
pub record Attempts : Type 0 where
  pub failures : List (Provider × ErrorCode)
  pub metrics : List ProviderRequestMetric
  pub recorded : List Provider

abbrev pub no_attempts : Attempts
no_attempts = record { failures = []; metrics = []; recorded = [] }

-- `if error.code != "provider_circuit_open": record_failure`
abbrev pub recorded_for : Provider → ErrorCode → List Provider
recorded_for p provider_circuit_open = []
recorded_for p _ = p ∷ []

abbrev pub add_failure : Provider → ErrorCode → Attempts → Attempts
add_failure p code a = record {
  failures = a.failures ++ ((p, code) ∷ []);
  metrics = a.metrics ++ (metric p failure false a.failures (some code) ∷ []);
  recorded = a.recorded ++ recorded_for p code;
}

-- The selection, with a provider whose response is cached first.
unfoldable pub selection : (Provider → Option Value) → List Provider
selection cached = elim (cached primary) [
  | some _ ↦ primary ∷ fallback ∷ []
  | none ↦ elim (cached fallback) [
    | some _ ↦ fallback ∷ primary ∷ []
    | none ↦ primary ∷ fallback ∷ []
  ]
]

module _ (parse : Value → BarRecord) (normalize : Value → Option DailyBar) (as_of : Date)
    (settings : DataQualitySettings) where
  -- The result of the checks of a response that is no sequence.
  abbrev pub no_sequence : DataQualityResult
  no_sequence = record {
    as_of = as_of;
    issues = record { code = invalid_response; record_index = none } ∷ [];
    bar_count = 0;
    analysis_allowed = false;
  }

  abbrev pub quality_of : List Value → DataQualityResult
  quality_of vs = validate_bars (map parse vs) as_of settings

  -- The end of a round that has a response: the checks, the normalization and the result.
  unfoldable pub accept_bars :
      Provider → Bool → Attempts → Value → List Value → Option (List DailyBar) → Fetch
  accept_bars p from_cache a response vs none = record {
    outcome = rejected p (with_issue (quality_of vs) invalid_bar);
    metrics = a.metrics ++ (metric p data_rejected from_cache a.failures (some bar_rejected) ∷ []);
    recorded = a.recorded;
    persisted = none;
  }
  accept_bars p from_cache a response vs (some bars) = record {
    outcome = fetched (record {
      provider_name = p;
      bars = bars;
      quality = quality_of vs;
      from_cache = from_cache;
    });
    metrics =
        a.metrics
        ++ (metric p (if from_cache then hit else success) from_cache a.failures none ∷ []);
    recorded = a.recorded;
    persisted = if from_cache then none else some (p, response);
  }

  unfoldable pub accept_items : Provider → Bool → Attempts → Value → List Value → Fetch
  accept_items p from_cache a response vs =
      if not (quality_of vs).analysis_allowed
      then record {
        outcome = rejected p (quality_of vs);
        metrics =
            a.metrics
            ++ (metric p data_rejected from_cache a.failures (some data_quality_rejected) ∷ []);
        recorded = a.recorded;
        persisted = none;
      }
      else accept_bars p from_cache a response vs (normalize_all normalize vs)

  unfoldable pub accept : Provider → Bool → Attempts → Value → Fetch
  accept p from_cache a response = elim (sequence_of response) [
    | none ↦ record {
      outcome = rejected p no_sequence;
      metrics = [];
      recorded = a.recorded;
      persisted = none;
    }
    | some vs ↦ accept_items p from_cache a response vs
  ]

  module _ (cached : Provider → Option Value) (request : Provider → Reply) where
    -- The loop over the selection.
    unfoldable pub fetch_from : List Provider → Attempts → Fetch
    fetch_from [] a = record {
      outcome = all_failed a.failures;
      metrics = a.metrics;
      recorded = a.recorded;
      persisted = none;
    }
    fetch_from (p ∷ ps) a = elim (cached p) [
      | some response ↦ accept p true a response
      | none ↦ elim (request p) [
        | answers response ↦ accept p false a response
        | unavailable code ↦ fetch_from ps (add_failure p code a)
        | crashes ↦ record {
          outcome = crashed;
          metrics = [];
          recorded = a.recorded;
          persisted = none;
        }
      ]
    ]

    unfoldable pub fetch : Fetch
    fetch = fetch_from (selection cached) no_attempts
