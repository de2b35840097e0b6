-- ===== src/Tests/Providers.antt =====
-- A gate, a cache and a fetch of src/stock_daily_report/providers/ at small inputs.
use stock_daily_report.Prelude.{
  ℕ, ◌+◌, ◌≤◌, ◌≡◌, ◌↔◌, refl, Bool, true, false, List, [], ◌∷◌, Option, none, some, arith, Chain,
  All,
}
use stock_daily_report.Texts.{Text, same_text, ends_with}
use stock_daily_report.Bars.{DailyBar, weekday}
use stock_daily_report.Floats.{float_lt, float_le}
use stock_daily_report.Quality.{
  BarRecord, DataQualitySettings, most_recent_weekday, weekday_distance, is_stale, validate_bars,
  find_issues, all_record_issues, record_issues, range_issues, price_issues, date_issues,
  trade_dates, sequence_issues, is_seen, future_issues, history_issues, stale_issues,
  back_to_weekday, weekdays_after,
}
use stock_daily_report.Providers.Gate.{
  GateState, Limits, is_unlimited, attempt, admitted, refused, acquires, fails, gate_step,
  after_attempt, admission, admissions, acquire,
}
use stock_daily_report.Providers.Gate.Safety.{SpacedBy, admissions-spaced, admissions-cooled}
use stock_daily_report.Providers.Gate.Progress.{EndsWithin, acquire_total}
use stock_daily_report.Providers.Redact.{
  Value, null, flag, text, items, mapping, nil, cons, empty, field, is_one_of, normalized_key,
  is_sensitive_key, mask, redact,
}
use stock_daily_report.Providers.Redact.Clean.{IsClean, redact-IsClean}
use stock_daily_report.Providers.Cache.{
  CacheKey, same_key, Document, unreadable, Files, write, is_expired, dropped, load_document, load,
  store, CacheUse, commits, commit_staged_cache_writes, write_staged, stores, loads, overwrites,
  files_after,
}
use stock_daily_report.Providers.Cache.Sound.{WasStored, load-WasStored, load-store}
use stock_daily_report.Providers.Service.{
  Provider, primary, fallback, ErrorCode, provider_circuit_open, Reply, answers, unavailable,
  FetchedBars, fetched, all_failed, sequence_of, normalize_all, selection, accept_bars,
  accept_items, accept, fetch_from, fetch,
}
use stock_daily_report.Providers.Service.Selection.{IsSound}
use stock_daily_report.Providers.Service.Outcome.{
  Chosen, IsOutage, fetch-IsSound, fetch-all_failed_iff,
}
use stock_daily_report.Tests.Chan.{bar}
use stock_daily_report.Tests.Quality.{bar_record}

abbrev limits : Limits
limits = record { interval = 3; cooldown = 10 }

abbrev gate : GateState
gate = record { next_request = 5; retry_after = 0 }

admissions-run :
    admissions limits gate (acquires 4 ∷ acquires 6 ∷ acquires 7 ∷ acquires 9 ∷ []) ≡ 6 ∷ 9 ∷ []
unfolding admissions admission attempt is_unlimited gate_step after_attempt
admissions-run = refl

admissions-spaced_example :
    Chain
      (SpacedBy 3)
      (admissions limits gate (acquires 4 ∷ acquires 6 ∷ acquires 7 ∷ acquires 9 ∷ []))
unfolding is_unlimited
admissions-spaced_example =
    admissions-spaced limits refl gate (acquires 4 ∷ acquires 6 ∷ acquires 7 ∷ acquires 9 ∷ [])

admissions-cooled_example :
    All (λ t. 6 + 10 ≤ t) (admissions limits gate (fails 6 ∷ acquires 9 ∷ acquires 16 ∷ []))
admissions-cooled_example =
    admissions-cooled limits gate 6 (acquires 9 ∷ acquires 16 ∷ []) (omega arith)

acquire-run : acquire limits gate (λ k. k) 6 0 ≡ some admitted
unfolding acquire attempt is_unlimited
acquire-run = refl

-- A gate in its cooldown
abbrev cooling : GateState
cooling = record { next_request = 5; retry_after = 8 }

cooling-run : acquire limits cooling (λ k. k + 2) 4 0 ≡ some refused
unfolding acquire attempt is_unlimited
cooling-run = refl

acquire_total_example :
    EndsWithin limits cooling (λ k. k + 2) (acquire limits cooling (λ k. k + 2) 4 0) 0 3
acquire_total_example =
    acquire_total limits cooling (λ k. k + 2) 3 0 (λ k. omega arith) (omega arith)

abbrev unchanged : Text → Text
unchanged t = t

abbrev without : Text → Text → Text
without secret t = t

-- {"token": "x", "a": [true]}
abbrev answer : Value
answer = mapping (
    field (b't' ∷ b'o' ∷ b'k' ∷ b'e' ∷ b'n' ∷ []) (text (b'x' ∷ []))
      (field (b'a' ∷ []) (items (cons (flag true) nil)) empty))

abbrev clean_answer : Value
clean_answer = mapping (field (b'a' ∷ []) (items (cons (flag true) nil)) empty)

answer-redacted : redact unchanged without [] answer ≡ some clean_answer
unfolding redact is_sensitive_key normalized_key is_one_of same_text ends_with mask
answer-redacted = refl

redact-IsClean_example : IsClean unchanged clean_answer
redact-IsClean_example = redact-IsClean unchanged without [] answer clean_answer answer-redacted

abbrev key : CacheKey
key = record { provider = 1; code = 600519; start = none; end = some 9 }

abbrev path_of : CacheKey → ℕ
path_of k = k.code

abbrev no_files : Files
no_files path = none

load-store_example :
    let stored = store path_of unchanged without [] 20 key answer no_files in
    load path_of 5 23 key stored ≡ (some clean_answer, stored)
load-store_example =
    load-store path_of 5 unchanged without [] 20 23 key answer clean_answer no_files answer-redacted
      (omega arith) (omega arith)

abbrev uses : List CacheUse
uses =
    loads 21 key
    ∷ commits (record { now = 20; key = key; response = answer } ∷ [])
    ∷ stores 19 key answer
    ∷ overwrites 600519 (some unreadable)
    ∷ []

uses-load :
    (load path_of 5 23 key (files_after path_of 5 unchanged without [] uses)).0 ≡ some clean_answer
unfolding files_after commit_staged_cache_writes write_staged load load_document is_expired dropped
    same_key store write redact is_sensitive_key normalized_key is_one_of same_text ends_with mask
uses-load = refl

load-WasStored_example :
    (d : Document) × WasStored (redact unchanged without []) uses d
    × (d.key ≡ key)
    × (d.response ≡ clean_answer)
    × (d.cached_at ≤ 23)
    × (23 ≤ d.cached_at + 5)
load-WasStored_example =
    load-WasStored path_of 5 unchanged without [] uses 23 key clean_answer uses-load

-- Two items, of which the first one stands for a Monday's bar.
abbrev parse : Value → BarRecord
parse null = bar_record 8
parse _ = bar_record 9

abbrev normalize : Value → Option DailyBar
normalize null = some (bar 8 12 10)
normalize _ = some (bar 9 13 11)

abbrev settings : DataQualitySettings
settings = record { minimum_history_bars = 2; max_completed_trading_day_lag = 1 }

abbrev nothing_cached : Provider → Option Value
nothing_cached p = none

-- The primary provider's circuit is open.
abbrev request : Provider → Reply
request primary = unavailable provider_circuit_open
request fallback = answers (items (cons null (cons (flag true) nil)))

abbrev bars_fetched : FetchedBars
bars_fetched = record {
  provider_name = fallback;
  bars = bar 8 12 10 ∷ bar 9 13 11 ∷ [];
  quality = validate_bars (bar_record 8 ∷ bar_record 9 ∷ []) 10 settings;
  from_cache = false;
}

request-fetched :
    (fetch parse normalize 10 settings nothing_cached request).outcome ≡ fetched bars_fetched
unfolding fetch fetch_from selection accept accept_items accept_bars sequence_of normalize_all
    validate_bars find_issues all_record_issues record_issues range_issues price_issues date_issues
    trade_dates sequence_issues is_seen future_issues history_issues stale_issues is_stale
    most_recent_weekday back_to_weekday weekday_distance weekdays_after weekday float_lt float_le
request-fetched = refl

fetch-IsSound_example :
    (p : Provider) × (from_cache : Bool) × (v : Value) × Chosen nothing_cached request p from_cache
      v
    × IsSound parse normalize 10 settings p from_cache v bars_fetched
        (fetch parse normalize 10 settings nothing_cached request).persisted
fetch-IsSound_example =
    fetch-IsSound nothing_cached request parse normalize 10 settings bars_fetched (omega arith)
      request-fetched

abbrev all_down : Provider → Reply
all_down p = unavailable provider_circuit_open

abbrev outage : List (Provider × ErrorCode)
outage = (primary, provider_circuit_open) ∷ (fallback, provider_circuit_open) ∷ []

fetch-all_failed_iff_example :
    ((fetch parse normalize 10 settings nothing_cached all_down).outcome ≡ all_failed outage) ↔ (
      (c : ErrorCode) × (d : ErrorCode) × IsOutage nothing_cached all_down c d
      × (outage ≡ (primary, c) ∷ (fallback, d) ∷ []))
fetch-all_failed_iff_example =
    fetch-all_failed_iff nothing_cached all_down parse normalize 10 settings outage
