-- ===== src/Tests/Scan.antt =====
-- A quote and a history through the filters of src/stock_daily_report/market_scan/filters.py.
use stock_daily_report.Prelude.{◌≡◌, ◌↔◌, refl, true, List, [], ◌∷◌, map, Option, none, some, arith}
use stock_daily_report.Floats.{Float, nan, fin, neg, finite, float_lt}
use stock_daily_report.Bars.{DailyBar, weekday}
use stock_daily_report.Texts.{starts_with}
use stock_daily_report.Quality.{most_recent_weekday, back_to_weekday}
use stock_daily_report.Scan.Reasons.{result_of, add_if, add_reason, has_reason}
use stock_daily_report.Quality.Decide.{IsFit}
use stock_daily_report.Scan.Filters.{
  UniverseQuote, MarketScanSettings, sh, record_of, quality_settings, filter_universe_quote,
  quote_reasons, has_low_amount, is_nonpositive, is_positive_finite, is_supported_security,
  is_a_share_code, is_known_prefix, expected_market, has_delisting_name, contains, has_st_name,
  filter_history,
}
use stock_daily_report.Scan.Filters.Eligible.{
  Trades, IsTradable, filter_history_iff, filter_universe_quote_iff,
}
use stock_daily_report.Scan.State.{
  MarketIndexState, available, bullish, bearish, neutral, aligned, divergent, validate_counts,
  valid_changes, count, advances, declines, calculate_breadth, breadth_from, breadth_of, bulls,
  bears, classify_counts, classify_market_state,
}
use stock_daily_report.Scan.State.Breadth.{
  AddsUp, SameMajority, calculate_breadth-valid, classify_market_state_iff,
}
use stock_daily_report.Tests.Chan.{bar}

-- 600519
abbrev pub quote : UniverseQuote
quote = record {
  code = 54 ∷ 48 ∷ 48 ∷ 53 ∷ 49 ∷ 57 ∷ [];
  normalized_name = 65 ∷ 66 ∷ [];
  market = sh;
  latest_price = some (fin 10);
  volume = some (fin 20);
  amount = some (fin 30);
  quote_date = 9;
}

abbrev pub settings : MarketScanSettings
settings = record { minimum_history_bars = 2; minimum_latest_amount = fin 5 }

abbrev bars : List DailyBar
bars = bar 8 12 10 ∷ bar 9 13 11 ∷ []

filter_history_iff_example :
    ((filter_history bars 10 settings).eligible ≡ true)
    ↔ (IsFit (map record_of bars) 10 (quality_settings settings) × Trades bars)
filter_history_iff_example = filter_history_iff bars 10 settings (omega arith)

-- A Friday's quote
abbrev weekend_quote : UniverseQuote
weekend_quote = record quote { quote_date = 12 }

weekend_quote-eligible : (filter_universe_quote weekend_quote 14 settings).eligible ≡ true
unfolding filter_universe_quote quote_reasons result_of add_if most_recent_weekday back_to_weekday
    weekday has_low_amount finite float_lt is_nonpositive is_positive_finite is_supported_security
    is_a_share_code is_known_prefix expected_market starts_with has_delisting_name contains
    has_st_name add_reason has_reason
weekend_quote-eligible = refl

filter_universe_quote_iff_example :
    ((filter_universe_quote weekend_quote 14 settings).eligible ≡ true)
    ↔ IsTradable weekend_quote 14 settings
filter_universe_quote_iff_example =
    filter_universe_quote_iff weekend_quote 14 settings (omega arith)

abbrev changes : List (Option Float)
changes = some (fin 3) ∷ some (neg 2) ∷ none ∷ some (fin 0) ∷ some (fin 8) ∷ some nan ∷ []

abbrev indices : List MarketIndexState
indices =
    record { status = available; trend = some bullish }
    ∷ record { status = available; trend = some neutral }
    ∷ record { status = available; trend = some bearish }
    ∷ record { status = available; trend = some bullish }
    ∷ []

changes-aligned : classify_market_state indices (calculate_breadth changes) ≡ aligned
unfolding classify_market_state classify_counts calculate_breadth breadth_from breadth_of
    valid_changes count bulls bears finite float_lt
changes-aligned = refl

calculate_breadth-valid_example :
    (validate_counts (calculate_breadth changes) ≡ true) × AddsUp (calculate_breadth changes)
calculate_breadth-valid_example = calculate_breadth-valid changes

classify_market_state_iff_example :
    ((classify_market_state indices (calculate_breadth changes) ≡ aligned)
      ↔ SameMajority
          (bulls indices)
          (bears indices)
          (count advances (valid_changes changes))
          (count declines (valid_changes changes)))
    × ((classify_market_state indices (calculate_breadth changes) ≡ divergent)
        ↔ SameMajority
            (bulls indices)
            (bears indices)
            (count declines (valid_changes changes))
            (count advances (valid_changes changes)))
classify_market_state_iff_example = classify_market_state_iff indices changes
