-- ===== src/Tests/Quality.antt =====
-- Two bars through the checks of src/stock_daily_report/quality/checks.py.
use stock_daily_report.Prelude.{◌≡◌, ◌↔◌, refl, true, List, [], ◌∷◌, some, arith}
use stock_daily_report.Bars.{Date, weekday}
use stock_daily_report.Floats.{fin}
use stock_daily_report.Quality.{
  BarRecord, DataQualitySettings, most_recent_weekday, weekday_distance, is_stale, validate_bars,
  find_issues, all_record_issues, record_issues, range_issues, price_issues, date_issues,
  trade_dates, sequence_issues, is_seen, future_issues, history_issues, stale_issues,
  back_to_weekday, weekdays_after,
}
use stock_daily_report.Floats.{float_lt, float_le}
use stock_daily_report.Quality.Decide.{IsFit, validate_bars_iff}

abbrev pub bar_record : Date → BarRecord
bar_record d = record {
  trade_date = some d;
  open_price = some (fin 10);
  high = some (fin 12);
  low = some (fin 9);
  close = some (fin 11);
}

-- Ordinals 8 and 9 are a Monday and a Tuesday.
abbrev bars : List BarRecord
bars = bar_record 8 ∷ bar_record 9 ∷ []

abbrev settings : DataQualitySettings
settings = record { minimum_history_bars = 2; max_completed_trading_day_lag = 1 }

bars-allowed : (validate_bars bars 10 settings).analysis_allowed ≡ true
unfolding validate_bars find_issues all_record_issues record_issues range_issues price_issues
    date_issues trade_dates sequence_issues is_seen future_issues history_issues stale_issues
    is_stale most_recent_weekday back_to_weekday weekday_distance weekdays_after weekday float_lt
    float_le
bars-allowed = refl

validate_bars_iff_example :
    ((validate_bars bars 10 settings).analysis_allowed ≡ true) ↔ IsFit bars 10 settings
validate_bars_iff_example = validate_bars_iff bars 10 settings (omega arith)
