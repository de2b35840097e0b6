-- ===== src/Scan/Filters.antt =====
-- src/stock_daily_report/market_scan/filters.py: the two filters. A string is the list of its code
-- points; `normalized_name` stands for `quote.name.upper()`, whose `upper` is Python's.
pub mod Eligible
use stock_daily_report.Prelude.{
  ℕ, ◌+◌, ◌≡◌, Bool, true, false, ◌&&◌, ◌||◌, not, List, [], ◌∷◌, map, Option, none, some, ltb, leb,
  ◌==◌, if◌then◌else◌,
}
use stock_daily_report.Texts.{Text, starts_with}
use stock_daily_report.Bars.{Date, DailyBar}
use stock_daily_report.Floats.{Float, fin, float_lt, finite, is_positive}
use stock_daily_report.Quality.{
  BarRecord, DataQualitySettings, DataQualityResult, most_recent_weekday, validate_bars,
}
use stock_daily_report.Scan.Reasons.{
  Reason, special_treatment_name, delisting_risk_warning_name, unsupported_security,
  invalid_latest_quote, suspended_quote, insufficient_latest_amount, stale_quote_date,
  future_quote_date, suspended_latest_bar, data_quality_rejected, add_if, add_issue_codes,
  EligibilityResult, result_of,
}

unfoldable pub contains : Text → Text → Bool
contains part [] = starts_with part []
contains part (c ∷ cs) = starts_with part (c ∷ cs) || contains part cs

abbrev ends_with_char : ℕ → Text → Bool
ends_with_char c [] = false
ends_with_char c (d ∷ []) = c == d
ends_with_char c (d ∷ e ∷ rest) = ends_with_char c (e ∷ rest)

pub data Market : Type 0 where
  sh sz bj : Market

abbrev same_market : Market → Market → Bool
same_market sh sh = true
same_market sz sz = true
same_market bj bj = true
same_market _ _ = false

-- A quote; a measure that is not a number is `none`.
pub record UniverseQuote : Type 0 where
  pub code : Text
  pub normalized_name : Text
  pub market : Market
  pub latest_price : Option Float
  pub volume : Option Float
  pub amount : Option Float
  pub quote_date : Date

-- The fields of `MarketScanSettings` that the filters read.
pub record MarketScanSettings : Type 0 where
  pub minimum_history_bars : ℕ
  pub minimum_latest_amount : Float

-- "ST" and "*ST"
unfoldable pub has_st_name : Text → Bool
has_st_name name = starts_with (83 ∷ 84 ∷ []) name || starts_with (42 ∷ 83 ∷ 84 ∷ []) name

-- 退市, 风险警示 and a final 退
unfoldable pub has_delisting_name : Text → Bool
has_delisting_name name =
    contains (36864 ∷ 24066 ∷ []) name
    || (contains (39118 ∷ 38505 ∷ 35686 ∷ 31034 ∷ []) name || ends_with_char 36864 name)

abbrev is_between : ℕ → ℕ → ℕ → Bool
is_between low high c = leb low c && leb c high

-- The regular expression `\d`; the other scripts' digits, which it takes too, are left out.
abbrev is_digit : ℕ → Bool
is_digit c = is_between 48 57 c

-- The prefixes of `A_SHARE_CODE_PATTERN`, as the values of their digits.
unfoldable pub is_known_prefix : ℕ → ℕ → ℕ → Bool
is_known_prefix a b c =
    (((a == 48) && (b == 48)) && is_between 48 51 c)
    || ((((a == 51) && (b == 48)) && is_between 48 50 c)
        || ((((a == 54) && (b == 48)) && (is_between 48 49 c || ((c == 51) || (c == 53))))
            || ((((a == 54) && (b == 56)) && is_between 56 57 c)
                || (((a == 57) && (b == 50)) && (c == 48)))))

-- `A_SHARE_CODE_PATTERN.fullmatch`
unfoldable pub is_a_share_code : Text → Bool
is_a_share_code (a ∷ b ∷ c ∷ d ∷ e ∷ f ∷ []) =
    is_known_prefix a b c && (is_digit d && (is_digit e && is_digit f))
is_a_share_code _ = false

-- `_expected_market`
unfoldable pub expected_market : Text → Market
expected_market code =
    if starts_with (54 ∷ 48 ∷ 48 ∷ []) code
      || (starts_with (54 ∷ 48 ∷ 49 ∷ []) code
          || (starts_with (54 ∷ 48 ∷ 51 ∷ []) code
              || (starts_with (54 ∷ 48 ∷ 53 ∷ []) code
                  || (starts_with (54 ∷ 56 ∷ 56 ∷ []) code
                      || starts_with (54 ∷ 56 ∷ 57 ∷ []) code))))
    then sh
    else if starts_with (48 ∷ 48 ∷ 48 ∷ []) code
        || (starts_with (48 ∷ 48 ∷ 49 ∷ []) code
            || (starts_with (48 ∷ 48 ∷ 50 ∷ []) code
                || (starts_with (48 ∷ 48 ∷ 51 ∷ []) code
                    || (starts_with (51 ∷ 48 ∷ 48 ∷ []) code
                        || (starts_with (51 ∷ 48 ∷ 49 ∷ []) code
                            || starts_with (51 ∷ 48 ∷ 50 ∷ []) code)))))
    then sz
    else bj

-- `_is_supported_security`
unfoldable pub is_supported_security : UniverseQuote → Bool
is_supported_security q = is_a_share_code q.code && same_market q.market (expected_market q.code)

abbrev pub passes : (Float → Bool) → Option Float → Bool
passes test none = false
passes test (some value) = test value

-- `_is_positive_finite`
unfoldable pub is_positive_finite : Option Float → Bool
is_positive_finite value = passes is_positive (finite value)

-- `_is_nonpositive`
unfoldable pub is_nonpositive : Option Float → Bool
is_nonpositive value = passes (λ v. not (is_positive v)) (finite value)

unfoldable pub has_low_amount : Option Float → Float → Bool
has_low_amount amount minimum = passes (λ v. float_lt v minimum) (finite amount)

unfoldable pub quote_reasons : UniverseQuote → Date → MarketScanSettings → List Reason
quote_reasons q report_date settings =
    let stale = ltb q.quote_date (most_recent_weekday report_date) in
    add_if (not stale && ltb report_date q.quote_date) future_quote_date (
      add_if stale stale_quote_date (
        add_if (has_low_amount q.amount settings.minimum_latest_amount) insufficient_latest_amount (
          add_if (is_nonpositive q.volume || is_nonpositive q.amount) suspended_quote (
            add_if
              (not (
                is_positive_finite q.latest_price
                && (is_positive_finite q.volume && is_positive_finite q.amount)))
              invalid_latest_quote
              (add_if (not (is_supported_security q)) unsupported_security (
                add_if (has_delisting_name q.normalized_name) delisting_risk_warning_name
                  (add_if (has_st_name q.normalized_name) special_treatment_name [])))))))

unfoldable pub filter_universe_quote : UniverseQuote → Date → MarketScanSettings → EligibilityResult
filter_universe_quote q report_date settings = result_of (quote_reasons q report_date settings)

-- `_as_record` and the parsing of its fields, for a `DailyBar`
abbrev pub record_of : DailyBar → BarRecord
record_of b = record {
  trade_date = some b.trade_date;
  open_price = some (fin b.open_price);
  high = some (fin b.high);
  low = some (fin b.low);
  close = some (fin b.close);
}

-- `max(bars, key=...)`, which returns the first of the latest bars
abbrev pub latest_of : DailyBar → List DailyBar → DailyBar
latest_of b [] = b
latest_of b (c ∷ cs) = latest_of (if ltb b.trade_date c.trade_date then c else b) cs

unfoldable pub is_suspended : List DailyBar → Bool
is_suspended [] = false
is_suspended (b ∷ bs) = ((latest_of b bs).volume == 0) || ((latest_of b bs).amount == 0)

abbrev pub quality_settings : MarketScanSettings → DataQualitySettings
quality_settings settings = record {
  minimum_history_bars = settings.minimum_history_bars;
  max_completed_trading_day_lag = 1;
}

unfoldable pub history_reasons : List DailyBar → Date → MarketScanSettings → List Reason
history_reasons bars report_date settings =
    let quality = validate_bars (map record_of bars) report_date (quality_settings settings) in
    add_if (not quality.analysis_allowed) data_quality_rejected
      (add_if (is_suspended bars) suspended_latest_bar (add_issue_codes quality.issues []))

unfoldable pub filter_history : List DailyBar → Date → MarketScanSettings → EligibilityResult
filter_history bars report_date settings = result_of (history_reasons bars report_date settings)
