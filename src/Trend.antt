-- ===== src/Trend.antt =====
-- src/stock_daily_report/indicators/trend.py: `classify_trend`, from the metrics on. A trend label is
-- one of the labels of a decision. The details of an evidence are left out.
pub mod Agrees
use stock_daily_report.Prelude.{
  ℕ, Bool, true, false, ◌&&◌, List, [], ◌∷◌, ◌++◌, Option, none, some, leb, if◌then◌else◌,
}
use stock_daily_report.Floats.{Float, fin, neg, float_le, float_ge, above, zero_float}
use stock_daily_report.Metrics.{TechnicalMetrics}
use stock_daily_report.Decision.{DecisionLabel, strong, watch, weak, elevated, waiting, is_given}

pub data TrendCode : Type 0 where
  insufficient_trend_history price_above_rising_moving_averages positive_20_and_60_day_returns :
      TrendCode
  macd_line_above_signal rsi_in_constructive_range price_below_falling_moving_averages : TrendCode
  negative_20_and_60_day_returns macd_line_below_signal : TrendCode
  realized_volatility20_exceeds_risk_threshold drawdown60_exceeds_risk_threshold : TrendCode
  mixed_or_neutral_trend_signals : TrendCode

pub record TrendClassification : Type 0 where
  pub label : DecisionLabel
  pub evidence : List TrendCode

abbrev pub minimum_trend_bars : ℕ
minimum_trend_bars = 61

-- 0.45, -0.20 and 50.0, as ranks of doubles
abbrev pub high_realized_volatility20 : Float
high_realized_volatility20 = fin 4601778099247172813

abbrev pub maximum_drawdown60 : Float
maximum_drawdown60 = neg 4596373779694328217

abbrev pub minimum_constructive_rsi14 : Float
minimum_constructive_rsi14 = fin 4632233691727265792

-- `_has_required_history`
unfoldable pub has_required_history : TechnicalMetrics → Bool
has_required_history m =
    leb minimum_trend_bars m.bar_count
    && ((is_given m.ma20 && (is_given m.ma60 && (is_given m.return20 && is_given m.return60)))
        && ((is_given m.macd_line && (is_given m.macd_signal && is_given m.rsi14))
            && (is_given m.realized_volatility20 && is_given m.drawdown60)))

abbrev pub at_least : Option Float → Float → Bool
at_least none bound = false
at_least (some value) bound = float_ge value bound

abbrev pub at_most : Option Float → Float → Bool
at_most none bound = false
at_most (some value) bound = float_le value bound

-- The tests on prices and returns, for a rise and for a fall.
unfoldable pub rises : TechnicalMetrics → Bool
rises m =
    (above m.close m.ma20 && above m.ma20 m.ma60)
    && (above m.return20 zero_float && above m.return60 zero_float)

unfoldable pub falls : TechnicalMetrics → Bool
falls m =
    (above m.ma20 m.close && above m.ma60 m.ma20)
    && (above zero_float m.return20 && above zero_float m.return60)

-- The test of `_bullish_evidence`
unfoldable pub is_constructive : TechnicalMetrics → Bool
is_constructive m =
    rises m && (above m.macd_line m.macd_signal && at_least m.rsi14 minimum_constructive_rsi14)

-- The test of `_weak_evidence`
unfoldable pub is_deteriorating : TechnicalMetrics → Bool
is_deteriorating m = falls m && above m.macd_signal m.macd_line

abbrev pub bullish_evidence : List TrendCode
bullish_evidence =
    price_above_rising_moving_averages ∷ positive_20_and_60_day_returns ∷ macd_line_above_signal
    ∷ rsi_in_constructive_range ∷ []

abbrev pub weak_evidence : List TrendCode
weak_evidence =
    price_below_falling_moving_averages ∷ negative_20_and_60_day_returns ∷ macd_line_below_signal
    ∷ []

abbrev code_if : Bool → TrendCode → List TrendCode
code_if true code = code ∷ []
code_if false code = []

-- `_risk_evidence`
unfoldable pub risk_evidence : TechnicalMetrics → List TrendCode
risk_evidence m =
    code_if (at_least m.realized_volatility20 high_realized_volatility20)
      realized_volatility20_exceeds_risk_threshold
    ++ code_if (at_most m.drawdown60 maximum_drawdown60) drawdown60_exceeds_risk_threshold

abbrev pub classified : DecisionLabel → List TrendCode → TrendClassification
classified label evidence = record { label = label; evidence = evidence }

-- The classification of metrics with enough history.
unfoldable pub classify_ready : TechnicalMetrics → TrendClassification
classify_ready m =
    if is_constructive m
    then elim (risk_evidence m) [
      | [] ↦ classified strong bullish_evidence
      | code ∷ codes ↦ classified elevated (bullish_evidence ++ (code ∷ codes))
    ]
    else if is_deteriorating m
    then classified weak weak_evidence
    else classified watch (mixed_or_neutral_trend_signals ∷ [])

-- `classify_trend`; `none` is the AssertionError about a missing close.
unfoldable pub classify_trend : TechnicalMetrics → Option TrendClassification
classify_trend m =
    if has_required_history m
    then elim m.close [ none ↦ none | some _ ↦ some (classify_ready m) ]
    else some (classified waiting (insufficient_trend_history ∷ []))
