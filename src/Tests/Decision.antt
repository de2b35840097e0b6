-- ===== src/Tests/Decision.antt =====
-- A strong stock through the risk rules and the decision of src/stock_daily_report/.
use stock_daily_report.Prelude.{◌≡◌, ◌≢◌, refl, true, [], some, none}
use stock_daily_report.Floats.{Float, fin, neg, float_lt, float_le, finite, positive_finite}
use stock_daily_report.Metrics.{TechnicalMetrics}
use stock_daily_report.Chan.Common.{confirmed, confirmed_upward, StructureState}
use stock_daily_report.Risk.{
  Quality, RiskRulesSettings, evaluate_risk_rules, quality_rule, history_rule, price_rule,
  metric_rule, market_rules, has_invalid_price, is_invalid_price, lacks_close_or_ma20,
  lacks_required, is_volatile, has_drawdown, is_overextended, has_adverse_volume, is_incomplete,
  has, add_risk,
}
use stock_daily_report.Risk.Calm.{IsCalm}
use stock_daily_report.Decision.{
  strong, weak, is_bearish, elevated, waiting, decide_label, label, has_high_risk, derived_label,
  has_trend_metrics, is_bullish,
}
use stock_daily_report.Trend.{
  TrendClassification, classify_trend, has_required_history, classify_ready, is_constructive, rises,
  risk_evidence, bullish_evidence,
}
use stock_daily_report.Trend.Agrees.{decide_label-trend}
use stock_daily_report.Decision.RiskFirst.{decide_label-IsCalm}

abbrev metrics : TechnicalMetrics
metrics = record {
  as_of = some 100;
  bar_count = 80;
  close = some (fin 30);
  ma5 = some (fin 29);
  ma10 = some (fin 28);
  ma20 = some (fin 27);
  ma60 = some (fin 25);
  ma120 = none;
  macd_line = some (fin 3);
  macd_signal = some (fin 2);
  macd_histogram = some (fin 1);
  rsi14 = some (fin 4633500000000000000);
  return20 = some (fin 5);
  return60 = some (fin 6);
  return120 = none;
  realized_volatility20 = some (fin 10);
  drawdown60 = some (neg 4);
  volume_ratio20 = some (fin 50);
  recent_high20 = some (fin 31);
  recent_low20 = some (fin 24);
  ma20_slope5 = some (fin 1);
  ma60_slope5 = some (fin 1);
}

abbrev state : StructureState
state = record {
  label = confirmed_upward;
  formed_at = none;
  confirmed_at = none;
  tradable_at = none;
  status = confirmed;
}

abbrev quality : Quality
quality = record { analysis_allowed = true; issue_codes = []; bar_count = 80 }

abbrev rules : RiskRulesSettings
rules = record {
  high_volatility = fin 45;
  overextension = fin 15;
  large_drawdown = neg 20;
  adverse_volume = fin 20;
  minimum_history_bars = 60;
}

-- A stand-in for `close / ma20 - 1.0`.
abbrev distance : Float → Float → Float
distance close ma20 = fin 3

metrics-strong : decide_label distance metrics state quality none rules ≡ strong
unfolding decide_label label has_high_risk derived_label has_trend_metrics is_bullish
    evaluate_risk_rules quality_rule history_rule price_rule metric_rule market_rules
    has_invalid_price is_invalid_price lacks_close_or_ma20 lacks_required is_volatile has_drawdown
    is_overextended has_adverse_volume is_incomplete has add_risk finite positive_finite float_lt
    float_le
metrics-strong = refl

metrics-elevated : decide_label distance metrics state quality none rules ≢ elevated
metrics-elevated = rw metrics-strong (λ e. cc)

metrics-waiting : decide_label distance metrics state quality none rules ≢ waiting
metrics-waiting = rw metrics-strong (λ e. cc)

decide_label-IsCalm_example : IsCalm distance metrics state quality rules
decide_label-IsCalm_example =
    decide_label-IsCalm distance metrics state quality none rules metrics-elevated metrics-waiting

abbrev rising : TrendClassification
rising = record { label = strong; evidence = bullish_evidence }

metrics-rising : classify_trend metrics ≡ some rising
unfolding classify_trend has_required_history classify_ready is_constructive rises risk_evidence
    float_le float_lt
metrics-rising = refl

decide_label-trend_example :
    (decide_label distance metrics state quality (some strong) rules ≡ strong
      → is_bullish metrics ≡ true)
    × (decide_label distance metrics state quality (some strong) rules ≡ weak
        → is_bearish metrics ≡ true)
decide_label-trend_example =
    decide_label-trend distance metrics state quality rising rules metrics-rising
