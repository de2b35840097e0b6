-- ===== src/Metrics.antt =====
-- src/stock_daily_report/indicators/technical.py: `TechnicalMetrics`, the indicator values. How
-- they are computed is floating-point arithmetic and not modelled.
use stock_daily_report.Prelude.{ℕ, Option}
use stock_daily_report.Bars.{Date}
use stock_daily_report.Floats.{Float}

pub record TechnicalMetrics : Type 0 where
  pub as_of : Option Date
  pub bar_count : ℕ
  pub close : Option Float
  pub ma5 : Option Float
  pub ma10 : Option Float
  pub ma20 : Option Float
  pub ma60 : Option Float
  pub ma120 : Option Float
  pub macd_line : Option Float
  pub macd_signal : Option Float
  pub macd_histogram : Option Float
  pub rsi14 : Option Float
  pub return20 : Option Float
  pub return60 : Option Float
  pub return120 : Option Float
  pub realized_volatility20 : Option Float
  pub drawdown60 : Option Float
  pub volume_ratio20 : Option Float
  pub recent_high20 : Option Float
  pub recent_low20 : Option Float
  pub ma20_slope5 : Option Float
  pub ma60_slope5 : Option Float
