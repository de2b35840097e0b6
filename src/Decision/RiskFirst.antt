-- ===== src/Decision/RiskFirst.antt =====
-- The label is risk first: a directional label needs a clean bill from every risk rule.
use stock_daily_report.Prelude.{◌≢◌, Option, arith}
use stock_daily_report.Floats.{Float}
use stock_daily_report.Metrics.{TechnicalMetrics}
use stock_daily_report.Chan.Common.{StructureState}
use stock_daily_report.Risk.{Quality, RiskRulesSettings}
use stock_daily_report.Risk.Calm.{IsCalm, evaluate_risk_rules-IsCalm}
use stock_daily_report.Decision.{
  DecisionLabel, elevated, waiting, label, has_high_risk, decide_label,
}

-- If the label is neither elevated nor waiting, then no risk rule fires: the data quality is clean,
-- the history long enough, all required metrics are finite and the prices valid, the structure is
-- complete, and volatility, drawdown, extension and volume stay on the safe side of their thresholds.
pub decide_label-IsCalm :
    (distance : Float → Float → Float) (m : TechnicalMetrics) (state : StructureState) (q : Quality)
    (trend : Option DecisionLabel) (rules : RiskRulesSettings)
    → decide_label distance m state q trend rules ≢ elevated
    → decide_label distance m state q trend rules ≢ waiting
    → IsCalm distance m state q rules
unfolding decide_label label has_high_risk
decide_label-IsCalm distance m state q trend rules ne nw =
    evaluate_risk_rules-IsCalm distance m state q rules (ground arith) (ground arith) (ground arith)
      (ground arith) (ground arith) (ground arith)
