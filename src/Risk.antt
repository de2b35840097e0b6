-- ===== src/Risk.antt =====
-- src/stock_daily_report/risk/rules.py: `evaluate_risk_rules`.
-- `distance close ma20` stands for the floating-point `close / ma20 - 1.0`, which is Python's.
pub mod Codes
pub mod Calm
use stock_daily_report.Prelude.{
  ℕ, Bool, true, false, ◌&&◌, ◌||◌, not, List, [], ◌∷◌, ◌++◌, Option, none, some, ltb, ◌==◌,
  if◌then◌else◌,
}
use stock_daily_report.Floats.{
  Float, is_finite, float_lt, float_le, float_ge, finite, positive_finite,
}
use stock_daily_report.Metrics.{TechnicalMetrics}
use stock_daily_report.Chan.Common.{
  Status, candidate, confirmed, StateLabel, StructureState, not_enough_data, candidate_upward,
  candidate_downward,
}
use stock_daily_report.Quality.{IssueCode, stale_last_trade_date, insufficient_history, is_empty}

pub data RiskCode : Type 0 where
  stale_data short_history invalid_data_quality insufficient_metric_data : RiskCode
  high_realized_volatility20 large_drawdown60 overextended_from_ma20 : RiskCode
  adverse_volume_behavior incomplete_structure : RiskCode

-- A number for each risk code, by which two codes are compared.
abbrev pub code_number : RiskCode → ℕ
code_number stale_data = 0
code_number short_history = 1
code_number invalid_data_quality = 2
code_number insufficient_metric_data = 3
code_number high_realized_volatility20 = 4
code_number large_drawdown60 = 5
code_number overextended_from_ma20 = 6
code_number adverse_volume_behavior = 7
code_number incomplete_structure = 8

pub record RiskRulesSettings : Type 0 where
  pub high_volatility : Float
  pub overextension : Float
  pub large_drawdown : Float
  pub adverse_volume : Float
  pub minimum_history_bars : ℕ

-- What the rules read of a `DataQualityResult`: its `issue_codes` are de-duplicated.
pub record Quality : Type 0 where
  pub analysis_allowed : Bool
  pub issue_codes : List IssueCode
  pub bar_count : ℕ

unfoldable pub has : RiskCode → List RiskCode → Bool
has c [] = false
has c (x ∷ xs) = (code_number c == code_number x) || has c xs

-- `add_risk`
unfoldable pub add_risk : RiskCode → List RiskCode → List RiskCode
add_risk c codes = if has c codes then codes else codes ++ (c ∷ [])

-- The three things that the rules collect, evidence aside.
pub record Assessment : Type 0 where
  pub risk_codes : List RiskCode
  pub hard_data_failure : Bool
  pub insufficient_data : Bool

abbrev pub with_risk : RiskCode → Assessment → Assessment
with_risk c a = record a { risk_codes = add_risk c a.risk_codes }

abbrev pub with_hard : RiskCode → Assessment → Assessment
with_hard c a = record a { risk_codes = add_risk c a.risk_codes; hard_data_failure = true }

abbrev pub with_insufficient : RiskCode → Assessment → Assessment
with_insufficient c a = record a { risk_codes = add_risk c a.risk_codes; insufficient_data = true }

abbrev pub issue_risk : IssueCode → Assessment → Assessment
issue_risk stale_last_trade_date a = with_hard stale_data a
issue_risk insufficient_history a = with_insufficient short_history a
issue_risk _ a = with_hard invalid_data_quality a

unfoldable pub issue_risks : List IssueCode → Assessment → Assessment
issue_risks [] a = a
issue_risks (i ∷ is) a = issue_risks is (issue_risk i a)

-- The loop over `issue_codes or ("invalid_data_quality",)`, under its guard.
unfoldable pub quality_rule : Quality → Assessment → Assessment
quality_rule q a =
    if not q.analysis_allowed || not (is_empty q.issue_codes)
    then elim q.issue_codes [
      | [] ↦ with_hard invalid_data_quality a
      | _ ∷ _ ↦ issue_risks q.issue_codes a
    ]
    else a

unfoldable pub history_rule : Quality → RiskRulesSettings → Assessment → Assessment
history_rule q rules a =
    if ltb q.bar_count rules.minimum_history_bars then with_insufficient short_history a else a

abbrev pub is_missing : Option Float → Bool
is_missing none = true
is_missing (some _) = false

-- `_is_invalid_price`
unfoldable pub is_invalid_price : Option Float → Bool
is_invalid_price value = not (is_missing value) && is_missing (positive_finite value)

-- Some metric of `_PRICE_METRICS` is an invalid price.
unfoldable pub has_invalid_price : TechnicalMetrics → Bool
has_invalid_price m =
    is_invalid_price m.close
    || (is_invalid_price m.ma5
        || (is_invalid_price m.ma10
            || (is_invalid_price m.ma20
                || (is_invalid_price m.ma60
                    || (is_invalid_price m.ma120
                        || (is_invalid_price m.recent_high20
                            || is_invalid_price m.recent_low20))))))

unfoldable pub price_rule : TechnicalMetrics → Assessment → Assessment
price_rule m a = if has_invalid_price m then with_hard invalid_data_quality a else a

unfoldable pub lacks_close_or_ma20 : TechnicalMetrics → Bool
lacks_close_or_ma20 m = is_missing (positive_finite m.close) || is_missing (positive_finite m.ma20)

-- Some metric of `_REQUIRED_DECISION_METRICS` is missing or not finite.
unfoldable pub lacks_required : TechnicalMetrics → Bool
lacks_required m =
    is_missing (finite m.close)
    || (is_missing (finite m.ma20)
        || (is_missing (finite m.ma60)
            || (is_missing (finite m.return20)
                || (is_missing (finite m.return60)
                    || (is_missing (finite m.macd_line)
                        || (is_missing (finite m.macd_signal)
                            || (is_missing (finite m.rsi14)
                                || (is_missing (finite m.realized_volatility20)
                                    || (is_missing (finite m.drawdown60)
                                        || is_missing (finite m.volume_ratio20))))))))))

unfoldable pub metric_rule : TechnicalMetrics → Assessment → Assessment
metric_rule m a =
    if lacks_close_or_ma20 m || lacks_required m
    then with_insufficient insufficient_metric_data a
    else a

-- `value is not None and test value`
abbrev pub holds : Option Float → (Float → Bool) → Bool
holds none test = false
holds (some value) test = test value

unfoldable pub is_volatile : TechnicalMetrics → RiskRulesSettings → Bool
is_volatile m rules = holds (finite m.realized_volatility20) (λ v. float_ge v rules.high_volatility)

unfoldable pub has_drawdown : TechnicalMetrics → RiskRulesSettings → Bool
has_drawdown m rules = holds (finite m.drawdown60) (λ v. float_le v rules.large_drawdown)

unfoldable pub is_overextended :
    (Float → Float → Float) → TechnicalMetrics → RiskRulesSettings → Bool
is_overextended distance m rules = holds (positive_finite m.close) (λ close.
    holds (positive_finite m.ma20) (λ ma20.
      float_lt ma20 close
      && (is_finite (distance close ma20) && float_ge (distance close ma20) rules.overextension)))

unfoldable pub has_adverse_volume : TechnicalMetrics → RiskRulesSettings → Bool
has_adverse_volume m rules = holds (finite m.volume_ratio20) (λ v. float_le v rules.adverse_volume)

unfoldable pub is_incomplete : StructureState → Bool
is_incomplete state = elim state.status [
  | candidate ↦ true
  | confirmed ↦ elim state.label [ not_enough_data ↦ true | _ ↦ false ]
]

abbrev pub risk_if : Bool → RiskCode → Assessment → Assessment
risk_if true c a = with_risk c a
risk_if false c a = a

unfoldable pub market_rules :
    (Float → Float → Float)
    → TechnicalMetrics
    → StructureState
    → RiskRulesSettings
    → Assessment
    → Assessment
market_rules distance m state rules a = risk_if (is_incomplete state) incomplete_structure (
    risk_if (has_adverse_volume m rules) adverse_volume_behavior (
      risk_if (is_overextended distance m rules) overextended_from_ma20 (
        risk_if (has_drawdown m rules) large_drawdown60
          (risk_if (is_volatile m rules) high_realized_volatility20 a))))

abbrev pub start : Assessment
start = record { risk_codes = []; hard_data_failure = false; insufficient_data = false }

-- The rules in the order of the source.
unfoldable pub evaluate_risk_rules :
    (Float → Float → Float)
    → TechnicalMetrics
    → StructureState
    → Quality
    → RiskRulesSettings
    → Assessment
evaluate_risk_rules distance m state q rules =
    market_rules distance m state rules
      (metric_rule m (price_rule m (history_rule q rules (quality_rule q start))))
