-- ===== src/Decision.antt =====
-- src/stock_daily_report/decision.py: the label, the key levels and the next conditions of a
-- decision. The labels are named for what they say: strong (偏强), watch (观察), weak (偏弱), elevated
-- (风险升高) and waiting (等待确认).
pub mod RiskFirst
use stock_daily_report.Prelude.{
  ℕ, Bool, true, false, ◌&&◌, ◌||◌, List, [], ◌∷◌, ◌++◌, map, Option, none, some, ltb,
  if◌then◌else◌,
}
use stock_daily_report.Bars.{Price}
use stock_daily_report.Floats.{above, zero_float, Float, fin, float_lt, finite, is_positive}
use stock_daily_report.Metrics.{TechnicalMetrics}
use stock_daily_report.Chan.Common.{
  StateLabel, not_enough_data, candidate_upward, candidate_downward, confirmed_upward,
  confirmed_downward, StructureState, SupportResistance, LevelKind, LevelSource,
  SimplifiedChanResult,
}
use stock_daily_report.Risk.{
  Quality, RiskRulesSettings, RiskCode, stale_data, short_history, invalid_data_quality,
  insufficient_metric_data, high_realized_volatility20, large_drawdown60, overextended_from_ma20,
  adverse_volume_behavior, incomplete_structure, has, Assessment, evaluate_risk_rules,
}

pub data DecisionLabel : Type 0 where
  strong watch weak elevated waiting : DecisionLabel

unfoldable pub is_bullish : TechnicalMetrics → Bool
is_bullish m =
    (above (finite m.close) (finite m.ma20) && above (finite m.ma20) (finite m.ma60))
    && (above (finite m.return20) zero_float && above (finite m.return60) zero_float)

unfoldable pub is_bearish : TechnicalMetrics → Bool
is_bearish m =
    (above (finite m.ma20) (finite m.close) && above (finite m.ma60) (finite m.ma20))
    && (above zero_float (finite m.return20) && above zero_float (finite m.return60))

abbrev pub is_given : Option Float → Bool
is_given none = false
is_given (some _) = true

-- The five metrics that `_derived_label` asks for before it looks at the trend.
unfoldable pub has_trend_metrics : TechnicalMetrics → Bool
has_trend_metrics m =
    (is_given (finite m.close) && is_given (finite m.ma20))
    && (is_given (finite m.ma60) && (is_given (finite m.return20) && is_given (finite m.return60)))

abbrev pub label_of_state : StateLabel → DecisionLabel
label_of_state confirmed_upward = strong
label_of_state confirmed_downward = weak
label_of_state _ = watch

-- `_derived_label`
unfoldable pub derived_label : TechnicalMetrics → StateLabel → DecisionLabel
derived_label m candidate_upward = waiting
derived_label m candidate_downward = waiting
derived_label m not_enough_data = waiting
derived_label m state =
    if has_trend_metrics m && is_bullish m
    then strong
    else if has_trend_metrics m && is_bearish m
    then weak
    else label_of_state state

unfoldable pub has_high_risk : List RiskCode → Bool
has_high_risk codes =
    has invalid_data_quality codes
    || (has stale_data codes
        || (has high_realized_volatility20 codes
            || (has overextended_from_ma20 codes
                || (has large_drawdown60 codes || has adverse_volume_behavior codes))))

-- The label of the trend, unless there is none or it is "elevated".
abbrev pub trend_or : Option DecisionLabel → DecisionLabel → DecisionLabel
trend_or none d = d
trend_or (some elevated) d = d
trend_or (some l) d = l

-- `_label`
unfoldable pub label :
    TechnicalMetrics → StructureState → Option DecisionLabel → Assessment → DecisionLabel
label m state trend a =
    if a.hard_data_failure || has_high_risk a.risk_codes
    then elevated
    else if a.insufficient_data || has incomplete_structure a.risk_codes
    then waiting
    else trend_or trend (derived_label m state.label)

-- The label that `decide` gives.
unfoldable pub decide_label :
    (Float → Float → Float)
    → TechnicalMetrics
    → StructureState
    → Quality
    → Option DecisionLabel
    → RiskRulesSettings
    → DecisionLabel
decide_label distance m state q trend rules =
    label m state trend (evaluate_risk_rules distance m state q rules)

pub data LevelName : Type 0 where
  technical_ma20 : LevelName
  structural : LevelSource → LevelName

-- `kind` is "reference" for none.
pub record KeyPriceLevel : Type 0 where
  pub kind : Option LevelKind
  pub price : Float
  pub source : LevelName

abbrev pub structure_level : SupportResistance → KeyPriceLevel
structure_level l = record { kind = some l.kind; price = fin l.price; source = structural l.source }

-- Levels whose price is finite and positive.
unfoldable pub structure_levels : List SupportResistance → List KeyPriceLevel
structure_levels [] = []
structure_levels (l ∷ ls) =
    if ltb 0 l.price then structure_level l ∷ structure_levels ls else structure_levels ls

unfoldable pub ma20_level : TechnicalMetrics → List KeyPriceLevel
ma20_level m = elim (finite m.ma20) [
  | none ↦ []
  | some value ↦
      if is_positive value
      then record { kind = none; price = value; source = technical_ma20 } ∷ []
      else []
]

-- `_key_levels`
unfoldable pub key_levels : TechnicalMetrics → List SupportResistance → List KeyPriceLevel
key_levels m levels = structure_levels levels ++ ma20_level m

-- A next condition is named by the risk code that it belongs to; `keep_watching` is the default.
pub data NextCondition : Type 0 where
  resolve : RiskCode → NextCondition
  keep_watching : NextCondition

-- `_next_conditions`: every risk code has a condition in the table.
unfoldable pub next_conditions : List RiskCode → List NextCondition
next_conditions [] = keep_watching ∷ []
next_conditions (c ∷ codes) = map resolve (c ∷ codes)
