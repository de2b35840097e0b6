-- ===== src/Trend/Agrees.antt =====
-- The decision agrees with the trend classification of the same metrics.
use stock_daily_report.Prelude.{◌≡◌, ◌≢◌, ◌⊎◌, sym, ◌∙◌, true, false, Option, some, inl, inr, arith}
use stock_daily_report.Floats.{Float, finite}
use stock_daily_report.Metrics.{TechnicalMetrics}
use stock_daily_report.Chan.Common.{StructureState}
use stock_daily_report.Risk.{
  Quality, RiskRulesSettings, Assessment, is_missing, lacks_required, evaluate_risk_rules,
}
use stock_daily_report.Decision.{
  DecisionLabel, strong, weak, elevated, waiting, is_bullish, is_bearish, has_trend_metrics,
  derived_label, label, decide_label,
}
use stock_daily_report.Decision.RiskFirst.{decide_label-IsCalm}
use stock_daily_report.Trend.{
  TrendClassification, rises, falls, is_constructive, is_deteriorating, classify_ready,
  classify_trend,
}

finite-given : (v : Option Float) → is_missing (finite v) ≡ false → finite v ≡ v
unfolding finite
finite-given v h = ground arith

-- With the required metrics there, the two modules' tests of the trend agree.
same_trend :
    (m : TechnicalMetrics)
    → lacks_required m ≡ false
    → (is_bullish m ≡ rises m) × (is_bearish m ≡ falls m)
unfolding is_bullish is_bearish rises falls lacks_required
same_trend m h =
    let close = finite-given m.close (ground arith) in
    let ma20 = finite-given m.ma20 (ground arith) in
    let ma60 = finite-given m.ma60 (ground arith) in
    let return20 = finite-given m.return20 (ground arith) in
    let return60 = finite-given m.return60 (ground arith) in
    (rw (close, ma20, ma60, return20, return60), rw (close, ma20, ma60, return20, return60))

classify_trend-label :
    (m : TechnicalMetrics) (c : TrendClassification)
    → classify_trend m ≡ some c
    → (c.label ≡ strong → rises m ≡ true)
      × (c.label ≡ elevated → rises m ≡ true)
      × (c.label ≡ weak → falls m ≡ true)
unfolding classify_trend classify_ready is_constructive is_deteriorating
classify_trend-label m c h = (λ l. ground arith, λ l. ground arith, λ l. ground arith)

bullish-derived :
    (m : TechnicalMetrics) (state : StructureState)
    → is_bullish m ≡ true
    → derived_label m state.label ≢ weak
unfolding is_bullish derived_label has_trend_metrics
bullish-derived m state h = λ e. ground (arith, h, e)

-- What a label that is neither elevated nor waiting comes from.
label-cases :
    (m : TechnicalMetrics) (state : StructureState) (l : DecisionLabel) (a : Assessment)
    → label m state (some l) a ≢ elevated
    → label m state (some l) a ≢ waiting
    → (label m state (some l) a ≡ l)
      ⊎ ((l ≡ elevated) × (label m state (some l) a ≡ derived_label m state.label))
unfolding label
label-cases m state l a ne nw = ground arith

-- If the trend that a decision is given is the classification of the decision's own metrics, then it
-- is strong only on a rise (close over MA20 over MA60, both returns positive) and weak only on a fall.
pub decide_label-trend :
    (distance : Float → Float → Float) (m : TechnicalMetrics) (state : StructureState) (q : Quality)
    (c : TrendClassification) (rules : RiskRulesSettings)
    → classify_trend m ≡ some c
    → (decide_label distance m state q (some c.label) rules ≡ strong → is_bullish m ≡ true)
      × (decide_label distance m state q (some c.label) rules ≡ weak → is_bearish m ≡ true)
unfolding decide_label
decide_label-trend distance m state q c rules h =
    let (up_strong, up_elevated, down_weak) = classify_trend-label m c h in
    let a = evaluate_risk_rules distance m state q rules in
    (
      (λ e.
          let ne : label m state (some c.label) a ≢ elevated = ground arith in
          let nw : label m state (some c.label) a ≢ waiting = ground arith in
          let calm = decide_label-IsCalm distance m state q (some c.label) rules ne nw in
          let (up, _) = same_trend m calm.required in
          elim (label-cases m state c.label a ne nw) [
            | inl direct ↦ up ∙ up_strong (sym direct ∙ e)
            | inr (high, _) ↦ up ∙ up_elevated high
          ]),
      (λ e.
          let ne : label m state (some c.label) a ≢ elevated = ground arith in
          let nw : label m state (some c.label) a ≢ waiting = ground arith in
          let calm = decide_label-IsCalm distance m state q (some c.label) rules ne nw in
          let (up, down) = same_trend m calm.required in
          elim (label-cases m state c.label a ne nw) [
            | inl direct ↦ down ∙ down_weak (sym direct ∙ e)
            | inr (high, derived) ↦
                absurd (bullish-derived m state (up ∙ up_elevated high) (sym derived ∙ e))
          ]),
    )
