-- ===== src/Risk/Calm.antt =====
-- An assessment without a failure, a high-risk code and an incomplete structure is calm.
use stock_daily_report.Prelude.{◌≤◌, ◌≡◌, refl, Bool, true, false, [], arith}
use stock_daily_report.Floats.{Float}
use stock_daily_report.Metrics.{TechnicalMetrics}
use stock_daily_report.Chan.Common.{StructureState}
use stock_daily_report.Risk.{
  Quality, RiskRulesSettings, has, Assessment, quality_rule, history_rule, price_rule, metric_rule,
  has_invalid_price, lacks_close_or_ma20, lacks_required, is_volatile, has_drawdown,
  is_overextended, has_adverse_volume, is_incomplete, start, evaluate_risk_rules,
  incomplete_structure, adverse_volume_behavior, overextended_from_ma20, large_drawdown60,
  high_realized_volatility20,
}
use stock_daily_report.Risk.Codes.{
  fails, quality_rule-fails, market_rules-volatile, market_rules-drawdown,
  market_rules-overextended, market_rules-volume, market_rules-incomplete, market_rules-flags,
}

history_rule-fails :
    (q : Quality) (rules : RiskRulesSettings) (a : Assessment)
    → fails (history_rule q rules a) ≡ false
    → (rules.minimum_history_bars ≤ q.bar_count) × (fails a ≡ false)
unfolding history_rule
history_rule-fails q rules a h = (ground arith, ground arith)

price_rule-fails :
    (m : TechnicalMetrics) (a : Assessment)
    → fails (price_rule m a) ≡ false
    → (has_invalid_price m ≡ false) × (fails a ≡ false)
unfolding price_rule
price_rule-fails m a h = (ground arith, ground arith)

metric_rule-fails :
    (m : TechnicalMetrics) (a : Assessment)
    → fails (metric_rule m a) ≡ false
    → (lacks_close_or_ma20 m ≡ false) × (lacks_required m ≡ false) × (fails a ≡ false)
unfolding metric_rule
metric_rule-fails m a h = (ground arith, ground arith, ground arith)

-- Nothing speaks against a directional label.
pub record IsCalm (distance : Float → Float → Float) (m : TechnicalMetrics) (state : StructureState)
    (q : Quality) (rules : RiskRulesSettings) : Type 0 where
  pub allowed : q.analysis_allowed ≡ true
  pub no_issues : q.issue_codes ≡ []
  pub enough : rules.minimum_history_bars ≤ q.bar_count
  pub prices : has_invalid_price m ≡ false
  pub close_and_ma20 : lacks_close_or_ma20 m ≡ false
  pub required : lacks_required m ≡ false
  pub quiet : is_volatile m rules ≡ false
  pub shallow : has_drawdown m rules ≡ false
  pub near : is_overextended distance m rules ≡ false
  pub volume : has_adverse_volume m rules ≡ false
  pub complete : is_incomplete state ≡ false

refute : (b c : Bool) → (b ≡ true → c ≡ true) → c ≡ false → b ≡ false
refute true c h e = ground (arith, h refl, e)
refute false c h e = refl

-- If the assessment has no failure flag and none of the codes of the market rules, then the quality
-- result is allowed and without issues, the history is long enough, the metrics are there and valid,
-- and no market rule and not the structure rule fires.
pub evaluate_risk_rules-IsCalm :
    (distance : Float → Float → Float) (m : TechnicalMetrics) (state : StructureState) (q : Quality)
    (rules : RiskRulesSettings)
    → let a = evaluate_risk_rules distance m state q rules in
      fails a ≡ false
      → has high_realized_volatility20 a.risk_codes ≡ false
      → has large_drawdown60 a.risk_codes ≡ false
      → has overextended_from_ma20 a.risk_codes ≡ false
      → has adverse_volume_behavior a.risk_codes ≡ false
      → has incomplete_structure a.risk_codes ≡ false
      → IsCalm distance m state q rules
unfolding evaluate_risk_rules
evaluate_risk_rules-IsCalm distance m state q rules f hv hd ho ha hi =
    let a1 = quality_rule q start in
    let a2 = history_rule q rules a1 in
    let a3 = price_rule m a2 in
    let a4 = metric_rule m a3 in
    let (hard, short) = market_rules-flags distance m state rules a4 in
    let f4 : fails a4 ≡ false = ground (arith, hard, short, f) in
    let (close, required, f3) = metric_rule-fails m a3 f4 in
    let (prices, f2) = price_rule-fails m a2 f3 in
    let (enough, f1) = history_rule-fails q rules a1 f2 in
    let (allowed, none_left) = quality_rule-fails q start f1 in
    record {
      allowed = allowed;
      no_issues = none_left;
      enough = enough;
      prices = prices;
      close_and_ma20 = close;
      required = required;
      quiet = refute _ _ (market_rules-volatile distance m state rules a4) hv;
      shallow = refute _ _ (market_rules-drawdown distance m state rules a4) hd;
      near = refute _ _ (market_rules-overextended distance m state rules a4) ho;
      volume = refute _ _ (market_rules-volume distance m state rules a4) ha;
      complete = refute _ _ (market_rules-incomplete distance m state rules a4) hi;
    }
