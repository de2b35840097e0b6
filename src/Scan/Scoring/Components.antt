-- ===== src/Scan/Scoring/Components.antt =====
-- src/stock_daily_report/market_scan/scoring.py: the scores of the five components.
use stock_daily_report.Prelude.{
  zero, suc, Bool, true, false, not, ◌&&◌, ◌||◌, List, [], ◌∷◌, ◌++◌, Option, none, some,
  if◌then◌else◌, length, filter_bool,
}
use stock_daily_report.Floats.{
  Float, fin, neg, nan, infinite, neg_infinite, float_lt, float_ge, is_finite, above,
}
use stock_daily_report.Metrics.{TechnicalMetrics}
use stock_daily_report.Chan.Common.{
  SimplifiedChanResult, Observation, is_confirmed, StateLabel, confirmed_up,
}
use stock_daily_report.Scan.Scoring.{
  FloatArithmetic, ComponentResult, hundred, float_min, note, is_rising, scaled, or_zero, given,
  add_when, mean_or_zero, close_above_ma20, ma20_above_ma60, ma60_above_ma120,
  macd_line_above_signal, ma20_slope_positive, ma60_slope_positive, positive_20_day_momentum,
  positive_60_day_momentum, positive_macd_histogram, momentum_capped_for_overheating,
  volume_confirmation_unavailable, trailing_volume_observed, volume_above_20_day_average,
  volume_with_positive_price_change, risk_measures_within_moderate_ranges,
  confirmed_fractal_structure, confirmed_stroke_structure, confirmed_central_structure,
  confirmed_upward_structure, confirmed_central_breakout_observation,
  overheated_short_term_momentum, high_realized_volatility, deep_trailing_drawdown,
  price_extended_above_ma20,
}

-- `-value`
abbrev pub negate : Float → Float
negate nan = nan
negate infinite = neg_infinite
negate neg_infinite = infinite
negate (fin zero) = fin zero
negate (fin (suc n)) = neg n
negate (neg n) = fin (suc n)

-- `value < limit`, where the value is given
abbrev pub below_limit : Option Float → Float → Bool
below_limit none limit = false
below_limit (some value) limit = float_lt value limit

abbrev pub is_confirmed_up : StateLabel → Bool
is_confirmed_up confirmed_up = true
is_confirmed_up _ = false

abbrev pub is_empty : {A : Type 0} → List A → Bool
is_empty [] = true
is_empty (_ ∷ _) = false

abbrev pub has_confirmed : List Observation → Bool
has_confirmed [] = false
has_confirmed (o ∷ os) = is_confirmed o.status || has_confirmed os

-- Whether the value is 0.0 or -0.0.
abbrev pub is_zero : Float → Bool
is_zero (fin zero) = true
is_zero _ = false

abbrev pub finite_only : Float → Option Float
finite_only value = if is_finite value then some value else none

module _ (f : FloatArithmetic) where
  -- `_ma20_extension`
  unfoldable pub ma20_extension : TechnicalMetrics → Option Float
  ma20_extension m = elim m.close [
    | none ↦ none
    | some close ↦ elim m.ma20 [
      | none ↦ none
      | some ma20 ↦
          if is_zero ma20
          then none
          else finite_only (f.sub (f.over close ma20) (fin 4607182418800017408))
    ]
  ]

  -- `_score_trend`
  unfoldable pub score_trend : TechnicalMetrics → ComponentResult
  score_trend m =
      let close_above = above m.close m.ma20 in
      let fast_above = above m.ma20 m.ma60 in
      let slow_above = above m.ma60 m.ma120 in
      let macd_above = above m.macd_line m.macd_signal in
      let alignment = add_when f macd_above (fin 4624633867356078080) (
        add_when f slow_above (fin 4624633867356078080) (
          add_when f fast_above (fin 4630122629401935872)
            (add_when f close_above (fin 4630122629401935872) (fin 0)))) in
      let slopes =
        scaled f m.ma20_slope5 (neg 4576918229304087674) (fin 4581421828931458171)
        ∷ scaled f m.ma60_slope5 (neg 4572414629676717178) (fin 4579800533065604792)
        ∷ [] in
      let slope_score = mean_or_zero f (given f slopes) in
      record {
        score =
            f.add (f.times alignment (fin 4604029899060858061))
              (f.times slope_score (fin 4599976659396224614));
        evidence_codes =
            note close_above close_above_ma20
            ++ (note fast_above ma20_above_ma60
                ++ (note slow_above ma60_above_ma120
                    ++ (note macd_above macd_line_above_signal
                        ++ (note (is_rising m.ma20_slope5) ma20_slope_positive
                            ++ note (is_rising m.ma60_slope5) ma60_slope_positive))));
        risk_codes = [];
      }

  -- `return20 > 0.30` or `extension > 0.18`
  abbrev pub is_overheated : TechnicalMetrics → Bool
  is_overheated m =
      above m.return20 (some (fin 4599075939470750515))
      || above (ma20_extension m) (some (fin 4595653203753948938))

  -- `_score_momentum`
  unfoldable pub score_momentum : TechnicalMetrics → ComponentResult
  score_momentum m =
      let return20 =
        or_zero f (scaled f m.return20 (neg 4587366580439587225) (fin 4594572339843380019)) in
      let return60 =
        or_zero f (scaled f m.return60 (neg 4591870180066957721) (fin 4599976659396224614)) in
      let rising = is_rising m.macd_histogram in
      let macd = if rising then hundred else fin 0 in
      let raw_score =
        f.add
          (f.add (f.times return20 (fin 4601778099247172813))
            (f.times return60 (fin 4599976659396224614)))
          (f.times macd (fin 4596373779694328218)) in
      let overheated = is_overheated m in
      record {
        score = if overheated then float_min raw_score (fin 4631530004285489152) else raw_score;
        evidence_codes =
            note (is_rising m.return20) positive_20_day_momentum
            ++ (note (is_rising m.return60) positive_60_day_momentum
                ++ (note rising positive_macd_histogram
                    ++ note overheated momentum_capped_for_overheating));
        risk_codes = note overheated overheated_short_term_momentum;
      }

  -- `_score_volume`
  unfoldable pub score_volume : TechnicalMetrics → ComponentResult
  score_volume m = elim m.volume_ratio20 [
    | none ↦ record {
      score = fin 4632233691727265792;
      evidence_codes = volume_confirmation_unavailable ∷ [];
      risk_codes = [];
    }
    | some ratio ↦
        let share =
          or_zero f (scaled f (some ratio) (fin 4602678819172646912) (fin 4611686018427387904)) in
        let observed =
          f.add (fin 4626322717216342016)
            (f.over (f.times (fin 4635329916471083008) share) hundred) in
        let rising = is_rising m.return20 in
        record {
          score = add_when f rising (fin 4621819117588971520) observed;
          evidence_codes =
              trailing_volume_observed
              ∷ (note (float_ge ratio (fin 4608083138725491507)) volume_above_20_day_average
                  ++ note rising volume_with_positive_price_change);
          risk_codes = [];
        }
  ]

  -- `_score_structure`, of the analyzer's result
  unfoldable pub score_structure : SimplifiedChanResult → ComponentResult
  score_structure r =
      let fractals = length (filter_bool (λ x. is_confirmed x.status) r.fractals) in
      let strokes = length (filter_bool (λ x. is_confirmed x.status) r.strokes) in
      let has_fractals = not (is_empty (filter_bool (λ x. is_confirmed x.status) r.fractals)) in
      let has_strokes = not (is_empty (filter_bool (λ x. is_confirmed x.status) r.strokes)) in
      let has_areas = not (is_empty r.central_areas) in
      let upward = is_confirmed r.state.status && is_confirmed_up r.state.label in
      let breakout = has_confirmed r.observations in
      let score =
        f.add
          (float_min (fin 4626322717216342016)
            (f.times (f.of_count fractals) (fin 4616189618054758400)))
          (float_min (fin 4629137466983448576)
            (f.times (f.of_count strokes) (fin 4621819117588971520))) in
      record {
        score = add_when f breakout (fin 4624633867356078080) (
            add_when f upward (fin 4624633867356078080)
              (add_when f has_areas (fin 4630122629401935872) score));
        evidence_codes =
            note has_fractals confirmed_fractal_structure
            ++ (note has_strokes confirmed_stroke_structure
                ++ (note has_areas confirmed_central_structure
                    ++ (note upward confirmed_upward_structure
                        ++ note breakout confirmed_central_breakout_observation)));
        risk_codes = [];
      }

  -- `score - weight * min((value - start) / width, 1.0)`, where the test holds
  abbrev pub penalized : Bool → Float → Option Float → Float → Float → Float → Float
  penalized false weight value start width score = score
  penalized true weight none start width score = score
  penalized true weight (some value) start width score =
      f.sub score
        (f.times weight (float_min (f.over (f.sub value start) width) (fin 4607182418800017408)))

  abbrev pub negated : Option Float → Option Float
  negated none = none
  negated (some value) = some (negate value)

  -- `_score_risk`
  unfoldable pub score_risk : TechnicalMetrics → ComponentResult
  score_risk m =
      let volatility = m.realized_volatility20 in
      let extension = ma20_extension m in
      let volatile = above volatility (some (fin 4598175219545276416)) in
      let falling = below_limit m.drawdown60 (neg 4591870180066957721) in
      let extended = above extension (some (fin 4591870180066957722)) in
      let penalties =
        penalized extended (fin 4629137466983448576) extension (fin 4591870180066957722)
          (fin 4596373779694328218)
          (penalized falling (fin 4630826316843712512) (negated m.drawdown60)
            (fin 4591870180066957722) (fin 4599075939470750515)
            (penalized volatile (fin 4630826316843712512) volatility (fin 4598175219545276416)
              (fin 4602678819172646912) hundred)) in
      let risks =
        note (volatile && not (below_limit volatility (fin 4601778099247172813)))
          high_realized_volatility
        ++ (note (falling && not (above m.drawdown60 (some (neg 4596373779694328217))))
              deep_trailing_drawdown
            ++ note (extended && above extension (some (fin 4594572339843380019)))
                price_extended_above_ma20) in
      record {
        score = if is_overheated m then f.sub penalties (fin 4626322717216342016) else penalties;
        evidence_codes = note (is_empty risks) risk_measures_within_moderate_ranges;
        risk_codes = risks;
      }
