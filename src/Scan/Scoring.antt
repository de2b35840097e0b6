-- ===== src/Scan/Scoring.antt =====
-- src/stock_daily_report/market_scan/scoring.py, from the technical metrics and the structural result
-- of the bars on. A literal is the rank of its double, which is its bits.
--
-- Parameter: `FloatArithmetic` is Python's arithmetic on floats, with `math.fsum` and the conversion of
-- an integer; `over` divides by a divisor other than 0.
pub mod Components
pub mod Candidate
pub mod Bounds
pub mod Precedes
pub mod Ranks
pub mod Ranking
pub mod Consensus
use stock_daily_report.Prelude.{
  ℕ, Bool, true, false, not, ◌&&◌, ◌||◌, List, [], ◌∷◌, ◌++◌, map, Option, none, some, ◌==◌,
  if◌then◌else◌, length, filter_bool,
}
use stock_daily_report.Texts.{Text}
use stock_daily_report.Bars.{Date}
use stock_daily_report.Floats.{
  Float, fin, neg, float_lt, float_le, float_ge, is_finite, is_positive, above,
}
use stock_daily_report.Metrics.{TechnicalMetrics}
use stock_daily_report.Chan.Common.{
  SimplifiedChanResult, Fractal, Stroke, Observation, is_confirmed, StateLabel, confirmed_up,
}

pub record FloatArithmetic : Type 0 where
  pub add : Float → Float → Float
  pub sub : Float → Float → Float
  pub times : Float → Float → Float
  pub over : Float → Float → Float
  pub fsum : List Float → Float
  pub of_count : ℕ → Float

pub data Evidence : Type 0 where
  close_above_ma20 ma20_above_ma60 ma60_above_ma120 macd_line_above_signal : Evidence
  ma20_slope_positive ma60_slope_positive : Evidence
  positive_20_day_momentum positive_60_day_momentum positive_macd_histogram : Evidence
  momentum_capped_for_overheating : Evidence
  volume_confirmation_unavailable trailing_volume_observed : Evidence
  volume_above_20_day_average volume_with_positive_price_change : Evidence
  risk_measures_within_moderate_ranges : Evidence
  confirmed_fractal_structure confirmed_stroke_structure confirmed_central_structure : Evidence
  confirmed_upward_structure confirmed_central_breakout_observation : Evidence

abbrev pub evidence_number : Evidence → ℕ
evidence_number close_above_ma20 = 0
evidence_number ma20_above_ma60 = 1
evidence_number ma60_above_ma120 = 2
evidence_number macd_line_above_signal = 3
evidence_number ma20_slope_positive = 4
evidence_number ma60_slope_positive = 5
evidence_number positive_20_day_momentum = 6
evidence_number positive_60_day_momentum = 7
evidence_number positive_macd_histogram = 8
evidence_number momentum_capped_for_overheating = 9
evidence_number volume_confirmation_unavailable = 10
evidence_number trailing_volume_observed = 11
evidence_number volume_above_20_day_average = 12
evidence_number volume_with_positive_price_change = 13
evidence_number risk_measures_within_moderate_ranges = 14
evidence_number confirmed_fractal_structure = 15
evidence_number confirmed_stroke_structure = 16
evidence_number confirmed_central_structure = 17
evidence_number confirmed_upward_structure = 18
evidence_number confirmed_central_breakout_observation = 19

pub data ScoreRisk : Type 0 where
  overheated_short_term_momentum high_realized_volatility : ScoreRisk
  deep_trailing_drawdown price_extended_above_ma20 : ScoreRisk

abbrev pub risk_number : ScoreRisk → ℕ
risk_number overheated_short_term_momentum = 0
risk_number high_realized_volatility = 1
risk_number deep_trailing_drawdown = 2
risk_number price_extended_above_ma20 = 3

module _ {A : Type 0} (number : A → ℕ) where
  unfoldable pub has_number : ℕ → List A → Bool
  has_number n [] = false
  has_number n (a ∷ xs) = (n == number a) || has_number n xs

  -- The keys of a dictionary, each where it is first inserted.
  unfoldable pub from_keys : List A → List A → List A
  from_keys keys [] = keys
  from_keys keys (a ∷ xs) =
      from_keys (if has_number (number a) keys then keys else keys ++ (a ∷ [])) xs

  -- `_stable_codes`, of the groups joined
  abbrev pub stable_codes : List A → List A
  stable_codes xs = from_keys [] xs

pub record ComponentResult : Type 0 where
  pub score : Float
  pub evidence_codes : List Evidence
  pub risk_codes : List ScoreRisk

abbrev pub hundred : Float
hundred = fin 4636737291354636288

-- `max(a, b)` and `min(a, b)`
abbrev pub float_max : Float → Float → Float
float_max a b = if float_lt a b then b else a

abbrev pub float_min : Float → Float → Float
float_min a b = if float_lt b a then b else a

-- `_bounded`
unfoldable pub bounded : Float → Float
bounded value = if not (is_finite value) then fin 0 else float_min (float_max value (fin 0)) hundred

abbrev pub note : {A : Type 0} → Bool → A → List A
note true a = a ∷ []
note false a = []

-- `value is not None and value > 0.0`
abbrev pub is_rising : Option Float → Bool
is_rising value = above value (some (fin 0))

module _ (f : FloatArithmetic) where
  -- `_scaled`
  unfoldable pub scaled : Option Float → Float → Float → Option Float
  scaled none lower upper = none
  scaled (some value) lower upper =
      if not (is_finite value)
      then none
      else if float_le value lower
      then some (fin 0)
      else if float_ge value upper
      then some hundred
      else some (bounded (f.times (f.over (f.sub value lower) (f.sub upper lower)) hundred))

  -- `_scaled(...) or 0.0`
  abbrev pub or_zero : Option Float → Float
  or_zero none = fin 0
  or_zero (some value) = value

  abbrev pub given : List (Option Float) → List Float
  given [] = []
  given (none ∷ xs) = given xs
  given (some x ∷ xs) = x ∷ given xs

  -- `score += amount` if the test holds
  abbrev pub add_when : Bool → Float → Float → Float
  add_when true amount score = f.add score amount
  add_when false amount score = score

  abbrev pub mean_or_zero : List Float → Float
  mean_or_zero [] = fin 0
  mean_or_zero (x ∷ xs) = f.over (f.fsum (x ∷ xs)) (f.of_count (length (x ∷ xs)))
