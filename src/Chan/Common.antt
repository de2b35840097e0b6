-- ===== src/Chan/Common.antt =====
-- src/stock_daily_report/chan/common.py: the immutable records of the structural observations.
-- `rule_version`, the same constant in every record, is left out.
use stock_daily_report.Prelude.{ℕ, List, Option, Bool, true, false}
use stock_daily_report.Bars.{Date, Price}

pub data Status : Type 0 where
  candidate confirmed : Status

pub data Direction : Type 0 where
  up down neutral : Direction

pub data FractalKind : Type 0 where
  top bottom : FractalKind

pub data StrokeKind : Type 0 where
  upward downward : StrokeKind

pub data LevelKind : Type 0 where
  support resistance : LevelKind

pub data LevelSource : Type 0 where
  confirmed_central_range confirmed_bottom_fractal confirmed_top_fractal : LevelSource

pub record ProcessedBar : Type 0 where
  pub high : Price
  pub low : Price
  pub direction : Direction
  pub source_indices : List ℕ
  pub source_dates : List Date

pub record Fractal : Type 0 where
  pub kind : FractalKind
  pub price : Price
  pub formed_at : Date
  pub confirmed_at : Option Date
  pub tradable_at : Option Date
  pub status : Status
  pub processed_index : ℕ
  pub source_indices : List ℕ

pub record Stroke : Type 0 where
  pub kind : StrokeKind
  pub low : Price
  pub high : Price
  pub formed_at : Date
  pub confirmed_at : Option Date
  pub tradable_at : Option Date
  pub status : Status
  pub start_formed_at : Date
  pub end_formed_at : Date
  pub start_processed_index : ℕ
  pub end_processed_index : ℕ

pub record CentralArea : Type 0 where
  pub low : Price
  pub high : Price
  pub formed_at : Date
  pub confirmed_at : Option Date
  pub tradable_at : Option Date
  pub status : Status
  pub start_stroke_index : ℕ
  pub end_stroke_index : ℕ

pub record SupportResistance : Type 0 where
  pub kind : LevelKind
  pub price : Price
  pub source : LevelSource
  pub strength : ℕ
  pub formed_at : Date
  pub confirmed_at : Option Date
  pub tradable_at : Option Date
  pub status : Status

-- The one code that is produced is `potential_central_breakout`.
pub record Observation : Type 0 where
  pub formed_at : Date
  pub confirmed_at : Option Date
  pub tradable_at : Option Date
  pub status : Status

-- The labels of the declared `Literal`, and the two that the analyzer really writes for strokes.
pub data StateLabel : Type 0 where
  not_enough_data candidate_upward candidate_downward : StateLabel
  confirmed_upward confirmed_downward neutral_consolidation : StateLabel
  confirmed_up confirmed_down : StateLabel

pub record StructureState : Type 0 where
  pub label : StateLabel
  pub formed_at : Option Date
  pub confirmed_at : Option Date
  pub tradable_at : Option Date
  pub status : Status

pub record SimplifiedChanResult : Type 0 where
  pub processed_bars : List ProcessedBar
  pub fractals : List Fractal
  pub strokes : List Stroke
  pub central_candidates : List CentralArea
  pub central_areas : List CentralArea
  pub support_resistance : List SupportResistance
  pub observations : List Observation
  pub state : StructureState

abbrev pub is_confirmed : Status → Bool
is_confirmed confirmed = true
is_confirmed candidate = false
