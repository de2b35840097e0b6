-- ===== src/Chan/Strict/Events.antt =====
-- src/stock_daily_report/chan/strict.py: `StrictProfile`, `StrictEvent` and the candidates.
use stock_daily_report.Prelude.{ℕ, Bool, true, ◌&&◌, Option, none, some, leb, ◌==◌, if◌then◌else◌}
use stock_daily_report.Bars.{Date, Price}
use stock_daily_report.Chan.Common.{Status, FractalKind, top, bottom}

-- `rule_version` is "strict-v" and this number.
pub record StrictProfile : Type 0 where
  pub version : ℕ
  pub minimum_stroke_separation : ℕ
  pub minimum_central_strokes : ℕ
  pub require_next_bar_for_tradeability : Bool

-- The validators: the bounds of the two fields, and the fixed rules of strict-v1.
unfoldable pub validate_profile : StrictProfile → Bool
validate_profile p =
    (leb 3 p.minimum_stroke_separation && leb 3 p.minimum_central_strokes)
    && (if p.version == 1
        then ((p.minimum_stroke_separation == 3) && (p.minimum_central_strokes == 3))
          && p.require_next_bar_for_tradeability
        else true)

pub data EventKind : Type 0 where
  fractal stroke central_area segment signal : EventKind

pub data Reason : Type 0 where
  strict_top_fractal strict_bottom_fractal strict_alternating_fractals : Reason
  strict_three_stroke_overlap strict_two_stroke_overlap_candidate : Reason
  strict_three_stroke_feature_sequence : Reason
  strict_breakout_up_candidate strict_breakout_down_candidate : Reason

pub data Side : Type 0 where
  up down : Side

pub record StrictEvent : Type 0 where
  pub kind : EventKind
  pub formed_at : Date
  pub confirmed_at : Option Date
  pub tradable_at : Option Date
  pub status : Status
  pub reason_code : Reason
  pub price : Option Price
  pub low : Option Price
  pub high : Option Price
  pub direction : Option Side

pub record FractalCandidate : Type 0 where
  pub event : StrictEvent
  pub processed_index : ℕ

pub record StrokeCandidate : Type 0 where
  pub event : StrictEvent
  pub start_index : ℕ
  pub end_index : ℕ
  pub start_price : Price
  pub end_price : Price

-- "top" if the reason code ends in "top_fractal", else "bottom".
unfoldable pub kind_of : FractalCandidate → FractalKind
kind_of f = elim f.event.reason_code [ strict_top_fractal ↦ top | _ ↦ bottom ]

-- A field that the analyzer fills in every event of the kind at hand.
abbrev pub filled : Option Price → Price
filled none = 0
filled (some price) = price

-- `fractal.event.price`
unfoldable pub price_of : FractalCandidate → Price
price_of f = filled f.event.price

-- `stroke.event.low` and `stroke.event.high`
unfoldable pub low_of : StrokeCandidate → Price
low_of s = filled s.event.low

unfoldable pub high_of : StrokeCandidate → Price
high_of s = filled s.event.high
