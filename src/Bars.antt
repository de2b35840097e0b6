-- ===== src/Bars.antt =====
-- src/stock_daily_report/models.py: `DailyBar`, one normalized daily bar.
--
-- A date is its proleptic ordinal (`date.toordinal()`). A price or measure is a finite
-- double that is not negative; the code that takes bars here only compares them, so each stands
-- as its rank in the order of those doubles (the bits of the double read as a number), 0 for 0.0.
use Prim.Native.String.{String}
use stock_daily_report.Prelude.{
  ℕ, ◌+◌, ◌<◌, ◌%◌, Bool, true, ◌&&◌, List, [], ◌∷◌, ltb, leb, min, max, Chain,
}

abbrev pub Date : Type 0
Date = ℕ

abbrev pub Price : Type 0
Price = ℕ

pub record DailyBar : Type 0 where
  pub trade_date : Date
  pub open_price : Price
  pub high : Price
  pub low : Price
  pub close : Price
  pub volume : ℕ
  pub amount : ℕ
  pub turnover_rate : ℕ
  pub adjustment_mode : String
  pub provider_name : String
  pub source_timestamp : ℕ

-- `validate_ohlc_ordering`
unfoldable pub validate_ohlc_ordering : DailyBar → Bool
validate_ohlc_ordering b =
    leb b.low (min b.open_price b.close) && leb (max b.open_price b.close) b.high

-- Monday is 0.
unfoldable pub weekday : Date → ℕ
weekday d = (d + 6) % 7

abbrev pub Earlier : DailyBar → DailyBar → Type 0
Earlier a b = a.trade_date < b.trade_date

-- Dates are strictly increasing.
abbrev pub IsChronological : List DailyBar → Type 0
IsChronological = Chain Earlier

-- The test of `_validate_and_copy`: no neighbours with `earlier.trade_date >= later.trade_date`.
unfoldable pub strictly_increasing : List DailyBar → Bool
strictly_increasing [] = true
strictly_increasing (a ∷ []) = true
strictly_increasing (a ∷ b ∷ bs) = ltb a.trade_date b.trade_date && strictly_increasing (b ∷ bs)
