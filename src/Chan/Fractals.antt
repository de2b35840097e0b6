-- ===== src/Chan/Fractals.antt =====
-- src/stock_daily_report/chan/simplified.py: `_trade_date_after` and `_find_fractals`.
pub mod Prefix
pub mod Alternation
pub mod Swings
use stock_daily_report.Prelude.{
  ℕ, ◌+◌, Bool, true, false, ◌&&◌, List, [], ◌∷◌, Option, none, some, ltb, if◌then◌else◌, get_elem?,
  last_or, cons?, filter_bool,
}
use stock_daily_report.Bars.{Date, DailyBar}
use stock_daily_report.Chan.Common.{
  Status, candidate, confirmed, FractalKind, top, bottom, ProcessedBar, Fractal, is_confirmed,
}

unfoldable pub trade_date_after : ℕ → List DailyBar → Option Date
trade_date_after source_index bars = elim (get_elem? bars (source_index + 1)) [
  | none ↦ none
  | some bar ↦ some bar.trade_date
]

unfoldable pub is_top : ProcessedBar → ProcessedBar → ProcessedBar → Bool
is_top left center right =
    (ltb left.high center.high && ltb right.high center.high)
    && (ltb left.low center.low && ltb right.low center.low)

unfoldable pub is_bottom : ProcessedBar → ProcessedBar → ProcessedBar → Bool
is_bottom left center right =
    (ltb center.high left.high && ltb center.high right.high)
    && (ltb center.low left.low && ltb center.low right.low)

-- `kind`, with `None` for no fractal.
unfoldable pub fractal_kind : ProcessedBar → ProcessedBar → ProcessedBar → Option FractalKind
fractal_kind left center right =
    if is_top left center right
    then some top
    else if is_bottom left center right
    then some bottom
    else none

abbrev pub fractal_price : FractalKind → ProcessedBar → ℕ
fractal_price top center = center.high
fractal_price bottom center = center.low

abbrev pub last_source : ProcessedBar → ℕ
last_source bar = last_or 0 bar.source_indices

-- The status and `confirmed_at` that go with a value of `tradable_at`.
abbrev pub status_of : Option Date → Status
status_of none = candidate
status_of (some _) = confirmed

abbrev pub confirmed_at_of : Option Date → Date → Option Date
confirmed_at_of none _ = none
confirmed_at_of (some _) date = some date

unfoldable pub make_fractal :
    FractalKind → ℕ → ProcessedBar → ProcessedBar → List DailyBar → Fractal
make_fractal kind index center right bars =
    let tradable_at = trade_date_after (last_source right) bars in
    record {
      kind = kind;
      price = fractal_price kind center;
      formed_at = last_or 0 center.source_dates;
      confirmed_at = confirmed_at_of tradable_at (last_or 0 right.source_dates);
      tradable_at = tradable_at;
      status = status_of tradable_at;
      processed_index = index;
      source_indices = center.source_indices;
    }

-- The body of the loop, at one `index`.
unfoldable pub fractal_at :
    ℕ → ProcessedBar → ProcessedBar → ProcessedBar → List DailyBar → Option Fractal
fractal_at index left center right bars = elim (fractal_kind left center right) [
  | none ↦ none
  | some kind ↦ some (make_fractal kind index center right bars)
]

-- The loop, where the list begins with the bar at `index - 1`.
unfoldable pub fractals_from : ℕ → List ProcessedBar → List DailyBar → List Fractal
fractals_from index [] bars = []
fractals_from index (left ∷ []) bars = []
fractals_from index (left ∷ center ∷ []) bars = []
fractals_from index (left ∷ center ∷ right ∷ rest) bars =
    cons? (fractal_at index left center right bars)
      (fractals_from (index + 1) (center ∷ right ∷ rest) bars)

unfoldable pub find_fractals : List ProcessedBar → List DailyBar → List Fractal
find_fractals processed bars = fractals_from 1 processed bars

abbrev pub confirmed_fractals : List Fractal → List Fractal
confirmed_fractals = filter_bool (λ f. is_confirmed f.status)
