-- ===== src/Chan/Strict/Fractals.antt =====
-- src/stock_daily_report/chan/strict.py: `_find_fractals`.
use stock_daily_report.Prelude.{
  ℕ, ◌+◌, List, [], ◌∷◌, Option, none, some, if◌then◌else◌, head_or, last_or, cons?,
}
use stock_daily_report.Bars.{Date, DailyBar}
use stock_daily_report.Chan.Common.{confirmed, FractalKind, top, bottom, ProcessedBar}
use stock_daily_report.Chan.Fractals.{trade_date_after, fractal_kind, fractal_price}
use stock_daily_report.Chan.Strict.Events.{
  StrictProfile, EventKind, Reason, strict_top_fractal, strict_bottom_fractal, FractalCandidate,
}

abbrev pub fractal_reason : FractalKind → Reason
fractal_reason top = strict_top_fractal
fractal_reason bottom = strict_bottom_fractal

-- `right.source_dates[0]` and `right.source_indices[0]`
abbrev pub first_date : ProcessedBar → Date
first_date p = head_or 0 p.source_dates

abbrev pub first_source : ProcessedBar → ℕ
first_source p = head_or 0 p.source_indices

unfoldable pub tradable_date : StrictProfile → ProcessedBar → List DailyBar → Option Date
tradable_date profile right bars =
    if profile.require_next_bar_for_tradeability
    then trade_date_after (first_source right) bars
    else some (first_date right)

unfoldable pub make_fractal :
    StrictProfile → FractalKind → ℕ → ProcessedBar → ProcessedBar → List DailyBar → FractalCandidate
make_fractal profile kind index center right bars = record {
  event = record {
    kind = EventKind.fractal;
    formed_at = last_or 0 center.source_dates;
    confirmed_at = some (first_date right);
    tradable_at = tradable_date profile right bars;
    status = confirmed;
    reason_code = fractal_reason kind;
    price = some (fractal_price kind center);
    low = none;
    high = none;
    direction = none;
  };
  processed_index = index;
}

unfoldable pub fractal_at :
    StrictProfile
    → ℕ
    → ProcessedBar
    → ProcessedBar
    → ProcessedBar
    → List DailyBar
    → Option FractalCandidate
fractal_at profile index left center right bars = elim (fractal_kind left center right) [
  | none ↦ none
  | some kind ↦ some (make_fractal profile kind index center right bars)
]

unfoldable pub fractals_from :
    StrictProfile → ℕ → List ProcessedBar → List DailyBar → List FractalCandidate
fractals_from profile index [] bars = []
fractals_from profile index (left ∷ []) bars = []
fractals_from profile index (left ∷ center ∷ []) bars = []
fractals_from profile index (left ∷ center ∷ right ∷ rest) bars =
    cons? (fractal_at profile index left center right bars)
      (fractals_from profile (index + 1) (center ∷ right ∷ rest) bars)

unfoldable pub find_fractals :
    StrictProfile → List ProcessedBar → List DailyBar → List FractalCandidate
find_fractals profile processed bars = fractals_from profile 1 processed bars
