-- ===== src/Tests/Chan.antt =====
-- A zigzag of eleven bars through the simplified analyzer of src/stock_daily_report/chan/.
use stock_daily_report.Prelude.{
  ℕ, ◌≡◌, ◌⊎◌, refl, List, [], ◌∷◌, ◌++◌, arith, length, All, Chain, Extends,
}
use stock_daily_report.Bars.{DailyBar, IsChronological}
use stock_daily_report.Chan.Common.{upward, downward, Stroke, Observation, StrokeKind}
use stock_daily_report.Chan.Inclusion.{process_inclusion}
use stock_daily_report.Chan.Inclusion.Order.{Follows, process_inclusion-Follows}
use stock_daily_report.Chan.Inclusion.Range.{IsBarRange}
use stock_daily_report.Chan.Inclusion.Trace.{
  range_from, all_indices, all_dates, dates, process_inclusion-trace,
}
use stock_daily_report.Chan.Fractals.{
  fractals_from, find_fractals, confirmed_fractals, fractal_at, fractal_kind, is_top, is_bottom,
  make_fractal, trade_date_after,
}
use stock_daily_report.Chan.Fractals.Prefix.{find_fractals-Extends}
use stock_daily_report.Chan.Strokes.{
  find_strokes, strokes_of, strokes_from, stroke_at, next_active, too_close, is_more_extreme,
  overlap,
}
use stock_daily_report.Chan.Strokes.Order.{IsSwing, IsConfirmedIn, Joins, find_strokes-zigzag}
use stock_daily_report.Chan.Strokes.Prefix.{strokes_in, find_strokes-Extends}
use stock_daily_report.Chan.Central.{find_central_areas, areas_from, extend}
use stock_daily_report.Chan.Central.Spec.{Areas}
use stock_daily_report.Chan.Central.Search.{find_central_areas-Areas}
use stock_daily_report.Chan.Simplified.{ok, raised, not_increasing, result_of, analyze}
use stock_daily_report.Chan.Simplified.Results.{analyze_total}

abbrev pub bar : ℕ → ℕ → ℕ → DailyBar
bar date high low = record {
  trade_date = date;
  open_price = low;
  high = high;
  low = low;
  close = high;
  volume = 1;
  amount = 1;
  turnover_rate = 1;
  adjustment_mode = "qfq";
  provider_name = "fixture";
  source_timestamp = 0;
}

abbrev history : List DailyBar
history =
    bar 1 10 8
    ∷ bar 2 12 10
    ∷ bar 3 14 12
    ∷ bar 4 12 10
    ∷ bar 5 10 8
    ∷ bar 6 12 10
    ∷ bar 7 14 12
    ∷ bar 8 12 10
    ∷ bar 9 10 8
    ∷ bar 10 12 10
    ∷ bar 11 13 11
    ∷ []

abbrev more : List DailyBar
more = bar 12 14 12 ∷ bar 13 16 13 ∷ []

abbrev kinds : List Stroke → List StrokeKind
kinds [] = []
kinds (s ∷ ss) = s.kind ∷ kinds ss

history-strokes : kinds (strokes_in history) ≡ downward ∷ upward ∷ downward ∷ []
unfolding find_strokes strokes_of strokes_from stroke_at next_active too_close is_more_extreme
    find_fractals fractals_from fractal_at fractal_kind is_top is_bottom make_fractal
    trade_date_after process_inclusion
history-strokes = refl

history-areas : length (find_central_areas (strokes_in history)) ≡ 1
unfolding find_central_areas areas_from extend overlap find_strokes strokes_of strokes_from
    stroke_at next_active too_close is_more_extreme find_fractals fractals_from fractal_at
    fractal_kind is_top is_bottom make_fractal trade_date_after process_inclusion
history-areas = refl

process_inclusion-Follows_example : Chain Follows (process_inclusion history)
process_inclusion-Follows_example = process_inclusion-Follows history

find_fractals-Extends_example :
    Extends
      (confirmed_fractals (find_fractals (process_inclusion history) history))
      (confirmed_fractals (find_fractals (process_inclusion (history ++ more)) (history ++ more)))
find_fractals-Extends_example = find_fractals-Extends history more

find_strokes-Extends_example : Extends (strokes_in history) (strokes_in (history ++ more))
find_strokes-Extends_example = find_strokes-Extends history more

history-IsBarRange : All IsBarRange history
history-IsBarRange = omega arith

find_strokes-zigzag_example :
    let fractals = find_fractals (process_inclusion history) history in
    All (IsSwing (IsConfirmedIn fractals)) (find_strokes fractals)
    × Chain Joins (find_strokes fractals)
find_strokes-zigzag_example = find_strokes-zigzag history history-IsBarRange

find_central_areas-Areas_example :
    Areas 0 (strokes_in history) (find_central_areas (strokes_in history))
find_central_areas-Areas_example = find_central_areas-Areas (strokes_in history)

analyze_total_example :
    ((os : List Observation) × IsChronological history
      × (analyze history ≡ ok (result_of history os)))
    ⊎ ((¬ IsChronological history) × (analyze history ≡ raised not_increasing))
analyze_total_example = analyze_total history

process_inclusion-trace_example :
    (all_indices (process_inclusion history) ≡ range_from 0 (length history))
    × (all_dates (process_inclusion history) ≡ dates history)
process_inclusion-trace_example = process_inclusion-trace history
