-- ===== src/Tests/Strict.antt =====
-- A longer zigzag through the strict analyzer of src/stock_daily_report/chan/strict.py.
use stock_daily_report.Prelude.{◌≡◌, refl, true, List, [], ◌∷◌, ◌++◌, some, none, length}
use stock_daily_report.Bars.{DailyBar}
use stock_daily_report.Chan.Common.{confirmed}
use stock_daily_report.Chan.Inclusion
use stock_daily_report.Chan.Fractals.{fractal_kind, is_top, is_bottom, trade_date_after}
use stock_daily_report.Chan.Strict.Events.{
  StrictProfile, EventKind, strict_three_stroke_overlap, StrictEvent, StrokeCandidate, up, kind_of,
  price_of,
}
use stock_daily_report.Chan.Strict.Inclusion.{process_inclusion, process_inclusion-eq}
use stock_daily_report.Chan.Strict.Fractals.{
  find_fractals, fractals_from, fractal_at, make_fractal, tradable_date,
}
use stock_daily_report.Chan.Strict.Strokes.{
  find_strokes, strokes_of, strokes_from, action, more_extreme, not_beyond, new_stroke,
}
use stock_daily_report.Chan.Strict.Strokes.Contiguous.{IsZigzag}
use stock_daily_report.Chan.Strict.Strokes.Zigzag.{find_strokes-IsZigzag}
use stock_daily_report.Chan.Strict.Segments.{find_segments, Segments, find_segments-Segments}
use stock_daily_report.Chan.Strict.Signals.{
  find_signal_for_area, signal_from, side_of, signal_event,
}
use stock_daily_report.Chan.Strict.Signals.Stable.{SameSignal, find_signal_for_area-append}
use stock_daily_report.Tests.Chan.{bar}

abbrev history : List DailyBar
history =
    bar 1 10 8
    ∷ bar 2 12 10
    ∷ bar 3 14 12
    ∷ bar 4 16 14
    ∷ bar 5 14 12
    ∷ bar 6 12 10
    ∷ bar 7 10 8
    ∷ bar 8 12 10
    ∷ bar 9 14 12
    ∷ bar 10 16 14
    ∷ bar 11 14 12
    ∷ bar 12 12 10
    ∷ bar 13 10 8
    ∷ bar 14 12 10
    ∷ bar 15 14 12
    ∷ bar 16 16 14
    ∷ bar 17 14 12
    ∷ bar 18 12 10
    ∷ bar 19 10 8
    ∷ bar 20 12 10
    ∷ []

abbrev strict_v1 : StrictProfile
strict_v1 = record {
  version = 1;
  minimum_stroke_separation = 3;
  minimum_central_strokes = 3;
  require_next_bar_for_tradeability = true;
}

abbrev strokes : List StrokeCandidate
strokes = find_strokes 3 (find_fractals strict_v1 (process_inclusion history) history)

strokes-count : length strokes ≡ 5
unfolding find_strokes strokes_of strokes_from action more_extreme not_beyond new_stroke
    find_fractals fractals_from fractal_at make_fractal tradable_date fractal_kind is_top is_bottom
    trade_date_after process_inclusion stock_daily_report.Chan.Strict.Inclusion.process_from
    Inclusion.includes kind_of price_of
strokes-count = refl

find_strokes-IsZigzag_example : IsZigzag 3 strokes
find_strokes-IsZigzag_example = find_strokes-IsZigzag strict_v1 history

find_segments-Segments_example : Segments strokes (find_segments strokes)
find_segments-Segments_example = find_segments-Segments strokes

abbrev area : StrictEvent
area = record {
  kind = EventKind.central_area;
  formed_at = 1;
  confirmed_at = some 1;
  tradable_at = some 2;
  status = confirmed;
  reason_code = strict_three_stroke_overlap;
  price = none;
  low = some 8;
  high = some 11;
  direction = none;
}

abbrev first_bars : List DailyBar
first_bars = bar 1 10 8 ∷ bar 2 12 10 ∷ bar 3 14 12 ∷ []

abbrev breakout_event : StrictEvent
breakout_event = signal_event 2 (some 3) none confirmed up

area-breakout_event : find_signal_for_area first_bars area ≡ some breakout_event
unfolding find_signal_for_area signal_from side_of
area-breakout_event = refl

find_signal_for_area-append_example :
    (e : StrictEvent) × (find_signal_for_area (first_bars ++ (bar 4 16 14 ∷ [])) area ≡ some e)
    × SameSignal breakout_event e
find_signal_for_area-append_example =
    find_signal_for_area-append first_bars (bar 4 16 14 ∷ []) area breakout_event
      area-breakout_event refl
