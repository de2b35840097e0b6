-- ===== src/Chan/Inclusion.antt =====
-- src/stock_daily_report/chan/simplified.py: `_includes`, `_direction` and `_process_inclusion`.
-- The list `processed` is passed on as its last element, the only one that the loop reads or
-- replaces; the elements in front of it are emitted when they are left behind.
pub mod Order
pub mod Trace
pub mod Prefix
pub mod Range
use stock_daily_report.Prelude.{
  ℕ, ◌+◌, ◌≡◌, Bool, true, false, ◌&&◌, ◌||◌, List, [], ◌∷◌, ◌++◌, ltb, leb, min, max,
  if◌then◌else◌,
}
use stock_daily_report.Bars.{DailyBar}
use stock_daily_report.Chan.Common.{Direction, up, down, neutral, ProcessedBar}

unfoldable pub includes : ProcessedBar → ProcessedBar → Bool
includes left right =
    (leb right.high left.high && leb left.low right.low)
    || (leb left.high right.high && leb right.low left.low)

unfoldable pub direction_of : ProcessedBar → ProcessedBar → Direction
direction_of left right =
    if ltb left.high right.high && leb left.low right.low
    then up
    else if leb right.high left.high && ltb right.low left.low
    then down
    else neutral

abbrev pub incoming : ℕ → DailyBar → ProcessedBar
incoming source_index bar = record {
  high = bar.high;
  low = bar.low;
  direction = neutral;
  source_indices = source_index ∷ [];
  source_dates = bar.trade_date ∷ [];
}

-- `x` unless it is neutral.
abbrev pub or_else : Direction → Direction → Direction
or_else neutral d = d
or_else d _ = d

-- The direction by which an included bar is merged.
unfoldable pub merge_direction : ProcessedBar → ProcessedBar → Direction
unfolding direction_of
merge_direction previous new = or_else (or_else previous.direction (direction_of previous new)) up

abbrev pub combine : Direction → ℕ → ℕ → ℕ
combine up = max
combine _ = min

abbrev pub merge_by : Direction → ProcessedBar → ProcessedBar → ProcessedBar
merge_by direction previous new = record {
  high = combine direction previous.high new.high;
  low = combine direction previous.low new.low;
  direction = direction;
  source_indices = previous.source_indices ++ new.source_indices;
  source_dates = previous.source_dates ++ new.source_dates;
}

-- The bar that replaces `processed[-1]`.
unfoldable pub merge : ProcessedBar → ProcessedBar → ProcessedBar
unfolding merge_direction
merge previous new = merge_by (merge_direction previous new) previous new

-- `replace(incoming, direction=...)`
unfoldable pub follow : ProcessedBar → ProcessedBar → ProcessedBar
unfolding direction_of
follow previous new = record new { direction = direction_of previous new }

-- The loop from `source_index` on, where `previous` is `processed[-1]`.
unfoldable pub process_from : ProcessedBar → ℕ → List DailyBar → List ProcessedBar
unfolding includes merge follow
process_from previous source_index [] = previous ∷ []
process_from previous source_index (bar ∷ bars) =
    elim (includes previous (incoming source_index bar)) [
      | true ↦ process_from (merge previous (incoming source_index bar)) (source_index + 1) bars
      | false ↦
          previous
          ∷ process_from (follow previous (incoming source_index bar)) (source_index + 1) bars
    ]

unfoldable pub process_inclusion : List DailyBar → List ProcessedBar
unfolding process_from
process_inclusion [] = []
process_inclusion (bar ∷ bars) = process_from (incoming 0 bar) 1 bars

-- The two steps of the loop, as equations.
pub process_from-merge :
    (previous : ProcessedBar) (i : ℕ) (bar : DailyBar) (bars : List DailyBar)
    → includes previous (incoming i bar) ≡ true
    → process_from previous i (bar ∷ bars)
      ≡ process_from (merge previous (incoming i bar)) (i + 1) bars
unfolding process_from
process_from-merge previous i bar bars h = rw (h, process_from)

pub process_from-follow :
    (previous : ProcessedBar) (i : ℕ) (bar : DailyBar) (bars : List DailyBar)
    → includes previous (incoming i bar) ≡ false
    → process_from previous i (bar ∷ bars)
      ≡ previous ∷ process_from (follow previous (incoming i bar)) (i + 1) bars
unfolding process_from
process_from-follow previous i bar bars h = rw (h, process_from)
