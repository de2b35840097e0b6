-- ===== src/Chan/Strict/Inclusion.antt =====
-- src/stock_daily_report/chan/strict.py: its own copy of `_process_inclusion`.
use stock_daily_report.Prelude.{
  ℕ, ◌+◌, ◌≡◌, refl, ap, true, false, ◌∙◌, List, [], ◌∷◌, ◌++◌, inl, inr, arith, max, min,
  Bool-cases,
}
use stock_daily_report.Bars.{DailyBar}
use stock_daily_report.Chan.Common.{Direction, up, down, neutral, ProcessedBar}
use stock_daily_report.Chan.Inclusion
use stock_daily_report.Chan.Inclusion.{
  includes, direction_of, incoming, merge, merge_by, merge_direction, follow,
}

-- `direction` after both tests for "neutral".
unfoldable pub resolved : ProcessedBar → ProcessedBar → Direction
resolved previous new = elim previous.direction [
  | up ↦ up
  | down ↦ down
  | neutral ↦ elim (direction_of previous new) [ up ↦ up | down ↦ down | neutral ↦ up ]
]

unfoldable pub bounds : Direction → ProcessedBar → ProcessedBar → ℕ × ℕ
bounds up previous new = (max previous.high new.high, max previous.low new.low)
bounds _ previous new = (min previous.high new.high, min previous.low new.low)

unfoldable pub replace_by : Direction → ProcessedBar → ProcessedBar → ProcessedBar
replace_by direction previous new = record {
  high = (bounds direction previous new).0;
  low = (bounds direction previous new).1;
  direction = direction;
  source_indices = previous.source_indices ++ new.source_indices;
  source_dates = previous.source_dates ++ new.source_dates;
}

-- The bar that replaces `processed[-1]`.
unfoldable pub replacement : ProcessedBar → ProcessedBar → ProcessedBar
replacement previous new = replace_by (resolved previous new) previous new

unfoldable pub process_from : ProcessedBar → ℕ → List DailyBar → List ProcessedBar
process_from previous source_index [] = previous ∷ []
process_from previous source_index (bar ∷ bars) =
    let new = incoming source_index bar in
    elim (includes previous new) [
      | true ↦ process_from (replacement previous new) (source_index + 1) bars
      | false ↦
          previous
          ∷ process_from (record new { direction = direction_of previous new }) (source_index + 1)
              bars
    ]

unfoldable pub process_inclusion : List DailyBar → List ProcessedBar
process_inclusion [] = []
process_inclusion (bar ∷ bars) = process_from (incoming 0 bar) 1 bars

resolved-eq : (previous new : ProcessedBar) → resolved previous new ≡ merge_direction previous new
unfolding resolved merge_direction
resolved-eq previous new = ground arith

replace_by-eq :
    (d : Direction) (previous new : ProcessedBar)
    → replace_by d previous new ≡ merge_by d previous new
unfolding replace_by bounds
replace_by-eq up previous new = refl
replace_by-eq down previous new = refl
replace_by-eq neutral previous new = refl

replacement-eq-merge : (previous new : ProcessedBar) → replacement previous new ≡ merge previous new
unfolding replacement merge
replacement-eq-merge previous new =
    ap (λ d. replace_by d previous new) (resolved-eq previous new)
    ∙ replace_by-eq (merge_direction previous new) previous new

process_from-eq :
    (previous : ProcessedBar) (i : ℕ) (bars : List DailyBar)
    → process_from previous i bars ≡ Inclusion.process_from previous i bars
unfolding process_from Inclusion.process_from follow
process_from-eq previous i [] = refl
process_from-eq previous i (bar ∷ bars) =
    let new = incoming i bar in
    elim (Bool-cases (includes previous new)) [
      | inl inside ↦
          rw (inside, process_from, Inclusion.process_from)
            (rw (replacement-eq-merge previous new)
              (process_from-eq (merge previous new) (i + 1) bars))
      | inr apart ↦
          rw (apart, process_from, Inclusion.process_from)
            (ap (◌∷◌ previous) (process_from-eq (follow previous new) (i + 1) bars))
    ]

-- The copy of inclusion processing in the strict analyzer computes what the simplified one does.
pub process_inclusion-eq :
    (bars : List DailyBar) → process_inclusion bars ≡ Inclusion.process_inclusion bars
unfolding process_inclusion Inclusion.process_inclusion
process_inclusion-eq [] = refl
process_inclusion-eq (bar ∷ bars) = process_from-eq (incoming 0 bar) 1 bars
