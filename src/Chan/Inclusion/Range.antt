-- ===== src/Chan/Inclusion/Range.antt =====
-- Inclusion processing keeps every bar's low at or below its high.
use stock_daily_report.Prelude.{ℕ, ◌+◌, ◌≤◌, List, [], ◌∷◌, inl, inr, arith, All, Bool-cases}
use stock_daily_report.Bars.{DailyBar}
use stock_daily_report.Chan.Common.{Direction, up, down, neutral, ProcessedBar}
use stock_daily_report.Chan.Inclusion.{
  includes, merge, merge_direction, combine, follow, incoming, process_from, process_inclusion,
  process_from-merge, process_from-follow,
}

abbrev pub IsRange : ProcessedBar → Type 0
IsRange p = p.low ≤ p.high

abbrev pub IsBarRange : DailyBar → Type 0
IsBarRange bar = bar.low ≤ bar.high

combine-le : (d : Direction) (a b c e : ℕ) → a ≤ b → c ≤ e → combine d a c ≤ combine d b e
combine-le up a b c e h k = omega arith
combine-le down a b c e h k = omega arith
combine-le neutral a b c e h k = omega arith

process_from-IsRange :
    (previous : ProcessedBar) (i : ℕ) (bars : List DailyBar)
    → IsRange previous
    → All IsBarRange bars
    → All IsRange (process_from previous i bars)
unfolding process_from merge follow
process_from-IsRange previous i [] h a = (h, tt)
process_from-IsRange previous i (bar ∷ bars) h a =
    elim (Bool-cases (includes previous (incoming i bar))) [
      | inl inside ↦
          let d = merge_direction previous (incoming i bar) in
          rw (process_from-merge previous i bar bars inside) (
            process_from-IsRange (merge previous (incoming i bar)) (i + 1) bars
              (combine-le d previous.low previous.high bar.low bar.high h a.0) a.1)
      | inr apart ↦
          rw (process_from-follow previous i bar bars apart)
            (h, process_from-IsRange (follow previous (incoming i bar)) (i + 1) bars a.0 a.1)
    ]

-- If every input bar has its low at or below its high, so has every processed bar.
pub process_inclusion-IsRange :
    (bars : List DailyBar) → All IsBarRange bars → All IsRange (process_inclusion bars)
unfolding process_inclusion
process_inclusion-IsRange [] a = tt
process_inclusion-IsRange (bar ∷ bars) a = process_from-IsRange (incoming 0 bar) 1 bars a.0 a.1
