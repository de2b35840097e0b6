-- ===== src/Backtest/Execution/Entry.antt =====
-- Where a signal is executed.
use mathlib.Core.Option.{some-injective}
use stock_daily_report.Prelude.{
  ◌<◌, ◌≡◌, ◌⊎◌, refl, subst, List, [], ◌∷◌, none, some, inl, inr, arith, Bool-cases, Option-cases,
  Chain,
}
use stock_daily_report.Bars.{Date, DailyBar, strictly_increasing, IsChronological}
use stock_daily_report.Chan.Simplified.Results.{strictly_increasing_iff}
use stock_daily_report.Backtest.Replay.{ReplayEvent}
use stock_daily_report.Backtest.Execution.{
  LimitArithmetic, Costs, Trade, Execution, refused, no_trade, traded, earliest_entry, is_eligible,
  entry_from, find_entry, trade_at, execute_signal,
}
use stock_daily_report.Backtest.Execution.Conditions.{
  IsBreakout, earliest_entry-IsBreakout, IsBreakout-earliest_entry, CanBuy, CannotBuy,
  is_eligible-CanBuy, is_eligible-CannotBuy,
}

module _ {Decimal : Type 0} (arithmetic : LimitArithmetic Decimal) (costs : Costs) where
  -- The bar is the first one that can be bought.
  pub data IsFirst (earliest : Date) : List DailyBar → DailyBar → Type 0 where
    here :
        {previous bar : DailyBar} {back : List DailyBar}
        → CanBuy arithmetic costs earliest previous bar
        → IsFirst earliest (previous ∷ bar ∷ back) bar
    later :
        {previous next bar : DailyBar} {back : List DailyBar}
        → CannotBuy arithmetic costs earliest previous next
        → IsFirst earliest (next ∷ back) bar
        → IsFirst earliest (previous ∷ next ∷ back) bar

  entry_from-IsFirst :
      (earliest : Date) (previous : DailyBar) (bars : List DailyBar) {bar : DailyBar}
      → entry_from arithmetic costs earliest previous bars ≡ some bar
      → IsFirst earliest (previous ∷ bars) bar
  unfolding entry_from
  entry_from-IsFirst earliest previous [] h = cc
  entry_from-IsFirst earliest previous (next ∷ bars) {bar} h =
      elim (Bool-cases (is_eligible arithmetic costs earliest previous next)) [
        | inl free ↦
            let same : next ≡ bar = some-injective _ _ (rw (free, entry_from) at h) in
            subst (IsFirst earliest (previous ∷ next ∷ bars)) same
              (here (is_eligible-CanBuy arithmetic costs earliest previous next free))
        | inr blocked ↦
            later (is_eligible-CannotBuy arithmetic costs earliest previous next blocked)
              (entry_from-IsFirst earliest next bars (rw (blocked, entry_from) at h))
      ]

  entry_from-none :
      (earliest : Date) (previous : DailyBar) (bars : List DailyBar)
      → entry_from arithmetic costs earliest previous bars ≡ none
      → Chain (CannotBuy arithmetic costs earliest) (previous ∷ bars)
  unfolding entry_from
  entry_from-none earliest previous [] h = tt
  entry_from-none earliest previous (next ∷ bars) h =
      elim (Bool-cases (is_eligible arithmetic costs earliest previous next)) [
        | inl free ↦ absurd (ground (arith, free, h))
        | inr blocked ↦ (
          is_eligible-CannotBuy arithmetic costs earliest previous next blocked,
          entry_from-none earliest next bars (rw (blocked, entry_from) at h),
        )
      ]

  -- What an execution is for bars whose dates rise: no trade because the event is no breakout to
  -- execute or no bar after the first one can be bought, or a trade at the open of the first such bar.
  abbrev pub IsOutcome : ReplayEvent → List DailyBar → Execution → Type 0
  IsOutcome e bars refused = ⊥
  IsOutcome e bars no_trade =
      ((earliest : Date) → ¬ IsBreakout e earliest)
      ⊎ ((earliest : Date) × IsBreakout e earliest
          × Chain (CannotBuy arithmetic costs earliest) bars)
  IsOutcome e bars (traded t) =
      (earliest : Date) × (bar : DailyBar) × IsBreakout e earliest
      × IsFirst earliest bars bar
      × (t.signal_id ≡ e.event_id)
      × (t.entry_date ≡ bar.trade_date)
      × (t.raw_entry_price ≡ bar.open_price)

  -- An execution for any bars: it is refused if their dates do not rise.
  abbrev pub IsExecution : ReplayEvent → List DailyBar → Execution → Type 0
  IsExecution e bars x =
      (IsChronological bars × IsOutcome e bars x) ⊎ ((¬ IsChronological bars) × (x ≡ refused))

  find_entry-IsOutcome :
      (e : ReplayEvent) (earliest : Date) (bars : List DailyBar)
      → IsBreakout e earliest
      → IsOutcome e bars (trade_at arithmetic costs e (find_entry arithmetic costs earliest bars))
  unfolding find_entry trade_at
  find_entry-IsOutcome e earliest [] h = inr (earliest, h, tt)
  find_entry-IsOutcome e earliest (b ∷ bars) h =
      elim (Option-cases (entry_from arithmetic costs earliest b bars)) [
        | inl never ↦
            rw (never, trade_at) (inr (earliest, h, entry_from-none earliest b bars never))
        | inr (bar, found) ↦
            rw (found, trade_at)
              (earliest, bar, h, entry_from-IsFirst earliest b bars found, refl, refl, refl)
      ]

  -- For every event and bars: if the bars' dates do not strictly increase, the execution is refused.
  -- Otherwise there is no trade, because the event is no confirmed breakout signal that is tradable from
  -- some date on, or because every bar but the first one is not after the signal's dates, has no volume
  -- or no amount, or opens at the limit over the close before it with one price for open, high and low;
  -- or the trade is the signal's, at the date and the open of the first bar of which none of this holds.
  pub execute_signal-IsExecution :
      (e : ReplayEvent) (bars : List DailyBar)
      → IsExecution e bars (execute_signal arithmetic costs e bars)
  unfolding execute_signal
  execute_signal-IsExecution e bars =
      let rises = strictly_increasing_iff bars in
      elim (Bool-cases (strictly_increasing bars)) [
        | inr falling ↦
            rw (falling, execute_signal) (inr ((λ h. ground (arith, rises.1 h, falling)), refl))
        | inl rising ↦ elim (Option-cases (earliest_entry e)) [
          | inl never ↦
              rw (rising, never, execute_signal)
                (inl (
                  rises.0 rising,
                  inl (λ d h. absurd (ground (arith, never, IsBreakout-earliest_entry e d h))),
                ))
          | inr (earliest, at) ↦
              rw (rising, at, execute_signal)
                (inl (
                  rises.0 rising,
                  find_entry-IsOutcome e earliest bars (earliest_entry-IsBreakout e earliest at),
                ))
        ]
      ]

  IsFirst-date :
      (earliest : Date) {bars : List DailyBar} {bar : DailyBar}
      → IsFirst earliest bars bar
      → earliest < bar.trade_date
  IsFirst-date earliest (here h) = h.late
  IsFirst-date earliest (later h k) = IsFirst-date earliest k

  traded-IsOutcome :
      (e : ReplayEvent) (bars : List DailyBar) {t : Trade}
      → IsExecution e bars (traded t)
      → IsOutcome e bars (traded t)
  traded-IsOutcome e bars (inl (rising, outcome)) = outcome
  traded-IsOutcome e bars (inr (falling, at)) = absurd (ground (arith, at))

  -- A trade is entered after the date at which its signal was observed, after every date that the
  -- analyzer had seen by then, and after the date from which the signal is tradable.
  pub execute_signal-later :
      (e : ReplayEvent) (bars : List DailyBar) {t : Trade}
      → execute_signal arithmetic costs e bars ≡ traded t
      → (e.observed_at < t.entry_date)
        × (e.max_input_date < t.entry_date)
        × (tradable_at : Date) × (e.tradable_at ≡ some tradable_at)
        × (tradable_at < t.entry_date)
  execute_signal-later e bars {t} h =
      let execution = subst (IsExecution e bars) h (execute_signal-IsExecution e bars) in
      let (d, bar, breakout, first, _, date, _) = traded-IsOutcome e bars execution in
      let (tradable_at, is_tradable, latest) = breakout.after in
      let after = IsFirst-date d first in
      (
        ground (arith, latest, after, date),
        ground (arith, latest, after, date),
        tradable_at,
        is_tradable,
        ground (arith, latest, after, date),
      )
