-- ===== src/Backtest/Execution/Conditions.antt =====
-- What `execute_signal` asks of an event and of a bar, said without the code's tests.
use stock_daily_report.Prelude.{
  ◌<◌, ◌≡◌, ◌⊎◌, refl, true, false, some, inl, inr, arith, Option-cases, max,
}
use stock_daily_report.Bars.{Date, DailyBar}
use stock_daily_report.Chan.Common.{confirmed}
use stock_daily_report.Backtest.Replay.{
  ReplayEvent, ReasonCode, simplified_breakout_up, strict_breakout_up_candidate, signal,
}
use stock_daily_report.Floats.{fin, float_ge}
use stock_daily_report.Backtest.Execution.{
  LimitArithmetic, Costs, rounded_limit, opens_at_limit, earliest_entry, is_eligible, breaks_out,
  is_suspended, is_limit_up,
}

-- A confirmed breakout that is tradable from some date on: `earliest` is the latest of that date, of the
-- date of its observation and of the dates that went into it.
pub record IsBreakout (e : ReplayEvent) (earliest : Date) : Type 0 where
  pub is_signal : e.kind ≡ signal
  pub is_confirmed : e.status ≡ confirmed
  pub breaks_out :
      (e.reason_code ≡ simplified_breakout_up) ⊎ (e.reason_code ≡ strict_breakout_up_candidate)
  pub after :
      (tradable_at : Date) × (e.tradable_at ≡ some tradable_at)
      × (earliest ≡ max tradable_at (max e.observed_at e.max_input_date))

breaks_out_cases :
    (r : ReasonCode)
    → breaks_out r ≡ true
    → (r ≡ simplified_breakout_up) ⊎ (r ≡ strict_breakout_up_candidate)
breaks_out_cases r h = ground (arith, h)

pub earliest_entry-IsBreakout :
    (e : ReplayEvent) (d : Date) → earliest_entry e ≡ some d → IsBreakout e d
unfolding earliest_entry
earliest_entry-IsBreakout e d h = elim (Option-cases e.tradable_at) [
  | inl never ↦ absurd (ground (arith, never, h))
  | inr (t, at) ↦ record {
    is_signal = ground (arith, at, h);
    is_confirmed = ground (arith, at, h);
    breaks_out = breaks_out_cases e.reason_code (ground (arith, at, h));
    after = (t, at, ground (arith, at, h));
  }
]

pub IsBreakout-earliest_entry :
    (e : ReplayEvent) (d : Date) → IsBreakout e d → earliest_entry e ≡ some d
unfolding earliest_entry
IsBreakout-earliest_entry e d s =
    let (t, at, date) = s.after in
    elim s.breaks_out [
      | inl simplified ↦ rw (s.is_signal, s.is_confirmed, at, simplified, date) refl
      | inr strict ↦ rw (s.is_signal, s.is_confirmed, at, strict, date) refl
    ]

module _ {Decimal : Type 0} (arithmetic : LimitArithmetic Decimal) (costs : Costs) where
  -- All prices of the bar but the close are the same, and its open is at the limit over the previous close.
  abbrev pub OpensAtLimit : DailyBar → DailyBar → Type 0
  OpensAtLimit previous bar =
      (float_ge (arithmetic.add (fin bar.open_price) arithmetic.epsilon) (
          rounded_limit arithmetic costs
            (arithmetic.times (fin previous.close)
              (arithmetic.add arithmetic.one costs.price_limit_pct))
            costs.price_tick)
        ≡ true)
      × (bar.high ≡ bar.low)
      × (bar.low ≡ bar.open_price)

  -- The bar after `previous` can be bought.
  pub record CanBuy (earliest : Date) (previous bar : DailyBar) : Type 0 where
    pub late : earliest < bar.trade_date
    pub has_volume : 0 < bar.volume
    pub has_amount : 0 < bar.amount
    pub free : ¬ OpensAtLimit previous bar

  abbrev pub CannotBuy : Date → DailyBar → DailyBar → Type 0
  CannotBuy earliest previous bar = ¬ CanBuy earliest previous bar

  pub is_eligible-CanBuy :
      (earliest : Date) (previous bar : DailyBar)
      → is_eligible arithmetic costs earliest previous bar ≡ true
      → CanBuy earliest previous bar
  unfolding is_eligible is_suspended is_limit_up opens_at_limit
  is_eligible-CanBuy earliest previous bar h = record {
    late = ground (arith, h);
    has_volume = ground (arith, h);
    has_amount = ground (arith, h);
    free = λ (limit, low, high). ground (arith, h, limit, low, high);
  }

  pub is_eligible-CannotBuy :
      (earliest : Date) (previous bar : DailyBar)
      → is_eligible arithmetic costs earliest previous bar ≡ false
      → CannotBuy earliest previous bar
  unfolding is_eligible is_suspended is_limit_up opens_at_limit
  is_eligible-CannotBuy earliest previous bar h can =
      let late = can.late in
      let volume = can.has_volume in
      let amount = can.has_amount in
      can.free (
        ground (arith, h, late, volume, amount),
        ground (arith, h, late, volume, amount),
        ground (arith, h, late, volume, amount),
      )
