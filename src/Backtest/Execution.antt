-- ===== src/Backtest/Execution.antt =====
-- src/stock_daily_report/backtest/execution.py: `execute_signal`.
--
-- Parameter: `LimitArithmetic` is Python's arithmetic on floats and on decimals, as the price limit uses
-- it. Of the costs the price limit and its tick stand, and of a trade, the prices with costs are left
-- out.
pub mod Conditions
pub mod Entry
use stock_daily_report.Prelude.{
  ℕ, Bool, true, false, ◌&&◌, ◌||◌, not, List, [], ◌∷◌, Option, none, some, ltb, ◌==◌, max,
  if◌then◌else◌,
}
use stock_daily_report.Bars.{Date, Price, DailyBar, strictly_increasing}
use stock_daily_report.Floats.{Float, fin, float_ge}
use stock_daily_report.Chan.Common.{candidate, confirmed}
use stock_daily_report.Backtest.Replay.{
  ReplayEvent, ReasonCode, simplified_breakout_up, strict_breakout_up_candidate, signal,
}

pub record Trade : Type 0 where
  pub signal_id : ℕ
  pub entry_date : Date
  pub raw_entry_price : Price

-- `refused` is the ValueError about dates that do not increase.
pub data Execution : Type 0 where
  refused no_trade : Execution
  traded : Trade → Execution

-- `"breakout_up" in reason_code`
abbrev pub breaks_out : ReasonCode → Bool
breaks_out simplified_breakout_up = true
breaks_out strict_breakout_up_candidate = true
breaks_out _ = false

-- The date after which a signal may be executed; `none` if it is none to execute.
unfoldable pub earliest_entry : ReplayEvent → Option Date
earliest_entry e = elim e.kind [
  | signal ↦ elim e.status [
    | confirmed ↦ elim e.tradable_at [
      | none ↦ none
      | some tradable_at ↦
          if breaks_out e.reason_code
          then some (max tradable_at (max e.observed_at e.max_input_date))
          else none
    ]
    | candidate ↦ none
  ]
  | _ ↦ none
]

-- `is_suspended`
unfoldable pub is_suspended : DailyBar → Bool
is_suspended bar = (bar.volume == 0) || (bar.amount == 0)

-- Floats: `a + b`, `a * b`, `1.0` and `1e-9`. Decimals: `Decimal(str(a))`, `a / b`, `a * b`, `float(a)`
-- and `a.quantize(Decimal(1), rounding=ROUND_HALF_UP)`.
pub record LimitArithmetic (Decimal : Type 0) : Type 0 where
  pub add : Float → Float → Float
  pub times : Float → Float → Float
  pub one : Float
  pub epsilon : Float
  pub decimal : Float → Decimal
  pub over : Decimal → Decimal → Decimal
  pub scaled : Decimal → Decimal → Decimal
  pub to_float : Decimal → Float
  pub half_up : Decimal → Decimal

pub record Costs : Type 0 where
  pub price_limit_pct : Float
  pub price_tick : Float

module _ {Decimal : Type 0} (arithmetic : LimitArithmetic Decimal) (costs : Costs) where
  -- `_rounded_limit`
  unfoldable pub rounded_limit : Float → Float → Float
  rounded_limit price price_tick =
      let value =
        arithmetic.half_up
          (arithmetic.over (arithmetic.decimal price) (arithmetic.decimal price_tick)) in
      arithmetic.to_float (arithmetic.scaled value (arithmetic.decimal price_tick))

  -- `bar.open + 1e-9 >= _rounded_limit(previous.close * (1 + limit_pct), price_tick)`
  unfoldable pub opens_at_limit : Price → Price → Bool
  opens_at_limit open_price close =
      let limit =
        arithmetic.times (fin close) (arithmetic.add arithmetic.one costs.price_limit_pct) in
      float_ge (arithmetic.add (fin open_price) arithmetic.epsilon)
        (rounded_limit limit costs.price_tick)

  -- `_is_limit_up`
  unfoldable pub is_limit_up : DailyBar → DailyBar → Bool
  is_limit_up bar previous =
      opens_at_limit bar.open_price previous.close
      && ((bar.high == bar.low) && (bar.low == bar.open_price))

  -- None of the three `continue`s is taken at a bar with a predecessor.
  unfoldable pub is_eligible : Date → DailyBar → DailyBar → Bool
  is_eligible earliest previous bar =
      ltb earliest bar.trade_date && (not (is_suspended bar) && not (is_limit_up bar previous))

  -- The loop from a bar's successor on.
  unfoldable pub entry_from : Date → DailyBar → List DailyBar → Option DailyBar
  entry_from earliest previous [] = none
  entry_from earliest previous (bar ∷ bars) = elim (is_eligible earliest previous bar) [
    | true ↦ some bar
    | false ↦ entry_from earliest bar bars
  ]

  -- The loop over all bars: the first one is skipped.
  unfoldable pub find_entry : Date → List DailyBar → Option DailyBar
  find_entry earliest [] = none
  find_entry earliest (bar ∷ bars) = entry_from earliest bar bars

  unfoldable pub trade_at : ReplayEvent → Option DailyBar → Execution
  trade_at e none = no_trade
  trade_at e (some bar) = traded (record {
    signal_id = e.event_id;
    entry_date = bar.trade_date;
    raw_entry_price = bar.open_price;
  })

  unfoldable pub execute_signal : ReplayEvent → List DailyBar → Execution
  execute_signal e bars =
      if strictly_increasing bars
      then elim (earliest_entry e) [
        | none ↦ no_trade
        | some earliest ↦ trade_at e (find_entry earliest bars)
      ]
      else refused
