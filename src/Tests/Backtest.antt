-- ===== src/Tests/Backtest.antt =====
-- A replay over four bars, as src/stock_daily_report/backtest/replay.py runs it.
use stock_daily_report.Prelude.{
  ℕ, ◌≡◌, ◌<◌, ◌+◌, ◌*◌, ◌/◌, refl, List, [], ◌∷◌, ◌++◌, none, some, last_or, Extends,
}
use stock_daily_report.Bars.{Date, DailyBar, strictly_increasing}
use stock_daily_report.Floats.{Float, nan, fin, float_le, float_lt}
use stock_daily_report.Chan.Common.{candidate, confirmed}
use stock_daily_report.Backtest.Replay.{
  ReplayEvent, EventKind, ReasonCode, same_fingerprint, coalesce_event, coalesce_from,
  coalesce_visible, lookup, revision_of, first_of, record_event, record_all, replay_from, replay,
}
use stock_daily_report.Backtest.Replay.Prefix.{replay-Extends}
use stock_daily_report.Backtest.Replay.Revisions.{Audited, replay-Audited}
use stock_daily_report.Backtest.Execution.{
  Trade, traded, execute_signal, earliest_entry, trade_at, find_entry, entry_from, is_eligible,
  is_limit_up, is_suspended, LimitArithmetic, Costs, opens_at_limit, rounded_limit,
}
use stock_daily_report.Backtest.Execution.Entry.{
  IsExecution, execute_signal-IsExecution, execute_signal-later,
}
use stock_daily_report.Tests.Chan.{bar}

abbrev last_bar : List DailyBar → DailyBar
last_bar = last_or (bar 1 10 8)

-- One event for every prefix, that its last bar is a candidate for a new high.
abbrev observe : List DailyBar → List ReplayEvent
observe prefix =
    record {
      analyzer = 0;
      event_id = 7;
      kind = EventKind.observation;
      observed_at = (last_bar prefix).trade_date;
      max_input_date = (last_bar prefix).trade_date;
      formed_at = 1;
      confirmed_at = none;
      tradable_at = none;
      status = candidate;
      reason_code = ReasonCode.potential_central_breakout;
      price = some (last_bar prefix).high;
      low = none;
      high = none;
      revision = 0;
      first_observed_at = (last_bar prefix).trade_date;
      subtype = none;
      symbol = none;
    }
    ∷ []

abbrev bars : List DailyBar
bars = bar 1 10 8 ∷ bar 2 10 9 ∷ bar 3 12 10 ∷ []

abbrev more : List DailyBar
more = bar 4 14 12 ∷ []

abbrev revised : ℕ → ℕ → ReplayEvent → ReplayEvent
revised revision first e = record e { revision = revision; first_observed_at = first }

abbrev at : ℕ → ℕ → ReplayEvent
at date high = record {
  analyzer = 0;
  event_id = 7;
  kind = EventKind.observation;
  observed_at = date;
  max_input_date = date;
  formed_at = 1;
  confirmed_at = none;
  tradable_at = none;
  status = candidate;
  reason_code = ReasonCode.potential_central_breakout;
  price = some high;
  low = none;
  high = none;
  revision = 0;
  first_observed_at = 1;
  subtype = none;
  symbol = none;
}

abbrev events : List ReplayEvent
events =
    revised 0 1 (at 1 10)
    ∷ revised 0 1 (at 2 10)
    ∷ revised 1 1 (at 3 12)
    ∷ revised 2 1 (at 4 14)
    ∷ []

replay-events : replay observe (bars ++ more) ≡ some events
unfolding replay replay_from strictly_increasing coalesce_visible coalesce_from coalesce_event
    record_all record_event lookup revision_of first_of same_fingerprint
replay-events = refl

replay-Extends_example :
    (es : List ReplayEvent) × (replay observe bars ≡ some es) × Extends es events
replay-Extends_example = replay-Extends observe bars more replay-events

replay-Audited_example : Audited events
replay-Audited_example = replay-Audited observe (bars ++ more) replay-events

abbrev sum : Float → Float → Float
sum (fin a) (fin b) = fin (a + b)
sum _ _ = nan

abbrev product : Float → Float → Float
product (fin a) (fin b) = fin ((a * b) / 100)
product _ _ = nan

-- Prices are small whole numbers, rates are per cents, and results are cut to whole numbers.
abbrev arithmetic : LimitArithmetic Float
arithmetic = record {
  add = sum;
  times = product;
  one = fin 100;
  epsilon = fin 0;
  decimal = λ a. a;
  over = λ a b. a;
  scaled = λ a b. a;
  to_float = λ a. a;
  half_up = λ a. a;
}

abbrev costs : Costs
costs = record { price_limit_pct = fin 10; price_tick = fin 1 }

abbrev breakout_signal : ReplayEvent
breakout_signal = record (at 2 10) {
  kind = EventKind.signal;
  status = confirmed;
  tradable_at = some 2;
  reason_code = ReasonCode.strict_breakout_up_candidate;
}

abbrev trade : Trade
trade = record { signal_id = 7; entry_date = 3; raw_entry_price = 10 }

breakout_signal-trade : execute_signal arithmetic costs breakout_signal bars ≡ traded trade
unfolding execute_signal earliest_entry trade_at find_entry entry_from is_eligible is_limit_up
    is_suspended strictly_increasing opens_at_limit float_le float_lt rounded_limit
breakout_signal-trade = refl

-- The bar after the signal is locked at its limit.
abbrev locked_bars : List DailyBar
locked_bars = bar 2 10 9 ∷ bar 3 11 11 ∷ bar 4 12 10 ∷ []

locked_bars-trade :
    execute_signal arithmetic costs breakout_signal locked_bars
    ≡ traded (record { signal_id = 7; entry_date = 4; raw_entry_price = 10 })
unfolding execute_signal earliest_entry trade_at find_entry entry_from is_eligible is_limit_up
    is_suspended strictly_increasing opens_at_limit float_le float_lt rounded_limit
locked_bars-trade = refl

execute_signal-IsExecution_example :
    IsExecution arithmetic costs breakout_signal locked_bars
      (execute_signal arithmetic costs breakout_signal locked_bars)
execute_signal-IsExecution_example =
    execute_signal-IsExecution arithmetic costs breakout_signal locked_bars

execute_signal-later_example :
    (breakout_signal.observed_at < trade.entry_date)
    × (breakout_signal.max_input_date < trade.entry_date)
    × (tradable_at : Date) × (breakout_signal.tradable_at ≡ some tradable_at)
    × (tradable_at < trade.entry_date)
execute_signal-later_example =
    execute_signal-later arithmetic costs breakout_signal bars breakout_signal-trade
