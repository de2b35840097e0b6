-- ===== src/Backtest/Replay.antt =====
-- src/stock_daily_report/backtest/replay.py: `replay`, `_coalesce_visible` and `execution_signals`.
--
-- The analyzer is a parameter, as it is one of `replay`: `observe prefix` stands for what
-- `_as_replay_event` makes of the structural items of `analyzer.analyze(prefix)`. Event ids, subtypes,
-- names and the reason codes without a name below stand as numbers; they are only compared.
pub mod Prefix
pub mod Revisions
use stock_daily_report.Prelude.{
  ℕ, ◌+◌, Bool, true, false, ◌&&◌, List, [], ◌∷◌, ◌++◌, Option, none, some, ◌==◌, if◌then◌else◌,
}
use stock_daily_report.Bars.{Date, Price, DailyBar, strictly_increasing}
use stock_daily_report.Chan.Common.{Status, candidate, confirmed}

pub data EventKind : Type 0 where
  fractal stroke central_area segment signal observation : EventKind

pub data ReasonCode : Type 0 where
  potential_central_breakout simplified_breakout_up strict_breakout_up_candidate : ReasonCode
  other : ℕ → ReasonCode

pub record ReplayEvent : Type 0 where
  pub analyzer : ℕ
  pub event_id : ℕ
  pub kind : EventKind
  pub observed_at : Date
  pub max_input_date : Date
  pub formed_at : Date
  pub confirmed_at : Option Date
  pub tradable_at : Option Date
  pub status : Status
  pub reason_code : ReasonCode
  pub price : Option Price
  pub low : Option Price
  pub high : Option Price
  pub revision : ℕ
  pub first_observed_at : Date
  pub subtype : Option ℕ
  pub symbol : Option ℕ

abbrev kind_number : EventKind → ℕ
kind_number fractal = 0
kind_number stroke = 1
kind_number central_area = 2
kind_number segment = 3
kind_number signal = 4
kind_number observation = 5

abbrev pub same_status : Status → Status → Bool
same_status candidate candidate = true
same_status confirmed confirmed = true
same_status _ _ = false

abbrev same_reason : ReasonCode → ReasonCode → Bool
same_reason potential_central_breakout potential_central_breakout = true
same_reason simplified_breakout_up simplified_breakout_up = true
same_reason strict_breakout_up_candidate strict_breakout_up_candidate = true
same_reason (other a) (other b) = a == b
same_reason _ _ = false

abbrev same_option : Option ℕ → Option ℕ → Bool
same_option none none = true
same_option (some a) (some b) = a == b
same_option _ _ = false

-- `a.fingerprint() == b.fingerprint()`
unfoldable pub same_fingerprint : ReplayEvent → ReplayEvent → Bool
same_fingerprint a b =
    ((kind_number a.kind == kind_number b.kind) && (a.formed_at == b.formed_at))
    && ((same_option a.confirmed_at b.confirmed_at && same_option a.tradable_at b.tradable_at)
        && ((same_status a.status b.status && same_reason a.reason_code b.reason_code)
            && ((same_option a.subtype b.subtype && same_option a.price b.price)
                && (same_option a.low b.low && same_option a.high b.high))))

-- One round of `_coalesce_visible`; `none` is the ValueError about an ambiguous identity.
unfoldable pub coalesce_event : ReplayEvent → List ReplayEvent → Option (List ReplayEvent)
coalesce_event e [] = some (e ∷ [])
coalesce_event e (p ∷ ps) = elim (p.event_id == e.event_id) [
  | true ↦
      if same_fingerprint p e
      then some (p ∷ ps)
      else if same_status p.status e.status
      then none
      else if same_status e.status confirmed
      then some (e ∷ ps)
      else some (p ∷ ps)
  | false ↦ elim (coalesce_event e ps) [ none ↦ none | some qs ↦ some (p ∷ qs) ]
]

unfoldable pub coalesce_from : List ReplayEvent → List ReplayEvent → Option (List ReplayEvent)
coalesce_from coalesced [] = some coalesced
coalesce_from coalesced (e ∷ es) = elim (coalesce_event e coalesced) [
  | none ↦ none
  | some next ↦ coalesce_from next es
]

-- `_coalesce_visible`
unfoldable pub coalesce_visible : List ReplayEvent → Option (List ReplayEvent)
coalesce_visible events = coalesce_from [] events

-- `history.get(event_id)`: an entry is the event that was last recorded under the id, the latest first.
unfoldable pub lookup : ℕ → List ReplayEvent → Option ReplayEvent
lookup id [] = none
lookup id (p ∷ ps) = if p.event_id == id then some p else lookup id ps

unfoldable pub revision_of : Option ReplayEvent → ReplayEvent → ℕ
revision_of none e = 0
revision_of (some previous) e = previous.revision + (if same_fingerprint previous e then 0 else 1)

unfoldable pub first_of : Option ReplayEvent → Date → Date
first_of none observed_at = observed_at
first_of (some previous) observed_at = previous.first_observed_at

unfoldable pub record_event : List ReplayEvent → Date → ReplayEvent → ReplayEvent
record_event history observed_at e = record e {
  revision = revision_of (lookup e.event_id history) e;
  first_observed_at = first_of (lookup e.event_id history) observed_at;
}

-- The events that one prefix adds, and the history after them.
unfoldable pub record_all :
    List ReplayEvent → Date → List ReplayEvent → List ReplayEvent × List ReplayEvent
record_all history observed_at [] = ([], history)
record_all history observed_at (e ∷ es) =
    let recorded = record_event history observed_at e in
    let (events, after) = record_all (recorded ∷ history) observed_at es in
    (recorded ∷ events, after)

abbrev pub prepend : List ReplayEvent → Option (List ReplayEvent) → Option (List ReplayEvent)
prepend events none = none
prepend events (some rest) = some (events ++ rest)

module _ (observe : List DailyBar → List ReplayEvent) where
  -- The loop, from the end of a prefix on.
  unfoldable pub replay_from :
      List ReplayEvent → List DailyBar → List DailyBar → Option (List ReplayEvent)
  replay_from history prefix [] = some []
  replay_from history prefix (b ∷ bs) = elim (coalesce_visible (observe (prefix ++ (b ∷ [])))) [
    | none ↦ none
    | some visible ↦
        prepend ((record_all history b.trade_date visible).0)
          (replay_from ((record_all history b.trade_date visible).1) (prefix ++ (b ∷ [])) bs)
  ]

  -- `none` is a ValueError: dates that do not increase, or an ambiguous identity.
  unfoldable pub replay : List DailyBar → Option (List ReplayEvent)
  replay bars = if strictly_increasing bars then replay_from [] [] bars else none

-- What `execution_signals` makes of one event.
unfoldable pub execution_signal : ReplayEvent → Option ReplayEvent
execution_signal e = elim e.kind [
  | signal ↦ some e
  | observation ↦ elim e.reason_code [
    | potential_central_breakout ↦
        some (record e { kind = signal; reason_code = simplified_breakout_up })
    | _ ↦ none
  ]
  | _ ↦ none
]

unfoldable pub execution_signals : List ReplayEvent → List ReplayEvent
execution_signals [] = []
execution_signals (e ∷ es) = elim (execution_signal e) [
  | none ↦ execution_signals es
  | some s ↦ s ∷ execution_signals es
]
