-- ===== src/Providers/Gate.antt =====
-- src/stock_daily_report/providers/requests.py: `ProviderRequestGate`.
--
-- The state is the file of one provider, which all processes share. The file lock makes each use of
-- the state one step; a run is the list of these steps in the order of the lock, whoever makes them.
-- Times and durations stand as whole ticks. The file format is left out.
pub mod Safety
pub mod Progress
use stock_daily_report.Prelude.{
  ℕ, zero, suc, ◌+◌, ◌-◌, Bool, true, false, ◌&&◌, List, [], ◌∷◌, Option, none, some, ltb, leb,
  ◌==◌, max, if◌then◌else◌, cons?,
}

pub record GateState : Type 0 where
  pub next_request : ℕ
  pub retry_after : ℕ

pub record Limits : Type 0 where
  pub interval : ℕ
  pub cooldown : ℕ

-- One round of the loop of `acquire`: it returns, it raises the error that the circuit is open, or it
-- waits for a time.
pub data Attempt : Type 0 where
  admitted refused : Attempt
  waiting : ℕ → Attempt

unfoldable pub is_unlimited : Limits → Bool
is_unlimited l = (l.interval == 0) && (l.cooldown == 0)

unfoldable pub attempt : Limits → ℕ → GateState → Attempt
attempt l now s =
    if is_unlimited l
    then admitted
    else if ltb now s.retry_after
    then refused
    else if leb s.next_request now
    then admitted
    else waiting (s.next_request - now)

-- The state after that round.
unfoldable pub after_attempt : Limits → ℕ → GateState → GateState
after_attempt l now s = if is_unlimited l then s else elim (attempt l now s) [
  | admitted ↦ record s { next_request = now + l.interval }
  | refused ↦ s
  | waiting delay ↦ s
]

-- `record_failure`
unfoldable pub record_failure : Limits → ℕ → GateState → GateState
record_failure l now s =
    if l.cooldown == 0 then s else record s { retry_after = max s.retry_after (now + l.cooldown) }

-- What a process does to the state, with the time that it reads.
pub data GateEvent : Type 0 where
  acquires fails : ℕ → GateEvent

-- The state after one step.
unfoldable pub gate_step : Limits → GateState → GateEvent → GateState
gate_step l s (acquires now) = after_attempt l now s
gate_step l s (fails now) = record_failure l now s

-- The time at which a step admits a request.
unfoldable pub admission : Limits → GateState → GateEvent → Option ℕ
admission l s (acquires now) = elim (attempt l now s) [
  | admitted ↦ some now
  | refused ↦ none
  | waiting delay ↦ none
]
admission l s (fails now) = none

-- The times at which a run admits requests.
unfoldable pub admissions : Limits → GateState → List GateEvent → List ℕ
admissions l s [] = []
admissions l s (e ∷ es) = cons? (admission l s e) (admissions l (gate_step l s e) es)

-- `acquire` with nobody else at the gate, on fuel: `clock k` is the time that round k reads. `none` is
-- that the fuel ran out.
unfoldable pub acquire : Limits → GateState → (ℕ → ℕ) → ℕ → ℕ → Option Attempt
acquire l s clock zero round = none
acquire l s clock (suc fuel) round = elim (attempt l (clock round) s) [
  | admitted ↦ some admitted
  | refused ↦ some refused
  | waiting delay ↦ acquire l s clock fuel (suc round)
]
