-- ===== src/Providers/Gate/Progress.antt =====
-- `acquire` comes to an end.
use stock_daily_report.Prelude.{
  ℕ, zero, suc, ◌+◌, ◌≤◌, ◌<◌, ◌≡◌, ◌⊎◌, refl, subst, some, inl, inr, arith, true, false, Option,
  Bool-cases,
}
use stock_daily_report.Providers.Gate.{
  GateState, Limits, Attempt, is_unlimited, admitted, refused, waiting, attempt, acquire,
}

Attempt-cases : (a : Attempt) → (a ≡ admitted) ⊎ (a ≡ refused) ⊎ ((d : ℕ) × (a ≡ waiting d))
Attempt-cases admitted = inl refl
Attempt-cases refused = inr (inl refl)
Attempt-cases (waiting d) = inr (inr (d, refl))

le-cases : (m n : ℕ) → m ≤ n → (m ≡ n) ⊎ (suc m ≤ n)
le-cases m n h = ground (arith, h)

-- What the time t means for a request: it may be sent, the circuit is open, or it has to wait.
abbrev pub IsFree : Limits → GateState → ℕ → Type 0
IsFree l s t = (is_unlimited l ≡ true) ⊎ ((s.retry_after ≤ t) × (s.next_request ≤ t))

abbrev pub IsOpen : Limits → GateState → ℕ → Type 0
IsOpen l s t = (is_unlimited l ≡ false) × (t < s.retry_after)

abbrev pub IsEarly : Limits → GateState → ℕ → Type 0
IsEarly l s t = (is_unlimited l ≡ false) × (s.retry_after ≤ t) × (t < s.next_request)

attempt-admitted : (l : Limits) (t : ℕ) (s : GateState) → attempt l t s ≡ admitted → IsFree l s t
unfolding attempt
attempt-admitted l t s h = elim (Bool-cases (is_unlimited l)) [
  | inl free ↦ inl free
  | inr limited ↦ inr (ground (arith, limited, h), ground (arith, limited, h))
]

attempt-refused : (l : Limits) (t : ℕ) (s : GateState) → attempt l t s ≡ refused → IsOpen l s t
unfolding attempt
attempt-refused l t s h = (ground (arith, h), ground (arith, h))

attempt-waiting : (l : Limits) (t d : ℕ) (s : GateState) → attempt l t s ≡ waiting d → IsEarly l s t
unfolding attempt
attempt-waiting l t d s h = (ground (arith, h), ground (arith, h), ground (arith, h))

-- How `acquire` ends in round k: it returns where a request may be sent, and raises where the circuit is
-- open.
abbrev pub EndsIn : Limits → GateState → (ℕ → ℕ) → Option Attempt → ℕ → Type 0
EndsIn l s clock result k =
    ((result ≡ some admitted) × IsFree l s (clock k))
    ⊎ ((result ≡ some refused) × IsOpen l s (clock k))

acquire-step :
    (l : Limits) (s : GateState) (clock : ℕ → ℕ) (fuel round : ℕ)
    → EndsIn l s clock (acquire l s clock (suc fuel) round) round
      ⊎ ((acquire l s clock (suc fuel) round ≡ acquire l s clock fuel (suc round))
          × IsEarly l s (clock round))
unfolding acquire
acquire-step l s clock fuel round =
    let t = clock round in
    elim (Attempt-cases (attempt l t s)) [
      | inl at ↦ inl (inl (rw (at, acquire) refl, attempt-admitted l t s at))
      | inr (inl at) ↦ inl (inr (rw (at, acquire) refl, attempt-refused l t s at))
      | inr (inr (d, at)) ↦ inr (rw (at, acquire) refl, attempt-waiting l t d s at)
    ]

-- `acquire` ends in a round from `round` to `last`, and every round before it waits.
abbrev pub EndsWithin : Limits → GateState → (ℕ → ℕ) → Option Attempt → ℕ → ℕ → Type 0
EndsWithin l s clock result round last =
    (k : ℕ) × (round ≤ k)
    × (k ≤ last)
    × ((j : ℕ) → round ≤ j → j < k → IsEarly l s (clock j))
    × EndsIn l s clock result k

EndsWithin-now :
    (l : Limits) (s : GateState) (clock : ℕ → ℕ) {result : Option Attempt} (round fuel : ℕ)
    → EndsIn l s clock result round
    → EndsWithin l s clock result round (round + fuel)
EndsWithin-now l s clock round fuel done =
    (round, omega arith, omega arith, (λ j a b. absurd (omega (arith, a, b))), done)

EndsWithin-later :
    (l : Limits) (s : GateState) (clock : ℕ → ℕ) {result : Option Attempt} (round fuel : ℕ)
    → IsEarly l s (clock round)
    → EndsWithin l s clock result (suc round) (suc round + fuel)
    → EndsWithin l s clock result round (round + suc fuel)
EndsWithin-later l s clock round fuel early (k, from, to, waits, ends) = (
  k,
  omega (arith, from),
  omega (arith, to),
  (λ j a b. elim (le-cases round j a) [
    | inl same ↦ subst (λ i. IsEarly l s (clock i)) same early
    | inr after ↦ waits j after b
  ]),
  ends,
)

-- If time passes from round to round, then with nobody else at the gate `acquire` ends in the first
-- round that finds no wait, after no more waits than there are ticks to the next request: in every
-- round before it the cooldown is over and the next request not yet due, and at the time of that round
-- it returns if the limits are off or the cooldown is over and the request is due, and raises if the
-- cooldown is not over.
pub acquire_total :
    (l : Limits) (s : GateState) (clock : ℕ → ℕ) (fuel round : ℕ)
    → ((k : ℕ) → clock k < clock (suc k))
    → s.next_request ≤ clock round + fuel
    → EndsWithin l s clock (acquire l s clock (suc fuel) round) round (round + fuel)
acquire_total l s clock zero round passes enough = elim (acquire-step l s clock zero round) [
  | inl done ↦ EndsWithin-now l s clock round zero done
  | inr (more, early) ↦ absurd (ground (arith, early, enough))
]
acquire_total l s clock (suc fuel) round passes enough =
    elim (acquire-step l s clock (suc fuel) round) [
      | inl done ↦ EndsWithin-now l s clock round (suc fuel) done
      | inr (more, early) ↦
          let next = passes round in
          EndsWithin-later l s clock round fuel early (
            rw more (acquire_total l s clock fuel (suc round) passes (omega (arith, next, enough))))
    ]
