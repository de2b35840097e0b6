-- ===== src/Providers/Gate/Safety.antt =====
-- Spacing and cooling down, for every interleaving of processes.
use stock_daily_report.Prelude.{
  ℕ, ◌+◌, ◌≤◌, ◌<◌, ◌≡◌, false, List, [], ◌∷◌, none, some, inl, inr, arith, All, Chain,
  Option-cases,
}
use stock_daily_report.Providers.Gate.{
  GateState, Limits, is_unlimited, attempt, after_attempt, record_failure, GateEvent, acquires,
  fails, gate_step, admission, admissions,
}

-- A time at which a later request may start, after one that started at `a`.
abbrev pub SpacedBy : ℕ → ℕ → ℕ → Type 0
SpacedBy interval a b = a + interval ≤ b

module _ (l : Limits) (limited : is_unlimited l ≡ false) where
  admission-facts :
      (s : GateState) (e : GateEvent) (t : ℕ)
      → admission l s e ≡ some t
      → (s.next_request ≤ t)
        × (s.retry_after ≤ t)
        × ((gate_step l s e).next_request ≡ t + l.interval)
  unfolding admission gate_step after_attempt attempt record_failure
  admission-facts s (acquires now) t h =
      (ground (arith, limited), ground (arith, limited), ground (arith, limited))
  admission-facts s (fails now) t h = cc

  no_admission-next :
      (s : GateState) (e : GateEvent)
      → admission l s e ≡ none
      → (gate_step l s e).next_request ≡ s.next_request
  unfolding admission gate_step after_attempt attempt record_failure
  no_admission-next s (acquires now) h = ground (arith, limited)
  no_admission-next s (fails now) h = ground arith

  gate_step-retry : (s : GateState) (e : GateEvent) → s.retry_after ≤ (gate_step l s e).retry_after
  unfolding gate_step after_attempt attempt record_failure
  gate_step-retry s (acquires now) = ground arith
  gate_step-retry s (fails now) = ground arith

  -- From a state on, the first admission is not before `next_request`, and later ones are spaced.
  admissions-after :
      (s : GateState) (es : List GateEvent) (bound : ℕ)
      → bound + l.interval ≤ s.next_request
      → Chain (SpacedBy l.interval) (bound ∷ admissions l s es)
  unfolding admissions
  admissions-after s [] bound h = tt
  admissions-after s (e ∷ es) bound h = elim (Option-cases (admission l s e)) [
    | inl quiet ↦
        let same = no_admission-next s e quiet in
        rw (quiet, admissions) (admissions-after (gate_step l s e) es bound (omega (arith, same)))
    | inr (t, admits) ↦
        let (late, _, next) = admission-facts s e t admits in
        rw (admits, admissions)
          (omega (arith, late, h), admissions-after (gate_step l s e) es t (omega (arith, next)))
  ]

  Chain-tail :
      (a : ℕ) (ts : List ℕ) → Chain (SpacedBy l.interval) (a ∷ ts) → Chain (SpacedBy l.interval) ts
  Chain-tail a [] c = tt
  Chain-tail a (t ∷ ts) c = c.1

  -- If the gate has a limit, then in every run, from any state and however the processes interleave,
  -- a request starts at least the interval after the one before it.
  pub admissions-spaced :
      (s : GateState) (es : List GateEvent) → Chain (SpacedBy l.interval) (admissions l s es)
  unfolding admissions
  admissions-spaced s [] = tt
  admissions-spaced s (e ∷ es) = elim (Option-cases (admission l s e)) [
    | inl quiet ↦ rw (quiet, admissions) (admissions-spaced (gate_step l s e) es)
    | inr (t, admits) ↦
        let (_, _, next) = admission-facts s e t admits in
        rw (admits, admissions) (admissions-after (gate_step l s e) es t (omega (arith, next)))
  ]

  admissions-retry :
      (s : GateState) (es : List GateEvent) (bound : ℕ)
      → bound ≤ s.retry_after
      → All (λ t. bound ≤ t) (admissions l s es)
  unfolding admissions
  admissions-retry s [] bound h = tt
  admissions-retry s (e ∷ es) bound h = elim (Option-cases (admission l s e)) [
    | inl quiet ↦
        rw (quiet, admissions)
          (admissions-retry (gate_step l s e) es bound (omega (arith, gate_step-retry s e)))
    | inr (t, admits) ↦
        let (_, cooled, _) = admission-facts s e t admits in
        rw (admits, admissions)
          (
            omega (arith, cooled, h),
            admissions-retry (gate_step l s e) es bound (omega (arith, gate_step-retry s e)),
          )
  ]

cooldown-limited : (l : Limits) → 0 < l.cooldown → is_unlimited l ≡ false
unfolding is_unlimited
cooldown-limited l h = ground arith

-- If the gate has a cooldown, then after a failure that a process records at a time, no request of any
-- process starts until the cooldown has passed, whatever is recorded in between.
pub admissions-cooled :
    (l : Limits) (s : GateState) (now : ℕ) (es : List GateEvent)
    → 0 < l.cooldown
    → All (λ t. now + l.cooldown ≤ t) (admissions l s (fails now ∷ es))
unfolding admissions admission gate_step record_failure
admissions-cooled l s now es h =
    admissions-retry l (cooldown-limited l h) (record_failure l now s) es (now + l.cooldown)
      (ground (arith, h))
