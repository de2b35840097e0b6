-- ===== src/Backtest/Replay/Prefix.antt =====
-- A replay has no look-ahead.
use mathlib.Core.Option.{some-injective}
use stock_daily_report.Prelude.{
  ◌≡◌, ◌∙◌, refl, subst, ap, true, List, [], ◌∷◌, ◌++◌, append_assoc, Option, none, some, inl, inr,
  arith, Bool-cases, Option-cases, Extends,
}
use stock_daily_report.Bars.{DailyBar, strictly_increasing}
use stock_daily_report.Backtest.Replay.{
  ReplayEvent, coalesce_visible, record_all, prepend, replay_from, replay,
}

pub prepend-some :
    (events : List ReplayEvent) (r : Option (List ReplayEvent)) {es : List ReplayEvent}
    → prepend events r ≡ some es
    → (rest : List ReplayEvent) × (r ≡ some rest) × (events ++ rest ≡ es)
prepend-some events none h = cc
prepend-some events (some rest) h = (rest, refl, some-injective _ _ h)

Extends-append :
    (front xs ys : List ReplayEvent) → Extends xs ys → Extends (front ++ xs) (front ++ ys)
Extends-append front xs ys (rest, e) = (rest, append_assoc front xs rest ∙ ap (λ t. front ++ t) e)

strictly_increasing-append :
    (bars more : List DailyBar)
    → strictly_increasing (bars ++ more) ≡ true
    → strictly_increasing bars ≡ true
unfolding strictly_increasing
strictly_increasing-append [] more h = refl
strictly_increasing-append (a ∷ []) more h = refl
strictly_increasing-append (a ∷ b ∷ bs) more h =
    ground (arith, strictly_increasing-append (b ∷ bs) more (ground (arith, h)), h)

module _ (observe : List DailyBar → List ReplayEvent) where
  replay_from-append :
      (history : List ReplayEvent) (prefix bars more : List DailyBar) {es' : List ReplayEvent}
      → replay_from observe history prefix (bars ++ more) ≡ some es'
      → (es : List ReplayEvent) × (replay_from observe history prefix bars ≡ some es)
        × Extends es es'
  unfolding replay_from
  replay_from-append history prefix [] more {es'} h = ([], refl, (es', refl))
  replay_from-append history prefix (b ∷ bs) more {es'} h =
      elim (Option-cases (coalesce_visible (observe (prefix ++ (b ∷ []))))) [
        | inl ambiguous ↦ absurd (ground (arith, ambiguous, h))
        | inr (visible, e) ↦
            let (events, after) = record_all history b.trade_date visible in
            let (rest', e', at) = prepend-some events _ (rw (e, replay_from) at h) in
            let (rest, found, longer) = replay_from-append after (prefix ++ (b ∷ [])) bs more e' in
            (
              events ++ rest,
              rw (e, found, replay_from),
              subst (λ t. Extends (events ++ rest) t) at (Extends-append events rest rest' longer),
            )
      ]

  -- For every analyzer, if the replay of a longer history succeeds, then so does the replay of each
  -- shorter one, and its events are the first events of the longer replay: what is reported at a
  -- date does not depend on later bars.
  pub replay-Extends :
      (bars more : List DailyBar) {es' : List ReplayEvent}
      → replay observe (bars ++ more) ≡ some es'
      → (es : List ReplayEvent) × (replay observe bars ≡ some es) × Extends es es'
  unfolding replay
  replay-Extends bars more h = elim (Bool-cases (strictly_increasing (bars ++ more))) [
    | inl rising ↦
        rw (strictly_increasing-append bars more rising, replay)
          (replay_from-append [] [] bars more (rw (rising, replay) at h))
    | inr falling ↦ absurd (ground (arith, falling, h))
  ]
