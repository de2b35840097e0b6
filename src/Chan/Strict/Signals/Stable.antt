-- ===== src/Chan/Strict/Signals/Stable.antt =====
-- A confirmed breakout signal does not depend on later bars.
use mathlib.Core.Option.{some-injective}
use stock_daily_report.Prelude.{
  subst, ◌≡◌, ◌≢◌, refl, List, [], ◌∷◌, ◌++◌, Option, none, some, inl, inr, arith, Bool-cases,
  Option-cases,
}
use stock_daily_report.Bars.{Date, Price, DailyBar}
use stock_daily_report.Chan.Common.{confirmed}
use stock_daily_report.Chan.Strict.Events.{Side, StrictEvent}
use stock_daily_report.Chan.Strict.Signals.{
  side_of, is_too_early, completes, candidate_event, signal_event, signal_from,
  find_signal_for_area, head_date,
}

-- The same event, but that a missing tradable date may have been filled in.
pub record SameSignal (e e' : StrictEvent) : Type 0 where
  pub same : record e' { tradable_at = none } ≡ record e { tradable_at = none }
  pub kept : e.tradable_at ≢ none → e' ≡ e

SameSignal-head :
    (d : Date) (bar : DailyBar) (bars more : List DailyBar) (side : Side)
    → SameSignal
        (signal_event d (some bar.trade_date) (head_date bars) confirmed side)
        (signal_event d (some bar.trade_date) (head_date (bars ++ more)) confirmed side)
SameSignal-head d bar [] more side = record { same = refl; kept = λ h. absurd (h refl) }
SameSignal-head d bar (b ∷ bars) more side = record { same = refl; kept = λ _. refl }

candidate_event-status :
    (found : Option (Date × Side)) {e : StrictEvent}
    → candidate_event found ≡ some e
    → e.status ≡ confirmed
    → ⊥
candidate_event-status none h s = cc
candidate_event-status (some (d, side)) h s = ground arith

signal_from-append :
    (area_at : Option Date) (low high : Price) (found : Option (Date × Side))
    (bars more : List DailyBar) (e : StrictEvent)
    → signal_from area_at low high found bars ≡ some e
    → e.status ≡ confirmed
    → (e' : StrictEvent) × (signal_from area_at low high found (bars ++ more) ≡ some e')
      × SameSignal e e'
unfolding signal_from
signal_from-append area_at low high found [] more e h s = absurd (candidate_event-status found h s)
signal_from-append area_at low high found (bar ∷ bars) more e h s =
    elim (Bool-cases (is_too_early area_at bar)) [
      | inl early ↦
          rw (early, signal_from)
            (signal_from-append area_at low high found bars more e (rw (early, signal_from) at h) s)
      | inr late ↦ elim (Option-cases (side_of low high bar)) [
        | inl inside ↦
            rw (late, inside, signal_from)
              (signal_from-append area_at low high none bars more e
                (rw (late, inside, signal_from) at h) s)
        | inr (side, outside) ↦ elim (Option-cases (completes found side)) [
          | inl first ↦
              rw (late, outside, first, signal_from)
                (signal_from-append area_at low high (some (bar.trade_date, side)) bars more e
                  (rw (late, outside, first, signal_from) at h) s)
          | inr (d, second) ↦ (
            signal_event d (some bar.trade_date) (head_date (bars ++ more)) confirmed side,
            rw (late, outside, second, signal_from),
            subst
                (λ x.
                  SameSignal x (
                    signal_event d (some bar.trade_date) (head_date (bars ++ more)) confirmed side))
                (some-injective _ _ (rw (late, outside, second, signal_from) at h))
                (SameSignal-head d bar bars more side),
          )
        ]
      ]
    ]

-- Once a breakout of a central area is confirmed, it stays: on every longer history the search for
-- that area returns the same event, but that a missing tradable date may have been filled in, and the
-- very same event if the date was there.
pub find_signal_for_area-append :
    (bars more : List DailyBar) (area e : StrictEvent)
    → find_signal_for_area bars area ≡ some e
    → e.status ≡ confirmed
    → (e' : StrictEvent) × (find_signal_for_area (bars ++ more) area ≡ some e') × SameSignal e e'
unfolding find_signal_for_area
find_signal_for_area-append bars more area e h s = elim (Option-cases area.high) [
  | inl no_high ↦ ground (arith, h)
  | inr (high, has_high) ↦ elim (Option-cases area.low) [
    | inl no_low ↦ ground (arith, h)
    | inr (low, has_low) ↦
        rw (has_high, has_low, find_signal_for_area)
          (signal_from-append area.confirmed_at low high none bars more e
            (rw (has_high, has_low, find_signal_for_area) at h) s)
  ]
]
