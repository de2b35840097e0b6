-- ===== src/Backtest/Replay/Revisions.antt =====
-- The audit trail of a replay: what later records of an event keep.
use mathlib.Core.Option.{some-injective}
use stock_daily_report.Prelude.{
  ◌≤◌, ◌≡◌, refl, subst, true, List, [], ◌∷◌, ◌++◌, some, inl, inr, arith, ◌==◌, All, All-append,
  Bool-cases, Option-cases,
}
use stock_daily_report.Bars.{Date, DailyBar, strictly_increasing}
use stock_daily_report.Backtest.Replay.{
  ReplayEvent, coalesce_visible, lookup, revision_of, first_of, record_event, record_all,
  replay_from, replay,
}
use stock_daily_report.Backtest.Replay.Prefix.{prepend-some}

-- The same first date, and the same or a higher revision.
pub record Later (e e' : ReplayEvent) : Type 0 where
  pub same_first : e'.first_observed_at ≡ e.first_observed_at
  pub rises : e.revision ≤ e'.revision

abbrev pub Follows : ReplayEvent → ReplayEvent → Type 0
Follows e e' = e.event_id ≡ e'.event_id → Later e e'

-- Every record follows on from all records before it.
abbrev pub Audited : List ReplayEvent → Type 0
Audited [] = Unit
Audited (e ∷ es) = All (Follows e) es × Audited es

-- The history's entry under the id of `e` is a later record.
record Tracked (e : ReplayEvent) (history : List ReplayEvent) : Type 0 where
  entry : ReplayEvent
  is_entry : lookup e.event_id history ≡ some entry
  later : Later e entry

record_event-Follows :
    (e v : ReplayEvent) (history : List ReplayEvent) (d : Date)
    → Tracked e history
    → Follows e (record_event history d v)
unfolding record_event revision_of first_of
record_event-Follows e v history d t same =
    let found : lookup v.event_id history ≡ some t.entry =
      subst (λ id. lookup id history ≡ some t.entry) same t.is_entry in
    record {
      same_first = rw (found, first_of) t.later.same_first;
      rises = rw (found, revision_of) (omega (arith, t.later.rises));
    }

record_event-Tracked :
    (e v : ReplayEvent) (history : List ReplayEvent) (d : Date)
    → Tracked e history
    → Tracked e (record_event history d v ∷ history)
unfolding lookup record_event
record_event-Tracked e v history d t = elim (Bool-cases (v.event_id == e.event_id)) [
  | inl same ↦ record {
    entry = record_event history d v;
    is_entry = rw (same, lookup);
    later = record_event-Follows e v history d t (ground arith);
  }
  | inr other ↦ record {
    entry = t.entry;
    is_entry = ground (arith, other, t.is_entry);
    later = t.later;
  }
]

new-Tracked : (v : ReplayEvent) (history : List ReplayEvent) → Tracked v (v ∷ history)
unfolding lookup
new-Tracked v history =
    let same : (v.event_id == v.event_id) ≡ true = ground arith in
    record {
      entry = v;
      is_entry = rw (same, lookup);
      later = record { same_first = refl; rises = omega arith };
    }

record_all-Follows :
    (e : ReplayEvent) (history : List ReplayEvent) (d : Date) (vs : List ReplayEvent)
    → Tracked e history
    → All (Follows e) (record_all history d vs).0 × Tracked e (record_all history d vs).1
unfolding record_all
record_all-Follows e history d [] t = (tt, t)
record_all-Follows e history d (v ∷ vs) t =
    let (all, after) =
      record_all-Follows e (record_event history d v ∷ history) d vs
        (record_event-Tracked e v history d t) in
    ((record_event-Follows e v history d t, all), after)

record_all-Audited :
    (history : List ReplayEvent) (d : Date) (vs : List ReplayEvent)
    → Audited (record_all history d vs).0
      × All (λ e. Tracked e (record_all history d vs).1) (record_all history d vs).0
unfolding record_all
record_all-Audited history d [] = (tt, tt)
record_all-Audited history d (v ∷ vs) =
    let recorded = record_event history d v in
    let (all, tracked) =
      record_all-Follows recorded (recorded ∷ history) d vs (new-Tracked recorded history) in
    let (audited, others) = record_all-Audited (recorded ∷ history) d vs in
    ((all, audited), (tracked, others))

All-map {κ μ} :
    (P : ReplayEvent → Type κ) (Q : ReplayEvent → Type μ) (es : List ReplayEvent)
    → ((e : ReplayEvent) → P e → Q e)
    → All P es
    → All Q es
All-map P Q [] f a = tt
All-map P Q (e ∷ es) f a = (f e a.0, All-map P Q es f a.1)

Audited-append :
    (xs ys : List ReplayEvent)
    → Audited xs
    → Audited ys
    → All (λ e. All (Follows e) ys) xs
    → Audited (xs ++ ys)
Audited-append [] ys p q r = q
Audited-append (x ∷ xs) ys p q r =
    (All-append (Follows x) xs ys p.0 r.0, Audited-append xs ys p.1 q r.1)

module _ (observe : List DailyBar → List ReplayEvent) where
  replay_from-Follows :
      (e : ReplayEvent) (history : List ReplayEvent) (prefix bars : List DailyBar)
      {es : List ReplayEvent}
      → Tracked e history
      → replay_from observe history prefix bars ≡ some es
      → All (Follows e) es
  unfolding replay_from
  replay_from-Follows e history prefix [] t h = subst (All (Follows e)) (some-injective _ _ h) tt
  replay_from-Follows e history prefix (b ∷ bs) t h =
      elim (Option-cases (coalesce_visible (observe (prefix ++ (b ∷ []))))) [
        | inl ambiguous ↦ absurd (ground (arith, ambiguous, h))
        | inr (visible, found) ↦
            let (rest, more, at) = prepend-some _ _ (rw (found, replay_from) at h) in
            let (all, tracked) = record_all-Follows e history b.trade_date visible t in
            let after = (record_all history b.trade_date visible).1 in
            subst (All (Follows e)) at (
              All-append (Follows e) _ rest all
                (replay_from-Follows e after (prefix ++ (b ∷ [])) bs tracked more))
      ]

  replay_from-Audited :
      (history : List ReplayEvent) (prefix bars : List DailyBar) {es : List ReplayEvent}
      → replay_from observe history prefix bars ≡ some es
      → Audited es
  unfolding replay_from
  replay_from-Audited history prefix [] h = subst Audited (some-injective _ _ h) tt
  replay_from-Audited history prefix (b ∷ bs) h =
      elim (Option-cases (coalesce_visible (observe (prefix ++ (b ∷ []))))) [
        | inl ambiguous ↦ absurd (ground (arith, ambiguous, h))
        | inr (visible, found) ↦
            let (rest, more, at) = prepend-some _ _ (rw (found, replay_from) at h) in
            let (audited, tracked) = record_all-Audited history b.trade_date visible in
            let after = (record_all history b.trade_date visible).1 in
            subst Audited at (
              Audited-append _ rest audited (replay_from-Audited after (prefix ++ (b ∷ [])) bs more)
                (All-map _ _ _ (λ e t. replay_from-Follows e after (prefix ++ (b ∷ [])) bs t more)
                  tracked))
      ]

  -- For every analyzer, if a replay succeeds, each of its events has the first date of every earlier
  -- event with the same id, and at least its revision.
  pub replay-Audited :
      (bars : List DailyBar) {es : List ReplayEvent} → replay observe bars ≡ some es → Audited es
  unfolding replay
  replay-Audited bars h = elim (Bool-cases (strictly_increasing bars)) [
    | inl rising ↦ replay_from-Audited [] [] bars (rw (rising, replay) at h)
    | inr falling ↦ absurd (ground (arith, falling, h))
  ]
