-- ===== src/Quality/Calendar.antt =====
-- The weekday calendar of the staleness check.
use stock_daily_report.Prelude.{
  ◌↔◌, false, lt→ltb, ℕ, zero, suc, ◌+◌, ◌-◌, ◌≤◌, ◌<◌, ◌≡◌, refl, inl, inr, arith, ltb, leb,
  Bool-cases, leb→le,
}
use native.Mathlib.Nat.{zero-add, add-zero}
use stock_daily_report.Bars.{Date, weekday}
use stock_daily_report.Quality.{
  back_to_weekday, most_recent_weekday, weekdays_after, weekday_distance, is_stale,
}

-- The most recent weekday of a date (an ordinal of 1 or more) is a weekday, at most two
-- days back, and every day after it up to the date lies on a weekend; so two rounds of the loop are
-- enough.
pub most_recent_weekday_lem :
    (d : Date)
    → 1 ≤ d
    → let e = most_recent_weekday d in
      (weekday e < 5) × (e ≤ d) × (d ≤ e + 2) × ((x : Date) → e < x → x ≤ d → 5 ≤ weekday x)
unfolding most_recent_weekday back_to_weekday weekday
most_recent_weekday_lem d h =
    (ground arith, ground arith, ground arith, λ x below above. ground arith)

weekdays_after-add :
    (a b start : ℕ)
    → weekdays_after (a + b) start ≡ weekdays_after a start + weekdays_after b (start + a)
unfolding weekdays_after
weekdays_after-add zero b start = rw (zero-add b, add-zero start) (omega arith)
weekdays_after-add (suc a) b start =
    let shift : start + 1 + a ≡ start + suc a = omega arith in
    let split : suc a + b ≡ suc (a + b) = omega arith in
    rw (split, weekdays_after) (rw (weekdays_after-add a b (start + 1), shift) (omega arith))

weekdays_after-weekend :
    (n start : ℕ)
    → ((x : Date) → start < x → x ≤ start + n → 5 ≤ weekday x)
    → weekdays_after n start ≡ 0
unfolding weekdays_after
weekdays_after-weekend zero start h = refl
weekdays_after-weekend (suc n) start h =
    let first = h (start + 1) (omega arith) (omega arith) in
    ground (
      arith,
      weekdays_after-weekend n (start + 1) (λ x a b. h x (omega arith) (omega arith)),
      first,
    )

-- For every as-of date (an ordinal of 1 or more), history is stale exactly if more than
-- `maximum_lag` weekdays follow its last trade date up to the as-of date: going back to the most
-- recent weekday first changes nothing.
pub is_stale-eq :
    (last as_of maximum_lag : ℕ)
    → 1 ≤ as_of
    → is_stale last as_of maximum_lag ≡ ltb maximum_lag (weekday_distance last as_of)
unfolding is_stale weekday_distance
is_stale-eq last as_of maximum_lag h =
    let e = most_recent_weekday as_of in
    let (_, below, _, weekend) = most_recent_weekday_lem as_of h in
    elim (Bool-cases (leb e last)) [
      | inl fresh ↦
          let after = leb→le e last fresh in
          ground (
            arith,
            weekdays_after-weekend (as_of - last) last
                (λ x a b. weekend x (omega arith) (omega arith)),
          )
      | inr old ↦
          let split : as_of - last ≡ (e - last) + (as_of - e) = ground arith in
          let shift : last + (e - last) ≡ e = ground arith in
          let rest = weekdays_after-weekend (as_of - e) e (λ x a b. weekend x a (omega arith)) in
          rw (old, split, weekdays_after-add (e - last) (as_of - e) last, shift, rest, add-zero _)
    ]

weekday_distance-weekday :
    (start end : Date) → start < end → weekday end < 5 → 0 < weekday_distance start end
unfolding weekday_distance weekdays_after
weekday_distance-weekday start end h day =
    let split : end - start ≡ (end - start - 1) + 1 = omega arith in
    let last : start + (end - start - 1) + 1 ≡ end = omega arith in
    let flag = lt→ltb (weekday end) 5 day in
    rw (split, weekdays_after-add (end - start - 1) 1 start) (ground (arith, last, flag))

-- A date does not lie before the most recent weekday exactly if every day after it is on a weekend.
pub before-most_recent_weekday :
    (d as_of : Date)
    → 1 ≤ as_of
    → (ltb d (most_recent_weekday as_of) ≡ false) ↔ ((x : Date) → d < x → x ≤ as_of → 5 ≤ weekday x)
before-most_recent_weekday d as_of h =
    let e = most_recent_weekday as_of in
    let (day, below, _, weekend) = most_recent_weekday_lem as_of h in
    (
      (λ recent x after past. weekend x (ground (arith, recent, after)) past),
      (λ rest. elim (Bool-cases (ltb d e)) [
        | inr recent ↦ recent
        | inl before ↦
            let contra = rest e (ground (arith, before)) below in
            absurd (omega (arith, day, contra))
      ]),
    )
