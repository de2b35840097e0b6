-- ===== src/Chan/Simplified/Results.antt =====
-- What `analyze` returns: it fails only on bars out of order.
use stock_daily_report.Prelude.{
  ◌≡◌, ◌↔◌, ◌⊎◌, refl, true, List, [], ◌∷◌, inl, inr, arith, Bool-cases,
}
use stock_daily_report.Bars.{DailyBar, IsChronological, strictly_increasing}
use stock_daily_report.Chan.Common.{Observation}
use stock_daily_report.Chan.Observations.Breakout.{find_observations-some}
use stock_daily_report.Chan.Simplified.{
  ok, raised, not_increasing, analyze_bars, analyze, result_of, central_areas_in,
}

pub strictly_increasing_iff :
    (bars : List DailyBar) → (strictly_increasing bars ≡ true) ↔ IsChronological bars
unfolding strictly_increasing
strictly_increasing_iff [] = ((λ _. tt), (λ _. refl))
strictly_increasing_iff (a ∷ []) = ((λ _. tt), (λ _. refl))
strictly_increasing_iff (a ∷ b ∷ bars) =
    let ih = strictly_increasing_iff (b ∷ bars) in
    ((λ h. (ground arith, ih.0 (ground arith))), (λ h. ground (arith, ih.1 h.1)))

analyze_bars-ok :
    (bars : List DailyBar) → (os : List Observation) × (analyze_bars bars ≡ ok (result_of bars os))
unfolding analyze_bars
analyze_bars-ok bars =
    let (os, found) = find_observations-some bars (central_areas_in bars) in
    (os, rw (found, analyze_bars))

-- `analyze` returns a result for every history whose dates strictly increase, and raises the
-- ValueError about dates for every other one; it never ends in an IndexError.
pub analyze_total :
    (bars : List DailyBar)
    → ((os : List Observation) × IsChronological bars × (analyze bars ≡ ok (result_of bars os)))
      ⊎ ((¬ IsChronological bars) × (analyze bars ≡ raised not_increasing))
unfolding analyze
analyze_total bars =
    let iff = strictly_increasing_iff bars in
    let (os, done) = analyze_bars-ok bars in
    elim (Bool-cases (strictly_increasing bars)) [
      | inl e ↦ inl (os, iff.0 e, ground arith)
      | inr e ↦ inr ((λ h. ground (arith, iff.1 h)), ground arith)
    ]
