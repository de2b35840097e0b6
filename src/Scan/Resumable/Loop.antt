-- ===== src/Scan/Resumable/Loop.antt =====
-- What the loop over the batches keeps, why it stops, and that it stops.
use stock_daily_report.Prelude.{
  ℕ, suc, zero, ◌≤◌, ◌<◌, ◌≡◌, ◌≢◌, ◌⊎◌, refl, sym, ap, ◌∙◌, true, false, List, [], ◌∷◌, none, some,
  inl, inr, arith, Bool-cases, Option-cases, length, drop,
}
use stock_daily_report.Scan.Filters.{UniverseQuote}
use stock_daily_report.Scan.Resumable.{
  Plan, Progress, Stop, finished, out_of_fuel, is_empty, stop_of, advance, run_batches,
}

is_empty→≡ : (qs : List UniverseQuote) → is_empty qs ≡ true → qs ≡ []
is_empty→≡ [] h = refl
is_empty→≡ (q ∷ qs) h = absurd (ground (arith, h))

length-drop-le : (n : ℕ) (qs : List UniverseQuote) → length (drop n qs) ≤ length qs
length-drop-le zero qs = omega arith
length-drop-le (suc n) [] = omega arith
length-drop-le (suc n) (q ∷ qs) = omega (arith, length-drop-le n qs)

length-drop-lt :
    (n : ℕ) (qs : List UniverseQuote) → 1 ≤ n → is_empty qs ≡ false → length (drop n qs) < length qs
length-drop-lt zero qs h e = absurd (omega (arith, h))
length-drop-lt (suc n) [] h e = absurd (ground (arith, e))
length-drop-lt (suc n) (q ∷ qs) h e = omega (arith, length-drop-le n qs)

module _ (plan : Plan) where
  run_batches-stop :
      (fuel : ℕ) (p : Progress) (stop : Stop)
      → stop_of plan p ≡ some stop
      → run_batches plan (suc fuel) p ≡ (stop, p)
  unfolding run_batches
  run_batches-stop fuel p stop e = rw (e, run_batches) refl

  run_batches-go :
      (fuel : ℕ) (p : Progress)
      → stop_of plan p ≡ none
      → run_batches plan (suc fuel) p ≡ run_batches plan fuel (advance plan p)
  unfolding run_batches
  run_batches-go fuel p e = rw (e, run_batches) refl

  -- What every round preserves holds where the loop stops, and it stops for a reason.
  pub run_batches-keeps {ℓ} :
      (P : Progress → Type ℓ)
      → ((p : Progress) → stop_of plan p ≡ none → P p → P (advance plan p))
      → (fuel : ℕ) (p : Progress) → P p
      → let (stop, q) = run_batches plan fuel p in
        P q × ((stop ≡ out_of_fuel) ⊎ (stop_of plan q ≡ some stop))
  unfolding run_batches
  run_batches-keeps P step zero p h = (h, inl refl)
  run_batches-keeps P step (suc fuel) p h = elim (Option-cases (stop_of plan p)) [
    | inr (stop, e) ↦ rw (run_batches-stop fuel p stop e) (h, inr e)
    | inl e ↦
        rw (run_batches-go fuel p e) (run_batches-keeps P step fuel (advance plan p) (step p e h))
  ]

  pub finished-nothing_pending : (p : Progress) → stop_of plan p ≡ some finished → p.pending ≡ []
  unfolding stop_of
  finished-nothing_pending p h = elim (Bool-cases (is_empty p.pending)) [
    | inl e ↦ is_empty→≡ p.pending e
    | inr e ↦ absurd (ground (arith, e, h))
  ]

  pub stop_of-pending : (p : Progress) → stop_of plan p ≡ none → is_empty p.pending ≡ false
  unfolding stop_of
  stop_of-pending p h = elim (Bool-cases (is_empty p.pending)) [
    | inl e ↦ absurd (ground (arith, e, h))
    | inr e ↦ e
  ]

  stop_of-reason : (p : Progress) → stop_of plan p ≢ some out_of_fuel
  unfolding stop_of
  stop_of-reason p h = elim (Bool-cases (is_empty p.pending)) [
    | inl e ↦ ground (arith, e, h)
    | inr e ↦ ground (arith, e, h)
  ]

  advance-shorter :
      (fuel : ℕ) (p : Progress)
      → 1 ≤ plan.request.per_batch
      → length p.pending < suc fuel
      → stop_of plan p ≡ none
      → length (advance plan p).pending < fuel
  unfolding advance
  advance-shorter fuel p k h s =
      omega (arith, h, length-drop-lt plan.request.per_batch p.pending k (stop_of-pending p s))

  -- With batches that are not empty the loop needs at most a round for each pending quote.
  pub run_batches-stops :
      (fuel : ℕ) (p : Progress)
      → 1 ≤ plan.request.per_batch
      → length p.pending < fuel
      → (run_batches plan fuel p).0 ≢ out_of_fuel
  run_batches-stops zero p k h e = absurd (omega (arith, h))
  run_batches-stops (suc fuel) p k h e = elim (Option-cases (stop_of plan p)) [
    | inr (stop, s) ↦
        stop_of-reason p (s ∙ ap some (sym (ap (λ x. x.0) (run_batches-stop fuel p stop s)) ∙ e))
    | inl s ↦
        run_batches-stops fuel (advance plan p) k (advance-shorter fuel p k h s)
          (sym (ap (λ x. x.0) (run_batches-go fuel p s)) ∙ e)
  ]
