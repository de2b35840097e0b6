-- ===== src/Scan/Retries/Attempts.antt =====
-- How many attempts a candidate gets, and whose result it ends with.
use stock_daily_report.Prelude.{
  ℕ, zero, suc, ◌≤◌, ◌<◌, ◌≡◌, ◌⊎◌, refl, ◌∙◌, true, false, List, [], ◌∷◌, ◌++◌, map, inl, inr,
  arith, Bool-cases,
}
use stock_daily_report.Providers.Service.{ProviderRequestMetric}
use stock_daily_report.Scan.Retries.{
  CandidateResult, should_retry, as_retry, with_metrics, retry_from, process_candidate_with_retries,
}

module _ (process : ℕ → CandidateResult) where
  retry_from-stop :
      (n : ℕ) (ns : List ℕ) (r : CandidateResult) (metrics : List ProviderRequestMetric)
      → should_retry r ≡ false
      → retry_from process (n ∷ ns) r metrics ≡ with_metrics r metrics
  unfolding retry_from
  retry_from-stop n ns r metrics e = rw (e, retry_from) refl

  retry_from-go :
      (n : ℕ) (ns : List ℕ) (r : CandidateResult) (metrics : List ProviderRequestMetric)
      → should_retry r ≡ true
      → retry_from process (n ∷ ns) r metrics
        ≡ retry_from process ns (process n) (metrics ++ map as_retry (process n).provider_metrics)
  unfolding retry_from
  retry_from-go n ns r metrics e = rw (e, retry_from) refl

  below-one : should_retry (process 0) ≡ true → (j : ℕ) → j < 1 → should_retry (process j) ≡ true
  below-one e zero h = e
  below-one e (suc j) h = absurd (omega (arith, h))

  below-two :
      should_retry (process 0) ≡ true
      → should_retry (process 1) ≡ true
      → (j : ℕ) → j < 2
      → should_retry (process j) ≡ true
  below-two e e' zero h = e
  below-two e e' (suc zero) h = e'
  below-two e e' (suc (suc j)) h = absurd (omega (arith, h))

  -- The metrics of the attempts 0 to n, of which all but attempt 0 are retries.
  abbrev pub metrics_to : ℕ → List ProviderRequestMetric
  metrics_to zero = (process 0).provider_metrics
  metrics_to (suc n) = metrics_to n ++ map as_retry (process (suc n)).provider_metrics

  -- A candidate ends with the result of the first attempt that need not be retried, or else of the
  -- third attempt, under the metrics of all the attempts up to it.
  pub process_candidate_with_retries_lem :
      (k : ℕ) × (k ≤ 2)
      × ((j : ℕ) → j < k → should_retry (process j) ≡ true)
      × ((k ≡ 2) ⊎ (should_retry (process k) ≡ false))
      × (process_candidate_with_retries process ≡ with_metrics (process k) (metrics_to k))
  unfolding process_candidate_with_retries retry_from
  process_candidate_with_retries_lem = elim (Bool-cases (should_retry (process 0))) [
    | inr e ↦ (
      0,
      omega arith,
      λ j h. absurd (omega (arith, h)),
      inr e,
      retry_from-stop 1 (2 ∷ []) (process 0) (metrics_to 0) e,
    )
    | inl e ↦ elim (Bool-cases (should_retry (process 1))) [
      | inr e' ↦ (
        1,
        omega arith,
        below-one e,
        inr e',
        retry_from-go 1 (2 ∷ []) (process 0) (metrics_to 0) e
            ∙ retry_from-stop 2 [] (process 1) (metrics_to 1) e',
      )
      | inl e' ↦ (
        2,
        omega arith,
        below-two e e',
        inl refl,
        retry_from-go 1 (2 ∷ []) (process 0) (metrics_to 0) e
            ∙ retry_from-go 2 [] (process 1) (metrics_to 1) e',
      )
    ]
  ]
