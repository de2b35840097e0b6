-- ===== src/Providers/Service/Outcome.antt =====
-- Every way in which a fetch ends, by what is cached and what the providers answer.
use stock_daily_report.Prelude.{
  ◌≤◌, ◌≡◌, ◌⊎◌, ◌↔◌, refl, sym, ap, ◌∙◌, Bool, true, false, List, [], ◌∷◌, ◌++◌, Option, none,
  some, inl, inr, arith, Option-cases,
}
use stock_daily_report.Bars.{Date, DailyBar}
use stock_daily_report.Quality.{BarRecord, DataQualitySettings}
use stock_daily_report.Providers.Redact.{Value}
use stock_daily_report.Providers.Service.{
  Provider, primary, fallback, ErrorCode, Reply, answers, unavailable, FetchedBars, fetched,
  all_failed, crashed, Fetch, failure, metric, recorded_for, Attempts, no_attempts, add_failure,
  selection, accept, fetch_from, fetch,
}
use stock_daily_report.Providers.Service.Selection.{
  Reply-cases, IsSound, accept-IsSound, accept-fails_not, asked-cached, asked-answers,
  asked-unavailable, asked-crashes,
}

module _ (cached : Provider → Option Value) (request : Provider → Reply) where
  -- The response that a fetch goes by: a cached one before any request, and the primary provider's
  -- before the fallback's.
  pub data Chosen : Provider → Bool → Value → Type 0 where
    primary_cached : (v : Value) → cached primary ≡ some v → Chosen primary true v
    fallback_cached :
        (v : Value) → cached primary ≡ none → cached fallback ≡ some v → Chosen fallback true v
    primary_asked :
        (v : Value)
        → cached primary ≡ none
        → cached fallback ≡ none
        → request primary ≡ answers v
        → Chosen primary false v
    fallback_asked :
        (v : Value) (code : ErrorCode)
        → cached primary ≡ none
        → cached fallback ≡ none
        → request primary ≡ unavailable code
        → request fallback ≡ answers v
        → Chosen fallback false v

  -- Nothing is cached and neither provider is available.
  pub record IsOutage (c d : ErrorCode) : Type 0 where
    pub primary_missing : cached primary ≡ none
    pub fallback_missing : cached fallback ≡ none
    pub primary_down : request primary ≡ unavailable c
    pub fallback_down : request fallback ≡ unavailable d

  selection-primary :
      (v : Value) → cached primary ≡ some v → selection cached ≡ primary ∷ fallback ∷ []
  unfolding selection
  selection-primary v e = rw (e, selection) refl

  selection-fallback :
      (v : Value)
      → cached primary ≡ none
      → cached fallback ≡ some v
      → selection cached ≡ fallback ∷ primary ∷ []
  unfolding selection
  selection-fallback v e e' = rw (e, e', selection) refl

  selection-none :
      cached primary ≡ none → cached fallback ≡ none → selection cached ≡ primary ∷ fallback ∷ []
  unfolding selection
  selection-none e e' = rw (e, e', selection) refl

  module _ (parse : Value → BarRecord) (normalize : Value → Option DailyBar) (as_of : Date)
      (settings : DataQualitySettings) where
    abbrev result : Fetch
    result = fetch parse normalize as_of settings cached request

    abbrev asked : List Provider → Attempts → Fetch
    asked ps a = fetch_from parse normalize as_of settings cached request ps a

    abbrev taken : Provider → Bool → Attempts → Value → Fetch
    taken p from_cache a response = accept parse normalize as_of settings p from_cache a response

    fetch-by : (ps : List Provider) → selection cached ≡ ps → result ≡ asked ps no_attempts
    unfolding fetch
    fetch-by ps e = rw e refl

    fetch-Chosen :
        (p : Provider) (from_cache : Bool) (v : Value)
        → Chosen p from_cache v
        → (a : Attempts) × (result ≡ taken p from_cache a v)
    fetch-Chosen _ _ _ (primary_cached v e) =
        let found =
          asked-cached parse normalize as_of settings cached request primary (fallback ∷ [])
            no_attempts v e in
        (no_attempts, fetch-by _ (selection-primary v e) ∙ found)
    fetch-Chosen _ _ _ (fallback_cached v e e') =
        let found =
          asked-cached parse normalize as_of settings cached request fallback (primary ∷ [])
            no_attempts v e' in
        (no_attempts, fetch-by _ (selection-fallback v e e') ∙ found)
    fetch-Chosen _ _ _ (primary_asked v e e' r) =
        let found =
          asked-answers parse normalize as_of settings cached request primary (fallback ∷ [])
            no_attempts v e r in
        (no_attempts, fetch-by _ (selection-none e e') ∙ found)
    fetch-Chosen _ _ _ (fallback_asked v code e e' r r') =
        let a = add_failure primary code no_attempts in
        let failed =
          asked-unavailable parse normalize as_of settings cached request primary (fallback ∷ [])
            no_attempts code e r in
        let found =
          asked-answers parse normalize as_of settings cached request fallback [] a v e' r' in
        (a, fetch-by _ (selection-none e e') ∙ failed ∙ found)

    fetch-IsOutage :
        (c d : ErrorCode)
        → IsOutage c d
        → result ≡ asked [] (add_failure fallback d (add_failure primary c no_attempts))
    fetch-IsOutage c d o =
        let first =
          asked-unavailable parse normalize as_of settings cached request primary (fallback ∷ [])
            no_attempts c o.primary_missing o.primary_down in
        let second =
          asked-unavailable parse normalize as_of settings cached request fallback []
            (add_failure primary c no_attempts) d o.fallback_missing o.fallback_down in
        fetch-by _ (selection-none o.primary_missing o.fallback_missing) ∙ first ∙ second

    outage-outcome :
        (c d : ErrorCode)
        → IsOutage c d
        → result.outcome ≡ all_failed ((primary, c) ∷ (fallback, d) ∷ [])
    unfolding fetch_from
    outage-outcome c d o = ap (λ x. x.outcome) (fetch-IsOutage c d o)

    -- A response is chosen, or both providers are down, or a request crashes.
    abbrev Ends : Type 0
    Ends =
        ((p : Provider) × (from_cache : Bool) × (v : Value) × Chosen p from_cache v)
        ⊎ ((c : ErrorCode) × (d : ErrorCode) × IsOutage c d)
        ⊎ (result.outcome ≡ crashed)

    fallback-Ends :
        (c : ErrorCode)
        → cached primary ≡ none
        → cached fallback ≡ none
        → request primary ≡ unavailable c
        → Ends
    fallback-Ends c e e' r =
        let first =
          asked-unavailable parse normalize as_of settings cached request primary (fallback ∷ [])
            no_attempts c e r in
        let a = add_failure primary c no_attempts in
        elim (Reply-cases (request fallback)) [
          | inl (v, r') ↦ inl (fallback, false, v, fallback_asked v c e e' r r')
          | inr (inl (d, r')) ↦ inr (
              inl (
                c,
                d,
                record {
                  primary_missing = e;
                  fallback_missing = e';
                  primary_down = r;
                  fallback_down = r';
                },
              ))
          | inr (inr r') ↦ inr (
              inr (
                ap (λ x. x.outcome) (fetch-by _ (selection-none e e') ∙ first)
                ∙ asked-crashes parse normalize as_of settings cached request fallback [] a e' r'))
        ]

    fetch-Ends : Ends
    fetch-Ends = elim (Option-cases (cached primary)) [
      | inr (v, e) ↦ inl (primary, true, v, primary_cached v e)
      | inl e ↦ elim (Option-cases (cached fallback)) [
        | inr (v, e') ↦ inl (fallback, true, v, fallback_cached v e e')
        | inl e' ↦ elim (Reply-cases (request primary)) [
          | inl (v, r) ↦ inl (primary, false, v, primary_asked v e e' r)
          | inr (inl (c, r)) ↦ fallback-Ends c e e' r
          | inr (inr r) ↦ inr (
              inr (
                ap (λ x. x.outcome) (fetch-by _ (selection-none e e'))
                ∙ asked-crashes parse normalize as_of settings cached request primary
                    (fallback ∷ []) no_attempts e r))
        ]
      ]
    ]

    -- On a date from the first day on, the bars that a fetch returns are the normalized items of the
    -- response that `Chosen` names, this response passes every check of the data quality, and it is
    -- to be cached exactly when it did not come from the cache.
    pub fetch-IsSound :
        (f : FetchedBars)
        → 1 ≤ as_of
        → result.outcome ≡ fetched f
        → (p : Provider) × (from_cache : Bool) × (v : Value) × Chosen p from_cache v
          × IsSound parse normalize as_of settings p from_cache v f result.persisted
    fetch-IsSound f day h = elim fetch-Ends [
      | inl (p, from_cache, v, c) ↦
          let (a, e) = fetch-Chosen p from_cache v c in
          (
            p,
            from_cache,
            v,
            c,
            rw e (accept-IsSound parse normalize as_of settings p from_cache a v f day (rw⁻¹ e h)),
          )
      | inr (inl (c, d, o)) ↦ absurd (ground (arith, outage-outcome c d o, h))
      | inr (inr e) ↦ absurd (ground (arith, e, h))
    ]

    -- A fetch fails for every provider exactly when nothing is cached and neither is available, and
    -- it names both failures, the primary provider's first.
    pub fetch-all_failed_iff :
        (fs : List (Provider × ErrorCode))
        → (result.outcome ≡ all_failed fs) ↔ (
            (c : ErrorCode) × (d : ErrorCode) × IsOutage c d
            × (fs ≡ (primary, c) ∷ (fallback, d) ∷ []))
    fetch-all_failed_iff fs = (
      (λ h. elim fetch-Ends [
        | inl (p, from_cache, v, c) ↦
            let (a, e) = fetch-Chosen p from_cache v c in
            absurd (accept-fails_not parse normalize as_of settings p from_cache a v fs (rw⁻¹ e h))
        | inr (inl (c, d, o)) ↦ (c, d, o, cc (h, outage-outcome c d o))
        | inr (inr e) ↦ absurd (ground (arith, e, h))
      ]),
      (λ (c, d, o, e). outage-outcome c d o ∙ ap all_failed (sym e)),
    )

    -- In an outage the metrics are two failures, the second one a retry, and a failure is recorded at
    -- the gate for each provider whose error was not that its circuit is open; nothing is cached.
    pub fetch-outage_lem :
        (c d : ErrorCode)
        → IsOutage c d
        → (result.metrics
            ≡ metric primary failure false [] (some c)
              ∷ metric fallback failure false ((primary, c) ∷ []) (some d)
              ∷ [])
          × (result.recorded ≡ recorded_for primary c ++ recorded_for fallback d)
          × (result.persisted ≡ none)
    unfolding fetch_from
    fetch-outage_lem c d o = rw (fetch-IsOutage c d o) (refl, refl, refl)
