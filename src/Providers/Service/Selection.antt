-- ===== src/Providers/Service/Selection.antt =====
-- Which provider's bars a fetch returns, and that they passed the checks.
use stock_daily_report.Prelude.{
  ◌≤◌, ◌≡◌, ◌⊎◌, refl, subst, Bool, true, false, List, ◌∷◌, map, Option, none, some, inl, inr,
  arith, Bool-cases, Option-cases, if◌then◌else◌,
}
use stock_daily_report.Bars.{Date, DailyBar}
use stock_daily_report.Quality.{BarRecord, DataQualitySettings}
use stock_daily_report.Quality.Decide.{IsFit, validate_bars_iff}
use stock_daily_report.Providers.Redact.{Value}
use stock_daily_report.Providers.Service.{
  Provider, ErrorCode, Reply, answers, unavailable, crashes, FetchedBars, fetched, rejected,
  all_failed, crashed, Fetch, sequence_of, normalize_all, Attempts, add_failure, quality_of,
  accept_bars, accept_items, no_sequence, accept, fetch_from,
}

pub Reply-cases :
    (r : Reply)
    → ((v : Value) × (r ≡ answers v)) ⊎ ((c : ErrorCode) × (r ≡ unavailable c)) ⊎ (r ≡ crashes)
Reply-cases (answers v) = inl (v, refl)
Reply-cases (unavailable c) = inr (inl (c, refl))
Reply-cases crashes = inr (inr refl)

module _ (parse : Value → BarRecord) (normalize : Value → Option DailyBar) (as_of : Date)
    (settings : DataQualitySettings) where
  -- The bars of a fetch are the normalized items of a response that the checks allow, and only a
  -- response that did not come from the cache is to be cached.
  pub record IsSound (p : Provider) (from_cache : Bool) (response : Value) (f : FetchedBars)
      (persisted : Option (Provider × Value)) : Type 0 where
    pub values : List Value
    pub is_sequence : sequence_of response ≡ some values
    pub fit : IsFit (map parse values) as_of settings
    pub normalized : normalize_all normalize values ≡ some f.bars
    pub provider : f.provider_name ≡ p
    pub cache : f.from_cache ≡ from_cache
    pub stored : persisted ≡ (if from_cache then none else some (p, response))

  abbrev accepted : Provider → Bool → List Value → List DailyBar → FetchedBars
  accepted p from_cache vs bars = record {
    provider_name = p;
    bars = bars;
    quality = quality_of parse normalize as_of settings vs;
    from_cache = from_cache;
  }

  accept_bars-IsSound :
      (p : Provider) (from_cache : Bool) (a : Attempts) (response : Value) (vs : List Value)
      (bars : Option (List DailyBar)) (f : FetchedBars)
      → sequence_of response ≡ some vs
      → IsFit (map parse vs) as_of settings
      → normalize_all normalize vs ≡ bars
      → let x = accept_bars parse normalize as_of settings p from_cache a response vs bars in
        x.outcome ≡ fetched f → IsSound p from_cache response f x.persisted
  unfolding accept_bars
  accept_bars-IsSound p from_cache a response vs none f seq fit e h = absurd (ground (arith, h))
  accept_bars-IsSound p from_cache a response vs (some bars) f seq fit e h =
      let same : accepted p from_cache vs bars ≡ f = cc h in
      subst (λ f. IsSound p from_cache response f (if from_cache then none else some (p, response)))
        same
        (record {
          values = vs;
          is_sequence = seq;
          fit = fit;
          normalized = e;
          provider = refl;
          cache = refl;
          stored = refl;
        })

  accept_items-allowed :
      (p : Provider) (from_cache : Bool) (a : Attempts) (response : Value) (vs : List Value)
      → (quality_of parse normalize as_of settings vs).analysis_allowed ≡ true
      → accept_items parse normalize as_of settings p from_cache a response vs
        ≡ accept_bars parse normalize as_of settings p from_cache a response vs
            (normalize_all normalize vs)
  unfolding accept_items
  accept_items-allowed p from_cache a response vs e = rw e refl

  accept_items-refused :
      (p : Provider) (from_cache : Bool) (a : Attempts) (response : Value) (vs : List Value)
      → (quality_of parse normalize as_of settings vs).analysis_allowed ≡ false
      → (accept_items parse normalize as_of settings p from_cache a response vs).outcome
        ≡ rejected p (quality_of parse normalize as_of settings vs)
  unfolding accept_items
  accept_items-refused p from_cache a response vs e = simp e

  accept_items-IsSound :
      (p : Provider) (from_cache : Bool) (a : Attempts) (response : Value) (vs : List Value)
      (f : FetchedBars)
      → 1 ≤ as_of
      → sequence_of response ≡ some vs
      → let x = accept_items parse normalize as_of settings p from_cache a response vs in
        x.outcome ≡ fetched f → IsSound p from_cache response f x.persisted
  accept_items-IsSound p from_cache a response vs f day seq h =
      elim (Bool-cases (quality_of parse normalize as_of settings vs).analysis_allowed) [
        | inr refused ↦
            absurd (ground (arith, accept_items-refused p from_cache a response vs refused, h))
        | inl allowed ↦
            let e = accept_items-allowed p from_cache a response vs allowed in
            rw e (
              accept_bars-IsSound p from_cache a response vs (normalize_all normalize vs) f seq
                ((validate_bars_iff (map parse vs) as_of settings day).0 allowed) refl (rw⁻¹ e h))
      ]

  accept-sequence :
      (p : Provider) (from_cache : Bool) (a : Attempts) (response : Value) (vs : List Value)
      → sequence_of response ≡ some vs
      → accept parse normalize as_of settings p from_cache a response
        ≡ accept_items parse normalize as_of settings p from_cache a response vs
  unfolding accept
  accept-sequence p from_cache a response vs e = rw (e, accept) refl

  accept-no_sequence :
      (p : Provider) (from_cache : Bool) (a : Attempts) (response : Value)
      → sequence_of response ≡ none
      → (accept parse normalize as_of settings p from_cache a response).outcome
        ≡ rejected p (no_sequence parse normalize as_of settings)
  unfolding accept
  accept-no_sequence p from_cache a response e = simp (e, accept)

  pub accept-IsSound :
      (p : Provider) (from_cache : Bool) (a : Attempts) (response : Value) (f : FetchedBars)
      → 1 ≤ as_of
      → let x = accept parse normalize as_of settings p from_cache a response in
        x.outcome ≡ fetched f → IsSound p from_cache response f x.persisted
  accept-IsSound p from_cache a response f day h = elim (Option-cases (sequence_of response)) [
    | inl missing ↦ absurd (ground (arith, accept-no_sequence p from_cache a response missing, h))
    | inr (vs, seq) ↦
        let e = accept-sequence p from_cache a response vs seq in
        rw e (accept_items-IsSound p from_cache a response vs f day seq (rw⁻¹ e h))
  ]

  accept_bars-fails_not :
      (p : Provider) (from_cache : Bool) (a : Attempts) (response : Value) (vs : List Value)
      (bars : Option (List DailyBar)) (fs : List (Provider × ErrorCode))
      → ¬ (
          (accept_bars parse normalize as_of settings p from_cache a response vs bars).outcome
          ≡ all_failed fs)
  unfolding accept_bars
  accept_bars-fails_not p from_cache a response vs none fs h = ground (arith, h)
  accept_bars-fails_not p from_cache a response vs (some bars) fs h = ground (arith, h)

  accept_items-fails_not :
      (p : Provider) (from_cache : Bool) (a : Attempts) (response : Value) (vs : List Value)
      (fs : List (Provider × ErrorCode))
      → ¬ (
          (accept_items parse normalize as_of settings p from_cache a response vs).outcome
          ≡ all_failed fs)
  accept_items-fails_not p from_cache a response vs fs h =
      elim (Bool-cases (quality_of parse normalize as_of settings vs).analysis_allowed) [
        | inr refused ↦ ground (arith, accept_items-refused p from_cache a response vs refused, h)
        | inl allowed ↦
            accept_bars-fails_not p from_cache a response vs (normalize_all normalize vs) fs
              (rw⁻¹ (accept_items-allowed p from_cache a response vs allowed) h)
      ]

  -- What has a response never ends in a failure of all providers.
  pub accept-fails_not :
      (p : Provider) (from_cache : Bool) (a : Attempts) (response : Value)
      (fs : List (Provider × ErrorCode))
      → ¬ ((accept parse normalize as_of settings p from_cache a response).outcome ≡ all_failed fs)
  accept-fails_not p from_cache a response fs h = elim (Option-cases (sequence_of response)) [
    | inl missing ↦ ground (arith, accept-no_sequence p from_cache a response missing, h)
    | inr (vs, seq) ↦
        accept_items-fails_not p from_cache a response vs fs
          (rw⁻¹ (accept-sequence p from_cache a response vs seq) h)
  ]

  module _ (cached : Provider → Option Value) (request : Provider → Reply) where
    abbrev asked : List Provider → Attempts → Fetch
    asked ps a = fetch_from parse normalize as_of settings cached request ps a

    abbrev taken : Provider → Bool → Attempts → Value → Fetch
    taken p from_cache a response = accept parse normalize as_of settings p from_cache a response

    pub asked-cached :
        (p : Provider) (ps : List Provider) (a : Attempts) (v : Value)
        → cached p ≡ some v
        → asked (p ∷ ps) a ≡ taken p true a v
    unfolding fetch_from
    asked-cached p ps a v e = rw (e, fetch_from) refl

    pub asked-answers :
        (p : Provider) (ps : List Provider) (a : Attempts) (v : Value)
        → cached p ≡ none
        → request p ≡ answers v
        → asked (p ∷ ps) a ≡ taken p false a v
    unfolding fetch_from
    asked-answers p ps a v e r = rw (e, r, fetch_from) refl

    pub asked-unavailable :
        (p : Provider) (ps : List Provider) (a : Attempts) (code : ErrorCode)
        → cached p ≡ none
        → request p ≡ unavailable code
        → asked (p ∷ ps) a ≡ asked ps (add_failure p code a)
    unfolding fetch_from
    asked-unavailable p ps a code e r = rw (e, r, fetch_from) refl

    pub asked-crashes :
        (p : Provider) (ps : List Provider) (a : Attempts)
        → cached p ≡ none
        → request p ≡ crashes
        → (asked (p ∷ ps) a).outcome ≡ crashed
    unfolding fetch_from
    asked-crashes p ps a e r = simp (e, r, fetch_from)
