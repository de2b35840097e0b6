-- ===== src/Scan/Filters/Eligible.antt =====
-- Which quotes and histories are eligible, and that both results are well formed.
use stock_daily_report.Prelude.{
  ◌≡◌, ◌↔◌, ◌≤◌, ◌<◌, refl, Bool, true, false, ◌&&◌, not, List, [], ◌∷◌, map, Option, arith, ltb,
  ◌||◌,
}
use stock_daily_report.Bars.{Date, DailyBar, weekday}
use stock_daily_report.Quality.{validate_bars, is_empty, most_recent_weekday}
use stock_daily_report.Quality.Calendar.{before-most_recent_weekday}
use stock_daily_report.Floats.{Float, finite}
use stock_daily_report.Quality.Decide.{IsFit, validate_bars_iff}
use stock_daily_report.Scan.Reasons.{
  is_distinct-nil, Reason, is_valid_result, result_of, add_issue_codes, add_if, is_empty-add_if,
  is_empty-add_issue_codes, is_distinct-add_if, is_distinct-add_issue_codes,
  is_valid_result-result_of,
}
use stock_daily_report.Scan.Filters.{
  UniverseQuote, MarketScanSettings, has_st_name, has_delisting_name, is_supported_security,
  is_positive_finite, is_nonpositive, has_low_amount, quote_reasons, filter_universe_quote,
  record_of, latest_of, is_suspended, quality_settings, history_reasons, filter_history,
}

-- The latest bar traded.
abbrev pub Trades : List DailyBar → Type 0
Trades [] = Unit
Trades (b ∷ bs) = (0 < (latest_of b bs).volume) × (0 < (latest_of b bs).amount)

is_suspended-Trades : (bars : List DailyBar) → (is_suspended bars ≡ false) ↔ Trades bars
unfolding is_suspended
is_suspended-Trades [] = ((λ _. tt), (λ _. refl))
is_suspended-Trades (b ∷ bs) = ((λ e. ground arith), (λ k. ground (arith, k)))

two_reasons-empty :
    (allowed suspended : Bool) (r s : Reason) (xs : List Reason)
    → is_empty xs ≡ allowed
    → is_empty (add_if (not allowed) r (add_if suspended s xs)) ≡ (allowed && not suspended)
two_reasons-empty allowed suspended r s xs e = ground (
  arith,
  is_empty-add_if suspended s xs,
  e,
  is_empty-add_if (not allowed) r (add_if suspended s xs),
)

-- No reason is found exactly if the quality result allows analysis and the latest bar trades.
history_reasons-empty :
    (bars : List DailyBar) (report_date : Date) (settings : MarketScanSettings)
    → let quality = validate_bars (map record_of bars) report_date (quality_settings settings) in
      is_empty (history_reasons bars report_date settings)
      ≡ (quality.analysis_allowed && not (is_suspended bars))
unfolding history_reasons validate_bars
history_reasons-empty bars report_date settings =
    let quality = validate_bars (map record_of bars) report_date (quality_settings settings) in
    two_reasons-empty quality.analysis_allowed (is_suspended bars) _ _
      (add_issue_codes quality.issues []) (is_empty-add_issue_codes quality.issues)

-- For every report date (an ordinal of 1 or more), a history is eligible exactly if it is fit
-- for analysis at a lag of one day, and its latest bar has volume and amount.
pub filter_history_iff :
    (bars : List DailyBar) (report_date : Date) (settings : MarketScanSettings)
    → 1 ≤ report_date
    → ((filter_history bars report_date settings).eligible ≡ true)
      ↔ (IsFit (map record_of bars) report_date (quality_settings settings) × Trades bars)
unfolding filter_history result_of
filter_history_iff bars report_date settings h =
    let eq = history_reasons-empty bars report_date settings in
    let fit = validate_bars_iff (map record_of bars) report_date (quality_settings settings) h in
    let trades = is_suspended-Trades bars in
    (
      (λ e. (fit.0 (ground (arith, eq, e)), trades.0 (ground (arith, eq, e)))),
      (λ k. ground (arith, eq, fit.1 k.0, trades.1 k.1)),
    )

-- What the cheap checks ask of a quote.
pub record IsTradable (q : UniverseQuote) (report_date : Date) (settings : MarketScanSettings)
    : Type 0 where
  pub no_st : has_st_name q.normalized_name ≡ false
  pub no_delisting : has_delisting_name q.normalized_name ≡ false
  pub supported : is_supported_security q ≡ true
  pub priced : is_positive_finite q.latest_price ≡ true
  pub traded : is_positive_finite q.volume ≡ true
  pub paid : is_positive_finite q.amount ≡ true
  pub liquid : has_low_amount q.amount settings.minimum_latest_amount ≡ false
  pub recent : (x : Date) → q.quote_date < x → x ≤ report_date → 5 ≤ weekday x
  pub past : q.quote_date ≤ report_date

positive-nonpositive :
    (value : Option Float) → is_positive_finite value ≡ true → is_nonpositive value ≡ false
unfolding is_positive_finite is_nonpositive finite
positive-nonpositive value h = ground arith

quote_reasons-empty :
    (q : UniverseQuote) (report_date : Date) (settings : MarketScanSettings)
    → let stale = ltb q.quote_date (most_recent_weekday report_date) in
      is_empty (quote_reasons q report_date settings) ≡ (
        not (not stale && ltb report_date q.quote_date)
        && (not stale
            && (not (has_low_amount q.amount settings.minimum_latest_amount)
                && (not (is_nonpositive q.volume || is_nonpositive q.amount)
                    && (not (
                          not (
                            is_positive_finite q.latest_price
                            && (is_positive_finite q.volume && is_positive_finite q.amount)))
                        && (not (not (is_supported_security q))
                            && (not (has_delisting_name q.normalized_name)
                                && (not (has_st_name q.normalized_name) && true))))))))
unfolding quote_reasons
quote_reasons-empty q report_date settings = simp (is_empty-add_if)

-- For every report date (an ordinal of 1 or more), a quote is eligible exactly if its name and
-- its security class pass, its price, volume and amount are finite and positive, the amount is not
-- below the minimum, its date is not after the report date, and every day after its date up to and
-- including the report date is on a weekend.
pub filter_universe_quote_iff :
    (q : UniverseQuote) (report_date : Date) (settings : MarketScanSettings)
    → 1 ≤ report_date
    → ((filter_universe_quote q report_date settings).eligible ≡ true)
      ↔ IsTradable q report_date settings
unfolding filter_universe_quote result_of
filter_universe_quote_iff q report_date settings h =
    let eq = quote_reasons-empty q report_date settings in
    let date = before-most_recent_weekday q.quote_date report_date h in
    let volume = positive-nonpositive q.volume in
    let amount = positive-nonpositive q.amount in
    (
      (λ e. record {
        no_st = ground (arith, eq, e);
        no_delisting = ground (arith, eq, e);
        supported = ground (arith, eq, e);
        priced = ground (arith, eq, e);
        traded = ground (arith, eq, e);
        paid = ground (arith, eq, e);
        liquid = ground (arith, eq, e);
        recent = date.0 (ground (arith, eq, e));
        past = ground (arith, eq, e);
      }),
      (λ k. ground (
        arith,
        eq,
        date.1 k.recent,
        volume k.traded,
        amount k.paid,
        k.no_st,
        k.no_delisting,
        k.supported,
        k.priced,
        k.traded,
        k.paid,
        k.liquid,
        k.past,
      )),
    )

-- Both filters return results that `EligibilityResult` accepts: eligible exactly without reasons,
-- and no reason twice.
pub filters_valid :
    (q : UniverseQuote) (bars : List DailyBar) (report_date : Date) (settings : MarketScanSettings)
    → (is_valid_result (filter_universe_quote q report_date settings) ≡ true)
      × (is_valid_result (filter_history bars report_date settings) ≡ true)
unfolding filter_universe_quote filter_history quote_reasons history_reasons
filters_valid q bars report_date settings = (
  is_valid_result-result_of _ (
      is_distinct-add_if _ _ _ (
        is_distinct-add_if _ _ _ (
          is_distinct-add_if _ _ _ (
            is_distinct-add_if _ _ _ (
              is_distinct-add_if _ _ _ (
                is_distinct-add_if _ _ _
                  (is_distinct-add_if _ _ _ (is_distinct-add_if _ _ [] is_distinct-nil)))))))),
  is_valid_result-result_of _ (
      is_distinct-add_if _ _ _
        (is_distinct-add_if _ _ _ (is_distinct-add_issue_codes _ [] is_distinct-nil))),
)
