-- ===== src/Scan/Runner/Statuses.antt =====
-- Every quote of the universe has a status.
use stock_daily_report.Prelude.{
  ◌≡◌, refl, ap, Bool, true, not, ◌||◌, List, [], ◌∷◌, ◌++◌, Option, inl, inr, arith, Bool-cases,
  take, drop, filter_bool, filter_bool-true, filter_bool-false,
}
use stock_daily_report.Texts.{Text}
use stock_daily_report.Bars.{Date}
use stock_daily_report.Scan.Filters.{UniverseQuote}
use stock_daily_report.Scan.Retries.{CandidateResult}
use stock_daily_report.Scan.Checkpoints.{Completed, has, update, in_codes}
use stock_daily_report.Scan.Resumable.Codes.{has-update, in_codes-split, codes-pending}
use stock_daily_report.Scan.Scoring.{FloatArithmetic}
use stock_daily_report.Scan.Scoring.Candidate.{CandidateScores}
use stock_daily_report.Scan.Runner.{
  RunnerSettings, ScanStatus, universe_excluded, not_processed, has_status, quote_statuses,
  result_statuses, collected_results, is_eligible, make_artifact, scan_market,
}

has_status-append :
    (c : Text) (xs ys : List (Text × ScanStatus))
    → has_status c (xs ++ ys) ≡ (has_status c xs || has_status c ys)
unfolding has_status
has_status-append c [] ys = refl
has_status-append c ((k, s) ∷ xs) ys = ground (arith, has_status-append c xs ys)

has_status-quotes :
    (c : Text) (s : ScanStatus) (qs : List UniverseQuote)
    → has_status c (quote_statuses s qs) ≡ in_codes c qs
unfolding has_status quote_statuses in_codes
has_status-quotes c s [] = refl
has_status-quotes c s (q ∷ qs) = ground (arith, has_status-quotes c s qs)

has_status-results : (c : Text) (m : Completed) → has_status c (result_statuses m) ≡ has c m
unfolding has_status result_statuses has
has_status-results c [] = refl
has_status-results c ((k, r) ∷ m) = ground (arith, has_status-results c m)

has-collected :
    (c : Text) (collected : UniverseQuote → CandidateResult) (qs : List UniverseQuote)
    → has c (collected_results collected qs) ≡ in_codes c qs
unfolding has collected_results in_codes
has-collected c collected [] = refl
has-collected c collected (q ∷ qs) = ground (arith, has-collected c collected qs)

codes-partition :
    (c : Text) (test : UniverseQuote → Bool) (qs : List UniverseQuote)
    → (in_codes c (filter_bool (λ q. not (test q)) qs) || in_codes c (filter_bool test qs))
      ≡ in_codes c qs
unfolding in_codes
codes-partition c test [] = refl
codes-partition c test (q ∷ qs) =
    let rest = codes-partition c test qs in
    elim (Bool-cases (test q)) [
      | inl e ↦
          rw (filter_bool-true test q qs e, filter_bool-false (λ q. not (test q)) q qs (ap not e))
            (ground (arith, rest))
      | inr e ↦
          rw (filter_bool-false test q qs e, filter_bool-true (λ q. not (test q)) q qs (ap not e))
            (ground (arith, rest))
    ]

module _ (scores_of : CandidateResult → Option CandidateScores) (settings : RunnerSettings)
    (f : FloatArithmetic) (report_date : Date) (collected : UniverseQuote → CandidateResult) where
  -- Where the results to resume from are of eligible quotes, exactly the quotes of the universe have a
  -- status: none is lost, whatever its quote, its history and the limit of candidates are.
  pub scan_market-statuses :
      (quotes : List UniverseQuote) (resume_from : Completed)
      → ((c : Text)
          → has c resume_from ≡ true
          → in_codes c (filter_bool (is_eligible settings report_date) quotes) ≡ true)
      → (c : Text)
      → has_status c
          (scan_market scores_of settings f report_date collected quotes resume_from).statuses
        ≡ in_codes c quotes
  unfolding scan_market make_artifact
  scan_market-statuses quotes resume_from eligible c =
      let candidates = filter_bool (is_eligible settings report_date) quotes in
      let excluded = filter_bool (λ q. not (is_eligible settings report_date q)) quotes in
      let remaining = filter_bool (λ q. not (has q.code resume_from)) candidates in
      let selected = take settings.max_candidates remaining in
      let unprocessed = drop settings.max_candidates remaining in
      let new = collected_results collected selected in
      let results = update resume_from new in
      let statuses =
        has_status-append c (quote_statuses universe_excluded excluded)
          (quote_statuses not_processed unprocessed ++ result_statuses results) in
      let later =
        has_status-append c (quote_statuses not_processed unprocessed) (result_statuses results) in
      let out = has_status-quotes c universe_excluded excluded in
      let over = has_status-quotes c not_processed unprocessed in
      let done = has_status-results c results in
      let old = has-update c resume_from new in
      let fresh = has-collected c collected selected in
      let split = in_codes-split c settings.max_candidates remaining in
      let pending = codes-pending c resume_from candidates in
      let partition = codes-partition c (is_eligible settings report_date) quotes in
      elim (Bool-cases (has c resume_from)) [
        | inl e ↦
            let here = eligible c e in
            ground (
              arith, e, here, statuses, later, out, over, done, old, fresh, split, pending,
              partition,
            )
        | inr e ↦
            ground
              (arith, e, statuses, later, out, over, done, old, fresh, split, pending, partition)
      ]
