-- ===== src/Scan/Runner/Published.antt =====
-- When `scan_market` of src/stock_daily_report/market_scan/runner.py gives rankings, and which.
use stock_daily_report.Prelude.{
  ℕ, ◌*◌, ◌≤◌, ◌<◌, ◌≡◌, ◌⊎◌, refl, Bool, true, false, not, ◌&&◌, List, [], map, Option, inl, inr,
  arith, Bool-cases, leb, leb→le, length, take, drop, filter_bool, ◌==◌,
}
use stock_daily_report.Bars.{Date}
use stock_daily_report.Floats.{Float, fin, float_lt, float_ge, float_le}
use stock_daily_report.Scan.Filters.{UniverseQuote}
use stock_daily_report.Scan.Retries.{CandidateResult}
use stock_daily_report.Scan.Checkpoints.{Completed, has, update}
use stock_daily_report.Scan.Scoring.{FloatArithmetic}
use stock_daily_report.Scan.Scoring.Candidate.{CandidateScores}
use stock_daily_report.Scan.Scoring.Ranking.{ranking, consensus}
use stock_daily_report.Scan.Runner.{
  RunnerSettings, ScanArtifact, collected_results, is_eligible, valid_scores, coverage_of,
  make_artifact, scan_market,
}

-- The two rankings of the scores, with their consensus.
pub record IsRankedBy (settings : RunnerSettings) (scores : List CandidateScores) (a : ScanArtifact)
    : Type 0 where
  pub trend_ranking : a.trend ≡ ranking (map (λ s. s.trend) scores) settings.trend_limit
  pub balanced_ranking : a.balanced ≡ ranking (map (λ s. s.balanced) scores) settings.balanced_limit
  pub agreement : a.consensus ≡ consensus a.trend a.balanced

pub record IsUnranked (a : ScanArtifact) : Type 0 where
  pub no_trend : a.trend ≡ []
  pub no_balanced : a.balanced ≡ []
  pub no_consensus : a.consensus ≡ []

-- Some quote is eligible, and `valid_count` is p / q or more of `eligible_count`.
abbrev pub IsCovered : ℕ → ℕ → ℕ → ℕ → Type 0
IsCovered p q valid_count eligible_count =
    (0 < eligible_count) × (p * eligible_count ≤ valid_count * q)

-- Among these counts the setting stands for p / q: it is positive, and the float quotient of the counts
-- is compared with it as the counts' ratio is with p / q.
pub record StandsFor (f : FloatArithmetic) (minimum : Float) (p q valid_count eligible_count : ℕ)
    : Type 0 where
  pub positive : float_lt (fin 0) minimum ≡ true
  pub compares :
      0 < eligible_count
      → float_ge (f.over (f.of_count valid_count) (f.of_count eligible_count)) minimum
        ≡ leb (p * eligible_count) (valid_count * q)

module _ (f : FloatArithmetic) (minimum : Float) (p q v e : ℕ)
    (h : StandsFor f minimum p q v e) where
  coverage_of-IsCovered : float_ge (coverage_of f v e) minimum ≡ true → IsCovered p q v e
  unfolding coverage_of float_le
  coverage_of-IsCovered k = elim (Bool-cases (e == 0)) [
    | inl empty ↦ absurd (ground (arith, empty, k, h.positive))
    | inr some ↦
        let compared = h.compares (ground (arith, some)) in
        (ground (arith, some), ground (arith, some, k, compared))
  ]

  coverage_of-NotCovered : float_ge (coverage_of f v e) minimum ≡ false → ¬ IsCovered p q v e
  unfolding coverage_of float_le
  coverage_of-NotCovered k (some, share) =
      let compared = h.compares some in absurd (ground (arith, some, share, k, compared))

module _ (scores_of : CandidateResult → Option CandidateScores) (settings : RunnerSettings)
    (f : FloatArithmetic) where
  make_artifact-IsRankedBy :
      (candidates excluded unprocessed : List UniverseQuote) (results : Completed)
      → let scores = valid_scores scores_of results in
        float_ge (coverage_of f (length scores) (length candidates)) settings.minimum_coverage_ratio
          ≡ true
        → IsRankedBy settings scores
            (make_artifact scores_of settings f candidates excluded unprocessed results true)
  unfolding make_artifact
  make_artifact-IsRankedBy candidates excluded unprocessed results e = record {
    trend_ranking = rw e refl;
    balanced_ranking = rw e refl;
    agreement = refl;
  }

  make_artifact-IsUnranked :
      (candidates excluded unprocessed : List UniverseQuote) (results : Completed) (complete : Bool)
      → let scores = valid_scores scores_of results in
        let coverage = coverage_of f (length scores) (length candidates) in
        (complete && float_ge coverage settings.minimum_coverage_ratio) ≡ false
        → IsUnranked
            (make_artifact scores_of settings f candidates excluded unprocessed results complete)
  unfolding make_artifact consensus
  make_artifact-IsUnranked candidates excluded unprocessed results complete e = record {
    no_trend = rw e refl;
    no_balanced = rw e refl;
    no_consensus = rw e refl;
  }

module _ (settings : RunnerSettings) (report_date : Date)
    (collected : UniverseQuote → CandidateResult) (quotes : List UniverseQuote)
    (resume_from : Completed) where
  abbrev pub candidates_in : List UniverseQuote
  candidates_in = filter_bool (is_eligible settings report_date) quotes

  -- The candidates without a result to resume from.
  abbrev pub remaining_in : List UniverseQuote
  remaining_in = filter_bool (λ q. not (has q.code resume_from)) candidates_in

  -- The results to resume from, updated by those of the candidates that are selected.
  abbrev pub results_in : Completed
  results_in =
      update resume_from (collected_results collected (take settings.max_candidates remaining_in))

module _ (scores_of : CandidateResult → Option CandidateScores) (settings : RunnerSettings)
    (f : FloatArithmetic) (report_date : Date) (collected : UniverseQuote → CandidateResult)
    (quotes : List UniverseQuote) (resume_from : Completed) (p q : ℕ) where
  -- If the setting of the coverage stands for p / q among the counts of the run, then the artifact has
  -- the rankings of the valid results' scores, cut at their limits, and their consensus, if some quote
  -- is eligible, the valid results are p / q or more of the eligible quotes, and the candidates without
  -- a result to resume from are within the limit; otherwise it has no ranking and no consensus.
  pub scan_market-rankings :
      StandsFor f settings.minimum_coverage_ratio p q
        (length
          (valid_scores scores_of (results_in settings report_date collected quotes resume_from)))
        (length (candidates_in settings report_date collected quotes resume_from))
      → let scores =
          valid_scores scores_of (results_in settings report_date collected quotes resume_from) in
        let candidates = candidates_in settings report_date collected quotes resume_from in
        let remaining = remaining_in settings report_date collected quotes resume_from in
        let complete = length remaining ≤ settings.max_candidates in
        let a = scan_market scores_of settings f report_date collected quotes resume_from in
        (complete
          × IsCovered p q (length scores) (length candidates)
          × IsRankedBy settings scores a)
        ⊎ ((¬ (complete × IsCovered p q (length scores) (length candidates))) × IsUnranked a)
  unfolding scan_market
  scan_market-rankings h =
      let results = results_in settings report_date collected quotes resume_from in
      let v = length (valid_scores scores_of results) in
      let candidates = candidates_in settings report_date collected quotes resume_from in
      let remaining = remaining_in settings report_date collected quotes resume_from in
      let excluded = filter_bool (λ q. not (is_eligible settings report_date q)) quotes in
      let unprocessed = drop settings.max_candidates remaining in
      let minimum = settings.minimum_coverage_ratio in
      let unranked =
        make_artifact-IsUnranked scores_of settings f candidates excluded unprocessed results in
      elim (Bool-cases (leb (length remaining) settings.max_candidates)) [
        | inr over ↦ inr ((λ k. ground (arith, over, k.0)), unranked _ (rw over refl))
        | inl within ↦ elim (Bool-cases (float_ge (coverage_of f v (length candidates)) minimum)) [
          | inl reached ↦ inl (
            leb→le (length remaining) settings.max_candidates within,
            coverage_of-IsCovered f minimum p q v (length candidates) h reached,
            rw within (
                make_artifact-IsRankedBy scores_of settings f candidates excluded unprocessed
                  results reached),
          )
          | inr missed ↦ inr (
            (λ k. coverage_of-NotCovered f minimum p q v (length candidates) h missed k.1),
            unranked _ (rw (within, missed) refl),
          )
        ]
      ]
