-- ===== src/Scan/Runner.antt =====
-- src/stock_daily_report/market_scan/runner.py: `scan_market` from the universe's quotes on, as far as
-- the statuses, the counts and the rankings go. The hashes, the reasons' counts, the providers' names
-- and the market state of the artifact are left out.
--
-- Parameters: `collected q` is the result that the collection of the selected quotes gives for q, and
-- `scores_of` the scores that a result carries. `FloatArithmetic` is Python's arithmetic on floats: the
-- division of two counts is the division of the counts as floats.
pub mod Statuses
pub mod Published
use stock_daily_report.Prelude.{
  ℕ, ◌+◌, Bool, true, false, not, ◌&&◌, ◌||◌, List, [], ◌∷◌, ◌++◌, map, Option, none, some, leb,
  if◌then◌else◌, length, take, drop, filter_bool, cons?, ◌==◌,
}
use stock_daily_report.Texts.{Text, same_text}
use stock_daily_report.Bars.{Date}
use stock_daily_report.Scan.Reasons.{EligibilityResult}
use stock_daily_report.Scan.Filters.{UniverseQuote, MarketScanSettings, filter_universe_quote}
use stock_daily_report.Scan.Retries.{
  CandidateResult, ResultStatus, valid, history_excluded, history_failed,
}
use stock_daily_report.Scan.Checkpoints.{Completed, has, update}
use stock_daily_report.Floats.{Float, fin, float_ge}
use stock_daily_report.Scan.Scoring.{FloatArithmetic}
use stock_daily_report.Scan.Scoring.Candidate.{CandidateScores}
use stock_daily_report.Scan.Scoring.Ranking.{RankingRecord, ConsensusRecord, ranking, consensus}

pub record RunnerSettings : Type 0 where
  pub filters : MarketScanSettings
  pub minimum_coverage_ratio : Float
  pub max_candidates : ℕ
  pub trend_limit : ℕ
  pub balanced_limit : ℕ

-- The statuses of `ScanStatus`; a processed quote has the status of its result.
pub data ScanStatus : Type 0 where
  universe_excluded not_processed : ScanStatus
  processed : ResultStatus → ScanStatus

-- `statuses` is the dictionary as the list of its insertions.
pub record ScanArtifact : Type 0 where
  pub universe_count : ℕ
  pub eligible_count : ℕ
  pub valid_count : ℕ
  pub coverage : Float
  pub statuses : List (Text × ScanStatus)
  pub trend : List RankingRecord
  pub balanced : List RankingRecord
  pub consensus : List ConsensusRecord

unfoldable pub has_status : Text → List (Text × ScanStatus) → Bool
has_status code [] = false
has_status code ((key, s) ∷ statuses) = same_text code key || has_status code statuses

unfoldable pub quote_statuses : ScanStatus → List UniverseQuote → List (Text × ScanStatus)
quote_statuses s [] = []
quote_statuses s (q ∷ qs) = (q.code, s) ∷ quote_statuses s qs

unfoldable pub result_statuses : Completed → List (Text × ScanStatus)
result_statuses [] = []
result_statuses ((code, r) ∷ results) = (code, processed r.status) ∷ result_statuses results

unfoldable pub collected_results :
    (UniverseQuote → CandidateResult) → List UniverseQuote → Completed
collected_results collected [] = []
collected_results collected (q ∷ qs) = (q.code, collected q) ∷ collected_results collected qs

abbrev pub is_eligible : RunnerSettings → Date → UniverseQuote → Bool
is_eligible settings report_date q = (filter_universe_quote q report_date settings.filters).eligible

abbrev pub scores_if_valid : ResultStatus → Option CandidateScores → Option CandidateScores
scores_if_valid valid scores = scores
scores_if_valid history_excluded scores = none
scores_if_valid history_failed scores = none

-- `coverage`, of the valid and the eligible quotes
unfoldable pub coverage_of : FloatArithmetic → ℕ → ℕ → Float
coverage_of f valid_count eligible_count =
    if eligible_count == 0
    then fin 0
    else f.over (f.of_count valid_count) (f.of_count eligible_count)

module _ (scores_of : CandidateResult → Option CandidateScores) where
  unfoldable pub valid_scores : Completed → List CandidateScores
  valid_scores [] = []
  valid_scores ((code, r) ∷ results) =
      cons? (scores_if_valid r.status (scores_of r)) (valid_scores results)

  module _ (settings : RunnerSettings) (f : FloatArithmetic) where
    -- The artifact from the candidates, the excluded quotes and the results, with or without rankings.
    unfoldable pub make_artifact :
        List UniverseQuote
        → List UniverseQuote
        → List UniverseQuote
        → Completed
        → Bool
        → ScanArtifact
    make_artifact candidates excluded unprocessed results complete =
        let scores = valid_scores results in
        let coverage = coverage_of f (length scores) (length candidates) in
        let ranked = complete && float_ge coverage settings.minimum_coverage_ratio in
        let trend =
          if ranked then ranking (map (λ s. s.trend) scores) settings.trend_limit else [] in
        let balanced =
          if ranked then ranking (map (λ s. s.balanced) scores) settings.balanced_limit else [] in
        record {
          universe_count = length candidates + length excluded;
          eligible_count = length candidates;
          valid_count = length scores;
          coverage = coverage;
          statuses =
              quote_statuses universe_excluded excluded
              ++ (quote_statuses not_processed unprocessed ++ result_statuses results);
          trend = trend;
          balanced = balanced;
          consensus = consensus trend balanced;
        }

    unfoldable pub scan_market :
        Date → (UniverseQuote → CandidateResult) → List UniverseQuote → Completed → ScanArtifact
    scan_market report_date collected quotes resume_from =
        let candidates = filter_bool (is_eligible settings report_date) quotes in
        let excluded = filter_bool (λ q. not (is_eligible settings report_date q)) quotes in
        let remaining = filter_bool (λ q. not (has q.code resume_from)) candidates in
        let selected = take settings.max_candidates remaining in
        make_artifact candidates excluded (drop settings.max_candidates remaining)
          (update resume_from (collected_results collected selected))
          (leb (length remaining) settings.max_candidates)
