-- ===== src/Tests/Runner.antt =====
-- A scan of two quotes with `scan_market` of src/stock_daily_report/market_scan/runner.py.
use stock_daily_report.Prelude.{
  refl, ◌*◌, ◌/◌, ◌≤◌, ◌≡◌, ◌⊎◌, true, List, [], ◌∷◌, Option, none, some, arith, length,
  filter_bool,
}
use stock_daily_report.Texts.{Text}
use stock_daily_report.Bars.{weekday}
use stock_daily_report.Texts.{starts_with, same_text}
use stock_daily_report.Floats.{finite}
use stock_daily_report.Quality.{most_recent_weekday, back_to_weekday}
use stock_daily_report.Scan.Reasons.{result_of, add_if, add_reason, has_reason}
use stock_daily_report.Scan.Filters.{
  filter_universe_quote, quote_reasons, has_low_amount, is_nonpositive, is_positive_finite,
  is_supported_security, is_a_share_code, is_known_prefix, expected_market, has_delisting_name,
  contains, has_st_name, UniverseQuote, sh,
}
use stock_daily_report.Scan.Retries.{CandidateResult, valid}
use stock_daily_report.Scan.Checkpoints.{put, update, has, in_codes}
use stock_daily_report.Scan.Scoring.Candidate.{CandidateScores}
use stock_daily_report.Scan.Runner.{
  RunnerSettings, valid_scores, collected_results, has_status, is_eligible, scan_market,
}
use stock_daily_report.Scan.Runner.Statuses.{scan_market-statuses}
use stock_daily_report.Scan.Runner.Published.{
  IsRankedBy, IsUnranked, IsCovered, StandsFor, candidates_in, remaining_in, results_in,
  scan_market-rankings,
}
use stock_daily_report.Floats.{Float, nan, fin, float_lt, float_le}
use stock_daily_report.Scan.Scoring.{FloatArithmetic}
use stock_daily_report.Tests.Scan.{quote, settings}
use stock_daily_report.Tests.Scoring.{score_of}

-- 600520 without a volume
abbrev suspended : UniverseQuote
suspended = record {
  code = 54 ∷ 48 ∷ 48 ∷ 53 ∷ 50 ∷ 48 ∷ [];
  normalized_name = 65 ∷ [];
  market = sh;
  latest_price = none;
  volume = none;
  amount = none;
  quote_date = 9;
}

abbrev quotes : List UniverseQuote
quotes = quote ∷ suspended ∷ []

abbrev runner_settings : RunnerSettings
runner_settings = record {
  filters = settings;
  minimum_coverage_ratio = fin 90;
  max_candidates = 1;
  trend_limit = 3;
  balanced_limit = 3;
}

abbrev result : UniverseQuote → CandidateResult
result q = record { quote = q; status = valid; reason_codes = []; provider_metrics = [] }

abbrev scores_of : CandidateResult → Option CandidateScores
scores_of r = some (record { trend = score_of 1 5; balanced = score_of 1 7 })

-- Float results are whole per cents.
abbrev percent : Float → Float → Float
percent (fin a) (fin b) = fin ((a * 100) / b)
percent _ _ = nan

abbrev percents : FloatArithmetic
percents = record {
  add = λ a b. nan;
  sub = λ a b. nan;
  times = λ a b. nan;
  over = percent;
  fsum = λ values. nan;
  of_count = fin;
}

nothing_resumed :
    (c : Text)
    → has c [] ≡ true
    → in_codes c (filter_bool (is_eligible runner_settings 9) quotes) ≡ true
unfolding has
nothing_resumed c h = absurd (ground (arith, h))

scan_market-statuses_example :
    has_status suspended.code
      (scan_market scores_of runner_settings percents 9 result quotes []).statuses
    ≡ in_codes suspended.code quotes
scan_market-statuses_example =
    scan_market-statuses scores_of runner_settings percents 9 result quotes [] nothing_resumed
      suspended.code

-- 90 per cent are 9 / 10 of the one eligible quote, which is valid.
nine_tenths :
    StandsFor percents
      (fin 90)
      9
      10
      (length (valid_scores scores_of (results_in runner_settings 9 result quotes [])))
      (length (candidates_in runner_settings 9 result quotes []))
unfolding float_lt float_le valid_scores collected_results update filter_universe_quote result_of
    quote_reasons add_if most_recent_weekday back_to_weekday weekday has_low_amount finite
    is_nonpositive is_positive_finite is_supported_security is_a_share_code is_known_prefix
    expected_market starts_with has_delisting_name put contains has_st_name add_reason has_reason
    same_text has
nine_tenths = record { positive = refl; compares = λ some. refl }

scan_market-rankings_example :
    let scores = valid_scores scores_of (results_in runner_settings 9 result quotes []) in
    let candidates = candidates_in runner_settings 9 result quotes [] in
    let complete = length (remaining_in runner_settings 9 result quotes []) ≤ 1 in
    let a = scan_market scores_of runner_settings percents 9 result quotes [] in
    (complete
      × IsCovered 9 10 (length scores) (length candidates)
      × IsRankedBy runner_settings scores a)
    ⊎ ((¬ (complete × IsCovered 9 10 (length scores) (length candidates))) × IsUnranked a)
scan_market-rankings_example =
    scan_market-rankings scores_of runner_settings percents 9 result quotes [] 9 10 nine_tenths
