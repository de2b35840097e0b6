-- ===== src/Tests/Resumable.antt =====
-- A scan of one quote with src/stock_daily_report/market_scan/resumable.py.
use stock_daily_report.Prelude.{
  ℕ, suc, ◌<◌, ◌≡◌, ◌≢◌, zero, refl, true, false, List, [], ◌∷◌, Option, none, arith, All, length,
}
use stock_daily_report.Texts.{Text}
use stock_daily_report.Scan.Filters.{UniverseQuote}
use stock_daily_report.Scan.Retries.{CandidateResult, valid, history_failed, network_error}
use stock_daily_report.Scan.Collect.{own_result}
use stock_daily_report.Scan.Checkpoints.{Completed, ScanCheckpoint, absent, written, running}
use stock_daily_report.Scan.Resumable.{
  ScanRequest, World, published, load_checkpoint, run_resumable_scan,
}
use stock_daily_report.Scan.Resumable.Cases.{Resumes, afresh, goes_on}
use stock_daily_report.Scan.Resumable.Coverage.{quotes_of}
use stock_daily_report.Scan.Resumable.Origin.{IsOfRun, Origin, run-saves_today}
use stock_daily_report.Scan.Resumable.Total.{run-publishes}
use stock_daily_report.Tests.Scan.{quote, settings}

-- The hash is the codes.
abbrev manifest : List UniverseQuote → Text
manifest [] = []
manifest (q ∷ qs) = length q.code ∷ manifest qs

abbrev request : ScanRequest
request = record {
  settings = settings;
  report_date = 9;
  semantic_hash = 7 ∷ [];
  per_batch = 1;
  max_batches = none;
  refresh_market_state = false;
}

abbrev result_at : ℕ → CandidateResult
result_at zero = record {
  quote = quote;
  status = history_failed;
  reason_codes = network_error ∷ [];
  provider_metrics = [];
}
result_at (suc k) = record {
  quote = quote;
  status = valid;
  reason_codes = [];
  provider_metrics = [];
}

abbrev world : World
world = record {
  day = λ k. 10;
  quotes = quote ∷ [];
  attempts = λ n q k. result_at k;
  verdict = λ n q. own_result;
  index_state = none;
  artifact_exists = false;
  writes = true;
}

abbrev results : Completed
results = (quote.code, result_at 1) ∷ []

-- The checkpoint of the same day that an earlier run left with the quote's result.
abbrev checkpoint : ScanCheckpoint
checkpoint = record {
  report_date = 9;
  execution_date = 10;
  scoring_config_hash = 7 ∷ [];
  manifest_hash = manifest (quote ∷ []);
  universe_quotes = quote ∷ [];
  completed = results;
  market_state = none;
  state = running;
  last_batch = 1;
}

run-saves_today_example :
    (resumed : Option ScanCheckpoint) × Resumes request world (written checkpoint) resumed
    × All
        (IsOfRun request world (Origin request world (written checkpoint) resumed))
        (run_resumable_scan manifest request world 5 (written checkpoint)).saves
run-saves_today_example = run-saves_today manifest request world 5 (written checkpoint)

few_quotes :
    (resumed : Option ScanCheckpoint)
    → Resumes request world absent resumed
    → length (quotes_of world resumed) < 5
few_quotes _ afresh = omega arith
few_quotes _ (goes_on c e fresh) = absurd (ground (arith, e))

nothing_unreadable : load_checkpoint manifest absent ≢ none
unfolding load_checkpoint
nothing_unreadable h = ground (arith, h)

run-publishes_example :
    (m : Completed) × ((run_resumable_scan manifest request world 5 absent).outcome ≡ published m)
run-publishes_example =
    run-publishes manifest request world 5 absent nothing_unreadable refl refl (omega arith)
      (λ k. refl) refl few_quotes
