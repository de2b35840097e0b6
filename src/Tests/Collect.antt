-- ===== src/Tests/Collect.antt =====
-- Two requests, one worker and three polls of src/stock_daily_report/market_scan/runner.py.
use stock_daily_report.Prelude.{ℕ, ◌+◌, ◌≡◌, refl, false, List, [], ◌∷◌, All, ◌==◌}
use stock_daily_report.Scan.Collect.{
  Poll, fetch_timeout, deadline_of, set_deadlines, is_pending, settle, cancel_blocked,
  blocked_workers, poll_round, while_pending, collect_from, collect_with_timeout,
  fetch_workers_unavailable,
}
use stock_daily_report.Scan.Collect.Once.{occurrences, result_count, collect_with_timeout-once}
use stock_daily_report.Scan.Collect.Timely.{IsTimely, collect_with_timeout-IsTimely}

abbrev poll_at : ℕ → Poll
poll_at now = record { now = now; done = λ f. false; running = λ f. f == 1; cancels = λ f. f == 2 }

abbrev polls : List Poll
polls = poll_at 10 ∷ poll_at 20 ∷ poll_at 30 ∷ []

-- Request 1 blocks the worker; request 2 is cancelled at the poll after its timeout.
polls-results :
    (collect_with_timeout (1 ∷ 2 ∷ []) 1 10 polls).results
    ≡ (1, fetch_timeout) ∷ (2, fetch_workers_unavailable) ∷ []
unfolding collect_with_timeout collect_from while_pending poll_round cancel_blocked blocked_workers
    settle is_pending set_deadlines deadline_of
polls-results = refl

collect_with_timeout-once_example :
    let c = collect_with_timeout (1 ∷ 2 ∷ []) 1 10 polls in
    result_count 2 c.results + occurrences 2 c.pending ≡ occurrences 2 (1 ∷ 2 ∷ [])
collect_with_timeout-once_example = collect_with_timeout-once (1 ∷ 2 ∷ []) 1 10 polls 2

collect_with_timeout-IsTimely_example :
    All (IsTimely 10 polls) (collect_with_timeout (1 ∷ 2 ∷ []) 1 10 polls).results
collect_with_timeout-IsTimely_example = collect_with_timeout-IsTimely (1 ∷ 2 ∷ []) 1 10 polls
