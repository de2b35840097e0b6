-- ===== src/Scan/Resumable/Coverage.antt =====
-- The codes of the results and the pending quotes through a run, and whose results a run saves.
use stock_daily_report.Prelude.{◌≡◌, ◌||◌, List, Option, none, some}
use stock_daily_report.Texts.{Text}
use stock_daily_report.Scan.Filters.{UniverseQuote}
use stock_daily_report.Scan.Checkpoints.{has, in_codes, ScanCheckpoint}
use stock_daily_report.Scan.Resumable.{eligible_quotes, World, Plan, Progress}

module _ (plan : Plan) where
  -- The results and the pending quotes are of exactly the eligible codes.
  Covers : Progress → Type 0
  Covers p =
      (c : Text)
      → (has c p.done || in_codes c p.pending)
        ≡ in_codes c (eligible_quotes plan.request plan.quotes)

abbrev pub quotes_of : World → Option ScanCheckpoint → List UniverseQuote
quotes_of w none = w.quotes
quotes_of w (some c) = c.universe_quotes
