-- ===== src/Scan/Checkpoints.antt =====
-- src/stock_daily_report/market_scan/resume.py: `ScanCheckpoint`, and the dictionary of the completed
-- results that a checkpoint holds.
use stock_daily_report.Prelude.{ℕ, Bool, true, false, ◌||◌, List, [], ◌∷◌, Option}
use stock_daily_report.Texts.{Text, same_text}
use stock_daily_report.Bars.{Date}
use stock_daily_report.Scan.Filters.{UniverseQuote}
use stock_daily_report.Scan.Retries.{CandidateResult}

-- `dict[str, _CandidateResult]`, in the order of insertion.
abbrev pub Completed : Type 0
Completed = List (Text × CandidateResult)

unfoldable pub has : Text → Completed → Bool
has code [] = false
has code ((key, r) ∷ m) = same_text code key || has code m

unfoldable pub put : Text → CandidateResult → Completed → Completed
put code r [] = (code, r) ∷ []
put code r ((key, s) ∷ m) = elim (same_text code key) [
  | true ↦ (key, r) ∷ m
  | false ↦ (key, s) ∷ put code r m
]

-- `completed.update(processed)`
unfoldable pub update : Completed → Completed → Completed
update m [] = m
update m ((code, r) ∷ more) = update (put code r m) more

-- `code in {quote.code for quote in quotes}`
unfoldable pub in_codes : Text → List UniverseQuote → Bool
in_codes code [] = false
in_codes code (q ∷ qs) = same_text code q.code || in_codes code qs

pub data ScanState : Type 0 where
  running complete : ScanState

pub data StateStatus : Type 0 where
  available incomplete : StateStatus

pub record ScanCheckpoint : Type 0 where
  pub report_date : Date
  pub execution_date : Date
  pub scoring_config_hash : Text
  pub manifest_hash : Text
  pub universe_quotes : List UniverseQuote
  pub completed : Completed
  pub market_state : Option StateStatus
  pub state : ScanState
  pub last_batch : ℕ

pub data CheckpointFile : Type 0 where
  absent unreadable : CheckpointFile
  written : ScanCheckpoint → CheckpointFile
