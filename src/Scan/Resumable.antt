-- ===== src/Scan/Resumable.antt =====
-- src/stock_daily_report/market_scan/resumable.py and resume.py: the scan in batches, with a
-- checkpoint after every batch, from which a later run of the same day goes on.
--
-- The checkpoint's file is read back as what was written, or it cannot be read. Parameters: a `World`
-- says what the clock, the providers and the disk answer, and `manifest_hash_for` is the hash.
-- Neither the lock nor the fields that a checkpoint only hands on (the rule version, the source
-- revision and the time of the update) are modelled; a market state is its status.
pub mod Codes
pub mod Loop
pub mod Cases
pub mod Coverage
pub mod Origin
pub mod Total
use stock_daily_report.Prelude.{
  ℕ, suc, zero, ◌-◌, Bool, true, false, not, ◌&&◌, ◌||◌, List, [], ◌∷◌, ◌++◌, map, Option, none,
  some, ltb, leb, ◌==◌, if◌then◌else◌, length, take, drop, filter_bool,
}
use stock_daily_report.Texts.{Text, same_text}
use stock_daily_report.Bars.{Date}
use stock_daily_report.Scan.Reasons.{EligibilityResult}
use stock_daily_report.Scan.Filters.{UniverseQuote, MarketScanSettings, filter_universe_quote}
use stock_daily_report.Scan.Collect.{Verdict, own_result, fetch_timeout, fetch_workers_unavailable}
use stock_daily_report.Scan.Retries.{
  CandidateResult, history_failed, other_reason, is_failed, process_candidate_with_retries,
}
use stock_daily_report.Scan.Checkpoints.{
  Completed, has, put, update, in_codes, ScanState, StateStatus, ScanCheckpoint, CheckpointFile,
  running, complete, available, incomplete, absent, unreadable, written,
}

-- The arguments of a run: `per_batch` is the batch size that the settings and the call come to, and
-- `semantic_hash` the hash of the configuration.
pub record ScanRequest : Type 0 where
  pub settings : MarketScanSettings
  pub report_date : Date
  pub semantic_hash : Text
  pub per_batch : ℕ
  pub max_batches : Option ℕ
  pub refresh_market_state : Bool

-- What the run meets: the dates that the clock shows at its readings, the quotes that the provider
-- lists, sorted by code, the results of the attempts on a quote in a batch (`attempts n q k` at
-- attempt k of batch n), what the collection of batch n comes to for a quote (`verdict`, one that
-- `Scan.Collect` gives), the market state that the index provider gives, whether scan.json is there already
-- and whether the artifact's writing succeeds.
pub record World : Type 0 where
  pub day : ℕ → Date
  pub quotes : List UniverseQuote
  pub attempts : ℕ → UniverseQuote → ℕ → CandidateResult
  pub verdict : ℕ → UniverseQuote → Verdict
  pub index_state : Option StateStatus
  pub artifact_exists : Bool
  pub writes : Bool

-- `_is_stale`
unfoldable pub is_stale : ScanCheckpoint → Date → Date → Text → Bool
is_stale c report_date execution_date hash =
    not (c.report_date == report_date)
    || (not (c.execution_date == execution_date) || not (same_text c.scoring_config_hash hash))

-- `_eligible_quotes`
unfoldable pub eligible_quotes : ScanRequest → List UniverseQuote → List UniverseQuote
eligible_quotes r quotes =
    filter_bool (λ q. (filter_universe_quote q r.report_date r.settings).eligible) quotes

-- fetch_timeout and fetch_workers_unavailable
abbrev timeout_text : Text
timeout_text =
    b'f' ∷ b'e' ∷ b't' ∷ b'c' ∷ b'h' ∷ b'_' ∷ b't' ∷ b'i' ∷ b'm' ∷ b'e' ∷ b'o' ∷ b'u' ∷ b't' ∷ []

abbrev unavailable_text : Text
unavailable_text =
    b'f' ∷ b'e' ∷ b't' ∷ b'c' ∷ b'h' ∷ b'_' ∷ b'w' ∷ b'o' ∷ b'r' ∷ b'k' ∷ b'e' ∷ b'r' ∷ b's' ∷ b'_'
    ∷ b'u' ∷ b'n' ∷ b'a' ∷ b'v' ∷ b'a' ∷ b'i' ∷ b'l' ∷ b'a' ∷ b'b' ∷ b'l' ∷ b'e' ∷ []

-- `_failed_result`
abbrev pub failed_result : UniverseQuote → Text → CandidateResult
failed_result q reason = record {
  quote = q;
  status = history_failed;
  reason_codes = other_reason reason ∷ [];
  provider_metrics = [];
}

-- What the collection of batch n enters for a quote.
unfoldable pub batch_result : World → ℕ → UniverseQuote → CandidateResult
batch_result w n q = elim (w.verdict n q) [
  | own_result ↦ process_candidate_with_retries (w.attempts n q)
  | fetch_timeout ↦ failed_result q timeout_text
  | fetch_workers_unavailable ↦ failed_result q unavailable_text
]

-- `_process_batch`
unfoldable pub process_batch : World → ℕ → List UniverseQuote → Completed
process_batch w n [] = []
process_batch w n (q ∷ qs) = (q.code, batch_result w n q) ∷ process_batch w n qs

-- The results of a checkpoint that the run keeps.
unfoldable pub keep_completed : List UniverseQuote → Completed → Completed
keep_completed eligible m =
    filter_bool (λ (code, r). in_codes code eligible && not (is_failed r.status)) m

abbrev pub is_empty : List UniverseQuote → Bool
is_empty [] = true
is_empty (_ ∷ _) = false

-- The loop's variables, with the checkpoints saved so far and the readings of the clock.
pub record Progress : Type 0 where
  pub done : Completed
  pub pending : List UniverseQuote
  pub batch_number : ℕ
  pub readings : ℕ
  pub saves : List ScanCheckpoint

pub data Stop : Type 0 where
  finished limited day_changed out_of_fuel : Stop

-- `max_batches is not None and batch_number - last_batch >= max_batches`
abbrev pub reaches_limit : Option ℕ → ℕ → Bool
reaches_limit none n = false
reaches_limit (some m) n = leb m n

-- What one run fixes before its loop.
pub record Plan : Type 0 where
  pub request : ScanRequest
  pub world : World
  pub manifest_hash : Text
  pub quotes : List UniverseQuote
  pub market_state : Option StateStatus
  pub last_batch : ℕ

-- `execution_date`
abbrev pub execution_date : World → Date
execution_date w = w.day 0

-- `_make_checkpoint`
abbrev pub make_checkpoint : Plan → Completed → ScanState → ℕ → ScanCheckpoint
make_checkpoint plan m state n = record {
  report_date = plan.request.report_date;
  execution_date = execution_date plan.world;
  scoring_config_hash = plan.request.semantic_hash;
  manifest_hash = plan.manifest_hash;
  universe_quotes = plan.quotes;
  completed = m;
  market_state = plan.market_state;
  state = state;
  last_batch = n;
}

abbrev pub save : Plan → ScanState → Progress → Progress
save plan state p = record {
  done = p.done;
  pending = p.pending;
  batch_number = p.batch_number;
  readings = p.readings;
  saves = p.saves ++ (make_checkpoint plan p.done state p.batch_number ∷ []);
}

-- The round's batch: its results are entered and the checkpoint is saved.
unfoldable pub advance : Plan → Progress → Progress
advance plan p =
    let n = suc p.batch_number in
    let rest = drop plan.request.per_batch p.pending in
    save plan (if is_empty rest then complete else running) (record {
      done = update p.done (process_batch plan.world n (take plan.request.per_batch p.pending));
      pending = rest;
      batch_number = n;
      readings = suc p.readings;
      saves = p.saves;
    })

-- Why the loop ends before its next batch, if it does.
unfoldable pub stop_of : Plan → Progress → Option Stop
stop_of plan p =
    if is_empty p.pending
    then some finished
    else if reaches_limit plan.request.max_batches (p.batch_number - plan.last_batch)
    then some limited
    else if not (plan.world.day p.readings == execution_date plan.world)
    then some day_changed
    else none

unfoldable pub run_batches : Plan → ℕ → Progress → Stop × Progress
run_batches plan zero p = (out_of_fuel, p)
run_batches plan (suc fuel) p = elim (stop_of plan p) [
  | some stop ↦ (stop, p)
  | none ↦ run_batches plan fuel (advance plan p)
]

-- `scan_incomplete` is the return of None, the errors are the run's exceptions.
pub data ScanOutcome : Type 0 where
  published : Completed → ScanOutcome
  scan_incomplete integrity_error refresh_incomplete write_failed : ScanOutcome

pub record ScanRun : Type 0 where
  pub archived : Option ScanCheckpoint
  pub saves : List ScanCheckpoint
  pub outcome : ScanOutcome

-- From the loop's end on: the artifact is written and the checkpoint is marked complete.
unfoldable pub finish : Plan → Stop × Progress → List ScanCheckpoint × ScanOutcome
finish plan (finished, p) =
    if not (plan.world.day p.readings == execution_date plan.world)
    then (p.saves, scan_incomplete)
    else let before = save plan running p in
      if plan.world.writes
      then ((save plan complete before).saves, published p.done)
      else (before.saves, write_failed)
finish plan (day_changed, p) = ((save plan running p).saves, scan_incomplete)
finish plan (_, p) = (p.saves, scan_incomplete)

-- The loop's first state: the eligible quotes without a kept result are pending.
unfoldable pub start : Plan → Completed → Progress
start plan m =
    let eligible = eligible_quotes plan.request plan.quotes in
    let kept = keep_completed eligible m in
    record {
      done = kept;
      pending = filter_bool (λ q. not (has q.code kept)) eligible;
      batch_number = plan.last_batch;
      readings = 1;
      saves = [];
    }

abbrev pub is_available : StateStatus → Bool
is_available available = true
is_available incomplete = false

-- Whether the market state is built anew.
unfoldable pub needs_state : ScanRequest → World → Option StateStatus → Bool
needs_state r w none = true
needs_state r w (some s) = not (is_available s) && (r.refresh_market_state || not w.artifact_exists)

-- The market state of the run, or `none` if a refresh is not available.
unfoldable pub state_of : ScanRequest → World → Option StateStatus → Option (Option StateStatus)
state_of r w old = elim w.index_state [
  | none ↦ some old
  | some built ↦
      if needs_state r w old
      then if r.refresh_market_state && not (is_available built) then none else some (some built)
      else some old
]

module _ (manifest_hash_for : List UniverseQuote → Text) where
  -- `load_checkpoint`: the checkpoint, or none in the place of the CheckpointIntegrityError.
  unfoldable pub load_checkpoint : CheckpointFile → Option (Option ScanCheckpoint)
  load_checkpoint absent = some none
  load_checkpoint unreadable = none
  load_checkpoint (written c) =
      if same_text c.manifest_hash (manifest_hash_for c.universe_quotes)
      then some (some c)
      else none

  unfoldable pub plan_of : ScanRequest → World → Option ScanCheckpoint → Option StateStatus → Plan
  plan_of r w none state = record {
    request = r;
    world = w;
    manifest_hash = manifest_hash_for w.quotes;
    quotes = w.quotes;
    market_state = state;
    last_batch = 0;
  }
  plan_of r w (some c) state = record {
    request = r;
    world = w;
    manifest_hash = manifest_hash_for c.universe_quotes;
    quotes = c.universe_quotes;
    market_state = state;
    last_batch = c.last_batch;
  }

  abbrev pub completed_of : Option ScanCheckpoint → Completed
  completed_of none = []
  completed_of (some c) = c.completed

  abbrev pub market_state_of : Option ScanCheckpoint → Option StateStatus
  market_state_of none = none
  market_state_of (some c) = c.market_state

  -- The run from the checkpoint that it resumes, if any.
  unfoldable pub run_from :
      ScanRequest → World → ℕ → Option ScanCheckpoint → Option ScanCheckpoint → ScanRun
  run_from r w fuel archived resumed = elim (state_of r w (market_state_of resumed)) [
    | none ↦ record { archived = archived; saves = []; outcome = refresh_incomplete }
    | some state ↦
        let plan = plan_of r w resumed state in
        let (saves, outcome) =
          finish plan (run_batches plan fuel (start plan (completed_of resumed))) in
        record { archived = archived; saves = saves; outcome = outcome }
  ]

  -- A stale checkpoint is archived and another one is resumed.
  unfoldable pub resume : ScanRequest → World → ℕ → Option ScanCheckpoint → ScanRun
  resume r w fuel none = run_from r w fuel none none
  resume r w fuel (some c) =
      if is_stale c r.report_date (execution_date w) r.semantic_hash
      then run_from r w fuel (some c) none
      else run_from r w fuel none (some c)

  -- `_run_resumable_scan`
  unfoldable pub run_resumable_scan : ScanRequest → World → ℕ → CheckpointFile → ScanRun
  run_resumable_scan r w fuel file = elim (load_checkpoint file) [
    | none ↦ record { archived = none; saves = []; outcome = integrity_error }
    | some loaded ↦ resume r w fuel loaded
  ]
