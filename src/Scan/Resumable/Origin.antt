-- ===== src/Scan/Resumable/Origin.antt =====
-- Which results the checkpoints of a run hold.
use mathlib.Core.List.{Mem, mem-cons_self, mem-cons_of_mem}
use stock_daily_report.Prelude.{
  ℕ, suc, ◌+◌, ◌≡◌, refl, subst, Bool, false, List, [], ◌∷◌, Option, none, some, inl, inr, arith,
  Bool-cases, All, All-append, filter_bool, filter_bool-true, filter_bool-false, take, drop, ◌==◌,
  if-either, if◌then◌else◌,
}
use stock_daily_report.Texts.{Text, same_text, same_text→≡}
use stock_daily_report.Scan.Filters.{UniverseQuote}
use stock_daily_report.Scan.Retries.{CandidateResult}
use stock_daily_report.Scan.Checkpoints.{
  Completed, put, update, ScanCheckpoint, CheckpointFile, written, StateStatus, ScanState, running,
  complete,
}
use stock_daily_report.Scan.Resumable.{
  batch_result, process_batch, keep_completed, is_stale, ScanRequest, World, Plan, Progress, Stop,
  finished, limited, day_changed, out_of_fuel, ScanOutcome, published, scan_incomplete,
  write_failed, is_empty, save, execution_date, make_checkpoint, start, advance, stop_of,
  run_batches, finish, plan_of, run_resumable_scan,
}
use stock_daily_report.Scan.Resumable.Codes.{put-same, put-other}
use stock_daily_report.Scan.Resumable.Loop.{run_batches-keeps}
use stock_daily_report.Scan.Resumable.Cases.{Resumes, afresh, goes_on, ended, run-cases}

module _ {ℓ} (P : Text × CandidateResult → Type ℓ) where
  put-All :
      (k : Text) (r : CandidateResult) (m : Completed) → P (k, r) → All P m → All P (put k r m)
  unfolding put
  put-All k r [] h hs = (h, hs)
  put-All k r ((key, s) ∷ m) h (h', hs) = elim (Bool-cases (same_text k key)) [
    | inl e ↦ rw (put-same k key r s m e) (subst (λ x. P (x, r)) (same_text→≡ k key e) h, hs)
    | inr e ↦ rw (put-other k key r s m e) (h', put-All k r m h hs)
  ]

  update-All : (m more : Completed) → All P m → All P more → All P (update m more)
  unfolding update
  update-All m [] h hs = h
  update-All m ((k, r) ∷ more) h (h', hs) = update-All (put k r m) more (put-All k r m h' h) hs

  filter_bool-All :
      (p : Text × CandidateResult → Bool) (m : Completed) → All P m → All P (filter_bool p m)
  filter_bool-All p [] h = h
  filter_bool-All p (x ∷ m) (h, hs) = elim (Bool-cases (p x)) [
    | inl e ↦ rw (filter_bool-true p x m e) (h, filter_bool-All p m hs)
    | inr e ↦ rw (filter_bool-false p x m e) (filter_bool-All p m hs)
  ]

  process_batch-All :
      (w : World) (n : ℕ) (qs : List UniverseQuote)
      → ((q : UniverseQuote) → P (q.code, batch_result w n q))
      → All P (process_batch w n qs)
  unfolding process_batch
  process_batch-All w n [] h = tt
  process_batch-All w n (q ∷ qs) h = (h q, process_batch-All w n qs h)

All-Mem {ℓ} : {A : Type ℓ} (P : A → Type ℓ) (xs : List A) → ((x : A) → Mem x xs → P x) → All P xs
All-Mem P [] h = tt
All-Mem P (x ∷ xs) h = (h x mem-cons_self, All-Mem P xs (λ y m. h y (mem-cons_of_mem x m)))

-- A checkpoint of the run's own dates and configuration, with results that are all `P`.
pub record IsOfRun (r : ScanRequest) (w : World) (P : Text × CandidateResult → Type 0)
    (s : ScanCheckpoint) : Type 0 where
  pub report_date : s.report_date ≡ r.report_date
  pub execution_date : s.execution_date ≡ w.day 0
  pub configuration : s.scoring_config_hash ≡ r.semantic_hash
  pub results : All P s.completed

module _ (plan : Plan) (P : Text × CandidateResult → Type 0) where
  Owns : Progress → Type 0
  Owns p =
      (p.readings + plan.last_batch ≡ suc p.batch_number)
      × All P p.done
      × All (IsOfRun plan.request plan.world P) p.saves

  save-Owns : (state : ScanState) (p : Progress) → Owns p → Owns (save plan state p)
  unfolding Owns
  save-Owns state p (n, done, saves) = (
    n,
    done,
    All-append (IsOfRun plan.request plan.world P) p.saves
        (make_checkpoint plan p.done state p.batch_number ∷ []) saves
        (
          record {
            report_date = refl;
            execution_date = refl;
            configuration = refl;
            results = done;
          },
          tt,
        ),
  )

  start-Owns : (m : Completed) → All P m → Owns (start plan m)
  unfolding Owns start keep_completed
  start-Owns m h = (omega arith, filter_bool-All P _ m h, tt)

  reading_day :
      (p : Progress) → stop_of plan p ≡ none → plan.world.day p.readings ≡ plan.world.day 0
  unfolding stop_of
  reading_day p h = elim (Bool-cases (plan.world.day p.readings == execution_date plan.world)) [
    | inl e ↦ ground (arith, e)
    | inr e ↦ absurd (ground (arith, e, h))
  ]

  IsOwned : List ScanCheckpoint × ScanOutcome → Type 0
  IsOwned (saves, _) = All (IsOfRun plan.request plan.world P) saves

  module _
      (fresh : (n k : ℕ) (q : UniverseQuote)
        → k + plan.last_batch ≡ n
        → plan.world.day k ≡ plan.world.day 0
        → P (q.code, batch_result plan.world n q)) where
    advance-Owns : (p : Progress) → stop_of plan p ≡ none → Owns p → Owns (advance plan p)
    unfolding advance Owns
    advance-Owns p e h =
        let n = suc p.batch_number in
        let k : p.readings + plan.last_batch ≡ n = h.0 in
        let batch = take plan.request.per_batch p.pending in
        let rest = drop plan.request.per_batch p.pending in
        let day = reading_day p e in
        let new = process_batch-All P plan.world n batch (λ q. fresh n p.readings q k day) in
        save-Owns (if is_empty rest then complete else running)
          (record {
            done = update p.done (process_batch plan.world n batch);
            pending = rest;
            batch_number = n;
            readings = suc p.readings;
            saves = p.saves;
          })
          (omega (arith, k), update-All P p.done (process_batch plan.world n batch) h.1 new, h.2)

    finish-Owns :
        (x : Stop × Progress)
        → Owns (x.1)
        → All (IsOfRun plan.request plan.world P) (finish plan x).0
    unfolding finish Owns IsOwned
    finish-Owns (finished, p) h =
        let before = save plan running p in
        if-either IsOwned _ (p.saves, scan_incomplete) _ h.2
          (if-either IsOwned plan.world.writes ((save plan complete before).saves, published p.done)
            (before.saves, write_failed) (save-Owns complete before (save-Owns running p h)).2
            (save-Owns running p h).2)
    finish-Owns (limited, p) h = h.2
    finish-Owns (day_changed, p) h = (save-Owns running p h).2
    finish-Owns (out_of_fuel, p) h = h.2

    run_batches-Owns :
        (fuel : ℕ) (m : Completed)
        → All P m
        → All
            (IsOfRun plan.request plan.world P)
            (finish plan (run_batches plan fuel (start plan m))).0
    run_batches-Owns fuel m h =
        finish-Owns (run_batches plan fuel (start plan m))
          (run_batches-keeps plan Owns advance-Owns fuel (start plan m) (start-Owns m h)).0

abbrev pub last_batch_of : Option ScanCheckpoint → ℕ
last_batch_of none = 0
last_batch_of (some c) = c.last_batch

-- Where a result of a checkpoint comes from: from a batch that the clock's reading before it puts on
-- the run's first day, or from the file's checkpoint, which is of this day, report and configuration.
pub data Origin (r : ScanRequest) (w : World) (file : CheckpointFile)
    (resumed : Option ScanCheckpoint) : Text × CandidateResult → Type 0 where
  fetched_today :
      (n k : ℕ) (q : UniverseQuote)
      → k + last_batch_of resumed ≡ n
      → w.day k ≡ w.day 0
      → Origin r w file resumed (q.code, batch_result w n q)
  reused :
      (c : ScanCheckpoint) (x : Text × CandidateResult)
      → file ≡ written c
      → c.execution_date ≡ w.day 0
      → c.report_date ≡ r.report_date
      → c.scoring_config_hash ≡ r.semantic_hash
      → Mem x c.completed
      → Origin r w file resumed x

fresh-dates :
    (c : ScanCheckpoint) (r : ScanRequest) (w : World)
    → is_stale c r.report_date (execution_date w) r.semantic_hash ≡ false
    → (c.execution_date ≡ w.day 0)
      × (c.report_date ≡ r.report_date)
      × (c.scoring_config_hash ≡ r.semantic_hash)
unfolding is_stale
fresh-dates c r w h = (
  ground (arith, h),
  ground (arith, h),
  same_text→≡ c.scoring_config_hash r.semantic_hash (ground (arith, h)),
)

module _ (manifest_hash_for : List UniverseQuote → Text) (r : ScanRequest) (w : World) (fuel : ℕ)
    (file : CheckpointFile) where
  ended-Owns :
      (resumed : Option ScanCheckpoint) (state : Option StateStatus)
      → Resumes r w file resumed
      → All
          (IsOfRun r w (Origin r w file resumed))
          (ended manifest_hash_for r w fuel resumed state).0
  unfolding plan_of
  ended-Owns _ state afresh =
      run_batches-Owns (plan_of manifest_hash_for r w none state) (Origin r w file none)
        (λ n k q e day. fetched_today n k q e day) fuel [] tt
  ended-Owns _ state (goes_on c e fresh) =
      let (execution, report, configuration) = fresh-dates c r w fresh in
      run_batches-Owns (plan_of manifest_hash_for r w (some c) state) (Origin r w file (some c))
        (λ n k q e day. fetched_today n k q e day) fuel c.completed
        (All-Mem (Origin r w file (some c)) c.completed
          (λ x m. reused c x e execution report configuration m))

  -- Every checkpoint that a run saves is of the run's report, configuration and first day, and each of
  -- its results was fetched in a batch before which the clock showed that day, or stands in the file's
  -- checkpoint, which is of the same report, configuration and day.
  pub run-saves_today :
      (resumed : Option ScanCheckpoint) × Resumes r w file resumed
      × All
          (IsOfRun r w (Origin r w file resumed))
          (run_resumable_scan manifest_hash_for r w fuel file).saves
  run-saves_today =
      run-cases manifest_hash_for r w fuel
        (λ run.
          (resumed : Option ScanCheckpoint) × Resumes r w file resumed
          × All (IsOfRun r w (Origin r w file resumed)) run.saves)
        (λ _ _ _. (none, afresh, tt)) file
        (λ _ resumed state resumes. (resumed, resumes, ended-Owns resumed state resumes))
        (λ _. (none, afresh, tt))
