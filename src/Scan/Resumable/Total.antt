-- ===== src/Scan/Resumable/Total.antt =====
-- Runs that come to an end on their first day.
use stock_daily_report.Prelude.{
  ℕ, ◌≤◌, ◌<◌, ◌≡◌, ◌≢◌, refl, sym, subst, Bool, true, false, not, List, [], ◌∷◌, Option, none,
  some, inl, inr, arith, Bool-cases, Option-cases, length, filter_bool, filter_bool-true,
  filter_bool-false, ◌==◌,
}
use stock_daily_report.Texts.{Text}
use stock_daily_report.Scan.Filters.{UniverseQuote, filter_universe_quote}
use stock_daily_report.Scan.Checkpoints.{
  Completed, has, CheckpointFile, ScanCheckpoint, StateStatus,
}
use stock_daily_report.Scan.Resumable.{
  is_empty, keep_completed, eligible_quotes, market_state_of, needs_state, ScanRequest, World, Plan,
  Progress, Stop, finished, published, execution_date, start, stop_of, run_batches, finish, plan_of,
  state_of, load_checkpoint, run_resumable_scan,
}
use stock_daily_report.Scan.Resumable.Coverage.{quotes_of}
use stock_daily_report.Scan.Resumable.Cases.{Resumes, ended, run-cases}
use stock_daily_report.Scan.Resumable.Loop.{run_batches-keeps, run_batches-stops}

length-filter_bool-le :
    (p : UniverseQuote → Bool) (qs : List UniverseQuote) → length (filter_bool p qs) ≤ length qs
length-filter_bool-le p [] = omega arith
length-filter_bool-le p (q ∷ qs) = elim (Bool-cases (p q)) [
  | inl e ↦ rw (filter_bool-true p q qs e) (omega (arith, length-filter_bool-le p qs))
  | inr e ↦ rw (filter_bool-false p q qs e) (omega (arith, length-filter_bool-le p qs))
]

module _ (plan : Plan) (same_day : (k : ℕ) → plan.world.day k ≡ plan.world.day 0)
    (unlimited : plan.request.max_batches ≡ none) (writes : plan.world.writes ≡ true) where
  stop-finished : (p : Progress) (stop : Stop) → stop_of plan p ≡ some stop → stop ≡ finished
  unfolding stop_of
  stop-finished p stop h =
      let day = same_day p.readings in
      elim (Bool-cases (is_empty p.pending)) [
        | inl e ↦ ground (arith, e, h)
        | inr e ↦ absurd (ground (arith, e, h, day, unlimited))
      ]

  finish-publishes : (p : Progress) → (finish plan (finished, p)).1 ≡ published p.done
  unfolding finish
  finish-publishes p =
      let day = same_day p.readings in
      let today : (plan.world.day p.readings == execution_date plan.world) ≡ true =
        ground (arith, day) in
      rw (today, writes) refl

  start-length : (m : Completed) → length (start plan m).pending ≤ length plan.quotes
  unfolding start eligible_quotes
  start-length m = omega (
    arith,
    length-filter_bool-le
        (λ q. (filter_universe_quote q plan.request.report_date plan.request.settings).eligible)
        plan.quotes,
    length-filter_bool-le
        (λ q. not (has q.code (keep_completed (eligible_quotes plan.request plan.quotes) m)))
        (eligible_quotes plan.request plan.quotes),
  )

  run_batches-finished :
      (fuel : ℕ) (p : Progress)
      → 1 ≤ plan.request.per_batch
      → length p.pending < fuel
      → (run_batches plan fuel p).0 ≡ finished
  run_batches-finished fuel p k h =
      elim (run_batches-keeps {0} plan (λ _. Unit) (λ _ _ _. tt) fuel p tt).1 [
        | inl e ↦ absurd (run_batches-stops plan fuel p k h e)
        | inr e ↦ stop-finished (run_batches plan fuel p).1 (run_batches plan fuel p).0 e
      ]

  ends-published : (x : Stop × Progress) → x.0 ≡ finished → (finish plan x).1 ≡ published x.1.done
  ends-published (stop, p) h =
      subst (λ s. (finish plan (s, p)).1 ≡ published p.done) (sym h) (finish-publishes p)

  loop-publishes :
      (fuel : ℕ) (m : Completed)
      → 1 ≤ plan.request.per_batch
      → length plan.quotes < fuel
      → (m' : Completed) × ((finish plan (run_batches plan fuel (start plan m))).1 ≡ published m')
  loop-publishes fuel m k h =
      let p = start plan m in
      (
        _,
        ends-published (run_batches plan fuel p)
            (run_batches-finished fuel p k (omega (arith, h, start-length m))),
      )

state_of-given :
    (r : ScanRequest) (w : World) (old : Option StateStatus)
    → r.refresh_market_state ≡ false
    → state_of r w old ≢ none
unfolding state_of
state_of-given r w old h e = elim (Option-cases w.index_state) [
  | inl i ↦ ground (arith, i, e)
  | inr (built, i) ↦ elim (Bool-cases (needs_state r w old)) [
    | inl n ↦ ground (arith, h, i, n, e)
    | inr n ↦ ground (arith, h, i, n, e)
  ]
]

module _ (manifest_hash_for : List UniverseQuote → Text) (r : ScanRequest) (w : World)
    (fuel : ℕ) where
  ended-publishes :
      (resumed : Option ScanCheckpoint) (state : Option StateStatus)
      → r.max_batches ≡ none
      → 1 ≤ r.per_batch
      → ((k : ℕ) → w.day k ≡ w.day 0)
      → w.writes ≡ true
      → length (quotes_of w resumed) < fuel
      → (m : Completed) × ((ended manifest_hash_for r w fuel resumed state).1 ≡ published m)
  unfolding plan_of
  ended-publishes none state unlimited k same_day writes h =
      loop-publishes (plan_of manifest_hash_for r w none state) same_day unlimited writes fuel [] k
        h
  ended-publishes (some c) state unlimited k same_day writes h =
      loop-publishes (plan_of manifest_hash_for r w (some c) state) same_day unlimited writes fuel
        c.completed k h

  -- A run without a limit of batches and without a refresh of the market state, whose checkpoint file
  -- can be read, that keeps to one day and whose artifact can be written publishes it, whatever the
  -- coverage of its results is, with a fuel above the number of the quotes.
  pub run-publishes :
      (file : CheckpointFile)
      → load_checkpoint manifest_hash_for file ≢ none
      → r.max_batches ≡ none
      → r.refresh_market_state ≡ false
      → 1 ≤ r.per_batch
      → ((k : ℕ) → w.day k ≡ w.day 0)
      → w.writes ≡ true
      → ((resumed : Option ScanCheckpoint)
          → Resumes r w file resumed
          → length (quotes_of w resumed) < fuel)
      → (m : Completed) × ((run_resumable_scan manifest_hash_for r w fuel file).outcome
          ≡ published m)
  run-publishes file readable unlimited no_refresh k same_day writes enough =
      run-cases manifest_hash_for r w fuel (λ run. (m : Completed) × (run.outcome ≡ published m))
        (λ _ resumed e.
          absurd (state_of-given r w (market_state_of manifest_hash_for resumed) no_refresh e))
        file
        (λ _ resumed state resumes.
          ended-publishes resumed state unlimited k same_day writes (enough resumed resumes))
        (λ e. absurd (readable e))
