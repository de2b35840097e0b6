-- ===== src/Scan/Resumable/Cases.antt =====
-- The ways that a run can take before its loop, as one induction principle.
use mathlib.Core.Option.{some-injective}
use stock_daily_report.Prelude.{
  ◌≡◌, refl, ap, ◌∙◌, Bool, true, false, List, [], Option, none, some, inl, inr, arith, Bool-cases,
  Option-cases, ℕ, if◌then◌else◌,
}
use stock_daily_report.Texts.{Text, same_text}
use stock_daily_report.Scan.Filters.{UniverseQuote}
use stock_daily_report.Scan.Checkpoints.{
  ScanCheckpoint, CheckpointFile, absent, unreadable, written, StateStatus,
}
use stock_daily_report.Scan.Resumable.{
  ScanRequest, World, ScanOutcome, integrity_error, refresh_incomplete, ScanRun, execution_date,
  is_stale, state_of, plan_of, start, completed_of, market_state_of, run_batches, finish,
  load_checkpoint, run_from, resume, run_resumable_scan,
}

-- What a run goes on from: nothing, or the file's checkpoint if it is not stale.
pub data Resumes (r : ScanRequest) (w : World) (file : CheckpointFile)
    : Option ScanCheckpoint → Type 0 where
  afresh : Resumes r w file none
  goes_on :
      (c : ScanCheckpoint)
      → file ≡ written c
      → is_stale c r.report_date (execution_date w) r.semantic_hash ≡ false
      → Resumes r w file (some c)

checked-same :
    (b : Bool) (d c : ScanCheckpoint) → (if b then some (some d) else none) ≡ some (some c) → d ≡ c
checked-same true d c e = some-injective _ _ (some-injective _ _ e)
checked-same false d c e = absurd (ground (arith, e))

module _ (manifest_hash_for : List UniverseQuote → Text) (r : ScanRequest) (w : World)
    (fuel : ℕ) where
  abbrev pub ended : Option ScanCheckpoint → Option StateStatus → List ScanCheckpoint × ScanOutcome
  ended resumed state =
      let plan = plan_of manifest_hash_for r w resumed state in
      finish plan (run_batches plan fuel (start plan (completed_of manifest_hash_for resumed)))

  loaded-file :
      (file : CheckpointFile) (c : ScanCheckpoint)
      → load_checkpoint manifest_hash_for file ≡ some (some c)
      → file ≡ written c
  unfolding load_checkpoint
  loaded-file absent c e = absurd (ground (arith, e))
  loaded-file unreadable c e = absurd (ground (arith, e))
  loaded-file (written d) c e =
      ap written
        (checked-same (same_text d.manifest_hash (manifest_hash_for d.universe_quotes)) d c e)

  run_from-state :
      (archived resumed : Option ScanCheckpoint) (state : Option StateStatus)
      → state_of r w (market_state_of manifest_hash_for resumed) ≡ some state
      → run_from manifest_hash_for r w fuel archived resumed ≡ record {
        archived = archived;
        saves = (ended resumed state).0;
        outcome = (ended resumed state).1;
      }
  unfolding run_from
  run_from-state archived resumed state e = rw (e, run_from) refl

  run_from-refused :
      (archived resumed : Option ScanCheckpoint)
      → state_of r w (market_state_of manifest_hash_for resumed) ≡ none
      → run_from manifest_hash_for r w fuel archived resumed
        ≡ record { archived = archived; saves = []; outcome = refresh_incomplete }
  unfolding run_from
  run_from-refused archived resumed e = rw (e, run_from) refl

  module _ {ℓ} (P : ScanRun → Type ℓ)
      (refused : (archived resumed : Option ScanCheckpoint)
        → state_of r w (market_state_of manifest_hash_for resumed) ≡ none
        → P (record { archived = archived; saves = []; outcome = refresh_incomplete })) where
    run_from-cases :
        (archived resumed : Option ScanCheckpoint)
        → ((state : Option StateStatus)
            → P (record {
              archived = archived;
              saves = (ended resumed state).0;
              outcome = (ended resumed state).1;
            }))
        → P (run_from manifest_hash_for r w fuel archived resumed)
    run_from-cases archived resumed h =
        elim (Option-cases (state_of r w (market_state_of manifest_hash_for resumed))) [
          | inl e ↦ rw (run_from-refused archived resumed e) (refused archived resumed e)
          | inr (state, e) ↦ rw (run_from-state archived resumed state e) (h state)
        ]

    resume-stale :
        (c : ScanCheckpoint)
        → is_stale c r.report_date (execution_date w) r.semantic_hash ≡ true
        → resume manifest_hash_for r w fuel (some c)
          ≡ run_from manifest_hash_for r w fuel (some c) none
    unfolding resume
    resume-stale c e = rw (e, resume) refl

    resume-goes_on :
        (c : ScanCheckpoint)
        → is_stale c r.report_date (execution_date w) r.semantic_hash ≡ false
        → resume manifest_hash_for r w fuel (some c)
          ≡ run_from manifest_hash_for r w fuel none (some c)
    unfolding resume
    resume-goes_on c e = rw (e, resume) refl

    module _ (file : CheckpointFile)
        (h : (archived resumed : Option ScanCheckpoint) (state : Option StateStatus)
          → Resumes r w file resumed
          → P (record {
            archived = archived;
            saves = (ended resumed state).0;
            outcome = (ended resumed state).1;
          })) where
      resume-cases :
          (loaded : Option ScanCheckpoint)
          → ((c : ScanCheckpoint) → loaded ≡ some c → file ≡ written c)
          → P (resume manifest_hash_for r w fuel loaded)
      unfolding resume
      resume-cases none from_file = run_from-cases none none (λ state. h none none state afresh)
      resume-cases (some c) from_file =
          elim (Bool-cases (is_stale c r.report_date (execution_date w) r.semantic_hash)) [
            | inl e ↦
                rw (resume-stale c e)
                  (run_from-cases (some c) none (λ state. h (some c) none state afresh))
            | inr e ↦ rw (resume-goes_on c e) (
                run_from-cases none (some c)
                  (λ state. h none (some c) state (goes_on c (from_file c refl) e)))
          ]

      loaded-written :
          (loaded : Option ScanCheckpoint) (c : ScanCheckpoint)
          → load_checkpoint manifest_hash_for file ≡ some loaded
          → loaded ≡ some c
          → file ≡ written c
      loaded-written loaded c e e' = loaded-file file c (e ∙ ap some e')

      run-loaded :
          (loaded : Option ScanCheckpoint)
          → load_checkpoint manifest_hash_for file ≡ some loaded
          → run_resumable_scan manifest_hash_for r w fuel file
            ≡ resume manifest_hash_for r w fuel loaded
      unfolding run_resumable_scan
      run-loaded loaded e = rw (e, run_resumable_scan) refl

      run-unreadable :
          load_checkpoint manifest_hash_for file ≡ none
          → run_resumable_scan manifest_hash_for r w fuel file
            ≡ record { archived = none; saves = []; outcome = integrity_error }
      unfolding run_resumable_scan
      run-unreadable e = rw (e, run_resumable_scan) refl

      -- What holds of the errors before the loop and of every run from what it resumes.
      pub run-cases :
          (load_checkpoint manifest_hash_for file ≡ none
            → P (record { archived = none; saves = []; outcome = integrity_error }))
          → P (run_resumable_scan manifest_hash_for r w fuel file)
      run-cases corrupt = elim (Option-cases (load_checkpoint manifest_hash_for file)) [
        | inl e ↦ rw (run-unreadable e) (corrupt e)
        | inr (loaded, e) ↦
            rw (run-loaded loaded e) (resume-cases loaded (λ c. loaded-written loaded c e))
      ]
