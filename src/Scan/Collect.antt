-- ===== src/Scan/Collect.antt =====
-- src/stock_daily_report/market_scan/runner.py: `_collect_with_timeout`. A future is a number.
--
-- A `Poll` is what one round of the loop observes: the time, which futures are done, which run, and
-- which can be cancelled. Times are whole ticks. The log of the progress is left out.
pub mod Once
pub mod Timely
use stock_daily_report.Prelude.{
  ℕ, suc, ◌+◌, Bool, true, false, not, ◌&&◌, ◌||◌, List, [], ◌∷◌, ◌++◌, map, Option, none, some,
  leb, ◌==◌, if◌then◌else◌, length, filter_bool,
}

pub record Poll : Type 0 where
  pub now : ℕ
  pub done : ℕ → Bool
  pub running : ℕ → Bool
  pub cancels : ℕ → Bool

-- `own_result` is what the future returns, the other two are the results of `_failed_result`.
pub data Verdict : Type 0 where
  own_result fetch_workers_unavailable fetch_timeout : Verdict

pub record Collection : Type 0 where
  pub pending : List ℕ
  pub deadlines : List (ℕ × ℕ)
  pub results : List (ℕ × Verdict)

unfoldable pub deadline_of : ℕ → List (ℕ × ℕ) → Option ℕ
deadline_of f [] = none
deadline_of f ((g, deadline) ∷ deadlines) =
    if f == g then some deadline else deadline_of f deadlines

unfoldable pub is_pending : ℕ → List ℕ → Bool
is_pending f [] = false
is_pending f (g ∷ fs) = (f == g) || is_pending f fs

abbrev pub verdicts : Verdict → List ℕ → List (ℕ × Verdict)
verdicts v fs = map (λ f. (f, v)) fs

abbrev pub or_new : Option ℕ → ℕ → ℕ → List (ℕ × ℕ) → List (ℕ × ℕ)
or_new none f deadline deadlines = (f, deadline) ∷ deadlines
or_new (some _) f deadline deadlines = deadlines

-- `deadlines.setdefault(future, now + budget)` for the pending futures that run
unfoldable pub set_deadlines : Poll → ℕ → List ℕ → List (ℕ × ℕ) → List (ℕ × ℕ)
set_deadlines p budget [] deadlines = deadlines
set_deadlines p budget (f ∷ fs) deadlines =
    let rest = set_deadlines p budget fs deadlines in
    if p.running f then or_new (deadline_of f rest) f (p.now + budget) rest else rest

abbrev pub passed : Option ℕ → ℕ → Bool
passed none now = false
passed (some deadline) now = leb deadline now

-- `future in deadlines and deadlines[future] <= now`
abbrev pub is_expired : Poll → List (ℕ × ℕ) → ℕ → Bool
is_expired p deadlines f = passed (deadline_of f deadlines) p.now

-- The futures that satisfy a test leave the pending ones with a verdict.
unfoldable pub settle : (ℕ → Bool) → Verdict → Collection → Collection
settle test v c = record {
  pending = filter_bool (λ f. not (test f)) c.pending;
  deadlines = c.deadlines;
  results = c.results ++ verdicts v (filter_bool test c.pending);
}

abbrev pub with_deadlines : Poll → ℕ → Collection → Collection
with_deadlines p budget c = record {
  pending = c.pending;
  deadlines = set_deadlines p budget c.pending c.deadlines;
  results = c.results;
}

-- The futures that are pending no longer and still run.
unfoldable pub blocked_workers : Poll → List ℕ → List ℕ → ℕ
blocked_workers p futures pending =
    length (filter_bool (λ f. p.running f && not (is_pending f pending)) futures)

-- `while pending:`, between the end and the next round
unfoldable pub while_pending : List ℕ → Collection → Collection → Collection
while_pending [] c next = c
while_pending (_ ∷ _) c next = next

module _ (futures : List ℕ) (max_workers budget : ℕ) where
  -- Where the running leftovers take all workers, what can be cancelled is.
  unfoldable pub cancel_blocked : Poll → Collection → Collection
  cancel_blocked p c =
      if leb max_workers (blocked_workers p futures c.pending)
      then settle p.cancels fetch_workers_unavailable c
      else c

  -- One round of the loop.
  unfoldable pub poll_round : Poll → Collection → Collection
  poll_round p c =
      let finished = settle p.done own_result c in
      let cancelled = cancel_blocked p (with_deadlines p budget finished) in
      settle (is_expired p cancelled.deadlines) fetch_timeout cancelled

  -- The loop, over the polls that there are.
  unfoldable pub collect_from : List Poll → Collection → Collection
  collect_from [] c = c
  collect_from (p ∷ polls) c = while_pending c.pending c (collect_from polls (poll_round p c))

  -- `_collect_with_timeout`
  unfoldable pub collect_with_timeout : List Poll → Collection
  collect_with_timeout polls =
      collect_from polls (record { pending = futures; deadlines = []; results = [] })
