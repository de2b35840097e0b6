-- ===== src/Scan/Collect/Once.antt =====
-- Each future gets one result.
use stock_daily_report.Prelude.{
  ℕ, ◌+◌, ◌≡◌, refl, ap, Bool, not, List, [], ◌∷◌, ◌++◌, inl, inr, arith, Bool-cases, ◌==◌,
  if◌then◌else◌, if-either, filter_bool, filter_bool-true, filter_bool-false,
}
use stock_daily_report.Scan.Collect.{
  Poll, Verdict, Collection, verdicts, own_result, fetch_timeout, fetch_workers_unavailable, settle,
  with_deadlines, cancel_blocked, poll_round, collect_from, while_pending, collect_with_timeout,
}

-- How often a number stands in a list.
unfoldable pub occurrences : ℕ → List ℕ → ℕ
occurrences f [] = 0
occurrences f (g ∷ fs) = (if f == g then 1 else 0) + occurrences f fs

-- How many results a future has.
unfoldable pub result_count : ℕ → List (ℕ × Verdict) → ℕ
result_count f [] = 0
result_count f ((g, v) ∷ results) = (if f == g then 1 else 0) + result_count f results

result_count-append :
    (f : ℕ) (xs ys : List (ℕ × Verdict))
    → result_count f (xs ++ ys) ≡ result_count f xs + result_count f ys
unfolding result_count
result_count-append f [] ys = omega arith
result_count-append f ((g, v) ∷ xs) ys = omega (arith, result_count-append f xs ys)

result_count-verdicts :
    (f : ℕ) (v : Verdict) (fs : List ℕ) → result_count f (verdicts v fs) ≡ occurrences f fs
unfolding result_count occurrences
result_count-verdicts f v [] = refl
result_count-verdicts f v (g ∷ fs) = omega (arith, result_count-verdicts f v fs)

occurrences-split :
    (f : ℕ) (test : ℕ → Bool) (fs : List ℕ)
    → occurrences f (filter_bool test fs) + occurrences f (filter_bool (λ g. not (test g)) fs)
      ≡ occurrences f fs
unfolding occurrences
occurrences-split f test [] = refl
occurrences-split f test (g ∷ fs) =
    let rest = occurrences-split f test fs in
    elim (Bool-cases (test g)) [
      | inl e ↦
          rw (filter_bool-true test g fs e, filter_bool-false (λ g. not (test g)) g fs (ap not e))
            (omega (arith, rest))
      | inr e ↦
          rw (filter_bool-false test g fs e, filter_bool-true (λ g. not (test g)) g fs (ap not e))
            (omega (arith, rest))
    ]

pub while_pending-either {ℓ} :
    (P : Collection → Type ℓ) (fs : List ℕ) (c next : Collection)
    → P c
    → P next
    → P (while_pending fs c next)
unfolding while_pending
while_pending-either P [] c next h k = h
while_pending-either P (_ ∷ _) c next h k = k

-- A future's results and its pending places together are its places among the futures.
Balanced : List ℕ → Collection → Type 0
Balanced futures c =
    (f : ℕ) → result_count f c.results + occurrences f c.pending ≡ occurrences f futures

settle-Balanced :
    (futures : List ℕ) (test : ℕ → Bool) (v : Verdict) (c : Collection)
    → Balanced futures c
    → Balanced futures (settle test v c)
unfolding Balanced settle
settle-Balanced futures test v c h f =
    let done = filter_bool test c.pending in
    omega (
      arith,
      h f,
      result_count-append f c.results (verdicts v done),
      result_count-verdicts f v done,
      occurrences-split f test c.pending,
    )

with_deadlines-Balanced :
    (futures : List ℕ) (p : Poll) (budget : ℕ) (c : Collection)
    → Balanced futures c
    → Balanced futures (with_deadlines p budget c)
unfolding Balanced
with_deadlines-Balanced futures p budget c h = h

module _ (futures : List ℕ) (max_workers budget : ℕ) where
  cancel_blocked-Balanced :
      (p : Poll) (c : Collection)
      → Balanced futures c
      → Balanced futures (cancel_blocked futures max_workers budget p c)
  unfolding cancel_blocked
  cancel_blocked-Balanced p c h =
      if-either (Balanced futures) _ (settle p.cancels fetch_workers_unavailable c) c
        (settle-Balanced futures p.cancels fetch_workers_unavailable c h) h

  poll_round-Balanced :
      (p : Poll) (c : Collection)
      → Balanced futures c
      → Balanced futures (poll_round futures max_workers budget p c)
  unfolding poll_round
  poll_round-Balanced p c h =
      let finished = settle-Balanced futures p.done own_result c h in
      let timed = with_deadlines-Balanced futures p budget (settle p.done own_result c) finished in
      settle-Balanced futures _ fetch_timeout _ (cancel_blocked-Balanced p _ timed)

  collect_from-Balanced :
      (polls : List Poll) (c : Collection)
      → Balanced futures c
      → Balanced futures (collect_from futures max_workers budget polls c)
  unfolding collect_from
  collect_from-Balanced [] c h = h
  collect_from-Balanced (p ∷ polls) c h =
      let next = poll_round futures max_workers budget p c in
      while_pending-either (Balanced futures) c.pending c _ h
        (collect_from-Balanced polls next (poll_round-Balanced p c h))

  -- Whatever the polls observe, no result is lost and none is given twice: a future among the futures
  -- once has one result if it is no longer pending, and none while it is.
  pub collect_with_timeout-once :
      (polls : List Poll) (f : ℕ)
      → let c = collect_with_timeout futures max_workers budget polls in
        result_count f c.results + occurrences f c.pending ≡ occurrences f futures
  unfolding collect_with_timeout Balanced result_count
  collect_with_timeout-once polls =
      collect_from-Balanced polls (record { pending = futures; deadlines = []; results = [] })
        (λ f. omega arith)
