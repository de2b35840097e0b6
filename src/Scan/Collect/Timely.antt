-- ===== src/Scan/Collect/Timely.antt =====
-- A timeout is given only to a future that was seen running for the whole budget.
use mathlib.Core.List.{Mem, mem-cons_self, mem-cons_of_mem}
use stock_daily_report.Prelude.{
  ℕ, ◌+◌, ◌≤◌, ◌≡◌, refl, subst, Bool, true, List, [], ◌∷◌, Option, none, some, inl, inr, arith,
  Bool-cases, Option-cases, ◌==◌, if-either, if-cases, All, All-append, filter_bool,
  filter_bool-true, filter_bool-false,
}
use stock_daily_report.Scan.Collect.{
  Poll, Verdict, Collection, verdicts, own_result, fetch_timeout, fetch_workers_unavailable,
  deadline_of, set_deadlines, or_new, settle, with_deadlines, is_expired, cancel_blocked,
  poll_round, collect_from, collect_with_timeout,
}
use stock_daily_report.Scan.Collect.Once.{while_pending-either}

module _ (budget : ℕ) (polls : List Poll) where
  -- Some poll saw the future running the whole budget before the deadline.
  pub record IsDeadline (x : ℕ × ℕ) : Type 0 where
    pub poll : Poll
    pub seen : Mem poll polls
    pub runs : poll.running x.0 ≡ true
    pub deadline : x.1 ≡ poll.now + budget

  -- If the result is a timeout, the future was seen running at a poll and a poll came at least the
  -- budget later.
  pub record IsTimely (x : ℕ × Verdict) : Type 0 where
    pub timely :
        x.1 ≡ fetch_timeout
        → (p : Poll) × (q : Poll) × Mem p polls
          × Mem q polls
          × (p.running x.0 ≡ true)
          × (p.now + budget ≤ q.now)

  deadline_of-IsDeadline :
      (f d : ℕ) (deadlines : List (ℕ × ℕ))
      → All IsDeadline deadlines
      → deadline_of f deadlines ≡ some d
      → IsDeadline (f, d)
  unfolding deadline_of
  deadline_of-IsDeadline f d [] h e = absurd (ground (arith, e))
  deadline_of-IsDeadline f d ((g, t) ∷ deadlines) (h, hs) e = elim (Bool-cases (f == g)) [
    | inl same ↦
        let at : f ≡ g = ground (arith, same) in
        let due : t ≡ d = ground (arith, e, same) in subst IsDeadline (cc (at, due)) h
    | inr other ↦ deadline_of-IsDeadline f d deadlines hs (ground (arith, e, other))
  ]

  or_new-All :
      (o : Option ℕ) (x : ℕ × ℕ) (deadlines : List (ℕ × ℕ))
      → IsDeadline x
      → All IsDeadline deadlines
      → All IsDeadline (or_new o x.0 x.1 deadlines)
  or_new-All none x deadlines h hs = (h, hs)
  or_new-All (some _) x deadlines h hs = hs

  set_deadlines-All :
      (p : Poll) (fs : List ℕ) (deadlines : List (ℕ × ℕ))
      → Mem p polls
      → All IsDeadline deadlines
      → All IsDeadline (set_deadlines p budget fs deadlines)
  unfolding set_deadlines
  set_deadlines-All p [] deadlines m h = h
  set_deadlines-All p (f ∷ fs) deadlines m h =
      let rest = set_deadlines-All p fs deadlines m h in
      if-cases (All IsDeadline) (p.running f) _ _
        (λ e.
          or_new-All (deadline_of f (set_deadlines p budget fs deadlines)) (f, p.now + budget) _
            (record { poll = p; seen = m; runs = e; deadline = refl }) rest)
        (λ _. rest)

  verdicts-All :
      (v : Verdict) (test : ℕ → Bool) (fs : List ℕ)
      → ((f : ℕ) → test f ≡ true → IsTimely (f, v))
      → All IsTimely (verdicts v (filter_bool test fs))
  verdicts-All v test [] h = tt
  verdicts-All v test (f ∷ fs) h = elim (Bool-cases (test f)) [
    | inl e ↦ rw (filter_bool-true test f fs e) (h f e, verdicts-All v test fs h)
    | inr e ↦ rw (filter_bool-false test f fs e) (verdicts-All v test fs h)
  ]

  Good : Collection → Type 0
  Good c = All IsDeadline c.deadlines × All IsTimely c.results

  settle-Good :
      (test : ℕ → Bool) (v : Verdict) (c : Collection)
      → ((f : ℕ) → test f ≡ true → IsTimely (f, v))
      → Good c
      → Good (settle test v c)
  unfolding Good settle
  settle-Good test v c timely (deadlines, results) = (
    deadlines,
    All-append IsTimely c.results (verdicts v (filter_bool test c.pending)) results
        (verdicts-All v test c.pending timely),
  )

  expired-IsTimely :
      (p : Poll) (deadlines : List (ℕ × ℕ)) (f : ℕ)
      → Mem p polls
      → All IsDeadline deadlines
      → is_expired p deadlines f ≡ true
      → IsTimely (f, fetch_timeout)
  expired-IsTimely p deadlines f m h e = elim (Option-cases (deadline_of f deadlines)) [
    | inl missing ↦ absurd (ground (arith, missing, e))
    | inr (d, found) ↦
        let due = deadline_of-IsDeadline f d deadlines h found in
        let start : d ≡ due.poll.now + budget = due.deadline in
        record {
          timely = λ _. (due.poll, p, due.seen, m, due.runs, ground (arith, found, e, start));
        }
  ]

  deadlines_of : (c : Collection) → Good c → All IsDeadline c.deadlines
  unfolding Good
  deadlines_of c h = h.0

  module _ (futures : List ℕ) (max_workers : ℕ) where
    cancel_blocked-Good :
        (p : Poll) (c : Collection) → Good c → Good (cancel_blocked futures max_workers budget p c)
    unfolding cancel_blocked
    cancel_blocked-Good p c h =
        if-either Good _ (settle p.cancels fetch_workers_unavailable c) c
          (settle-Good p.cancels fetch_workers_unavailable c
            (λ f _. record { timely = λ e. absurd (ground (arith, e)) }) h)
          h

    with_deadlines-Good :
        (p : Poll) (c : Collection) → Mem p polls → Good c → Good (with_deadlines p budget c)
    unfolding Good
    with_deadlines-Good p c m (deadlines, results) =
        (set_deadlines-All p c.pending c.deadlines m deadlines, results)

    poll_round-Good :
        (p : Poll) (c : Collection)
        → Mem p polls
        → Good c
        → Good (poll_round futures max_workers budget p c)
    unfolding poll_round
    poll_round-Good p c m h =
        let finished =
          settle-Good p.done own_result c
            (λ f _. record { timely = λ e. absurd (ground (arith, e)) }) h in
        let timed = with_deadlines-Good p (settle p.done own_result c) m finished in
        let cancelled = cancel_blocked-Good p _ timed in
        settle-Good _ fetch_timeout _ (λ f e. expired-IsTimely p _ f m (deadlines_of _ cancelled) e)
          cancelled

    collect_from-Good :
        (rest : List Poll) (c : Collection)
        → ((p : Poll) → Mem p rest → Mem p polls)
        → Good c
        → Good (collect_from futures max_workers budget rest c)
    unfolding collect_from
    collect_from-Good [] c m h = h
    collect_from-Good (p ∷ rest) c m h =
        let next = poll_round futures max_workers budget p c in
        while_pending-either Good c.pending c _ h (
          collect_from-Good rest next (λ q i. m q (mem-cons_of_mem p i))
            (poll_round-Good p c (m p mem-cons_self) h))

-- A future's result is a timeout only if a poll saw it running and another poll came at least the
-- budget later, so a request that waits for a worker is not timed out.
pub collect_with_timeout-IsTimely :
    (futures : List ℕ) (max_workers budget : ℕ) (polls : List Poll)
    → All (IsTimely budget polls) (collect_with_timeout futures max_workers budget polls).results
unfolding collect_with_timeout Good
collect_with_timeout-IsTimely futures max_workers budget polls =
    (collect_from-Good budget polls futures max_workers polls
      (record { pending = futures; deadlines = []; results = [] }) (λ p m. m) (tt, tt)).1
