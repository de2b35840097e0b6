-- ===== src/Chan/Inclusion/Trace.antt =====
-- The trace of each processed bar: which input bars it was made from.
use stock_daily_report.Prelude.{
  ℕ, zero, suc, ◌+◌, ◌<◌, ◌≡◌, refl, List, [], ◌∷◌, ◌++◌, inl, inr, arith, append_assoc, length,
  last_or, last_or-append, Bool-cases,
}
use stock_daily_report.Bars.{Date, DailyBar}
use stock_daily_report.Chan.Common.{ProcessedBar}
use stock_daily_report.Chan.Inclusion.{
  includes, merge, follow, incoming, process_from, process_inclusion, process_from-merge,
  process_from-follow,
}

-- `range(start, start + n)`
abbrev pub range_from : ℕ → ℕ → List ℕ
range_from start zero = []
range_from start (suc n) = start ∷ range_from (start + 1) n

abbrev pub all_indices : List ProcessedBar → List ℕ
all_indices [] = []
all_indices (p ∷ ps) = p.source_indices ++ all_indices ps

abbrev pub all_dates : List ProcessedBar → List Date
all_dates [] = []
all_dates (p ∷ ps) = p.source_dates ++ all_dates ps

abbrev pub dates : List DailyBar → List Date
dates [] = []
dates (bar ∷ bars) = bar.trade_date ∷ dates bars

process_from-trace :
    (previous : ProcessedBar) (i : ℕ) (bars : List DailyBar)
    → (all_indices (process_from previous i bars)
        ≡ previous.source_indices ++ range_from i (length bars))
      × (all_dates (process_from previous i bars) ≡ previous.source_dates ++ dates bars)
unfolding process_from
process_from-trace previous i [] = (refl, refl)
process_from-trace previous i (bar ∷ bars) =
    elim (Bool-cases (includes previous (incoming i bar))) [
      | inl inside ↦
          let ih = process_from-trace (merge previous (incoming i bar)) (i + 1) bars in
          rw (process_from-merge previous i bar bars inside)
            (unfold merge in simp (ih.0, append_assoc), unfold merge in simp (ih.1, append_assoc))
      | inr apart ↦
          let ih = process_from-trace (follow previous (incoming i bar)) (i + 1) bars in
          rw (process_from-follow previous i bar bars apart)
            (unfold follow in simp ih.0, unfold follow in simp ih.1)
    ]

-- Inclusion processing loses, repeats and reorders nothing: the source indices of the processed
-- bars, read in order, are 0 to n - 1, and their source dates are the trade dates of the input.
pub process_inclusion-trace :
    (bars : List DailyBar)
    → (all_indices (process_inclusion bars) ≡ range_from 0 (length bars))
      × (all_dates (process_inclusion bars) ≡ dates bars)
unfolding process_inclusion
process_inclusion-trace [] = (refl, refl)
process_inclusion-trace (bar ∷ bars) = process_from-trace (incoming 0 bar) 1 bars

-- `bar.source_indices[-1]`
abbrev pub last_index : ProcessedBar → ℕ
last_index p = last_or 0 p.source_indices

-- The last processed bar ends at the last of `n` inputs, and every other one before it.
abbrev pub EndsAt : ℕ → List ProcessedBar → Type 0
EndsAt n [] = Unit
EndsAt n (p ∷ []) = last_index p + 1 ≡ n
EndsAt n (p ∷ q ∷ ps) = (last_index p + 1 < n) × EndsAt n (q ∷ ps)

last_index-merge :
    (previous : ProcessedBar) (i : ℕ) (bar : DailyBar)
    → last_index (merge previous (incoming i bar)) ≡ i
unfolding merge
last_index-merge previous i bar = last_or-append 0 previous.source_indices (i ∷ [])

EndsAt-cons :
    (n : ℕ) (p : ProcessedBar) (previous : ProcessedBar) (i : ℕ) (bars : List DailyBar)
    → last_index p + 1 < n
    → EndsAt n (process_from previous i bars)
    → EndsAt n (p ∷ process_from previous i bars)
unfolding process_from
EndsAt-cons n p previous i [] h e = (h, e)
EndsAt-cons n p previous i (bar ∷ bars) h e =
    elim (Bool-cases (includes previous (incoming i bar))) [
      | inl inside ↦ rw (process_from-merge previous i bar bars inside) (
          EndsAt-cons n p (merge previous (incoming i bar)) (i + 1) bars h
            (rw (process_from-merge previous i bar bars inside) at e))
      | inr apart ↦
          rw (process_from-follow previous i bar bars apart)
            (h, rw (process_from-follow previous i bar bars apart) at e)
    ]

pub process_from-EndsAt :
    (n : ℕ) (previous : ProcessedBar) (i : ℕ) (bars : List DailyBar)
    → i + length bars ≡ n
    → last_index previous + 1 ≡ i
    → EndsAt n (process_from previous i bars)
unfolding process_from
process_from-EndsAt n previous i [] e h = omega arith
process_from-EndsAt n previous i (bar ∷ bars) e h =
    elim (Bool-cases (includes previous (incoming i bar))) [
      | inl inside ↦ rw (process_from-merge previous i bar bars inside) (
          process_from-EndsAt n (merge previous (incoming i bar)) (i + 1) bars (omega arith)
            (omega (arith, last_index-merge previous i bar)))
      | inr apart ↦ rw (process_from-follow previous i bar bars apart) (
          EndsAt-cons n previous (follow previous (incoming i bar)) (i + 1) bars (omega arith) (
            process_from-EndsAt n (follow previous (incoming i bar)) (i + 1) bars (omega arith)
              (unfold follow in refl)))
    ]

pub process_inclusion-EndsAt :
    (bars : List DailyBar) → EndsAt (length bars) (process_inclusion bars)
unfolding process_inclusion
process_inclusion-EndsAt [] = tt
process_inclusion-EndsAt (bar ∷ bars) =
    process_from-EndsAt (length (bar ∷ bars)) (incoming 0 bar) 1 bars (omega arith) (omega arith)
