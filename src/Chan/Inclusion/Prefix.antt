-- ===== src/Chan/Inclusion/Prefix.antt =====
-- Inclusion processing of a longer history: all processed bars but the last one stay.
use stock_daily_report.Prelude.{
  ℕ, suc, ◌+◌, ◌≡◌, refl, sym, ◌∙◌, ap, List, [], ◌∷◌, ◌++◌, inl, inr, arith, length, last_or,
  drop_last, Extends, Bool-cases, drop_last-append-cons,
}
use native.Mathlib.Nat.{add-zero}
use stock_daily_report.Bars.{DailyBar}
use stock_daily_report.Chan.Common.{ProcessedBar}
use stock_daily_report.Chan.Inclusion.{
  includes, merge, follow, incoming, process_from, process_inclusion, process_from-merge,
  process_from-follow,
}

cons-process_from :
    (p previous : ProcessedBar) (i : ℕ) (bars : List DailyBar)
    → (drop_last (p ∷ process_from previous i bars) ≡ p ∷ drop_last (process_from previous i bars))
      × (last_or p (process_from previous i bars) ≡ last_or previous (process_from previous i bars))
unfolding process_from
cons-process_from p previous i [] = (refl, refl)
cons-process_from p previous i (bar ∷ bars) =
    elim (Bool-cases (includes previous (incoming i bar))) [
      | inl inside ↦
          let ih = cons-process_from p (merge previous (incoming i bar)) (i + 1) bars in
          let ih' = cons-process_from previous (merge previous (incoming i bar)) (i + 1) bars in
          rw (process_from-merge previous i bar bars inside) (ih.0, ih.1 ∙ sym ih'.1)
      | inr apart ↦ rw (process_from-follow previous i bar bars apart) (refl, refl)
    ]

process_from-append :
    (previous : ProcessedBar) (i : ℕ) (bars more : List DailyBar)
    → process_from previous i (bars ++ more)
      ≡ drop_last (process_from previous i bars)
        ++ process_from (last_or previous (process_from previous i bars)) (i + length bars) more
unfolding process_from
process_from-append previous i [] more = rw (add-zero i)
process_from-append previous i (bar ∷ bars) more =
    elim (Bool-cases (includes previous (incoming i bar))) [
      | inl inside ↦
          let next = merge previous (incoming i bar) in
          let tail = cons-process_from previous next (i + 1) bars in
          let shift : i + suc (length bars) ≡ i + 1 + length bars = omega arith in
          rw
            (
              process_from-merge previous i bar (bars ++ more) inside,
              process_from-merge previous i bar bars inside,
            )
            (process_from-append next (i + 1) bars more ∙ rw (tail.1, shift))
      | inr apart ↦
          let next = follow previous (incoming i bar) in
          let tail = cons-process_from previous next (i + 1) bars in
          let shift : i + suc (length bars) ≡ i + 1 + length bars = omega arith in
          rw
            (
              process_from-follow previous i bar (bars ++ more) apart,
              process_from-follow previous i bar bars apart,
            )
            (ap (◌∷◌ previous) (process_from-append next (i + 1) bars more)
              ∙ rw (tail.0, tail.1, shift))
    ]

starts-process_from :
    (xs : List ProcessedBar) (previous : ProcessedBar) (i : ℕ) (bars : List DailyBar)
    → Extends xs (drop_last (xs ++ process_from previous i bars))
unfolding process_from
starts-process_from xs previous i [] = ([], sym (drop_last-append-cons xs previous []))
starts-process_from xs previous i (bar ∷ bars) =
    elim (Bool-cases (includes previous (incoming i bar))) [
      | inl inside ↦
          rw (process_from-merge previous i bar bars inside)
            (starts-process_from xs (merge previous (incoming i bar)) (i + 1) bars)
      | inr apart ↦ rw (process_from-follow previous i bar bars apart) (
        _,
        sym (
            drop_last-append-cons xs previous
              (process_from (follow previous (incoming i bar)) (i + 1) bars)),
      )
    ]

-- More input never changes a processed bar that is not the last one.
pub process_inclusion-Extends :
    (bars more : List DailyBar)
    → Extends (drop_last (process_inclusion bars)) (drop_last (process_inclusion (bars ++ more)))
unfolding process_inclusion
process_inclusion-Extends [] more = (_, refl)
process_inclusion-Extends (bar ∷ bars) more =
    rw (process_from-append (incoming 0 bar) 1 bars more)
      (starts-process_from (drop_last (process_from (incoming 0 bar) 1 bars)) _ _ more)

-- Processing is incremental: a longer history is processed by going on from the last processed
-- bar of the shorter one, behind all the processed bars in front of that.
pub process_inclusion-append :
    (bar : DailyBar) (bars more : List DailyBar)
    → process_inclusion ((bar ∷ bars) ++ more)
      ≡ drop_last (process_inclusion (bar ∷ bars))
        ++ process_from
            (last_or (incoming 0 bar) (process_inclusion (bar ∷ bars)))
            (length (bar ∷ bars))
            more
unfolding process_inclusion
process_inclusion-append bar bars more =
    let shift : suc (length bars) ≡ 1 + length bars = omega arith in
    rw (shift, process_from-append (incoming 0 bar) 1 bars more)
