-- ===== src/Chan/Inclusion/Order.antt =====
-- What the processed bars look like: neighbours are strictly ordered, so none includes the other.
use stock_daily_report.Prelude.{
  ℕ, ◌+◌, ◌<◌, ◌≡◌, false, List, [], ◌∷◌, inl, inr, refl, arith, Chain, Bool-cases,
}
use stock_daily_report.Bars.{DailyBar}
use stock_daily_report.Chan.Common.{Direction, up, down, neutral, ProcessedBar}
use stock_daily_report.Chan.Inclusion.{
  includes, merge, follow, incoming, process_from, process_inclusion, process_from-merge,
  process_from-follow,
}

abbrev pub Rises : Direction → ProcessedBar → ProcessedBar → Type 0
Rises up left right = (left.high < right.high) × (left.low < right.low)
Rises down left right = (right.high < left.high) × (right.low < left.low)
Rises neutral left right = ⊥

-- The direction of the right bar says how it lies to its left neighbour, in high and low alike.
abbrev pub Follows : ProcessedBar → ProcessedBar → Type 0
Follows left right = Rises right.direction left right

follow-Follows :
    (previous new : ProcessedBar)
    → includes previous new ≡ false
    → Follows previous (follow previous new)
unfolding includes follow
follow-Follows previous new h = ground arith

Rises-merge :
    (left previous new : ProcessedBar) (d : Direction)
    → previous.direction ≡ d
    → Rises d left previous
    → Follows left (merge previous new)
unfolding merge
Rises-merge left previous new up e (h, l) = rw e (omega arith)
Rises-merge left previous new down e (h, l) = rw e (omega arith)
Rises-merge left previous new neutral e r = absurd r

process_from-Follows :
    (left previous : ProcessedBar) (i : ℕ) (bars : List DailyBar)
    → Follows left previous
    → Chain Follows (left ∷ process_from previous i bars)
unfolding process_from
process_from-Follows left previous i [] h = (h, tt)
process_from-Follows left previous i (bar ∷ bars) h =
    elim (Bool-cases (includes previous (incoming i bar))) [
      | inl inside ↦ rw (process_from-merge previous i bar bars inside) (
          process_from-Follows left (merge previous (incoming i bar)) (i + 1) bars
            (Rises-merge left previous (incoming i bar) _ refl h))
      | inr apart ↦ rw (process_from-follow previous i bar bars apart) (
        h,
        process_from-Follows previous (follow previous (incoming i bar)) (i + 1) bars
            (follow-Follows previous (incoming i bar) apart),
      )
    ]

process_from-Chain :
    (previous : ProcessedBar) (i : ℕ) (bars : List DailyBar)
    → Chain Follows (process_from previous i bars)
unfolding process_from
process_from-Chain previous i [] = tt
process_from-Chain previous i (bar ∷ bars) =
    elim (Bool-cases (includes previous (incoming i bar))) [
      | inl inside ↦
          rw (process_from-merge previous i bar bars inside)
            (process_from-Chain (merge previous (incoming i bar)) (i + 1) bars)
      | inr apart ↦ rw (process_from-follow previous i bar bars apart) (
          process_from-Follows previous (follow previous (incoming i bar)) (i + 1) bars
            (follow-Follows previous (incoming i bar) apart))
    ]

-- For every list of bars, each processed bar after the first lies strictly above its left
-- neighbour in both high and low if its direction is up, strictly below in both if it is down,
-- and its direction is never neutral.
pub process_inclusion-Follows : (bars : List DailyBar) → Chain Follows (process_inclusion bars)
unfolding process_inclusion
process_inclusion-Follows [] = tt
process_inclusion-Follows (bar ∷ bars) = process_from-Chain (incoming 0 bar) 1 bars

Rises-not_includes :
    (d : Direction) (left right : ProcessedBar) → Rises d left right → includes left right ≡ false
unfolding includes
Rises-not_includes up left right h = ground arith
Rises-not_includes down left right h = ground arith
Rises-not_includes neutral left right h = absurd h

abbrev pub Apart : ProcessedBar → ProcessedBar → Type 0
Apart left right = includes left right ≡ false

Chain-Apart : (ps : List ProcessedBar) → Chain Follows ps → Chain Apart ps
Chain-Apart [] h = tt
Chain-Apart (p ∷ []) h = tt
Chain-Apart (p ∷ q ∷ ps) h = (Rises-not_includes q.direction p q h.0, Chain-Apart (q ∷ ps) h.1)

-- After inclusion processing no two neighbouring bars include one another.
pub process_inclusion-Apart : (bars : List DailyBar) → Chain Apart (process_inclusion bars)
process_inclusion-Apart bars = Chain-Apart (process_inclusion bars) (process_inclusion-Follows bars)
