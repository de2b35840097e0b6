-- ===== src/Scan/State/Breadth.antt =====
-- The breadth's counts, and what the classification says of them.
use stock_daily_report.Prelude.{
  ℕ, ◌+◌, ◌-◌, ◌≤◌, ◌<◌, ◌≡◌, ◌↔◌, ◌⊎◌, refl, ap, true, false, List, [], ◌∷◌, Option, none, some,
  inl, inr, arith, length,
}
use stock_daily_report.Floats.{Float, float_lt}
use stock_daily_report.Scan.State.{
  MarketBreadth, valid_changes, count, advances, declines, breadth_of, breadth_from,
  missing_breadth, calculate_breadth, validate_counts, MarketIndexState, bulls, bears, aligned,
  divergent, classify_counts, classify_market_state,
}

never_both : (v : Float) → advances v ≡ true → declines v ≡ false
unfolding float_lt
never_both v h = ground arith

count-disjoint : (vs : List Float) → count advances vs + count declines vs ≤ length vs
unfolding count
count-disjoint [] = omega arith
count-disjoint (v ∷ vs) = ground (arith, never_both v, count-disjoint vs)

valid_changes-length : (cs : List (Option Float)) → length (valid_changes cs) ≤ length cs
unfolding valid_changes
valid_changes-length [] = omega arith
valid_changes-length (c ∷ cs) = ground (arith, valid_changes-length cs)

none_valid : validate_counts missing_breadth ≡ true
unfolding validate_counts
none_valid = refl

no_counts : (count advances [] ≡ 0) × (count declines [] ≡ 0)
unfolding count
no_counts = (refl, refl)

breadth_of-counts :
    (a d v t : ℕ)
    → a + d ≤ v
    → ((breadth_of a d v t).advancing_count ≡ some a)
      × ((breadth_of a d v t).declining_count ≡ some d)
      × ((breadth_of a d v t).unchanged_count ≡ some (v - a - d))
      × ((breadth_of a d v t).valid_count ≡ some (a + d + (v - a - d)))
unfolding breadth_of
breadth_of-counts a d v t h = (refl, refl, refl, ap some (omega arith))

breadth_of-valid : (a d v t : ℕ) → a + d ≤ v → v ≤ t → validate_counts (breadth_of a d v t) ≡ true
unfolding validate_counts breadth_of
breadth_of-valid a d v t h k = ground arith

-- There are no counts, or the advancing, declining and unchanged quotes add up to the valid ones.
abbrev pub AddsUp : MarketBreadth → Type 0
AddsUp b =
    (b.valid_count ≡ none)
    ⊎ ((advancing declining unchanged : ℕ) × (b.advancing_count ≡ some advancing)
        × (b.declining_count ≡ some declining)
        × (b.unchanged_count ≡ some unchanged)
        × (b.valid_count ≡ some (advancing + declining + unchanged)))

breadth_from-valid :
    (vs : List Float) (total : ℕ)
    → length vs ≤ total
    → (validate_counts (breadth_from vs total) ≡ true) × AddsUp (breadth_from vs total)
unfolding breadth_from
breadth_from-valid [] total h = (none_valid, inl refl)
breadth_from-valid (v ∷ vs) total h =
    let disjoint = count-disjoint (v ∷ vs) in
    let (c1, c2, c3, c4) = breadth_of-counts _ _ _ total disjoint in
    (
      breadth_of-valid _ _ _ total disjoint h,
      inr (
        count advances (v ∷ vs),
        count declines (v ∷ vs),
        length (v ∷ vs) - count advances (v ∷ vs) - count declines (v ∷ vs),
        c1,
        c2,
        c3,
        c4,
      ),
    )

-- Every snapshot gives a breadth that the validators accept, and where it has counts, the advancing,
-- declining and unchanged quotes add up to the valid ones.
pub calculate_breadth-valid :
    (changes : List (Option Float))
    → (validate_counts (calculate_breadth changes) ≡ true) × AddsUp (calculate_breadth changes)
unfolding calculate_breadth
calculate_breadth-valid changes =
    breadth_from-valid (valid_changes changes) (length changes) (valid_changes-length changes)

-- One direction has the majority in the first pair of counts, and the same or the other one in the
-- second pair.
abbrev pub SameMajority : ℕ → ℕ → ℕ → ℕ → Type 0
SameMajority a b c d = ((b < a) × (d < c)) ⊎ ((a < b) × (c < d))

classify_counts_iff :
    (bull bear up down : ℕ)
    → ((classify_counts bull bear up down ≡ aligned) ↔ SameMajority bull bear up down)
      × ((classify_counts bull bear up down ≡ divergent) ↔ SameMajority bull bear down up)
unfolding classify_counts
classify_counts_iff bull bear up down = ((ground arith, ground arith), (ground arith, ground arith))

classify_market_state-counts :
    (indices : List MarketIndexState) (vs : List Float) (total : ℕ)
    → classify_market_state indices (breadth_from vs total)
      ≡ classify_counts (bulls indices) (bears indices) (count advances vs) (count declines vs)
unfolding classify_market_state breadth_from breadth_of classify_counts
classify_market_state-counts indices [] total = ground (arith, no_counts)
classify_market_state-counts indices (v ∷ vs) total = ground arith

-- For a breadth of quotes, the market is aligned exactly if the majority of the available indices
-- with a direction points where the majority of the quotes with a change goes, and divergent exactly
-- if the two majorities point opposite ways.
pub classify_market_state_iff :
    (indices : List MarketIndexState) (changes : List (Option Float))
    → let up = count advances (valid_changes changes) in
      let down = count declines (valid_changes changes) in
      let class = classify_market_state indices (calculate_breadth changes) in
      ((class ≡ aligned) ↔ SameMajority (bulls indices) (bears indices) up down)
      × ((class ≡ divergent) ↔ SameMajority (bulls indices) (bears indices) down up)
unfolding calculate_breadth
classify_market_state_iff indices changes =
    rw (classify_market_state-counts indices (valid_changes changes) (length changes))
      (classify_counts_iff (bulls indices) (bears indices) _ _)
