-- ===== src/Chan/Observations/Breakout.antt =====
-- The observations never index beyond the bars.
use stock_daily_report.Prelude.{
  ℕ, zero, suc, ◌+◌, ◌≤◌, ◌<◌, ◌≡◌, refl, Bool, true, false, List, [], ◌∷◌, Option, none, some, inl,
  inr, arith, ltb, leb, length, get_elem?-within, Bool-cases,
}
use stock_daily_report.Bars.{Date, DailyBar}
use stock_daily_report.Chan.Common.{candidate, confirmed, CentralArea, Observation}
use stock_daily_report.Chan.Observations.{
  ◌>>=◌, is_after, eligible_from, above_at, walk_back, index_of, has_two_from, date_at,
  observation_at, last_index_or, breakout, last_close, last_area, find_observations,
}

-- Indices that rise from `low` on and stay below `high`.
abbrev RisesTo : ℕ → ℕ → List ℕ → Type 0
RisesTo low high [] = Unit
RisesTo low high (x ∷ xs) = (low ≤ x) × (x < high) × RisesTo (x + 1) high xs

RisesTo-weaken : (i j high : ℕ) (xs : List ℕ) → j ≤ i → RisesTo i high xs → RisesTo j high xs
RisesTo-weaken i j high [] h r = tt
RisesTo-weaken i j high (x ∷ xs) h r = (omega arith, r.1, r.2)

eligible_from-RisesTo :
    (c : Option Date) (index high : ℕ) (bars : List DailyBar)
    → index + length bars ≤ high
    → RisesTo index high (eligible_from c index bars)
unfolding eligible_from
eligible_from-RisesTo c index high [] h = tt
eligible_from-RisesTo c index high (bar ∷ bars) h =
    let ih = eligible_from-RisesTo c (index + 1) high bars (omega arith) in
    elim (is_after bar.trade_date c)
      as (λ b. RisesTo index high (elim b [
        | true ↦ index ∷ eligible_from c (index + 1) bars
        | false ↦ eligible_from c (index + 1) bars
      ])) [
        | true ↦ (omega arith, omega arith, ih)
        | false ↦
            RisesTo-weaken (index + 1) index high (eligible_from c (index + 1) bars) (omega arith)
              ih
      ]

last_index_or-lt :
    (d low high : ℕ) (xs : List ℕ) → d < high → RisesTo low high xs → last_index_or d xs < high
unfolding last_index_or
last_index_or-lt d low high [] h r = h
last_index_or-lt d low high (x ∷ xs) h r = last_index_or-lt x (x + 1) high xs r.1 r.2

walk_back-some :
    (level : ℕ) (bars : List DailyBar) (first start : ℕ)
    → start < length bars
    → (s : ℕ) × (walk_back level bars first start ≡ some s) × (s ≤ start)
unfolding walk_back above_at
walk_back-some level bars first zero h = (zero, refl, omega arith)
walk_back-some level bars first (suc k) h = elim (Bool-cases (ltb first (suc k))) [
  | inl more ↦
      let (bar, e) = get_elem?-within bars k (omega arith) in
      let (s, found, below) = walk_back-some level bars first k (omega arith) in
      elim (Bool-cases (ltb level bar.close)) [
        | inl above ↦ (s, ground (arith, e, found), omega arith)
        | inr under ↦ (suc k, ground (arith, e), omega arith)
      ]
  | inr stop ↦ (suc k, ground arith, omega arith)
]

has_two_from-lt :
    (start low high : ℕ) (xs : List ℕ)
    → RisesTo low high xs
    → has_two_from start xs ≡ true
    → start + 1 < high
unfolding has_two_from index_of
has_two_from-lt start low high [] r h = cc
has_two_from-lt start low high (x ∷ []) r h = ground arith
has_two_from-lt start low high (x ∷ y ∷ xs) r h =
    ground (arith, has_two_from-lt start (x + 1) high (y ∷ xs) r.2)

observation_at-some :
    (bars : List DailyBar) (start : ℕ) (two : Bool)
    → start < length bars
    → (two ≡ true → start + 1 < length bars)
    → (o : Observation) × (observation_at bars start two ≡ some o)
unfolding observation_at date_at
observation_at-some bars start true h k =
    let (b, e) = get_elem?-within bars start h in
    let (c, e') = get_elem?-within bars (start + 1) (k refl) in
    (
      record {
        formed_at = b.trade_date;
        confirmed_at = some c.trade_date;
        tradable_at = date_at bars (start + 2);
        status = confirmed;
      },
      ground (arith, e, e'),
    )
observation_at-some bars start false h k =
    let (b, e) = get_elem?-within bars start h in
    (
      record {
        formed_at = b.trade_date;
        confirmed_at = none;
        tradable_at = none;
        status = candidate;
      },
      ground (arith, e),
    )

breakout-some :
    (latest : CentralArea) (bars : List DailyBar)
    → (os : List Observation) × (breakout latest bars ≡ some os)
unfolding breakout
breakout-some latest bars =
    go (eligible_from latest.confirmed_at 0 bars) refl
      (eligible_from-RisesTo latest.confirmed_at 0 (length bars) bars (omega arith))
  where
    go :
        (xs : List ℕ)
        → eligible_from latest.confirmed_at 0 bars ≡ xs
        → RisesTo 0 (length bars) xs
        → (os : List Observation) × (breakout latest bars ≡ some os)
    go [] e r = ([], rw (e, breakout))
    go (x ∷ xs) e r =
        let last = last_index_or-lt x (x + 1) (length bars) xs r.1 r.2 in
        let (start, walked, below) = walk_back-some latest.high bars x (last_index_or x xs) last in
        let (o, observed) =
          observation_at-some bars start (has_two_from start (x ∷ xs)) (omega arith)
            (has_two_from-lt start 0 (length bars) (x ∷ xs) r) in
        (o ∷ [], rw (e, breakout) (rw (walked, ◌>>=◌) (rw (observed, ◌>>=◌))))

-- Looking for observations never raises an IndexError, whatever the bars and areas are.
pub find_observations-some :
    (bars : List DailyBar) (areas : List CentralArea)
    → (os : List Observation) × (find_observations bars areas ≡ some os)
unfolding find_observations
find_observations-some [] areas = ([], refl)
find_observations-some (b ∷ bars) [] = ([], refl)
find_observations-some (b ∷ bars) (a ∷ areas) =
    let (os, found) = breakout-some (last_area a areas) (b ∷ bars) in
    elim (Bool-cases (leb (last_close b bars) (last_area a areas).high)) [
      | inl low ↦ ([], ground arith)
      | inr above ↦ (os, ground (arith, found))
    ]
