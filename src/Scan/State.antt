-- ===== src/Scan/State.antt =====
-- src/stock_daily_report/market_scan/state.py: the breadth of a quote snapshot, the trend of an index,
-- and how they agree. A ratio stands as the two counts that it divides; a change of a quote that is no
-- number is `none`. Names, providers and messages are left out, and so are the index's averages.
pub mod Breadth
use stock_daily_report.Prelude.{
  ℕ, suc, ◌+◌, ◌-◌, Bool, true, false, ◌&&◌, ◌||◌, not, List, [], ◌∷◌, Option, none, some, ltb, leb,
  ◌==◌, if◌then◌else◌, length,
}
use stock_daily_report.Floats.{Float, fin, float_lt, float_le, finite, above, zero_float}

pub data StateStatus : Type 0 where
  available partial unavailable : StateStatus

pub record Ratio : Type 0 where
  pub part : ℕ
  pub whole : ℕ

pub record MarketBreadth : Type 0 where
  pub status : StateStatus
  pub advancing_count : Option ℕ
  pub declining_count : Option ℕ
  pub unchanged_count : Option ℕ
  pub advancing_ratio : Option Ratio
  pub declining_ratio : Option Ratio
  pub advance_decline_ratio : Option Ratio
  pub valid_count : Option ℕ
  pub total_count : Option ℕ
  pub has_error_code : Bool

-- The finite changes: `valid_changes`.
unfoldable pub valid_changes : List (Option Float) → List Float
valid_changes [] = []
valid_changes (c ∷ cs) = elim (finite c) [ none ↦ valid_changes cs | some v ↦ v ∷ valid_changes cs ]

unfoldable pub count : (Float → Bool) → List Float → ℕ
count p [] = 0
count p (v ∷ vs) = (if p v then 1 else 0) + count p vs

abbrev pub advances : Float → Bool
advances v = float_lt (fin 0) v

abbrev pub declines : Float → Bool
declines v = float_lt v (fin 0)

abbrev pub missing_breadth : MarketBreadth
missing_breadth = record {
  status = unavailable;
  advancing_count = none;
  declining_count = none;
  unchanged_count = none;
  advancing_ratio = none;
  declining_ratio = none;
  advance_decline_ratio = none;
  valid_count = none;
  total_count = none;
  has_error_code = true;
}

-- The breadth of the counts of advancing, declining, valid and all quotes; some quote is valid.
unfoldable pub breadth_of : ℕ → ℕ → ℕ → ℕ → MarketBreadth
breadth_of advancing declining valid total = record {
  status = if declining == 0 then partial else available;
  advancing_count = some advancing;
  declining_count = some declining;
  unchanged_count = some (valid - advancing - declining);
  advancing_ratio = some (record { part = advancing; whole = valid });
  declining_ratio = some (record { part = declining; whole = valid });
  advance_decline_ratio =
      if declining == 0 then none else some (record { part = advancing; whole = declining });
  valid_count = some valid;
  total_count = some total;
  has_error_code = false;
}

-- The breadth of the valid changes, and the count of all quotes.
unfoldable pub breadth_from : List Float → ℕ → MarketBreadth
breadth_from [] total = missing_breadth
breadth_from (v ∷ vs) total =
    breadth_of (count advances (v ∷ vs)) (count declines (v ∷ vs)) (length (v ∷ vs)) total

-- `calculate_breadth`, of the changes of the quotes
unfoldable pub calculate_breadth : List (Option Float) → MarketBreadth
calculate_breadth changes = breadth_from (valid_changes changes) (length changes)

abbrev is_set {ℓ} : {A : Type ℓ} → Option A → Bool
is_set none = false
is_set (some _) = true

abbrev at_most_one : Option Ratio → Bool
at_most_one none = true
at_most_one (some r) = leb r.part r.whole

abbrev fits : Option ℕ → Option ℕ → Bool
fits (some valid) (some total) = leb valid total
fits _ _ = true

-- `validate_counts` and the bounds of the fields: false for a ValueError.
unfoldable pub validate_counts : MarketBreadth → Bool
validate_counts b =
    let all =
      is_set b.advancing_count
      && (is_set b.declining_count
          && (is_set b.unchanged_count
              && (is_set b.advancing_ratio
                  && (is_set b.declining_ratio
                      && (is_set b.advance_decline_ratio
                          && (is_set b.valid_count && is_set b.total_count)))))) in
    let any =
      is_set b.advancing_count
      || (is_set b.declining_count
          || (is_set b.unchanged_count
              || (is_set b.advancing_ratio
                  || (is_set b.declining_ratio
                      || (is_set b.advance_decline_ratio
                          || (is_set b.valid_count || is_set b.total_count)))))) in
    (fits b.valid_count b.total_count
      && (at_most_one b.advancing_ratio && at_most_one b.declining_ratio))
    && elim b.status [
      | available ↦ all
      | partial ↦ true
      | unavailable ↦ not any && b.has_error_code
    ]

pub data IndexTrend : Type 0 where
  bullish bearish neutral insufficient_trend : IndexTrend

-- `_classify_index_trend`; the averages and the change are those of the index.
unfoldable pub classify_index_trend :
    Float → Option Float → Option Float → Option Float → IndexTrend
classify_index_trend close none ma20 ma60 = insufficient_trend
classify_index_trend close (some change) none ma60 = insufficient_trend
classify_index_trend close (some change) (some ma20) none = insufficient_trend
classify_index_trend close (some change) (some ma20) (some ma60) =
    if (float_lt ma20 close && float_lt ma60 ma20) && float_le (fin 0) change
    then bullish
    else if (float_lt close ma20 && float_lt ma20 ma60) && float_le change (fin 0)
    then bearish
    else neutral

-- What the classification reads of a `MarketIndexState`.
pub record MarketIndexState : Type 0 where
  pub status : StateStatus
  pub trend : Option IndexTrend

abbrev is_bull : MarketIndexState → Bool
is_bull i = elim i.status [
  | available ↦ elim i.trend [ some bullish ↦ true | _ ↦ false ]
  | _ ↦ false
]

abbrev is_bear : MarketIndexState → Bool
is_bear i = elim i.status [
  | available ↦ elim i.trend [ some bearish ↦ true | _ ↦ false ]
  | _ ↦ false
]

-- `index_directions.count("bullish")` and `.count("bearish")`: the other directions are filtered out.
unfoldable pub bulls : List MarketIndexState → ℕ
bulls [] = 0
bulls (i ∷ is) = (if is_bull i then 1 else 0) + bulls is

unfoldable pub bears : List MarketIndexState → ℕ
bears [] = 0
bears (i ∷ is) = (if is_bear i then 1 else 0) + bears is

pub data MarketClassification : Type 0 where
  aligned divergent insufficient : MarketClassification

-- The classification of counts, from `if breadth.advancing_count == ...` on.
unfoldable pub classify_counts : ℕ → ℕ → ℕ → ℕ → MarketClassification
classify_counts bull bear advancing declining =
    if advancing == declining
    then insufficient
    else if ltb bear bull
    then (if ltb declining advancing then aligned else divergent)
    else if ltb bull bear
    then (if ltb declining advancing then divergent else aligned)
    else insufficient

unfoldable pub classify_market_state : List MarketIndexState → MarketBreadth → MarketClassification
classify_market_state indices breadth =
    if (bulls indices + bears indices) == 0 then insufficient else elim breadth.status [
      | unavailable ↦ insufficient
      | _ ↦ elim breadth.advancing_count [
        | none ↦ insufficient
        | some advancing ↦ elim breadth.declining_count [
          | none ↦ insufficient
          | some declining ↦ classify_counts (bulls indices) (bears indices) advancing declining
        ]
      ]
    ]
