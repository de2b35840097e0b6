-- ===== src/Quality.antt =====
-- src/stock_daily_report/quality/checks.py: the checks that bars pass before they are analyzed.
-- A field that `_parse_price` or `_parse_trade_date` maps to `None` is `none`. Messages are left out.
pub mod Calendar
pub mod Clean
pub mod Decide
use stock_daily_report.Prelude.{
  ℕ, zero, suc, ◌+◌, ◌-◌, ◌%◌, Bool, true, false, ◌&&◌, ◌||◌, not, List, [], ◌∷◌, ◌++◌, Option,
  none, some, ltb, leb, ◌==◌, max, if◌then◌else◌, length,
}
use stock_daily_report.Bars.{Date, weekday}
use stock_daily_report.Floats.{
  Float, nan, infinite, neg_infinite, fin, neg, is_finite, float_lt, float_le,
}

-- The fields that the checks read, as parsed.
pub record BarRecord : Type 0 where
  pub trade_date : Option Date
  pub open_price : Option Float
  pub high : Option Float
  pub low : Option Float
  pub close : Option Float

pub record DataQualitySettings : Type 0 where
  pub minimum_history_bars : ℕ
  pub max_completed_trading_day_lag : ℕ

pub data IssueCode : Type 0 where
  invalid_trade_date missing_ohlc negative_ohlc high_lt_low close_outside_low_high : IssueCode
  duplicate_trade_date non_chronological_trade_dates future_trade_date : IssueCode
  insufficient_history stale_last_trade_date invalid_bar invalid_response : IssueCode

pub record DataQualityIssue : Type 0 where
  pub code : IssueCode
  pub record_index : Option ℕ

pub record DataQualityResult : Type 0 where
  pub as_of : Date
  pub issues : List DataQualityIssue
  pub bar_count : ℕ
  pub analysis_allowed : Bool

abbrev pub issue : IssueCode → ℕ → DataQualityIssue
issue code index = record { code = code; record_index = some index }

abbrev pub issue_if : Bool → IssueCode → ℕ → List DataQualityIssue
issue_if true code index = issue code index ∷ []
issue_if false code index = []

-- `value <= 0 or not math.isfinite(value)`
abbrev pub is_bad_price : Float → Bool
is_bad_price (fin zero) = true
is_bad_price (fin (suc _)) = false
is_bad_price _ = true

unfoldable pub price_issues : Option Float → ℕ → List DataQualityIssue
price_issues none index = issue missing_ohlc index ∷ []
price_issues (some value) index = issue_if (is_bad_price value) negative_ohlc index

unfoldable pub date_issues : Option Date → ℕ → List DataQualityIssue
date_issues none index = issue invalid_trade_date index ∷ []
date_issues (some _) index = []

abbrev pub is_valid : Option Float → Bool
is_valid none = false
is_valid (some value) = is_finite value

abbrev pub opt_lt : Option Float → Option Float → Bool
opt_lt (some a) (some b) = float_lt a b
opt_lt _ _ = false

abbrev pub opt_le : Option Float → Option Float → Bool
opt_le (some a) (some b) = float_le a b
opt_le _ _ = false

unfoldable pub range_issues : BarRecord → ℕ → List DataQualityIssue
range_issues r index =
    issue_if ((is_valid r.high && is_valid r.low) && opt_lt r.high r.low) high_lt_low index
    ++ issue_if
        (((is_valid r.low && is_valid r.high) && is_valid r.close)
          && not (opt_le r.low r.close && opt_le r.close r.high))
        close_outside_low_high index

-- One round of the loop over the bars.
unfoldable pub record_issues : BarRecord → ℕ → List DataQualityIssue
record_issues r index =
    date_issues r.trade_date index
    ++ (price_issues r.open_price index
        ++ (price_issues r.high index
            ++ (price_issues r.low index ++ (price_issues r.close index ++ range_issues r index))))

unfoldable pub all_record_issues : ℕ → List BarRecord → List DataQualityIssue
all_record_issues index [] = []
all_record_issues index (r ∷ rs) = record_issues r index ++ all_record_issues (index + 1) rs

-- `trade_dates`
unfoldable pub trade_dates : ℕ → List BarRecord → List (ℕ × Date)
trade_dates index [] = []
trade_dates index (r ∷ rs) = elim r.trade_date [
  | none ↦ trade_dates (index + 1) rs
  | some d ↦ (index, d) ∷ trade_dates (index + 1) rs
]

unfoldable pub is_seen : Date → List Date → Bool
is_seen d [] = false
is_seen d (x ∷ xs) = (d == x) || is_seen d xs

abbrev pub is_not_after : Date → Option Date → Bool
is_not_after d none = false
is_not_after d (some previous) = leb d previous

-- The loop of `_validate_date_sequence`, with `seen_dates` and `previous`.
unfoldable pub sequence_issues : List Date → Option Date → List (ℕ × Date) → List DataQualityIssue
sequence_issues seen previous [] = []
sequence_issues seen previous ((index, d) ∷ rest) =
    issue_if (is_seen d seen) duplicate_trade_date index
    ++ (issue_if (is_not_after d previous) non_chronological_trade_dates index
        ++ sequence_issues (d ∷ seen) (some d) rest)

unfoldable pub future_issues : Date → List (ℕ × Date) → List DataQualityIssue
future_issues as_of [] = []
future_issues as_of ((index, d) ∷ rest) =
    issue_if (ltb as_of d) future_trade_date index ++ future_issues as_of rest

-- `_most_recent_weekday`: the loop, on the rounds that it can make; a weekend has two days.
unfoldable pub back_to_weekday : ℕ → Date → Date
back_to_weekday zero d = d
back_to_weekday (suc fuel) d =
    let earlier = back_to_weekday fuel (d - 1) in if leb 5 (weekday d) then earlier else d

unfoldable pub most_recent_weekday : Date → Date
most_recent_weekday d = back_to_weekday 2 d

-- `_weekday_distance`: the loop, on the days left.
unfoldable pub weekdays_after : ℕ → Date → ℕ
weekdays_after zero current = 0
weekdays_after (suc days) current =
    (if ltb (weekday (current + 1)) 5 then 1 else 0) + weekdays_after days (current + 1)

unfoldable pub weekday_distance : Date → Date → ℕ
weekday_distance start end = weekdays_after (end - start) start

unfoldable pub is_stale : Date → Date → ℕ → Bool
is_stale last as_of maximum_lag =
    let expected = most_recent_weekday as_of in
    if leb expected last then false else ltb maximum_lag (weekday_distance last expected)

abbrev pub max_date : Date → List (ℕ × Date) → Date
max_date d [] = d
max_date d ((index, e) ∷ rest) = max_date (max d e) rest

unfoldable pub stale_issues : Date → ℕ → List (ℕ × Date) → List DataQualityIssue
stale_issues as_of maximum_lag [] = []
stale_issues as_of maximum_lag ((index, d) ∷ rest) =
    if is_stale (max_date d rest) as_of maximum_lag
    then record { code = stale_last_trade_date; record_index = none } ∷ []
    else []

unfoldable pub history_issues : ℕ → ℕ → List DataQualityIssue
history_issues count minimum =
    if ltb count minimum
    then record { code = insufficient_history; record_index = none } ∷ []
    else []

abbrev pub is_empty {ℓ} : {A : Type ℓ} → List A → Bool
is_empty [] = true
is_empty (_ ∷ _) = false

unfoldable pub find_issues : List BarRecord → Date → DataQualitySettings → List DataQualityIssue
find_issues bars as_of settings =
    let known = trade_dates 0 bars in
    all_record_issues 0 bars
    ++ (sequence_issues [] none known
        ++ (future_issues as_of known
            ++ (history_issues (length bars) settings.minimum_history_bars
                ++ stale_issues as_of settings.max_completed_trading_day_lag known)))

unfoldable pub validate_bars : List BarRecord → Date → DataQualitySettings → DataQualityResult
validate_bars bars as_of settings =
    let issues = find_issues bars as_of settings in
    record {
      as_of = as_of;
      issues = issues;
      bar_count = length bars;
      analysis_allowed = is_empty issues;
    }

-- `with_issue`
unfoldable pub with_issue : DataQualityResult → IssueCode → DataQualityResult
with_issue result code = record result {
  issues = result.issues ++ (record { code = code; record_index = none } ∷ []);
  analysis_allowed = false;
}
