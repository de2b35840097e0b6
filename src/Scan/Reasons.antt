-- ===== src/Scan/Reasons.antt =====
-- src/stock_daily_report/market_scan/filters.py: the reason codes and `EligibilityResult`.
use stock_daily_report.Prelude.{
  ℕ, ◌+◌, ◌≡◌, refl, Bool, true, false, ◌&&◌, ◌||◌, not, List, [], ◌∷◌, ◌++◌, arith, inl, inr, ◌==◌,
  if◌then◌else◌, Bool-cases,
}
use stock_daily_report.Quality.{
  IssueCode, invalid_trade_date, missing_ohlc, negative_ohlc, high_lt_low, close_outside_low_high,
  duplicate_trade_date, non_chronological_trade_dates, future_trade_date, insufficient_history,
  stale_last_trade_date, invalid_bar, invalid_response, DataQualityIssue, is_empty,
}

pub data Reason : Type 0 where
  quality : IssueCode → Reason
  special_treatment_name delisting_risk_warning_name unsupported_security : Reason
  invalid_latest_quote suspended_quote insufficient_latest_amount : Reason
  stale_quote_date future_quote_date suspended_latest_bar data_quality_rejected : Reason

abbrev issue_number : IssueCode → ℕ
issue_number invalid_trade_date = 0
issue_number missing_ohlc = 1
issue_number negative_ohlc = 2
issue_number high_lt_low = 3
issue_number close_outside_low_high = 4
issue_number duplicate_trade_date = 5
issue_number non_chronological_trade_dates = 6
issue_number future_trade_date = 7
issue_number insufficient_history = 8
issue_number stale_last_trade_date = 9
issue_number invalid_bar = 10
issue_number invalid_response = 11

-- A number for each reason, by which two reasons are compared.
abbrev pub reason_number : Reason → ℕ
reason_number (quality code) = 10 + issue_number code
reason_number special_treatment_name = 0
reason_number delisting_risk_warning_name = 1
reason_number unsupported_security = 2
reason_number invalid_latest_quote = 3
reason_number suspended_quote = 4
reason_number insufficient_latest_amount = 5
reason_number stale_quote_date = 6
reason_number future_quote_date = 7
reason_number suspended_latest_bar = 8
reason_number data_quality_rejected = 9

unfoldable pub has_reason : Reason → List Reason → Bool
has_reason r [] = false
has_reason r (x ∷ xs) = (reason_number r == reason_number x) || has_reason r xs

-- `_add_reason`
unfoldable pub add_reason : Reason → List Reason → List Reason
add_reason r reasons = if has_reason r reasons then reasons else reasons ++ (r ∷ [])

-- `if test: _add_reason(reasons, r)`
unfoldable pub add_if : Bool → Reason → List Reason → List Reason
add_if true r reasons = add_reason r reasons
add_if false r reasons = reasons

-- The codes of issues, each once, in the order of discovery, after those that are there.
unfoldable pub add_issue_codes : List DataQualityIssue → List Reason → List Reason
add_issue_codes [] reasons = reasons
add_issue_codes (i ∷ is) reasons = add_issue_codes is (add_reason (quality i.code) reasons)

pub record EligibilityResult : Type 0 where
  pub eligible : Bool
  pub reason_codes : List Reason

unfoldable pub is_distinct : List Reason → Bool
is_distinct [] = true
is_distinct (r ∷ rs) = not (has_reason r rs) && is_distinct rs

-- `__post_init__`: false for a ValueError.
unfoldable pub is_valid_result : EligibilityResult → Bool
is_valid_result e = elim e.eligible [
  | true ↦ is_empty e.reason_codes && is_distinct e.reason_codes
  | false ↦ not (is_empty e.reason_codes) && is_distinct e.reason_codes
]

-- `_result`
unfoldable pub result_of : List Reason → EligibilityResult
result_of reasons = record { eligible = is_empty reasons; reason_codes = reasons }

pub is_distinct-nil : is_distinct [] ≡ true
unfolding is_distinct
is_distinct-nil = refl

is_empty-snoc : (xs : List Reason) (r : Reason) → is_empty (xs ++ (r ∷ [])) ≡ false
is_empty-snoc [] r = refl
is_empty-snoc (x ∷ xs) r = refl

is_empty-has_reason : (r : Reason) (xs : List Reason) → has_reason r xs ≡ true → is_empty xs ≡ false
unfolding has_reason
is_empty-has_reason r [] h = cc
is_empty-has_reason r (x ∷ xs) h = refl

pub is_empty-add_reason : (r : Reason) (xs : List Reason) → is_empty (add_reason r xs) ≡ false
unfolding add_reason
is_empty-add_reason r xs = ground (arith, is_empty-snoc xs r, is_empty-has_reason r xs)

-- A guarded reason leaves the list empty exactly if it was empty and the guard fails.
pub is_empty-add_if :
    (b : Bool) (r : Reason) (xs : List Reason) → is_empty (add_if b r xs) ≡ (not b && is_empty xs)
unfolding add_if
is_empty-add_if true r xs = is_empty-add_reason r xs
is_empty-add_if false r xs = refl

add_issue_codes-keeps :
    (is : List DataQualityIssue) (xs : List Reason)
    → is_empty xs ≡ false
    → is_empty (add_issue_codes is xs) ≡ false
unfolding add_issue_codes
add_issue_codes-keeps [] xs h = h
add_issue_codes-keeps (i ∷ is) xs h =
    add_issue_codes-keeps is (add_reason (quality i.code) xs)
      (is_empty-add_reason (quality i.code) xs)

pub is_empty-add_issue_codes :
    (is : List DataQualityIssue) → is_empty (add_issue_codes is []) ≡ is_empty is
unfolding add_issue_codes
is_empty-add_issue_codes [] = refl
is_empty-add_issue_codes (i ∷ is) =
    add_issue_codes-keeps is (add_reason (quality i.code) [])
      (is_empty-add_reason (quality i.code) [])

has_reason-snoc :
    (r d : Reason) (xs : List Reason)
    → has_reason r (xs ++ (d ∷ [])) ≡ (has_reason r xs || (reason_number r == reason_number d))
unfolding has_reason
has_reason-snoc r d [] = ground arith
has_reason-snoc r d (x ∷ xs) = ground (arith, has_reason-snoc r d xs)

is_distinct-snoc :
    (r : Reason) (xs : List Reason)
    → has_reason r xs ≡ false
    → is_distinct xs ≡ true
    → is_distinct (xs ++ (r ∷ [])) ≡ true
unfolding is_distinct has_reason
is_distinct-snoc r [] h d = refl
is_distinct-snoc r (x ∷ xs) h d =
    ground (arith, has_reason-snoc x r xs, is_distinct-snoc r xs (ground arith) (ground arith))

pub is_distinct-add_reason :
    (r : Reason) (xs : List Reason) → is_distinct xs ≡ true → is_distinct (add_reason r xs) ≡ true
unfolding add_reason
is_distinct-add_reason r xs d = elim (Bool-cases (has_reason r xs)) [
  | inl there ↦ rw there d
  | inr new ↦ rw new (is_distinct-snoc r xs new d)
]

pub is_distinct-add_if :
    (b : Bool) (r : Reason) (xs : List Reason)
    → is_distinct xs ≡ true
    → is_distinct (add_if b r xs) ≡ true
unfolding add_if
is_distinct-add_if true r xs d = is_distinct-add_reason r xs d
is_distinct-add_if false r xs d = d

pub is_distinct-add_issue_codes :
    (is : List DataQualityIssue) (xs : List Reason)
    → is_distinct xs ≡ true
    → is_distinct (add_issue_codes is xs) ≡ true
unfolding add_issue_codes
is_distinct-add_issue_codes [] xs d = d
is_distinct-add_issue_codes (i ∷ is) xs d =
    is_distinct-add_issue_codes is (add_reason (quality i.code) xs)
      (is_distinct-add_reason (quality i.code) xs d)

pub is_valid_result-result_of :
    (xs : List Reason) → is_distinct xs ≡ true → is_valid_result (result_of xs) ≡ true
unfolding is_valid_result result_of
is_valid_result-result_of [] d = d
is_valid_result-result_of (x ∷ xs) d = d
