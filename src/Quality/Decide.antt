-- ===== src/Quality/Decide.antt =====
-- `validate_bars` allows analysis exactly for the histories that meet its specification.
use stock_daily_report.Prelude.{
  ℕ, ◌+◌, ◌≤◌, ◌<◌, ◌≡◌, ◌↔◌, refl, Bool, true, false, List, [], ◌∷◌, Option, none, some, inl, inr,
  arith, All, length, ltb, Bool-cases,
}
use stock_daily_report.Bars.{Date}
use stock_daily_report.Quality.{
  BarRecord, DataQualitySettings, issue_if, record_issues, all_record_issues, trade_dates, is_seen,
  sequence_issues, future_issues, weekday_distance, max_date, stale_issues, history_issues,
  is_empty, find_issues, validate_bars, IssueCode, duplicate_trade_date,
  non_chronological_trade_dates, is_not_after,
}
use stock_daily_report.Quality.Calendar.{is_stale-eq}
use stock_daily_report.Quality.Clean.{
  IsClean, split_empty, join_empty, record_issues-empty, record_issues-clean,
}

all_record_issues-empty :
    (index : ℕ) (rs : List BarRecord)
    → (is_empty (all_record_issues index rs) ≡ true) ↔ All IsClean rs
unfolding all_record_issues
all_record_issues-empty index [] = ((λ _. tt), (λ _. refl))
all_record_issues-empty index (r ∷ rs) =
    let (there, back) = all_record_issues-empty (index + 1) rs in
    (
      (λ e.
          let (first, rest) = split_empty (record_issues r index) _ e in
          (record_issues-empty r index first, there rest)),
      (λ k. join_empty (record_issues r index) _ (record_issues-clean r index k.0) (back k.1)),
    )

-- The dates rise strictly, from after `previous` on.
abbrev pub Rising : Option Date → List (ℕ × Date) → Type 0
Rising previous [] = Unit
Rising none ((index, d) ∷ rest) = Rising (some d) rest
Rising (some p) ((index, d) ∷ rest) = (p < d) × Rising (some d) rest

abbrev AllBelow : Date → List Date → Type 0
AllBelow d = All (λ x. x < d)

AllBelow-weaken : (c d : Date) (xs : List Date) → c ≤ d → AllBelow c xs → AllBelow d xs
AllBelow-weaken c d [] h a = tt
AllBelow-weaken c d (x ∷ xs) h a = (omega arith, AllBelow-weaken c d xs h a.1)

is_seen-below : (d : Date) (seen : List Date) → AllBelow d seen → is_seen d seen ≡ false
unfolding is_seen
is_seen-below d [] h = refl
is_seen-below d (x ∷ xs) h = ground (arith, is_seen-below d xs h.1)

issue_if-empty :
    (b : Bool) (code : IssueCode) (index : ℕ) → is_empty (issue_if b code index) ≡ true → b ≡ false
issue_if-empty b code index h = ground arith

issue_if-none : (b : Bool) (code : IssueCode) (index : ℕ) → b ≡ false → issue_if b code index ≡ []
issue_if-none b code index h = ground arith

Rising-first :
    (previous : Option Date) (index : ℕ) (d : Date) (rest : List (ℕ × Date))
    → is_not_after d previous ≡ false
    → Rising (some d) rest
    → Rising previous ((index, d) ∷ rest)
Rising-first none index d rest h r = r
Rising-first (some p) index d rest h r = (ground arith, r)

sequence_issues-Rising :
    (seen : List Date) (previous : Option Date) (known : List (ℕ × Date))
    → is_empty (sequence_issues seen previous known) ≡ true
    → Rising previous known
unfolding sequence_issues
sequence_issues-Rising seen previous [] e = tt
sequence_issues-Rising seen previous ((index, d) ∷ rest) e =
    let (_, e1) = split_empty (issue_if (is_seen d seen) duplicate_trade_date index) _ e in
    let (first, e2) =
      split_empty (issue_if (is_not_after d previous) non_chronological_trade_dates index) _ e1 in
    Rising-first previous index d rest (issue_if-empty _ non_chronological_trade_dates index first)
      (sequence_issues-Rising (d ∷ seen) (some d) rest e2)

-- All seen dates are at or before the previous one.
abbrev SeenBy : Option Date → List Date → Type 0
SeenBy none seen = seen ≡ []
SeenBy (some p) seen = AllBelow (p + 1) seen

SeenBy-below :
    (previous : Option Date) (index : ℕ) (d : Date) (seen : List Date) (rest : List (ℕ × Date))
    → SeenBy previous seen
    → Rising previous ((index, d) ∷ rest)
    → AllBelow d seen × (is_not_after d previous ≡ false) × Rising (some d) rest
SeenBy-below none index d seen rest s r = (rw s tt, refl, r)
SeenBy-below (some p) index d seen rest s r =
    (AllBelow-weaken (p + 1) d seen (omega arith) s, ground arith, r.1)

Rising-sequence_issues :
    (seen : List Date) (previous : Option Date) (known : List (ℕ × Date))
    → SeenBy previous seen
    → Rising previous known
    → is_empty (sequence_issues seen previous known) ≡ true
unfolding sequence_issues
Rising-sequence_issues seen previous [] s r = refl
Rising-sequence_issues seen previous ((index, d) ∷ rest) s r =
    let (below, after, rising) = SeenBy-below previous index d seen rest s r in
    rw
      (
        issue_if-none (is_seen d seen) duplicate_trade_date index (is_seen-below d seen below),
        issue_if-none (is_not_after d previous) non_chronological_trade_dates index after,
      )
      (Rising-sequence_issues (d ∷ seen) (some d) rest
        (omega arith, AllBelow-weaken d (d + 1) seen (omega arith) below) rising)

abbrev pub AtMost : Date → ℕ × Date → Type 0
AtMost as_of (index, d) = d ≤ as_of

future_issues-empty :
    (as_of : Date) (known : List (ℕ × Date))
    → (is_empty (future_issues as_of known) ≡ true) ↔ All (AtMost as_of) known
unfolding future_issues
future_issues-empty as_of [] = ((λ _. tt), (λ _. refl))
future_issues-empty as_of ((index, d) ∷ rest) =
    let (there, back) = future_issues-empty as_of rest in
    elim (Bool-cases (ltb as_of d)) [
      | inl late ↦ ((λ e. ground arith), (λ k. absurd (ground (arith, k.0))))
      | inr fine ↦ ((λ e. (ground arith, there (rw fine at e))), (λ k. rw fine (back k.1)))
    ]

-- At most `maximum_lag` weekdays follow the latest trade date up to the as-of date.
abbrev pub Fresh : Date → ℕ → List (ℕ × Date) → Type 0
Fresh as_of maximum_lag [] = Unit
Fresh as_of maximum_lag ((index, d) ∷ rest) = weekday_distance (max_date d rest) as_of ≤ maximum_lag

stale_issues-empty :
    (as_of : Date) (maximum_lag : ℕ) (known : List (ℕ × Date))
    → 1 ≤ as_of
    → (is_empty (stale_issues as_of maximum_lag known) ≡ true) ↔ Fresh as_of maximum_lag known
unfolding stale_issues
stale_issues-empty as_of lag [] h = ((λ _. tt), (λ _. refl))
stale_issues-empty as_of lag ((index, d) ∷ rest) h =
    let eq = is_stale-eq (max_date d rest) as_of lag h in
    ((λ e. ground (arith, eq)), (λ k. ground (arith, eq, k)))

history_issues-empty :
    (count minimum : ℕ) → (is_empty (history_issues count minimum) ≡ true) ↔ (minimum ≤ count)
unfolding history_issues
history_issues-empty count minimum = ((λ e. ground arith), (λ k. ground arith))

-- What a history has to be for analysis.
pub record IsFit (bars : List BarRecord) (as_of : Date) (settings : DataQualitySettings)
    : Type 0 where
  pub clean : All IsClean bars
  pub rising : Rising none (trade_dates 0 bars)
  pub past : All (AtMost as_of) (trade_dates 0 bars)
  pub enough : settings.minimum_history_bars ≤ length bars
  pub fresh : Fresh as_of settings.max_completed_trading_day_lag (trade_dates 0 bars)

-- For every as-of date (an ordinal of 1 or more), `validate_bars` allows analysis exactly if
-- every bar has a date and finite positive prices with the close between low and high, the dates
-- rise strictly and none is after the as-of date, there are enough bars, and at most the maximum lag
-- of weekdays follows the latest one up to the as-of date.
pub validate_bars_iff :
    (bars : List BarRecord) (as_of : Date) (settings : DataQualitySettings)
    → 1 ≤ as_of
    → ((validate_bars bars as_of settings).analysis_allowed ≡ true) ↔ IsFit bars as_of settings
unfolding validate_bars find_issues
validate_bars_iff bars as_of settings h =
    let known = trade_dates 0 bars in
    let records = all_record_issues-empty 0 bars in
    let future = future_issues-empty as_of known in
    let history = history_issues-empty (length bars) settings.minimum_history_bars in
    let stale = stale_issues-empty as_of settings.max_completed_trading_day_lag known h in
    (
      (λ e.
          let (e0, e1) = split_empty (all_record_issues 0 bars) _ e in
          let (e2, e3) = split_empty (sequence_issues [] none known) _ e1 in
          let (e4, e5) = split_empty (future_issues as_of known) _ e3 in
          let (e6, e7) =
            split_empty (history_issues (length bars) settings.minimum_history_bars) _ e5 in
          record {
            clean = records.0 e0;
            rising = sequence_issues-Rising [] none known e2;
            past = future.0 e4;
            enough = history.0 e6;
            fresh = stale.0 e7;
          }),
      (λ k. join_empty (all_record_issues 0 bars) _ (records.1 k.clean) (
          join_empty (sequence_issues [] none known) _
            (Rising-sequence_issues [] none known refl k.rising)
            (join_empty (future_issues as_of known) _ (future.1 k.past) (
              join_empty (history_issues (length bars) settings.minimum_history_bars) _
                (history.1 k.enough) (stale.1 k.fresh))))),
    )
