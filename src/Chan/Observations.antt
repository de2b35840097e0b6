-- ===== src/Chan/Observations.antt =====
-- src/stock_daily_report/chan/simplified.py: `_find_observations`. An index beyond the bars would
-- raise an `IndexError`, which is `none` here.
pub mod Breakout
use stock_daily_report.Prelude.{
  ℕ, zero, suc, ◌+◌, ◌-◌, Bool, true, false, ◌&&◌, List, [], ◌∷◌, Option, none, some, ltb, leb,
  ◌==◌, if◌then◌else◌, length, get_elem?,
}
use stock_daily_report.Bars.{Date, DailyBar}
use stock_daily_report.Chan.Common.{candidate, confirmed, CentralArea, Observation}

infixl 5 ◌>>=◌
abbrev pub ◌>>=◌ {ℓ κ} : {A : Type ℓ} {B : Type κ} → Option A → (A → Option B) → Option B
none >>= f = none
some a >>= f = f a

abbrev pub is_after : Date → Option Date → Bool
is_after date none = true
is_after date (some d) = ltb d date

-- The indices, from `index` on, of the bars after `confirmed_at`.
unfoldable pub eligible_from : Option Date → ℕ → List DailyBar → List ℕ
eligible_from confirmed_at index [] = []
eligible_from confirmed_at index (bar ∷ bars) = elim (is_after bar.trade_date confirmed_at) [
  | true ↦ index ∷ eligible_from confirmed_at (index + 1) bars
  | false ↦ eligible_from confirmed_at (index + 1) bars
]

unfoldable pub above_at : ℕ → List DailyBar → ℕ → Option Bool
above_at level bars index = do bar ← get_elem? bars index; some (ltb level bar.close)

-- The `while` loop, on `breakout_start`.
unfoldable pub walk_back : ℕ → List DailyBar → ℕ → ℕ → Option ℕ
walk_back level bars first zero = some zero
walk_back level bars first (suc k) = elim (ltb first (suc k)) [
  | false ↦ some (suc k)
  | true ↦ elim (above_at level bars k) [
    | none ↦ none
    | some true ↦ walk_back level bars first k
    | some false ↦ some (suc k)
  ]
]

-- `xs.index(x)`
unfoldable pub index_of : ℕ → List ℕ → Option ℕ
index_of x [] = none
index_of x (y ∷ ys) = if x == y then some 0 else (do i ← index_of x ys; some (i + 1))

-- `breakout_start in eligible_indices and len(...) - eligible_indices.index(...) >= 2`
unfoldable pub has_two_from : ℕ → List ℕ → Bool
has_two_from start eligible = elim (index_of start eligible) [
  | none ↦ false
  | some i ↦ leb 2 (length eligible - i)
]

unfoldable pub date_at : List DailyBar → ℕ → Option Date
date_at bars index = do bar ← get_elem? bars index; some bar.trade_date

unfoldable pub observation_at : List DailyBar → ℕ → Bool → Option Observation
observation_at bars start is_confirmed = do
  formed_at ← date_at bars start
  confirmed_at ←
      (if is_confirmed then (do d ← date_at bars (start + 1); some (some d)) else some none)
  some (record {
    formed_at = formed_at;
    confirmed_at = confirmed_at;
    tradable_at = if is_confirmed then date_at bars (start + 2) else none;
    status = if is_confirmed then confirmed else candidate;
  })

unfoldable pub last_index_or : ℕ → List ℕ → ℕ
last_index_or d [] = d
last_index_or d (x ∷ xs) = last_index_or x xs

unfoldable pub breakout : CentralArea → List DailyBar → Option (List Observation)
breakout latest bars = elim (eligible_from latest.confirmed_at 0 bars) [
  | [] ↦ some []
  | first ∷ others ↦ do
    start ← walk_back latest.high bars first (last_index_or first others)
    observation ← observation_at bars start (has_two_from start (first ∷ others))
    some (observation ∷ [])
]

abbrev pub last_close : DailyBar → List DailyBar → ℕ
last_close b [] = b.close
last_close b (c ∷ bars) = last_close c bars

abbrev pub last_area : CentralArea → List CentralArea → CentralArea
last_area a [] = a
last_area a (b ∷ areas) = last_area b areas

unfoldable pub find_observations : List DailyBar → List CentralArea → Option (List Observation)
find_observations [] areas = some []
find_observations (b ∷ bars) [] = some []
find_observations (b ∷ bars) (a ∷ areas) =
    if leb (last_close b bars) (last_area a areas).high
    then some []
    else breakout (last_area a areas) (b ∷ bars)
