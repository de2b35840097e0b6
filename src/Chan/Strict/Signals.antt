-- ===== src/Chan/Strict/Signals.antt =====
-- src/stock_daily_report/chan/strict.py: `_find_signal_for_area`, `_find_signals` and `analyze`.
pub mod Stable
use native.Mathlib.Decide.{ℕ_discrete}
use stock_daily_report.Prelude.{
  ℕ, Bool, true, false, ◌&&◌, ◌||◌, List, [], ◌∷◌, ◌++◌, map, Option, none, some, ltb, leb, ◌==◌,
  if◌then◌else◌,
}
use stock_daily_report.Bars.{Date, Price, DailyBar, strictly_increasing}
use stock_daily_report.Chan.Common.{Status, candidate, confirmed, ProcessedBar}
use stock_daily_report.Chan.Strict.Events.{
  StrictProfile, EventKind, Reason, strict_breakout_up_candidate, strict_breakout_down_candidate,
  Side, up, down, StrictEvent, FractalCandidate, StrokeCandidate,
}
use stock_daily_report.Chan.Strict.Inclusion.{process_inclusion}
use stock_daily_report.Chan.Strict.Fractals.{find_fractals}
use stock_daily_report.Chan.Strict.Strokes.{find_strokes}
use stock_daily_report.Chan.Strict.Central.{find_central_areas}
use stock_daily_report.Chan.Strict.Segments.{find_segments}

abbrev pub breakout_reason : Side → Reason
breakout_reason up = strict_breakout_up_candidate
breakout_reason down = strict_breakout_down_candidate

abbrev pub signal_event : Date → Option Date → Option Date → Status → Side → StrictEvent
signal_event formed_at confirmed_at tradable_at status side = record {
  kind = EventKind.signal;
  formed_at = formed_at;
  confirmed_at = confirmed_at;
  tradable_at = tradable_at;
  status = status;
  reason_code = breakout_reason side;
  price = none;
  low = none;
  high = none;
  direction = none;
}

-- The side of the area on which a bar closes, if it closes outside.
unfoldable pub side_of : Price → Price → DailyBar → Option Side
side_of low high bar =
    if ltb high bar.close then some up else if ltb bar.close low then some down else none

abbrev pub same_side : Side → Side → Bool
same_side up up = true
same_side down down = true
same_side _ _ = false

-- The bar's date is not after the area's confirmation.
abbrev pub is_too_early : Option Date → DailyBar → Bool
is_too_early none bar = false
is_too_early (some d) bar = leb bar.trade_date d

abbrev pub head_date : List DailyBar → Option Date
head_date [] = none
head_date (bar ∷ bars) = some bar.trade_date

abbrev pub candidate_event : Option (Date × Side) → Option StrictEvent
candidate_event none = none
candidate_event (some (formed_at, side)) = some (signal_event formed_at none none candidate side)

-- The bar at hand closes on the same side as the candidate.
abbrev pub completes : Option (Date × Side) → Side → Option Date
completes none side = none
completes (some (formed_at, other)) side = if same_side other side then some formed_at else none

-- The loop. The candidate is its bar's date and side.
unfoldable pub signal_from :
    Option Date → Price → Price → Option (Date × Side) → List DailyBar → Option StrictEvent
signal_from area_at low high found [] = candidate_event found
signal_from area_at low high found (bar ∷ bars) = elim (is_too_early area_at bar) [
  | true ↦ signal_from area_at low high found bars
  | false ↦ elim (side_of low high bar) [
    | none ↦ signal_from area_at low high none bars
    | some side ↦ elim (completes found side) [
      | some formed_at ↦
          some (signal_event formed_at (some bar.trade_date) (head_date bars) confirmed side)
      | none ↦ signal_from area_at low high (some (bar.trade_date, side)) bars
    ]
  ]
]

unfoldable pub find_signal_for_area : List DailyBar → StrictEvent → Option StrictEvent
find_signal_for_area bars area = elim area.high [
  | none ↦ none
  | some high ↦ elim area.low [
    | none ↦ none
    | some low ↦ signal_from area.confirmed_at low high none bars
  ]
]

pub StrictEvent-discrete : Discrete StrictEvent
StrictEvent-discrete = hlevel ℕ_discrete

unfoldable pub contains : StrictEvent → List StrictEvent → Bool
contains e [] = false
contains e (x ∷ xs) = elim (StrictEvent-discrete e x) [ yes _ ↦ true | no _ ↦ contains e xs ]

-- `confirmed` and `candidate` of the loop over the areas.
pub record Found : Type 0 where
  pub signals : List StrictEvent
  pub latest : Option StrictEvent

abbrev pub is_newer : StrictEvent → Option StrictEvent → Bool
is_newer e none = true
is_newer e (some old) = leb old.formed_at e.formed_at

unfoldable pub add_signal : Option StrictEvent → Found → Found
add_signal none f = f
add_signal (some e) f = elim e.status [
  | confirmed ↦ if contains e f.signals then f else record f { signals = f.signals ++ (e ∷ []) }
  | candidate ↦ if is_newer e f.latest then record f { latest = some e } else f
]

unfoldable pub collect : List DailyBar → List StrictEvent → Found → Found
collect bars [] f = f
collect bars (area ∷ areas) f = collect bars areas (add_signal (find_signal_for_area bars area) f)

abbrev pub second_key : StrictEvent → Date
second_key e = elim e.confirmed_at [ none ↦ e.formed_at | some d ↦ d ]

-- The sort key of `a` is below that of `b`.
unfoldable pub key_below : StrictEvent → StrictEvent → Bool
key_below a b =
    ltb a.formed_at b.formed_at
    || ((a.formed_at == b.formed_at) && ltb (second_key a) (second_key b))

-- `sorted` by that key, which keeps the order of events with equal keys.
unfoldable pub insert_event : StrictEvent → List StrictEvent → List StrictEvent
insert_event e [] = e ∷ []
insert_event e (x ∷ xs) = if key_below e x then e ∷ x ∷ xs else x ∷ insert_event e xs

unfoldable pub sort_onto : List StrictEvent → List StrictEvent → List StrictEvent
sort_onto sorted [] = sorted
sort_onto sorted (e ∷ es) = sort_onto (insert_event e sorted) es

abbrev pub optional : Option StrictEvent → List StrictEvent
optional none = []
optional (some e) = e ∷ []

unfoldable pub find_signals : List DailyBar → List StrictEvent → List StrictEvent
find_signals bars areas =
    let f = collect bars areas (record { signals = []; latest = none }) in
    sort_onto [] (f.signals ++ optional f.latest)

pub record StrictChanResult : Type 0 where
  pub processed_bars : List ProcessedBar
  pub fractals : List StrictEvent
  pub strokes : List StrictEvent
  pub central_candidates : List StrictEvent
  pub central_areas : List StrictEvent
  pub segments : List StrictEvent
  pub signals : List StrictEvent

-- `analyze`; `none` is the ValueError about dates that do not increase.
unfoldable pub analyze : StrictProfile → List DailyBar → Option StrictChanResult
analyze profile bars =
    let processed = process_inclusion bars in
    let fractals = find_fractals profile processed bars in
    let strokes = find_strokes profile.minimum_stroke_separation fractals in
    let (candidates, areas) = find_central_areas profile strokes in
    if strictly_increasing bars
    then some (record {
      processed_bars = processed;
      fractals = map (λ (f : FractalCandidate). f.event) fractals;
      strokes = map (λ (s : StrokeCandidate). s.event) strokes;
      central_candidates = candidates;
      central_areas = areas;
      segments = find_segments strokes;
      signals = find_signals bars areas;
    })
    else none
