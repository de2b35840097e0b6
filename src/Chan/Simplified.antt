-- ===== src/Chan/Simplified.antt =====
-- src/stock_daily_report/chan/simplified.py: `_find_support_resistance`, `_state` and `analyze`.
pub mod Results
use stock_daily_report.Prelude.{
  Bool, true, false, List, [], ◌∷◌, ◌++◌, map, Option, none, some, filter_bool, if◌then◌else◌,
}
use stock_daily_report.Bars.{Date, DailyBar, strictly_increasing}
use stock_daily_report.Chan.Common.{
  Status, candidate, confirmed, FractalKind, top, bottom, StrokeKind, upward, downward, support,
  resistance, confirmed_central_range, confirmed_bottom_fractal, confirmed_top_fractal, Fractal,
  Stroke, CentralArea, SupportResistance, StateLabel, not_enough_data, candidate_upward,
  candidate_downward, neutral_consolidation, confirmed_up, confirmed_down, StructureState,
  SimplifiedChanResult, Observation, is_confirmed,
}
use stock_daily_report.Chan.Inclusion.{process_inclusion}
use stock_daily_report.Chan.Fractals.{find_fractals, confirmed_fractals}
use stock_daily_report.Chan.Strokes.{find_strokes}
use stock_daily_report.Chan.Central.{find_central_candidates, find_central_areas}
use stock_daily_report.Chan.Observations.{find_observations}

abbrev pub area_support : CentralArea → SupportResistance
area_support area = record {
  kind = support;
  price = area.low;
  source = confirmed_central_range;
  strength = 3;
  formed_at = area.formed_at;
  confirmed_at = area.confirmed_at;
  tradable_at = area.tradable_at;
  status = confirmed;
}

abbrev pub area_resistance : CentralArea → SupportResistance
area_resistance area = record (area_support area) { kind = resistance; price = area.high }

abbrev pub fractal_level : Fractal → SupportResistance
fractal_level f = record {
  kind = elim f.kind [ bottom ↦ support | top ↦ resistance ];
  price = f.price;
  source = elim f.kind [ bottom ↦ confirmed_bottom_fractal | top ↦ confirmed_top_fractal ];
  strength = 2;
  formed_at = f.formed_at;
  confirmed_at = f.confirmed_at;
  tradable_at = f.tradable_at;
  status = confirmed;
}

abbrev pub is_bottom_kind : Fractal → Bool
is_bottom_kind f = elim f.kind [ bottom ↦ true | top ↦ false ]

abbrev pub is_top_kind : Fractal → Bool
is_top_kind f = elim f.kind [ bottom ↦ false | top ↦ true ]

unfoldable pub find_support_resistance : List Fractal → List CentralArea → List SupportResistance
find_support_resistance fractals central_areas =
    let known = confirmed_fractals fractals in
    (map area_support central_areas ++ map fractal_level (filter_bool is_bottom_kind known))
    ++ (map area_resistance central_areas ++ map fractal_level (filter_bool is_top_kind known))

-- `xs[-1]`, if there is one.
unfoldable pub last? {ℓ} : {A : Type ℓ} → List A → Option A
last? [] = none
last? (x ∷ []) = some x
last? (x ∷ y ∷ xs) = last? (y ∷ xs)

abbrev make_state : StateLabel → Option Date → Option Date → Option Date → Status → StructureState
make_state label formed_at confirmed_at tradable_at status = record {
  label = label;
  formed_at = formed_at;
  confirmed_at = confirmed_at;
  tradable_at = tradable_at;
  status = status;
}

-- `f"confirmed_{latest.kind.removesuffix('ward')}"`
abbrev pub stroke_label : StrokeKind → StateLabel
stroke_label upward = confirmed_up
stroke_label downward = confirmed_down

unfoldable pub stroke_state : List Stroke → StructureState
stroke_state strokes = elim (last? strokes) [
  | some latest ↦
      make_state (stroke_label latest.kind) (some latest.formed_at) latest.confirmed_at
        latest.tradable_at confirmed
  | none ↦ make_state not_enough_data none none none candidate
]

unfoldable pub fractal_state : List Fractal → List Stroke → StructureState
fractal_state fractals strokes =
    elim (last? (filter_bool (λ f. if is_confirmed f.status then false else true) fractals)) [
      | some latest ↦
          make_state (elim latest.kind [ bottom ↦ candidate_upward | top ↦ candidate_downward ])
            (some latest.formed_at) none none candidate
      | none ↦ stroke_state strokes
    ]

unfoldable pub structure_state :
    List Fractal → List Stroke → List CentralArea → List CentralArea → StructureState
structure_state fractals strokes central_candidates central_areas = elim (last? central_areas) [
  | some latest ↦
      make_state neutral_consolidation (some latest.formed_at) latest.confirmed_at
        latest.tradable_at confirmed
  | none ↦ elim (last? central_candidates) [
    | some latest ↦ make_state neutral_consolidation (some latest.formed_at) none none candidate
    | none ↦ fractal_state fractals strokes
  ]
]

pub data ChanError : Type 0 where
  not_increasing index_error : ChanError

pub data Outcome {ℓ} (A : Type ℓ) : Type ℓ where
  ok : A → Outcome A
  raised : ChanError → Outcome A

-- The result that `analyze` puts together, given the observations.
unfoldable pub result_of : List DailyBar → List Observation → SimplifiedChanResult
result_of bars observations =
    let processed = process_inclusion bars in
    let fractals = find_fractals processed bars in
    let strokes = find_strokes fractals in
    let central_candidates = find_central_candidates strokes in
    let central_areas = find_central_areas strokes in
    record {
      processed_bars = processed;
      fractals = fractals;
      strokes = strokes;
      central_candidates = central_candidates;
      central_areas = central_areas;
      support_resistance = find_support_resistance fractals central_areas;
      observations = observations;
      state = structure_state fractals strokes central_candidates central_areas;
    }

abbrev pub central_areas_in : List DailyBar → List CentralArea
central_areas_in bars =
    find_central_areas (find_strokes (find_fractals (process_inclusion bars) bars))

-- `analyze`, after the validation of its bars.
unfoldable pub analyze_bars : List DailyBar → Outcome SimplifiedChanResult
analyze_bars bars = elim (find_observations bars (central_areas_in bars)) [
  | none ↦ raised index_error
  | some observations ↦ ok (result_of bars observations)
]

unfoldable pub analyze : List DailyBar → Outcome SimplifiedChanResult
analyze bars = if strictly_increasing bars then analyze_bars bars else raised not_increasing
