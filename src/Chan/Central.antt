-- ===== src/Chan/Central.antt =====
-- src/stock_daily_report/chan/simplified.py: `_find_central_candidates` and `_find_central_areas`.
-- A slice `strokes[i:]` is passed on as a list beside its index `i`.
pub mod Spec
pub mod Search
use stock_daily_report.Prelude.{
  ℕ, zero, suc, ◌+◌, ◌-◌, List, [], ◌∷◌, ◌++◌, Option, none, some, length,
}
use stock_daily_report.Chan.Common.{candidate, confirmed, Stroke, CentralArea}
use stock_daily_report.Chan.Strokes.{overlap}

-- `strokes[-2:]`, if there are two.
unfoldable pub last_two : List Stroke → Option (Stroke × Stroke)
last_two [] = none
last_two (a ∷ []) = none
last_two (a ∷ b ∷ []) = some (a, b)
last_two (a ∷ b ∷ c ∷ ss) = last_two (b ∷ c ∷ ss)

unfoldable pub candidate_of : ℕ → Stroke → Stroke → List CentralArea
candidate_of count a b = elim (overlap a (b ∷ [])) [
  | none ↦ []
  | some (low, high) ↦
      record {
        low = low;
        high = high;
        formed_at = b.end_formed_at;
        confirmed_at = none;
        tradable_at = none;
        status = candidate;
        start_stroke_index = count - 2;
        end_stroke_index = count - 1;
      }
      ∷ []
]

unfoldable pub find_central_candidates : List Stroke → List CentralArea
find_central_candidates strokes = elim (last_two strokes) [
  | none ↦ []
  | some (a, b) ↦ candidate_of (length strokes) a b
]

-- Where the inner loop stops: the overlap of the group, its last stroke with its index, and the
-- strokes after it.
pub record Growth : Type 0 where
  pub range : ℕ × ℕ
  pub last : Stroke
  pub end_index : ℕ
  pub rest : List Stroke

-- The inner loop. The group, `initial` of the source, is `first ∷ others`.
unfoldable pub extend : Stroke → List Stroke → ℕ × ℕ → Stroke → ℕ → List Stroke → Growth
extend first others range last end_index [] = record {
  range = range;
  last = last;
  end_index = end_index;
  rest = [];
}
extend first others range last end_index (next ∷ rest) =
    elim (overlap first (others ++ (next ∷ []))) [
      | none ↦ record { range = range; last = last; end_index = end_index; rest = next ∷ rest }
      | some extended ↦ extend first (others ++ (next ∷ [])) extended next (end_index + 1) rest
    ]

abbrev pub make_area : ℕ → Stroke → Growth → CentralArea
make_area start_index third g = record {
  low = g.range.0;
  high = g.range.1;
  formed_at = third.end_formed_at;
  confirmed_at = g.last.confirmed_at;
  tradable_at = g.last.tradable_at;
  status = confirmed;
  start_stroke_index = start_index;
  end_stroke_index = g.end_index;
}

-- The outer loop, on fuel: each round leaves at least one stroke behind.
unfoldable pub areas_from : ℕ → ℕ → List Stroke → List CentralArea
areas_from zero start_index strokes = []
areas_from (suc fuel) start_index [] = []
areas_from (suc fuel) start_index (a ∷ []) = []
areas_from (suc fuel) start_index (a ∷ b ∷ []) = []
areas_from (suc fuel) start_index (a ∷ b ∷ c ∷ rest) = elim (overlap a (b ∷ c ∷ [])) [
  | none ↦ areas_from fuel (start_index + 1) (b ∷ c ∷ rest)
  | some range ↦
      let g = extend a (b ∷ c ∷ []) range c (start_index + 2) rest in
      make_area start_index c g ∷ areas_from fuel (g.end_index + 1) g.rest
]

unfoldable pub find_central_areas : List Stroke → List CentralArea
find_central_areas strokes = areas_from (length strokes) 0 strokes
