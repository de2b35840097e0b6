-- ===== src/Chan/Strict/Central.antt =====
-- src/stock_daily_report/chan/strict.py: `_find_central_areas`.
-- `minimum_central_strokes`, which is 3 or more in every valid profile, is passed on as the number
-- `extra` of strokes that it asks for beyond three. A slice `strokes[i:]` is a list.
use stock_daily_report.Prelude.{
  ℕ, zero, suc, ◌-◌, true, false, ◌||◌, List, [], ◌∷◌, Option, none, some, ltb, leb, if◌then◌else◌,
  length, drop, last_or, take,
}
use stock_daily_report.Bars.{Date}
use stock_daily_report.Chan.Common.{Status, candidate, confirmed}
use stock_daily_report.Chan.Strict.Events.{
  StrictProfile, EventKind, Reason, strict_three_stroke_overlap,
  strict_two_stroke_overlap_candidate, StrictEvent, StrokeCandidate, low_of, high_of,
}
use stock_daily_report.Chan.Strict.Strokes.{overlap}

abbrev pub area_event : Date → Option Date → Option Date → Status → Reason → ℕ × ℕ → StrictEvent
area_event formed_at confirmed_at tradable_at status reason range = record {
  kind = EventKind.central_area;
  formed_at = formed_at;
  confirmed_at = confirmed_at;
  tradable_at = tradable_at;
  status = status;
  reason_code = reason;
  price = none;
  low = some range.0;
  high = some range.1;
  direction = none;
}

-- The inner `while` loop: `strokes[end:]`, past the strokes that touch the range.
unfoldable pub skip_touching : ℕ × ℕ → List StrokeCandidate → List StrokeCandidate
skip_touching range [] = []
skip_touching range (s ∷ ss) =
    if ltb (high_of s) range.0 || ltb range.1 (low_of s) then s ∷ ss else skip_touching range ss

abbrev pub make_area : StrokeCandidate → StrokeCandidate → ℕ × ℕ → StrictEvent
make_area third initial_last range =
    area_event third.event.formed_at initial_last.event.confirmed_at initial_last.event.tradable_at
      confirmed strict_three_stroke_overlap range

-- What the outer loop has when it stops: the areas, and `strokes[consumed_until:]`.
abbrev pub Search : Type 0
Search = List StrictEvent × List StrokeCandidate

abbrev pub add_area : StrictEvent → Search → Search
add_area x (areas, trailing) = (x ∷ areas, trailing)

-- The outer loop from `strokes[start:]`, on fuel, with `strokes[consumed_until:]`.
unfoldable pub areas_from : ℕ → ℕ → List StrokeCandidate → List StrokeCandidate → Search
areas_from zero extra strokes trailing = ([], trailing)
areas_from (suc fuel) extra [] trailing = ([], trailing)
areas_from (suc fuel) extra (a ∷ []) trailing = ([], trailing)
areas_from (suc fuel) extra (a ∷ b ∷ []) trailing = ([], trailing)
areas_from (suc fuel) extra (a ∷ b ∷ c ∷ rest) trailing = elim (leb extra (length rest)) [
  | false ↦ ([], trailing)
  | true ↦ elim (overlap a (b ∷ c ∷ take extra rest)) [
    | none ↦ areas_from fuel extra (b ∷ c ∷ rest) trailing
    | some range ↦
        let after = skip_touching range (drop extra rest) in
        add_area (make_area c (last_or c (take extra rest)) range)
          (areas_from fuel extra after after)
  ]
]

-- `trailing[-2:]`
unfoldable pub trailing_candidates : List StrokeCandidate → List StrictEvent
trailing_candidates [] = []
trailing_candidates (a ∷ []) = []
trailing_candidates (a ∷ b ∷ []) = elim (overlap a (b ∷ [])) [
  | none ↦ []
  | some range ↦
      area_event b.event.formed_at none none candidate strict_two_stroke_overlap_candidate range
      ∷ []
]
trailing_candidates (a ∷ b ∷ c ∷ ss) = trailing_candidates (b ∷ c ∷ ss)

-- The candidates, then the areas.
unfoldable pub find_central_areas :
    StrictProfile → List StrokeCandidate → List StrictEvent × List StrictEvent
find_central_areas profile strokes =
    let (areas, trailing) =
      areas_from (length strokes) (profile.minimum_central_strokes - 3) strokes strokes in
    (trailing_candidates trailing, areas)
