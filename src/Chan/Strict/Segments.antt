-- ===== src/Chan/Strict/Segments.antt =====
-- src/stock_daily_report/chan/strict.py: `_find_segments`.
use stock_daily_report.Prelude.{
  Bool, true, false, ◌&&◌, not, ◌≡◌, ◌<◌, ◌⊎◌, List, [], ◌∷◌, none, some, ltb, min, max, arith, inl,
  inr, Bool-cases,
}
use stock_daily_report.Chan.Common.{confirmed}
use stock_daily_report.Chan.Strict.Events.{
  EventKind, strict_three_stroke_feature_sequence, StrictEvent, StrokeCandidate, low_of, high_of,
}

abbrev pub goes_up : StrokeCandidate → Bool
goes_up s = ltb s.start_price s.end_price

-- Both tests of the loop pass: the strokes go the same way, and the third ends beyond the first.
unfoldable pub is_feature : StrokeCandidate → StrokeCandidate → Bool
is_feature first third = elim (goes_up first) [
  | true ↦ goes_up third && ltb first.end_price third.end_price
  | false ↦ not (goes_up third) && ltb third.end_price first.end_price
]

abbrev pub make_segment : StrokeCandidate → StrokeCandidate → StrokeCandidate → StrictEvent
make_segment a b c = record {
  kind = EventKind.segment;
  formed_at = a.event.formed_at;
  confirmed_at = c.event.confirmed_at;
  tradable_at = c.event.tradable_at;
  status = confirmed;
  reason_code = strict_three_stroke_feature_sequence;
  price = none;
  low = some (min (low_of a) (min (low_of b) (low_of c)));
  high = some (max (high_of a) (max (high_of b) (high_of c)));
  direction = none;
}

unfoldable pub find_segments : List StrokeCandidate → List StrictEvent
find_segments [] = []
find_segments (a ∷ []) = []
find_segments (a ∷ b ∷ []) = []
find_segments (a ∷ b ∷ c ∷ ss) = elim (is_feature a c) [
  | true ↦ make_segment a b c ∷ find_segments ss
  | false ↦ find_segments (b ∷ c ∷ ss)
]

-- Three strokes that make a segment: the outer two go the same way, the third one further.
abbrev pub IsFeature : StrokeCandidate → StrokeCandidate → Type 0
IsFeature a c =
    ((a.start_price < a.end_price) × (c.start_price < c.end_price) × (a.end_price < c.end_price))
    ⊎ ((¬ (a.start_price < a.end_price))
        × (¬ (c.start_price < c.end_price))
        × (c.end_price < a.end_price))

-- The segments of a list of strokes: a triple that makes one is used up whole, and at any other
-- triple the search moves on by one stroke.
pub data Segments : List StrokeCandidate → List StrictEvent → Type 0 where
  none_left : Segments [] []
  one_left : (a : StrokeCandidate) → Segments (a ∷ []) []
  two_left : (a b : StrokeCandidate) → Segments (a ∷ b ∷ []) []
  found :
      {a b c : StrokeCandidate} {ss : List StrokeCandidate} {events : List StrictEvent}
      → IsFeature a c
      → Segments ss events
      → Segments (a ∷ b ∷ c ∷ ss) (make_segment a b c ∷ events)
  passed :
      {a b c : StrokeCandidate} {ss : List StrokeCandidate} {events : List StrictEvent}
      → ¬ IsFeature a c
      → Segments (b ∷ c ∷ ss) events
      → Segments (a ∷ b ∷ c ∷ ss) events

is_feature-true : (a c : StrokeCandidate) → is_feature a c ≡ true → IsFeature a c
unfolding is_feature
is_feature-true a c e = ground arith

is_feature-false : (a c : StrokeCandidate) → is_feature a c ≡ false → ¬ IsFeature a c
unfolding is_feature
is_feature-false a c e (inl h) = ground arith
is_feature-false a c e (inr h) = ground arith

-- The segment search finds exactly the segments of the specification.
pub find_segments-Segments : (ss : List StrokeCandidate) → Segments ss (find_segments ss)
unfolding find_segments
find_segments-Segments [] = none_left
find_segments-Segments (a ∷ []) = one_left a
find_segments-Segments (a ∷ b ∷ []) = two_left a b
find_segments-Segments (a ∷ b ∷ c ∷ ss) = elim (Bool-cases (is_feature a c)) [
  | inl e ↦ rw (e, find_segments) (found (is_feature-true a c e) (find_segments-Segments ss))
  | inr e ↦
      rw (e, find_segments) (passed (is_feature-false a c e) (find_segments-Segments (b ∷ c ∷ ss)))
]
