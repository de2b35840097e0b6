-- ===== src/Chan/Strict/Strokes.antt =====
-- src/stock_daily_report/chan/strict.py: `_find_strokes` and `_overlap`.
pub mod Contiguous
pub mod Zigzag
use stock_daily_report.Prelude.{
  ℕ, ◌-◌, Bool, true, false, List, [], ◌∷◌, Option, none, some, ltb, leb, min, max, if◌then◌else◌,
  filter_bool,
}
use stock_daily_report.Bars.{Date, Price}
use stock_daily_report.Chan.Common.{confirmed, FractalKind, top, bottom}
use stock_daily_report.Chan.Strokes.{same_kind}
use stock_daily_report.Chan.Strict.Events.{
  EventKind, strict_alternating_fractals, Side, StrictEvent, FractalCandidate, StrokeCandidate,
  kind_of, price_of, low_of, high_of,
}

-- A stroke from a start to a fractal, as both places of the loop build it.
abbrev pub make_stroke : Date → ℕ → Price → FractalCandidate → StrokeCandidate
make_stroke formed_at start_index start_price f = record {
  event = record {
    kind = EventKind.stroke;
    formed_at = formed_at;
    confirmed_at = f.event.confirmed_at;
    tradable_at = f.event.tradable_at;
    status = confirmed;
    reason_code = strict_alternating_fractals;
    price = none;
    low = some (min start_price (price_of f));
    high = some (max start_price (price_of f));
    direction = some (if ltb start_price (price_of f) then Side.up else Side.down);
  };
  start_index = start_index;
  end_index = f.processed_index;
  start_price = start_price;
  end_price = price_of f;
}

-- `strokes.append(...)`, from the active fractal
unfoldable pub new_stroke : FractalCandidate → FractalCandidate → StrokeCandidate
new_stroke active f = make_stroke active.event.formed_at active.processed_index (price_of active) f

-- `strokes[-1] = ...`
unfoldable pub moved_stroke : StrokeCandidate → FractalCandidate → StrokeCandidate
moved_stroke s f = make_stroke s.event.formed_at s.start_index s.start_price f

unfoldable pub more_extreme : FractalCandidate → FractalCandidate → Bool
more_extreme f active = elim (kind_of f) [
  | top ↦ ltb (price_of active) (price_of f)
  | bottom ↦ ltb (price_of f) (price_of active)
]

-- The price of the fractal of the other kind does not lie beyond that of the active one.
unfoldable pub not_beyond : FractalCandidate → FractalCandidate → Bool
not_beyond active f = elim (kind_of f) [
  | bottom ↦ leb (price_of active) (price_of f)
  | top ↦ leb (price_of f) (price_of active)
]

-- What one round of the loop does.
pub data Action : Type 0 where
  skip replace_active move_last append : Action

abbrev pub is_open : StrokeCandidate → Bool
is_open s = elim s.event.tradable_at [ none ↦ true | some _ ↦ false ]

-- The first argument is `strokes[-1]`, if there is one.
abbrev pub same_kind_action : Option StrokeCandidate → Action
same_kind_action none = replace_active
same_kind_action (some s) = if is_open s then move_last else skip

unfoldable pub action : ℕ → Option StrokeCandidate → FractalCandidate → FractalCandidate → Action
action separation last active f =
    if same_kind (kind_of f) (kind_of active)
    then (if more_extreme f active then same_kind_action last else skip)
    else if not_beyond active f
    then skip
    else if ltb (f.processed_index - active.processed_index) separation
    then skip
    else append

abbrev pub to_list : Option StrokeCandidate → List StrokeCandidate
to_list none = []
to_list (some s) = s ∷ []

-- The loop. Only `strokes[-1]` is read or replaced, so the strokes in front of it are emitted.
unfoldable pub strokes_from :
    ℕ → Option StrokeCandidate → FractalCandidate → List FractalCandidate → List StrokeCandidate
strokes_from separation last active [] = to_list last
strokes_from separation last active (f ∷ fs) = elim (action separation last active f) [
  | skip ↦ strokes_from separation last active fs
  | replace_active ↦ strokes_from separation last f fs
  | move_last ↦ elim last [
    | none ↦ strokes_from separation none f fs
    | some s ↦ strokes_from separation (some (moved_stroke s f)) f fs
  ]
  | append ↦ elim last [
    | none ↦ strokes_from separation (some (new_stroke active f)) f fs
    | some s ↦ s ∷ strokes_from separation (some (new_stroke active f)) f fs
  ]
]

-- `eligible`
abbrev pub has_confirmation : FractalCandidate → Bool
has_confirmation f = elim f.event.confirmed_at [ none ↦ false | some _ ↦ true ]

unfoldable pub strokes_of : ℕ → List FractalCandidate → List StrokeCandidate
strokes_of separation [] = []
strokes_of separation (f ∷ fs) = strokes_from separation none f fs

unfoldable pub find_strokes : ℕ → List FractalCandidate → List StrokeCandidate
find_strokes separation fractals = strokes_of separation (filter_bool has_confirmation fractals)

abbrev pub max_low : StrokeCandidate → List StrokeCandidate → ℕ
max_low s [] = low_of s
max_low s (t ∷ ts) = max (low_of s) (max_low t ts)

abbrev pub min_high : StrokeCandidate → List StrokeCandidate → ℕ
min_high s [] = high_of s
min_high s (t ∷ ts) = min (high_of s) (min_high t ts)

-- `_overlap` of the list `s ∷ ss`; it is never called with an empty list.
unfoldable pub overlap : StrokeCandidate → List StrokeCandidate → Option (ℕ × ℕ)
overlap s ss =
    if leb (max_low s ss) (min_high s ss) then some (max_low s ss, min_high s ss) else none
