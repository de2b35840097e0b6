-- ===== src/Chan/Strokes.antt =====
-- src/stock_daily_report/chan/simplified.py: `_find_strokes`, `_is_more_extreme` and `_overlap`.
pub mod Order
pub mod Prefix
use stock_daily_report.Prelude.{
  ℕ, ◌-◌, Bool, true, false, List, [], ◌∷◌, Option, none, some, ltb, leb, min, max, if◌then◌else◌,
  cons?,
}
use stock_daily_report.Chan.Common.{
  FractalKind, top, bottom, upward, downward, StrokeKind, confirmed, Fractal, Stroke,
}
use stock_daily_report.Chan.Fractals.{confirmed_fractals}

abbrev pub minimum_stroke_separation : ℕ
minimum_stroke_separation = 2

abbrev pub same_kind : FractalKind → FractalKind → Bool
same_kind top top = true
same_kind bottom bottom = true
same_kind _ _ = false

unfoldable pub is_more_extreme : Fractal → Fractal → Bool
is_more_extreme new old = elim new.kind [
  | top ↦ ltb old.price new.price
  | bottom ↦ ltb new.price old.price
]

abbrev pub kind_of_end : FractalKind → StrokeKind
kind_of_end top = upward
kind_of_end bottom = downward

abbrev pub make_stroke : Fractal → Fractal → Stroke
make_stroke active fractal = record {
  kind = kind_of_end fractal.kind;
  low = min active.price fractal.price;
  high = max active.price fractal.price;
  formed_at = active.formed_at;
  confirmed_at = fractal.confirmed_at;
  tradable_at = fractal.tradable_at;
  status = confirmed;
  start_formed_at = active.formed_at;
  end_formed_at = fractal.formed_at;
  start_processed_index = active.processed_index;
  end_processed_index = fractal.processed_index;
}

unfoldable pub too_close : Fractal → Fractal → Bool
too_close active fractal =
    ltb (fractal.processed_index - active.processed_index) minimum_stroke_separation

-- The stroke that one round of the loop appends, if any.
unfoldable pub stroke_at : Fractal → Fractal → Option Stroke
stroke_at active fractal =
    if same_kind fractal.kind active.kind
    then none
    else if too_close active fractal
    then none
    else some (make_stroke active fractal)

-- `active` after that round.
unfoldable pub next_active : Fractal → Fractal → Fractal
next_active active fractal =
    if same_kind fractal.kind active.kind
    then if is_more_extreme fractal active then fractal else active
    else if too_close active fractal
    then active
    else fractal

-- The loop from the second confirmed fractal on.
unfoldable pub strokes_from : Fractal → List Fractal → List Stroke
strokes_from active [] = []
strokes_from active (fractal ∷ rest) =
    cons? (stroke_at active fractal) (strokes_from (next_active active fractal) rest)

-- The loop over all confirmed fractals: the first one becomes `active`.
unfoldable pub strokes_of : List Fractal → List Stroke
strokes_of [] = []
strokes_of (fractal ∷ rest) = strokes_from fractal rest

unfoldable pub find_strokes : List Fractal → List Stroke
find_strokes fractals = strokes_of (confirmed_fractals fractals)

abbrev pub max_low : Stroke → List Stroke → ℕ
max_low s [] = s.low
max_low s (t ∷ ts) = max s.low (max_low t ts)

abbrev pub min_high : Stroke → List Stroke → ℕ
min_high s [] = s.high
min_high s (t ∷ ts) = min s.high (min_high t ts)

-- `_overlap` of the list `s ∷ ss`; it is never called with an empty list.
unfoldable pub overlap : Stroke → List Stroke → Option (ℕ × ℕ)
overlap s ss =
    if leb (max_low s ss) (min_high s ss) then some (max_low s ss, min_high s ss) else none
