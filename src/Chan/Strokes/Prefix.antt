-- ===== src/Chan/Strokes/Prefix.antt =====
-- A longer history keeps the strokes of the shorter one.
use stock_daily_report.Prelude.{refl, List, [], ◌∷◌, ◌++◌, Extends, subst}
use stock_daily_report.Bars.{DailyBar}
use stock_daily_report.Chan.Common.{Fractal, Stroke}
use stock_daily_report.Chan.Inclusion.{process_inclusion}
use stock_daily_report.Chan.Fractals.{find_fractals, confirmed_fractals}
use stock_daily_report.Chan.Fractals.Prefix.{find_fractals-Extends, cons?-Extends}
use stock_daily_report.Chan.Strokes.{stroke_at, next_active, strokes_from, strokes_of, find_strokes}

strokes_from-Extends :
    (active : Fractal) (fs more : List Fractal)
    → Extends (strokes_from active fs) (strokes_from active (fs ++ more))
unfolding strokes_from
strokes_from-Extends active [] more = (_, refl)
strokes_from-Extends active (f ∷ fs) more =
    cons?-Extends (stroke_at active f) _ _ (strokes_from-Extends (next_active active f) fs more)

strokes_of-Extends : (fs more : List Fractal) → Extends (strokes_of fs) (strokes_of (fs ++ more))
unfolding strokes_of
strokes_of-Extends [] more = (_, refl)
strokes_of-Extends (f ∷ fs) more = strokes_from-Extends f fs more

abbrev pub strokes_in : List DailyBar → List Stroke
strokes_in bars = find_strokes (find_fractals (process_inclusion bars) bars)

-- A stroke is never redrawn: when more bars arrive, the strokes of the shorter history stand
-- unchanged at the front of the strokes of the longer one.
pub find_strokes-Extends :
    (bars more : List DailyBar) → Extends (strokes_in bars) (strokes_in (bars ++ more))
unfolding find_strokes
find_strokes-Extends bars more =
    let (rest, e) = find_fractals-Extends bars more in
    subst (λ fs. Extends (strokes_in bars) (strokes_of fs)) e
      (strokes_of-Extends (confirmed_fractals (find_fractals (process_inclusion bars) bars)) rest)
