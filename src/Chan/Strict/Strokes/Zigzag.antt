-- ===== src/Chan/Strict/Strokes/Zigzag.antt =====
-- The loop over all fractals of a history returns a contiguous zigzag of strokes.
use stock_daily_report.Prelude.{
  ℕ, ◌+◌, ◌≤◌, ◌<◌, ◌≡◌, refl, List, [], ◌∷◌, none, some, inl, inr, arith, cons?, filter_bool, Bool,
  Option-cases, Bool-cases,
}
use stock_daily_report.Chan.Common.{top, ProcessedBar}
use stock_daily_report.Bars.{DailyBar}
use stock_daily_report.Chan.Fractals.{fractal_kind}
use stock_daily_report.Chan.Strict.Inclusion.{process_inclusion}
use stock_daily_report.Chan.Strict.Fractals.{fractal_at, make_fractal, fractals_from, find_fractals}
use stock_daily_report.Chan.Fractals.Alternation.{opposite}
use stock_daily_report.Chan.Strict.Events.{
  StrictProfile, FractalCandidate, StrokeCandidate, kind_of, price_of,
}
use stock_daily_report.Chan.Strict.Strokes.{
  action, new_stroke, moved_stroke, strokes_from, strokes_of, find_strokes, has_confirmation,
}
use stock_daily_report.Chan.Strict.Strokes.Contiguous.{
  Zigzag, IsZigzag, Action-cases, Ends, append_facts, Ends-new, Ends-moved, replace_facts,
  move_facts,
}

-- The processed indices rise strictly, from above `bound` on.
abbrev pub RisesFrom : ℕ → List FractalCandidate → Type 0
RisesFrom bound [] = Unit
RisesFrom bound (f ∷ fs) = (bound < f.processed_index) × RisesFrom f.processed_index fs

Zigzag-cons :
    (separation : ℕ) (s : StrokeCandidate) (active f : FractalCandidate) (ss : List StrokeCandidate)
    → Ends separation s active
    → kind_of f ≡ opposite (kind_of active)
    → Zigzag separation (kind_of f) active.processed_index (price_of active) ss
    → Zigzag separation (kind_of active) s.start_index s.start_price (s ∷ ss)
Zigzag-cons separation s active f ss end kinds z =
    (end.leg, refl, refl, rw (end.index, end.price, ← kinds) z)

from_some :
    (separation bound : ℕ) (s : StrokeCandidate) (active : FractalCandidate)
    (fs : List FractalCandidate)
    → active.processed_index ≤ bound
    → RisesFrom bound fs
    → Ends separation s active
    → Zigzag separation
        (kind_of active)
        s.start_index
        s.start_price
        (strokes_from separation (some s) active fs)
unfolding strokes_from new_stroke moved_stroke
from_some separation bound s active [] h r end = (end.leg, refl, refl, tt)
from_some separation bound s active (f ∷ fs) h r end =
    elim (Action-cases (action separation (some s) active f)) [
      | inl e ↦
          rw (e, strokes_from)
            (from_some separation f.processed_index s active fs (omega arith) r.1 end)
      | inr (inl e) ↦ absurd (cc (replace_facts separation (some s) active f e).0)
      | inr (inr (inl e)) ↦
          let (end', kinds) = Ends-moved separation s active f (omega arith) end e in
          rw (e, strokes_from, ← kinds)
            (from_some separation f.processed_index (moved_stroke s f) f fs (omega arith) r.1 end')
      | inr (inr (inr e)) ↦
          rw (e, strokes_from)
            (Zigzag-cons separation s active f _ end
              (append_facts separation (some s) active f (omega arith) e).2
              (from_some separation f.processed_index (new_stroke active f) f fs (omega arith) r.1
                (Ends-new separation (some s) active f (omega arith) e)))
    ]

from_none :
    (separation bound : ℕ) (active : FractalCandidate) (fs : List FractalCandidate)
    → active.processed_index ≤ bound
    → RisesFrom bound fs
    → IsZigzag separation (strokes_from separation none active fs)
unfolding strokes_from new_stroke
from_none separation bound active [] h r = record { kind = top; index = 0; price = 0; zigzag = tt }
from_none separation bound active (f ∷ fs) h r =
    elim (Action-cases (action separation none active f)) [
      | inl e ↦
          rw (e, strokes_from) (from_none separation f.processed_index active fs (omega arith) r.1)
      | inr (inl e) ↦
          rw (e, strokes_from) (from_none separation f.processed_index f fs (omega arith) r.1)
      | inr (inr (inl e)) ↦ absurd (move_facts separation active f e)
      | inr (inr (inr e)) ↦
          rw (e, strokes_from)
            (record {
              kind = kind_of f;
              index = active.processed_index;
              price = price_of active;
              zigzag =
                  from_some separation f.processed_index (new_stroke active f) f fs (omega arith)
                    r.1 (Ends-new separation none active f (omega arith) e);
            })
    ]

RisesFrom-cons? :
    (profile : StrictProfile) (bound index : ℕ) (l c r : ProcessedBar) (bars : List DailyBar)
    (fs : List FractalCandidate)
    → bound < index
    → ((b : ℕ) → b < index + 1 → RisesFrom b fs)
    → RisesFrom bound (cons? (fractal_at profile index l c r bars) fs)
unfolding fractal_at make_fractal
RisesFrom-cons? profile bound index l c r bars fs h rest =
    elim (Option-cases (fractal_kind l c r)) [
      | inl e ↦ rw (e, fractal_at) (rest bound (omega arith))
      | inr (k, e) ↦ rw (e, fractal_at) (h, rest index (omega arith))
    ]

fractals_from-RisesFrom :
    (profile : StrictProfile) (bound index : ℕ) (ps : List ProcessedBar) (bars : List DailyBar)
    → bound < index
    → RisesFrom bound (fractals_from profile index ps bars)
unfolding fractals_from
fractals_from-RisesFrom profile bound index [] bars h = tt
fractals_from-RisesFrom profile bound index (l ∷ []) bars h = tt
fractals_from-RisesFrom profile bound index (l ∷ c ∷ []) bars h = tt
fractals_from-RisesFrom profile bound index (l ∷ c ∷ r ∷ ps) bars h =
    RisesFrom-cons? profile bound index l c r bars _ h
      (λ b hb. fractals_from-RisesFrom profile b (index + 1) (c ∷ r ∷ ps) bars hb)

RisesFrom-weaken : (a b : ℕ) (fs : List FractalCandidate) → a ≤ b → RisesFrom b fs → RisesFrom a fs
RisesFrom-weaken a b [] h r = tt
RisesFrom-weaken a b (f ∷ fs) h r = (omega arith, r.1)

filter-RisesFrom :
    (p : FractalCandidate → Bool) (bound : ℕ) (fs : List FractalCandidate)
    → RisesFrom bound fs
    → RisesFrom bound (filter_bool p fs)
filter-RisesFrom p bound [] r = tt
filter-RisesFrom p bound (f ∷ fs) r =
    let rest = filter-RisesFrom p f.processed_index fs r.1 in
    elim (Bool-cases (p f)) [
      | inl e ↦ rw (e, filter_bool) (r.0, rest)
      | inr e ↦
          rw (e, filter_bool)
            (RisesFrom-weaken bound f.processed_index (filter_bool p fs) (omega arith) rest)
    ]

strokes_of-IsZigzag :
    (separation : ℕ) (fs : List FractalCandidate)
    → RisesFrom 0 fs
    → IsZigzag separation (strokes_of separation fs)
unfolding strokes_of
strokes_of-IsZigzag separation [] r = record { kind = top; index = 0; price = 0; zigzag = tt }
strokes_of-IsZigzag separation (f ∷ fs) r =
    from_none separation f.processed_index f fs (omega arith) r.1

-- For every profile and history the strict strokes are a contiguous zigzag: each stroke starts at
-- the processed bar and price where the one before it ends, spans at least the profile's separation,
-- leads strictly up to a top or down to a bottom in turn, and its event has the matching low, high
-- and direction.
pub find_strokes-IsZigzag :
    (profile : StrictProfile) (bars : List DailyBar)
    → let separation = profile.minimum_stroke_separation in
      IsZigzag separation
        (find_strokes separation (find_fractals profile (process_inclusion bars) bars))
unfolding find_strokes find_fractals
find_strokes-IsZigzag profile bars =
    let fs = fractals_from profile 1 (process_inclusion bars) bars in
    strokes_of-IsZigzag profile.minimum_stroke_separation (filter_bool has_confirmation fs) (
      filter-RisesFrom has_confirmation 0 fs
        (fractals_from-RisesFrom profile 0 1 (process_inclusion bars) bars (omega arith)))
