-- ===== src/Chan/Strokes/Order.antt =====
-- The strokes are a zigzag: each joins a bottom to a higher top, and they alternate.
use mathlib.Core.List.{Mem, mem-cons_self, mem-cons_of_mem}
use stock_daily_report.Prelude.{
  sym, Bool-cases, if-either, if◌then◌else◌, filter_bool-true, filter_bool-false, ℕ, ◌+◌, ◌≤◌, ◌≡◌,
  List, [], ◌∷◌, none, some, inl, inr, arith, Chain, All, drop_last, Chain-drop_last, All-drop_last,
  Option-cases, subst,
}
use stock_daily_report.Chan.Common.{
  FractalKind, top, bottom, StrokeKind, upward, downward, Fractal, Stroke, confirmed, is_confirmed,
}
use stock_daily_report.Bars.{DailyBar}
use stock_daily_report.Chan.Inclusion.{process_inclusion}
use stock_daily_report.Chan.Inclusion.Order.{Follows, process_inclusion-Follows}
use stock_daily_report.Chan.Inclusion.Range.{IsRange, IsBarRange, process_inclusion-IsRange}
use stock_daily_report.Chan.Fractals.{fractals_from, find_fractals, confirmed_fractals}
use stock_daily_report.Chan.Fractals.Prefix.{confirmed-find_fractals}
use stock_daily_report.Chan.Fractals.Alternation.{Alternates, opposite, fractals_from-Alternates}
use stock_daily_report.Chan.Fractals.Swings.{Swing, Swings, fractals_from-Swings}
use stock_daily_report.Chan.Strokes.{
  same_kind, is_more_extreme, too_close, make_stroke, kind_of_end, stroke_at, next_active,
  strokes_from, strokes_of, find_strokes,
}

-- The active fractal is at least as extreme as one seen later, if they are of one kind.
abbrev HoldsIf : FractalKind → FractalKind → ℕ → ℕ → Type 0
HoldsIf top top active seen = seen ≤ active
HoldsIf bottom bottom active seen = active ≤ seen
HoldsIf _ _ active seen = Unit

-- The invariant of the loop, where `seen` is the fractal of the round before.
record Ready (active seen : Fractal) : Type 0 where
  behind : active.processed_index ≤ seen.processed_index
  extreme : HoldsIf active.kind seen.kind active.price seen.price

-- The stroke `s` joins a fractal to one of the other kind, two or more bars further right, that lies
-- above it if it is a top and below it if it is a bottom.
pub record IsLeg (s : Stroke) (a b : Fractal) : Type 0 where
  pub made : s ≡ make_stroke a b
  pub kinds : a.kind ≡ opposite b.kind
  pub swing : Swing b.kind a.price b.price
  pub gap : a.processed_index + 2 ≤ b.processed_index

Ready-next : (a s f : Fractal) → Ready a s → Alternates s f → Swings s f → Ready (next_active a f) f
unfolding next_active too_close is_more_extreme
Ready-next a s f h alt sw = ground arith

stroke_at-IsLeg :
    (a s f : Fractal) {t : Stroke}
    → Ready a s
    → Alternates s f
    → Swings s f
    → stroke_at a f ≡ some t
    → IsLeg t a f
unfolding stroke_at too_close
stroke_at-IsLeg a s f h alt sw e = ground arith

Ready-refl : (f : Fractal) → Ready f f
Ready-refl f = ground arith

-- How the first stroke of a list begins after an active fractal.
abbrev FirstAfter : Fractal → List Stroke → Type 0
FirstAfter a [] = Unit
FirstAfter a (t ∷ ts) =
    (t.kind ≡ kind_of_end (opposite a.kind)) × (a.processed_index ≤ t.start_processed_index)

abbrev pub reversed : StrokeKind → StrokeKind
reversed upward = downward
reversed downward = upward

-- Neighbouring strokes: the later one goes the other way and begins where the earlier one ends or
-- further right.
pub record Joins (s t : Stroke) : Type 0 where
  pub turns : t.kind ≡ reversed s.kind
  pub ordered : s.end_processed_index ≤ t.start_processed_index

-- The stroke is a leg between two fractals with the property `P`.
abbrev pub IsSwing : (Fractal → Type 0) → Stroke → Type 0
IsSwing P s = (a b : Fractal) × IsLeg s a b × P a × P b

-- A confirmed fractal of the list.
pub record IsConfirmedIn (fractals : List Fractal) (f : Fractal) : Type 0 where
  pub member : Mem f fractals
  pub is_confirmed : f.status ≡ confirmed

-- What the loop returns from an active fractal on.
record IsZigzag (P : Fractal → Type 0) (a : Fractal) (ss : List Stroke) : Type 0 where
  legs : All (IsSwing P) ss
  joins : Chain Joins ss
  first : FirstAfter a ss

IsZigzag-none :
    (P : Fractal → Type 0) (a f : Fractal) (ss : List Stroke)
    → (a.kind ≡ (next_active a f).kind)
    → (a.processed_index ≤ (next_active a f).processed_index)
    → IsZigzag P (next_active a f) ss
    → IsZigzag P a ss
IsZigzag-none P a f [] k i z = record { legs = z.legs; joins = z.joins; first = tt }
IsZigzag-none P a f (t ∷ ts) k i z = record {
  legs = z.legs;
  joins = z.joins;
  first = (rw k z.first.0, omega (arith, z.first.1));
}

IsZigzag-some :
    (P : Fractal → Type 0) (a f : Fractal) (t : Stroke) (ss : List Stroke)
    → IsLeg t a f
    → P a
    → P f
    → IsZigzag P f ss
    → IsZigzag P a (t ∷ ss)
IsZigzag-some P a f t [] leg p q z = record {
  legs = ((a, f, leg, p, q), tt);
  joins = tt;
  first = ground arith;
}
IsZigzag-some P a f t (u ∷ us) leg p q z = record {
  legs = ((a, f, leg, p, q), z.legs);
  joins = (record { turns = ground arith; ordered = ground arith }, z.joins);
  first = ground arith;
}

next_active-none :
    (a s f : Fractal)
    → Alternates s f
    → Ready a s
    → stroke_at a f ≡ none
    → (a.kind ≡ (next_active a f).kind) × (a.processed_index ≤ (next_active a f).processed_index)
unfolding stroke_at next_active is_more_extreme
next_active-none a s f alt h e = ground arith

next_active-some : (a f : Fractal) (t : Stroke) → stroke_at a f ≡ some t → next_active a f ≡ f
unfolding stroke_at next_active
next_active-some a f t e = ground arith

next_active-keeps : (P : Fractal → Type 0) (a f : Fractal) → P a → P f → P (next_active a f)
unfolding next_active
next_active-keeps P a f p q =
    if-either P (same_kind f.kind a.kind) (if is_more_extreme f a then f else a)
      (if too_close a f then a else f) (if-either P (is_more_extreme f a) f a q p)
      (if-either P (too_close a f) a f p q)

strokes_from-IsZigzag :
    (P : Fractal → Type 0) (a s : Fractal) (fs : List Fractal)
    → P a
    → All P fs
    → Ready a s
    → Chain Alternates (s ∷ fs)
    → Chain Swings (s ∷ fs)
    → IsZigzag P a (strokes_from a fs)
unfolding strokes_from
strokes_from-IsZigzag P a s [] p qs h alt sw = record { legs = tt; joins = tt; first = tt }
strokes_from-IsZigzag P a s (f ∷ fs) p (q, qs) h alt sw =
    let ih =
      strokes_from-IsZigzag P (next_active a f) f fs (next_active-keeps P a f p q) qs
        (Ready-next a s f h alt.0 sw.0) alt.1 sw.1 in
    elim (Option-cases (stroke_at a f)) [
      | inl e ↦
          let (kind, index) = next_active-none a s f alt.0 h e in
          rw e (IsZigzag-none P a f (strokes_from (next_active a f) fs) kind index ih)
      | inr (t, e) ↦ rw e (
          IsZigzag-some P a f t (strokes_from (next_active a f) fs)
            (stroke_at-IsLeg a s f h alt.0 sw.0 e) p q
            (subst (λ f'. IsZigzag P f' (strokes_from (next_active a f) fs))
              (next_active-some a f t e) ih))
    ]

pub strokes_of-zigzag :
    (P : Fractal → Type 0) (fs : List Fractal)
    → All P fs
    → Chain Alternates fs
    → Chain Swings fs
    → All (IsSwing P) (strokes_of fs) × Chain Joins (strokes_of fs)
unfolding strokes_of
strokes_of-zigzag P [] ps alt sw = (tt, tt)
strokes_of-zigzag P (f ∷ fs) (p, ps) alt sw =
    let z = strokes_from-IsZigzag P f f fs p ps (Ready-refl f) alt sw in (z.legs, z.joins)

confirmed_fractals-All :
    (fractals fs : List Fractal)
    → ((f : Fractal) → Mem f fs → Mem f fractals)
    → All (IsConfirmedIn fractals) (confirmed_fractals fs)
confirmed_fractals-All fractals [] h = tt
confirmed_fractals-All fractals (f ∷ fs) h =
    let rest = confirmed_fractals-All fractals fs (λ g m. h g (mem-cons_of_mem f m)) in
    elim (Bool-cases (is_confirmed f.status)) [
      | inl e ↦
          rw (filter_bool-true (λ x. is_confirmed x.status) f fs e)
            (record { member = h f mem-cons_self; is_confirmed = ground (arith, e) }, rest)
      | inr e ↦ rw (filter_bool-false (λ x. is_confirmed x.status) f fs e) rest
    ]

-- If every bar's low is at or below its high, the strokes of a history are a zigzag: each joins two
-- confirmed fractals of the history, of different kinds and at least two processed bars apart, and its
-- end lies above its start if the end is a top and below it if the end is a bottom; neighbouring
-- strokes go opposite ways, and the later one starts where the earlier one ends or further right.
pub find_strokes-zigzag :
    (bars : List DailyBar)
    → All IsBarRange bars
    → let fractals = find_fractals (process_inclusion bars) bars in
      All (IsSwing (IsConfirmedIn fractals)) (find_strokes fractals)
      × Chain Joins (find_strokes fractals)
unfolding find_strokes
find_strokes-zigzag bars v =
    let ps = process_inclusion bars in
    let fractals = find_fractals ps bars in
    let P = IsConfirmedIn fractals in
    let chain = Chain-drop_last Follows ps (process_inclusion-Follows bars) in
    let ranges = All-drop_last IsRange ps (process_inclusion-IsRange bars v) in
    let e = confirmed-find_fractals bars in
    let known = subst (All P) e (confirmed_fractals-All fractals fractals (λ f m. m)) in
    subst (λ fs. All (IsSwing P) (strokes_of fs) × Chain Joins (strokes_of fs)) (sym e)
      (strokes_of-zigzag P (fractals_from 1 (drop_last ps) bars) known
        (fractals_from-Alternates 1 (drop_last ps) bars chain)
        (fractals_from-Swings 1 (drop_last ps) bars chain ranges))
