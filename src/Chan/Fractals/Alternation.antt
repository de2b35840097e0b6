-- ===== src/Chan/Fractals/Alternation.antt =====
-- Fractals are the turns of direction of the processed bars.
use stock_daily_report.Prelude.{
  ℕ, ◌+◌, ◌≤◌, ◌<◌, ◌≡◌, refl, sym, ◌∙◌, List, [], ◌∷◌, Option, none, some, inl, inr, arith, Chain,
  All, subst, Option-cases,
}
use stock_daily_report.Bars.{DailyBar}
use stock_daily_report.Chan.Common.{
  Direction, up, down, neutral, FractalKind, top, bottom, ProcessedBar, Fractal,
}
use stock_daily_report.Chan.Inclusion.{process_inclusion}
use stock_daily_report.Chan.Inclusion.Order.{Rises, Follows, process_inclusion-Follows}
use stock_daily_report.Chan.Fractals.{
  fractal_kind, is_top, is_bottom, fractal_at, make_fractal, fractals_from, find_fractals,
}

-- The fractal at a bar of direction `d` whose right neighbour has direction `e`.
abbrev pub turn : Direction → Direction → Option FractalKind
turn up down = some top
turn down up = some bottom
turn _ _ = none

pub fractal_kind-eq-turn :
    (d e : Direction) (l c r : ProcessedBar)
    → Rises d l c
    → Rises e c r
    → fractal_kind l c r ≡ turn d e
unfolding fractal_kind is_top is_bottom
fractal_kind-eq-turn up up l c r h k = ground arith
fractal_kind-eq-turn up down l c r h k = ground arith
fractal_kind-eq-turn up neutral l c r h k = absurd k
fractal_kind-eq-turn down up l c r h k = ground arith
fractal_kind-eq-turn down down l c r h k = ground arith
fractal_kind-eq-turn down neutral l c r h k = absurd k
fractal_kind-eq-turn neutral e l c r h k = absurd h

abbrev expected : Direction → FractalKind
expected up = top
expected _ = bottom

abbrev pub opposite : FractalKind → FractalKind
opposite top = bottom
opposite bottom = top

-- The first fractal, if there is one, has this kind.
abbrev StartsWith : FractalKind → List Fractal → Type 0
StartsWith k [] = Unit
StartsWith k (f ∷ fs) = f.kind ≡ k

-- Neighbouring fractals: they differ in kind, and the later one stands further right.
pub record Alternates (a b : Fractal) : Type 0 where
  pub kinds : b.kind ≡ opposite a.kind
  pub indices : a.processed_index < b.processed_index

abbrev AllFrom : ℕ → List Fractal → Type 0
AllFrom index = All (λ f. index ≤ f.processed_index)

AllFrom-weaken : (i j : ℕ) (fs : List Fractal) → j ≤ i → AllFrom i fs → AllFrom j fs
AllFrom-weaken i j [] h a = tt
AllFrom-weaken i j (f ∷ fs) h a = (omega arith, AllFrom-weaken i j fs h a.1)

pub fractal_at-none :
    (index : ℕ) (l c r : ProcessedBar) (bars : List DailyBar)
    → fractal_kind l c r ≡ none
    → fractal_at index l c r bars ≡ none
unfolding fractal_at
fractal_at-none index l c r bars e = ground arith

pub fractal_at-some :
    (k : FractalKind) (index : ℕ) (l c r : ProcessedBar) (bars : List DailyBar)
    → fractal_kind l c r ≡ some k
    → fractal_at index l c r bars ≡ some (make_fractal k index c r bars)
unfolding fractal_at
fractal_at-some k index l c r bars e = ground arith

fractals_from-AllFrom :
    (index : ℕ) (ps : List ProcessedBar) (bars : List DailyBar)
    → AllFrom index (fractals_from index ps bars)
unfolding fractals_from make_fractal
fractals_from-AllFrom index [] bars = tt
fractals_from-AllFrom index (l ∷ []) bars = tt
fractals_from-AllFrom index (l ∷ c ∷ []) bars = tt
fractals_from-AllFrom index (l ∷ c ∷ r ∷ ps) bars =
    let later : List Fractal = fractals_from (index + 1) (c ∷ r ∷ ps) bars in
    let rest =
      AllFrom-weaken (index + 1) index later (omega arith)
        (fractals_from-AllFrom (index + 1) (c ∷ r ∷ ps) bars) in
    elim (Option-cases (fractal_kind l c r)) [
      | inl e ↦ rw (fractal_at-none index l c r bars e) rest
      | inr (k, e) ↦ rw (fractal_at-some k index l c r bars e) (omega arith, rest)
    ]

turn-none :
    (d e : Direction) (l c r : ProcessedBar)
    → Rises d l c
    → Rises e c r
    → turn d e ≡ none
    → expected e ≡ expected d
turn-none up up l c r h k n = refl
turn-none down down l c r h k n = refl
turn-none up down l c r h k n = cc
turn-none down up l c r h k n = cc
turn-none neutral e l c r h k n = absurd h
turn-none up neutral l c r h k n = absurd k
turn-none down neutral l c r h k n = absurd k

turn-some :
    (k : FractalKind) (d e : Direction)
    → turn d e ≡ some k
    → (k ≡ expected d) × (expected e ≡ opposite k)
turn-some k up down h = ground arith
turn-some k down up h = ground arith
turn-some k up up h = cc
turn-some k up neutral h = cc
turn-some k down down h = cc
turn-some k down neutral h = cc
turn-some k neutral e h = cc

Chain-cons :
    (f : Fractal) (fs : List Fractal)
    → StartsWith (opposite f.kind) fs
    → AllFrom (f.processed_index + 1) fs
    → Chain Alternates fs
    → Chain Alternates (f ∷ fs)
Chain-cons f [] s a c = tt
Chain-cons f (g ∷ gs) s a c = (record { kinds = s; indices = omega arith }, c)

alternation :
    (index : ℕ) (l c : ProcessedBar) (ps : List ProcessedBar) (bars : List DailyBar)
    → Chain Follows (l ∷ c ∷ ps)
    → let fs = fractals_from index (l ∷ c ∷ ps) bars in
      Chain Alternates fs × StartsWith (expected c.direction) fs
unfolding fractals_from make_fractal
alternation index l c [] bars h = (tt, tt)
alternation index l c (r ∷ ps) bars h =
    let ih = alternation (index + 1) c r ps bars h.1 in
    let kind = fractal_kind-eq-turn c.direction r.direction l c r h.0 h.1.0 in
    elim (Option-cases (fractal_kind l c r)) [
      | inl e ↦ rw (fractal_at-none index l c r bars e) (
        ih.0,
        subst (λ k. StartsWith k (fractals_from (index + 1) (c ∷ r ∷ ps) bars))
            (turn-none c.direction r.direction l c r h.0 h.1.0 (sym kind ∙ e)) ih.1,
      )
      | inr (k, e) ↦
          let (this, next) = turn-some k c.direction r.direction (sym kind ∙ e) in
          rw (fractal_at-some k index l c r bars e) (
            Chain-cons (make_fractal k index c r bars) (fractals_from (index + 1) (c ∷ r ∷ ps) bars)
                (subst (λ k'. StartsWith k' (fractals_from (index + 1) (c ∷ r ∷ ps) bars)) next
                  ih.1)
                (fractals_from-AllFrom (index + 1) (c ∷ r ∷ ps) bars) ih.0,
            this,
          )
    ]

pub fractals_from-Alternates :
    (index : ℕ) (ps : List ProcessedBar) (bars : List DailyBar)
    → Chain Follows ps
    → Chain Alternates (fractals_from index ps bars)
unfolding fractals_from
fractals_from-Alternates index [] bars h = tt
fractals_from-Alternates index (l ∷ []) bars h = tt
fractals_from-Alternates index (l ∷ c ∷ ps) bars h = (alternation index l c ps bars h).0

-- For every history, tops and bottoms alternate in the list of fractals (candidates included), and
-- each fractal stands further right among the processed bars than the one before it.
pub find_fractals-Alternates :
    (bars : List DailyBar) → Chain Alternates (find_fractals (process_inclusion bars) bars)
unfolding find_fractals
find_fractals-Alternates bars =
    fractals_from-Alternates 1 (process_inclusion bars) bars (process_inclusion-Follows bars)
