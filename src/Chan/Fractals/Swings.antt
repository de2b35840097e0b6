-- ===== src/Chan/Fractals/Swings.antt =====
-- Neighbouring fractals are apart in price: a top lies above the bottoms next to it.
use stock_daily_report.Prelude.{
  ℕ, ◌+◌, ◌≤◌, ◌<◌, ◌≡◌, refl, sym, ◌∙◌, List, [], ◌∷◌, none, some, inl, inr, arith, Chain, All,
  Option-cases, subst,
}
use stock_daily_report.Bars.{DailyBar}
use stock_daily_report.Chan.Common.{
  Direction, up, down, neutral, FractalKind, top, bottom, ProcessedBar, Fractal,
}
use stock_daily_report.Chan.Inclusion.Order.{Rises, Follows}
use stock_daily_report.Chan.Inclusion.Range.{IsRange}
use stock_daily_report.Chan.Fractals.{fractal_kind, fractal_price, make_fractal, fractals_from}
use stock_daily_report.Chan.Fractals.Alternation.{
  turn, fractal_kind-eq-turn, fractal_at-none, fractal_at-some,
}

-- Going from price `p` to price `q` ends in a fractal of this kind.
abbrev pub Swing : FractalKind → ℕ → ℕ → Type 0
Swing top p q = p < q
Swing bottom p q = q < p

abbrev pub Swings : Fractal → Fractal → Type 0
Swings a b = Swing b.kind a.price b.price

-- Where the first fractal of a run in direction `d` through `c` lies.
abbrev Beyond : Direction → ProcessedBar → List Fractal → Type 0
Beyond d c [] = Unit
Beyond up c (f ∷ fs) = (f.kind ≡ top) × (c.high ≤ f.price)
Beyond down c (f ∷ fs) = (f.kind ≡ bottom) × (f.price ≤ c.low)
Beyond neutral c (f ∷ fs) = ⊥

Beyond-same :
    (d e : Direction) (l c r : ProcessedBar) (fs : List Fractal)
    → Rises d l c
    → Rises e c r
    → turn d e ≡ none
    → Beyond e r fs
    → Beyond d c fs
Beyond-same d e l c r [] h k n b = tt
Beyond-same up up l c r (f ∷ fs) h k n b = (b.0, omega arith)
Beyond-same down down l c r (f ∷ fs) h k n b = (b.0, omega arith)
Beyond-same up down l c r (f ∷ fs) h k n b = cc
Beyond-same down up l c r (f ∷ fs) h k n b = cc
Beyond-same neutral e l c r (f ∷ fs) h k n b = absurd h
Beyond-same up neutral l c r (f ∷ fs) h k n b = absurd k
Beyond-same down neutral l c r (f ∷ fs) h k n b = absurd k

Beyond-turn :
    (k : FractalKind) (d e : Direction) (l c r : ProcessedBar) (g : Fractal) (gs : List Fractal)
    → turn d e ≡ some k
    → Rises d l c
    → Rises e c r
    → IsRange c
    → Beyond e r (g ∷ gs)
    → Swing g.kind (fractal_price k c) g.price
Beyond-turn top up down l c r g gs t h k v b = rw b.0 (omega arith)
Beyond-turn bottom down up l c r g gs t h k v b = rw b.0 (omega arith)
Beyond-turn bottom up down l c r g gs t h x v b = cc
Beyond-turn top down up l c r g gs t h x v b = cc
Beyond-turn k up up l c r g gs t h x v b = cc
Beyond-turn k down down l c r g gs t h x v b = cc
Beyond-turn k up neutral l c r g gs t h x v b = absurd x
Beyond-turn k down neutral l c r g gs t h x v b = absurd x
Beyond-turn k neutral e l c r g gs t h x v b = absurd h

Beyond-start :
    (k : FractalKind) (d e : Direction) (c r : ProcessedBar) (f : Fractal) (fs : List Fractal)
    → turn d e ≡ some k
    → f.kind ≡ k
    → f.price ≡ fractal_price k c
    → Beyond d c (f ∷ fs)
Beyond-start top up down c r f fs t kind price = (kind, omega arith)
Beyond-start bottom down up c r f fs t kind price = (kind, omega arith)
Beyond-start bottom up down c r f fs t kind price = cc
Beyond-start top down up c r f fs t kind price = cc
Beyond-start k up up c r f fs t kind price = cc
Beyond-start k down down c r f fs t kind price = cc
Beyond-start k up neutral c r f fs t kind price = cc
Beyond-start k down neutral c r f fs t kind price = cc
Beyond-start k neutral e c r f fs t kind price = cc

Chain-Swings-cons :
    (k : FractalKind) (d e : Direction) (l c r : ProcessedBar) (f : Fractal) (fs : List Fractal)
    → turn d e ≡ some k
    → Rises d l c
    → Rises e c r
    → IsRange c
    → f.price ≡ fractal_price k c
    → Beyond e r fs
    → Chain Swings fs
    → Chain Swings (f ∷ fs)
Chain-Swings-cons k d e l c r f [] t h x v price b chain = tt
Chain-Swings-cons k d e l c r f (g ∷ gs) t h x v price b chain = (
  subst (λ p. Swing g.kind p g.price) (sym price) (Beyond-turn k d e l c r g gs t h x v b),
  chain,
)

swings :
    (index : ℕ) (l c : ProcessedBar) (ps : List ProcessedBar) (bars : List DailyBar)
    → Chain Follows (l ∷ c ∷ ps)
    → All IsRange (l ∷ c ∷ ps)
    → let fs = fractals_from index (l ∷ c ∷ ps) bars in Chain Swings fs × Beyond c.direction c fs
unfolding fractals_from make_fractal
swings index l c [] bars h v = (tt, tt)
swings index l c (r ∷ ps) bars h v =
    let (chain, beyond) = swings (index + 1) c r ps bars h.1 v.1 in
    let later : List Fractal = fractals_from (index + 1) (c ∷ r ∷ ps) bars in
    let kind = fractal_kind-eq-turn c.direction r.direction l c r h.0 h.1.0 in
    elim (Option-cases (fractal_kind l c r)) [
      | inl e ↦
          rw (fractal_at-none index l c r bars e)
            (chain, Beyond-same c.direction r.direction l c r later h.0 h.1.0 (sym kind ∙ e) beyond)
      | inr (k, e) ↦
          let f : Fractal = make_fractal k index c r bars in
          let t = sym kind ∙ e in
          rw (fractal_at-some k index l c r bars e) (
            Chain-Swings-cons k c.direction r.direction l c r f later t h.0 h.1.0 v.1.0 refl beyond
                chain,
            Beyond-start k c.direction r.direction c r f later t refl refl,
          )
    ]

pub fractals_from-Swings :
    (index : ℕ) (ps : List ProcessedBar) (bars : List DailyBar)
    → Chain Follows ps
    → All IsRange ps
    → Chain Swings (fractals_from index ps bars)
unfolding fractals_from
fractals_from-Swings index [] bars h v = tt
fractals_from-Swings index (l ∷ []) bars h v = tt
fractals_from-Swings index (l ∷ c ∷ ps) bars h v = (swings index l c ps bars h v).0
