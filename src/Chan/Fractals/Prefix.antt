-- ===== src/Chan/Fractals/Prefix.antt =====
-- Which fractals are confirmed, and that a longer history keeps them as they are.
use stock_daily_report.Prelude.{
  ℕ, ◌+◌, ◌<◌, ◌≡◌, refl, ap, ◌∙◌, List, [], ◌∷◌, ◌++◌, Option, none, some, inl, inr, arith, length,
  get_elem?-append, get_elem?-beyond, get_elem?-within, drop_last, cons?, Extends, Extends-cons,
  Option-cases,
}
use stock_daily_report.Bars.{DailyBar}
use stock_daily_report.Chan.Common.{FractalKind, ProcessedBar, Fractal}
use stock_daily_report.Chan.Inclusion.{process_inclusion}
use stock_daily_report.Chan.Inclusion.Trace.{EndsAt, last_index, process_inclusion-EndsAt}
use stock_daily_report.Chan.Inclusion.Prefix.{process_inclusion-Extends}
use stock_daily_report.Chan.Fractals.{
  trade_date_after, fractal_kind, fractal_at, make_fractal, fractals_from, find_fractals,
  confirmed_fractals,
}

trade_date_after-append :
    (i : ℕ) (bars more : List DailyBar)
    → i + 1 < length bars
    → trade_date_after i (bars ++ more) ≡ trade_date_after i bars
unfolding trade_date_after
trade_date_after-append i bars more h = ground (arith, get_elem?-append bars more (i + 1) h)

trade_date_after-within :
    (i : ℕ) (bars : List DailyBar)
    → i + 1 < length bars
    → (d : ℕ) × (trade_date_after i bars ≡ some d)
unfolding trade_date_after
trade_date_after-within i bars h =
    let (bar, e) = get_elem?-within bars (i + 1) h in (bar.trade_date, ground (arith, e))

trade_date_after-beyond :
    (i : ℕ) (bars : List DailyBar) → i + 1 ≡ length bars → trade_date_after i bars ≡ none
unfolding trade_date_after
trade_date_after-beyond i bars h = ground (arith, get_elem?-beyond bars (i + 1) (omega arith))

-- Every bar of `ps` has an input bar after its last source.
abbrev Within : ℕ → List ProcessedBar → Type 0
Within n [] = Unit
Within n (p ∷ ps) = (last_index p + 1 < n) × Within n ps

EndsAt-Within : (n : ℕ) (ps : List ProcessedBar) → EndsAt n ps → Within n (drop_last ps)
EndsAt-Within n [] h = tt
EndsAt-Within n (p ∷ []) h = tt
EndsAt-Within n (p ∷ q ∷ ps) h = (h.0, EndsAt-Within n (q ∷ ps) h.1)

make_fractal-append :
    (kind : FractalKind) (index : ℕ) (c r : ProcessedBar) (bars more : List DailyBar)
    → last_index r + 1 < length bars
    → make_fractal kind index c r (bars ++ more) ≡ make_fractal kind index c r bars
unfolding make_fractal
make_fractal-append kind index c r bars more h =
    rw (trade_date_after-append (last_index r) bars more h, make_fractal)

fractal_at-append :
    (index : ℕ) (l c r : ProcessedBar) (bars more : List DailyBar)
    → last_index r + 1 < length bars
    → fractal_at index l c r (bars ++ more) ≡ fractal_at index l c r bars
unfolding fractal_at
fractal_at-append index l c r bars more h = elim (Option-cases (fractal_kind l c r)) [
  | inl plain ↦ ground arith
  | inr (k, found) ↦ ground (arith, make_fractal-append k index c r bars more h)
]

fractals_from-append :
    (index : ℕ) (ps : List ProcessedBar) (bars more : List DailyBar)
    → Within (length bars) ps
    → fractals_from index ps (bars ++ more) ≡ fractals_from index ps bars
unfolding fractals_from
fractals_from-append index [] bars more h = refl
fractals_from-append index (l ∷ []) bars more h = refl
fractals_from-append index (l ∷ c ∷ []) bars more h = refl
fractals_from-append index (l ∷ c ∷ r ∷ ps) bars more h = rw (
  fractal_at-append index l c r bars more h.1.1.0,
  fractals_from-append (index + 1) (c ∷ r ∷ ps) bars more h.1,
)

pub cons?-Extends {ℓ} :
    {A : Type ℓ} (o : Option A) (xs ys : List A) → Extends xs ys → Extends (cons? o xs) (cons? o ys)
cons?-Extends none xs ys e = e
cons?-Extends (some x) xs ys e = Extends-cons x xs ys e

fractals_from-Extends :
    (index : ℕ) (ps rest : List ProcessedBar) (bars : List DailyBar)
    → Extends (fractals_from index ps bars) (fractals_from index (ps ++ rest) bars)
unfolding fractals_from
fractals_from-Extends index [] rest bars = (_, refl)
fractals_from-Extends index (l ∷ []) rest bars = (_, refl)
fractals_from-Extends index (l ∷ c ∷ []) rest bars = (_, refl)
fractals_from-Extends index (l ∷ c ∷ r ∷ ps) rest bars =
    cons?-Extends (fractal_at index l c r bars) _ _
      (fractals_from-Extends (index + 1) (c ∷ r ∷ ps) rest bars)

-- A fractal whose right bar has an input bar after it is confirmed.
fractal_at-confirmed :
    (index : ℕ) (l c r : ProcessedBar) (bars : List DailyBar) (xs : List Fractal)
    → last_index r + 1 < length bars
    → confirmed_fractals (cons? (fractal_at index l c r bars) xs)
      ≡ cons? (fractal_at index l c r bars) (confirmed_fractals xs)
unfolding fractal_at make_fractal
fractal_at-confirmed index l c r bars xs h =
    let (d, e) = trade_date_after-within (last_index r) bars h in
    elim (Option-cases (fractal_kind l c r)) [
      | inl plain ↦ ground arith
      | inr (k, found) ↦ ground (arith, e)
    ]

-- The fractal at the last processed bar is no more than a candidate.
fractal_at-candidate :
    (index : ℕ) (l c r : ProcessedBar) (bars : List DailyBar)
    → last_index r + 1 ≡ length bars
    → confirmed_fractals (cons? (fractal_at index l c r bars) []) ≡ []
unfolding fractal_at make_fractal
fractal_at-candidate index l c r bars h =
    let e = trade_date_after-beyond (last_index r) bars h in
    elim (Option-cases (fractal_kind l c r)) [
      | inl plain ↦ ground arith
      | inr (k, found) ↦ ground (arith, e)
    ]

confirmed-fractals_from :
    (index : ℕ) (ps : List ProcessedBar) (bars : List DailyBar)
    → EndsAt (length bars) ps
    → confirmed_fractals (fractals_from index ps bars) ≡ fractals_from index (drop_last ps) bars
unfolding fractals_from
confirmed-fractals_from index [] bars h = refl
confirmed-fractals_from index (l ∷ []) bars h = refl
confirmed-fractals_from index (l ∷ c ∷ []) bars h = refl
confirmed-fractals_from index (l ∷ c ∷ r ∷ []) bars h = fractal_at-candidate index l c r bars h.1.1
confirmed-fractals_from index (l ∷ c ∷ r ∷ p ∷ ps) bars h =
    fractal_at-confirmed index l c r bars _ h.1.1.0
    ∙ ap (cons? (fractal_at index l c r bars))
        (confirmed-fractals_from (index + 1) (c ∷ r ∷ p ∷ ps) bars h.1)

-- The confirmed fractals are exactly the fractals among the processed bars without the last one:
-- a fractal waits as a candidate as long as its right bar is the bar still being processed.
pub confirmed-find_fractals :
    (bars : List DailyBar)
    → confirmed_fractals (find_fractals (process_inclusion bars) bars)
      ≡ fractals_from 1 (drop_last (process_inclusion bars)) bars
unfolding find_fractals
confirmed-find_fractals bars =
    confirmed-fractals_from 1 (process_inclusion bars) bars (process_inclusion-EndsAt bars)

-- A confirmed fractal is never withdrawn, moved or re-dated: when more bars arrive, the confirmed
-- fractals of the shorter history stand unchanged at the front of those of the longer one.
pub find_fractals-Extends :
    (bars more : List DailyBar)
    → Extends
        (confirmed_fractals (find_fractals (process_inclusion bars) bars))
        (confirmed_fractals (find_fractals (process_inclusion (bars ++ more)) (bars ++ more)))
find_fractals-Extends bars more =
    let (rest, e) = process_inclusion-Extends bars more in
    let ends =
      EndsAt-Within (length bars) (process_inclusion bars) (process_inclusion-EndsAt bars) in
    rw
      (
        confirmed-find_fractals bars,
        confirmed-find_fractals (bars ++ more),
        ← e,
        ← fractals_from-append 1 (drop_last (process_inclusion bars)) bars more ends,
      )
      (fractals_from-Extends 1 (drop_last (process_inclusion bars)) rest (bars ++ more))
