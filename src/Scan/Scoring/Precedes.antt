-- ===== src/Scan/Scoring/Precedes.antt =====
-- The order of the key of `rank_scores` in src/stock_daily_report/market_scan/scoring.py.
use stock_daily_report.Prelude.{◌≡◌, refl, true, false, [], ◌∷◌, inl, inr, arith, Bool-cases}
use stock_daily_report.Texts.{Text}
use stock_daily_report.Floats.{Float, nan, infinite, neg_infinite, fin, neg, float_lt}
use stock_daily_report.Scan.Scoring.Candidate.{ProfileScore}
use stock_daily_report.Scan.Scoring.Ranking.{text_lt, precedes}

text_lt-asym : (a b : Text) → text_lt a b ≡ true → text_lt b a ≡ false
unfolding text_lt
text_lt-asym [] [] h = refl
text_lt-asym [] (d ∷ ds) h = refl
text_lt-asym (c ∷ cs) [] h = absurd (ground (arith, h))
text_lt-asym (c ∷ cs) (d ∷ ds) h = elim (Bool-cases (text_lt cs ds)) [
  | inl e ↦ ground (arith, h, e, text_lt-asym cs ds e)
  | inr e ↦ ground (arith, h, e)
]

after_lowest : (b : Float) → float_lt neg_infinite b ≡ true → float_lt b neg_infinite ≡ false
unfolding float_lt
after_lowest nan h = refl
after_lowest infinite h = refl
after_lowest neg_infinite h = refl
after_lowest (fin n) h = refl
after_lowest (neg n) h = refl

float_lt-asym : (a b : Float) → float_lt a b ≡ true → float_lt b a ≡ false
unfolding float_lt
float_lt-asym nan b h = absurd (ground (arith, h))
float_lt-asym infinite b h = absurd (ground (arith, h))
float_lt-asym neg_infinite b h = after_lowest b h
float_lt-asym (fin m) nan h = absurd (ground (arith, h))
float_lt-asym (fin m) infinite h = refl
float_lt-asym (fin m) neg_infinite h = absurd (ground (arith, h))
float_lt-asym (fin m) (fin n) h = ground (arith, h)
float_lt-asym (fin m) (neg n) h = absurd (ground (arith, h))
float_lt-asym (neg m) nan h = absurd (ground (arith, h))
float_lt-asym (neg m) infinite h = refl
float_lt-asym (neg m) neg_infinite h = absurd (ground (arith, h))
float_lt-asym (neg m) (fin n) h = refl
float_lt-asym (neg m) (neg n) h = ground (arith, h)

pub precedes-asym : (a b : ProfileScore) → precedes a b ≡ true → precedes b a ≡ false
unfolding precedes
precedes-asym a b h = elim (Bool-cases (float_lt b.total a.total)) [
  | inl e ↦ ground (arith, e, float_lt-asym b.total a.total e)
  | inr e ↦ elim (Bool-cases (text_lt a.code b.code)) [
    | inl e' ↦ ground (arith, h, e, e', text_lt-asym a.code b.code e')
    | inr e' ↦ absurd (ground (arith, h, e, e'))
  ]
]

-- `a` may stand before `b`: its total is not less, and if neither total is less than the other, its code
-- is not after the other one.
pub record StandsBefore (a b : ProfileScore) : Type 0 where
  pub descends : float_lt a.total b.total ≡ false
  pub ties : float_lt b.total a.total ≡ false → text_lt b.code a.code ≡ false

pub precedes-StandsBefore : (a b : ProfileScore) → precedes b a ≡ false → StandsBefore a b
unfolding precedes
precedes-StandsBefore a b h = record {
  descends = ground (arith, h);
  ties = λ e. ground (arith, h, e);
}
