-- ===== src/Scan/Scoring/Bounds.antt =====
-- The bounds of the scores, and the codes that come with them.
use stock_daily_report.Prelude.{
  ℕ, ltb, ◌≡◌, refl, Bool, true, false, not, ◌&&◌, ◌||◌, List, [], ◌∷◌, ◌++◌, inl, inr, arith,
  Bool-cases, ◌==◌,
}
use stock_daily_report.Texts.{Text}
use stock_daily_report.Floats.{Float, nan, infinite, neg_infinite, fin, neg, float_lt, float_le}
use stock_daily_report.Metrics.{TechnicalMetrics}
use stock_daily_report.Chan.Common.{SimplifiedChanResult}
use stock_daily_report.Scan.Scoring.{
  FloatArithmetic, bounded, hundred, has_number, from_keys, stable_codes, evidence_number,
  risk_number,
}
use stock_daily_report.Scan.Scoring.Candidate.{
  ProfileScore, profile_score, components_of, common_evidence, score_candidate,
}

-- A float from 0.0 to 100.0.
pub record IsScore (x : Float) : Type 0 where
  pub at_least : float_le (fin 0) x ≡ true
  pub at_most : float_le x hundred ≡ true

pub bounded-IsScore : (x : Float) → IsScore (bounded x)
unfolding bounded float_lt float_le
bounded-IsScore nan = record { at_least = refl; at_most = refl }
bounded-IsScore infinite = record { at_least = refl; at_most = refl }
bounded-IsScore neg_infinite = record { at_least = refl; at_most = refl }
bounded-IsScore (neg n) = record { at_least = refl; at_most = refl }
bounded-IsScore (fin n) = elim (Bool-cases (ltb 4636737291354636288 n)) [
  | inl e ↦ record { at_least = ground (arith, e); at_most = ground (arith, e) }
  | inr e ↦ record { at_least = ground (arith, e); at_most = ground (arith, e) }
]

module _ {A : Type 0} (number : A → ℕ) where
  -- No code stands twice.
  unfoldable pub is_distinct : List A → Bool
  is_distinct [] = true
  is_distinct (a ∷ xs) = not (has_number number (number a) xs) && is_distinct xs

  has_number-append :
      (n : ℕ) (keys : List A) (a : A)
      → has_number number n (keys ++ (a ∷ [])) ≡ (has_number number n keys || (n == number a))
  unfolding has_number
  has_number-append n [] a = ground arith
  has_number-append n (k ∷ keys) a = ground (arith, has_number-append n keys a)

  append-is_distinct :
      (keys : List A) (a : A)
      → is_distinct keys ≡ true
      → has_number number (number a) keys ≡ false
      → is_distinct (keys ++ (a ∷ [])) ≡ true
  unfolding is_distinct has_number
  append-is_distinct [] a h e = refl
  append-is_distinct (k ∷ keys) a h e = ground (
    arith,
    h,
    e,
    has_number-append (number k) keys a,
    append-is_distinct keys a (ground (arith, h)) (ground (arith, e)),
  )

  from_keys-is_distinct :
      (xs keys : List A) → is_distinct keys ≡ true → is_distinct (from_keys number keys xs) ≡ true
  unfolding from_keys
  from_keys-is_distinct [] keys h = h
  from_keys-is_distinct (a ∷ xs) keys h = elim (Bool-cases (has_number number (number a) keys)) [
    | inl e ↦ rw e (from_keys-is_distinct xs keys h)
    | inr e ↦ rw e (from_keys-is_distinct xs (keys ++ (a ∷ [])) (append-is_distinct keys a h e))
  ]

  pub stable_codes-is_distinct : (xs : List A) → is_distinct (stable_codes number xs) ≡ true
  unfolding is_distinct
  stable_codes-is_distinct xs = from_keys-is_distinct xs [] refl

-- The total and the five components of a profile's score are from 0.0 to 100.0.
pub record IsBounded (s : ProfileScore) : Type 0 where
  pub total : IsScore s.total
  pub trend : IsScore s.components.trend
  pub momentum : IsScore s.components.momentum
  pub volume : IsScore s.components.volume
  pub structure : IsScore s.components.structure
  pub risk : IsScore s.components.risk

module _ (f : FloatArithmetic) (code : Text) (m : TechnicalMetrics) (r : SimplifiedChanResult) where
  -- Whatever the arithmetic on floats answers, infinities and NaN included, the totals and all the
  -- components of both profiles are from 0.0 to 100.0.
  pub score_candidate-IsBounded :
      IsBounded (score_candidate f code m r).trend × IsBounded (score_candidate f code m r).balanced
  unfolding score_candidate profile_score components_of
  score_candidate-IsBounded = (
    record {
      total = bounded-IsScore _;
      trend = bounded-IsScore _;
      momentum = bounded-IsScore _;
      volume = bounded-IsScore _;
      structure = bounded-IsScore _;
      risk = bounded-IsScore _;
    },
    record {
      total = bounded-IsScore _;
      trend = bounded-IsScore _;
      momentum = bounded-IsScore _;
      volume = bounded-IsScore _;
      structure = bounded-IsScore _;
      risk = bounded-IsScore _;
    },
  )

  -- Both profiles share their risk codes, no risk code and no evidence code stands twice.
  pub score_candidate-is_distinct :
      let s = score_candidate f code m r in
      (s.trend.risk_codes ≡ s.balanced.risk_codes)
      × (is_distinct risk_number s.trend.risk_codes ≡ true)
      × (is_distinct evidence_number s.trend.evidence_codes ≡ true)
      × (is_distinct evidence_number s.balanced.evidence_codes ≡ true)
  unfolding score_candidate profile_score common_evidence
  score_candidate-is_distinct = (
    refl,
    stable_codes-is_distinct risk_number _,
    stable_codes-is_distinct evidence_number _,
    stable_codes-is_distinct evidence_number _,
  )
