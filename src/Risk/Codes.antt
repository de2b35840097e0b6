-- ===== src/Risk/Codes.antt =====
-- Which risk codes and flags an assessment ends with.
use stock_daily_report.Prelude.{
  ◌≡◌, refl, Bool, true, false, ◌||◌, List, [], ◌∷◌, ◌++◌, arith, ◌==◌,
}
use stock_daily_report.Floats.{Float}
use stock_daily_report.Metrics.{TechnicalMetrics}
use stock_daily_report.Chan.Common.{StructureState}
use stock_daily_report.Quality.{IssueCode}
use stock_daily_report.Risk.{
  RiskCode, code_number, Quality, RiskRulesSettings, has, add_risk, Assessment, issue_risk,
  issue_risks, quality_rule, is_volatile, has_drawdown, is_overextended, has_adverse_volume,
  is_incomplete, risk_if, market_rules, incomplete_structure, adverse_volume_behavior,
  overextended_from_ma20, large_drawdown60, high_realized_volatility20,
}

has-append :
    (c d : RiskCode) (xs : List RiskCode)
    → has c (xs ++ (d ∷ [])) ≡ (has c xs || (code_number c == code_number d))
unfolding has
has-append c d [] = ground arith
has-append c d (x ∷ xs) = ground (arith, has-append c d xs)

-- Numbers tell codes apart, so a code that has the number of a listed one is listed.
has-same :
    (c d : RiskCode) (xs : List RiskCode)
    → (code_number c == code_number d) ≡ true
    → has d xs ≡ has c xs
unfolding has
has-same c d [] e = refl
has-same c d (x ∷ xs) e = ground (arith, has-same c d xs e)

pub has-add_risk :
    (c d : RiskCode) (xs : List RiskCode)
    → has c (add_risk d xs) ≡ ((code_number c == code_number d) || has c xs)
unfolding add_risk
has-add_risk c d xs = ground (arith, has-append c d xs, has-same c d xs)

keeps :
    (c : RiskCode) (b : Bool) (d : RiskCode) (a : Assessment)
    → has c a.risk_codes ≡ true
    → has c (risk_if b d a).risk_codes ≡ true
keeps c true d a h = ground (arith, has-add_risk c d a.risk_codes)
keeps c false d a h = h

adds :
    (b : Bool) (d : RiskCode) (a : Assessment) → b ≡ true → has d (risk_if b d a).risk_codes ≡ true
adds true d a h = ground (arith, has-add_risk d d a.risk_codes)
adds false d a h = cc

keeps_flags :
    (b : Bool) (d : RiskCode) (a : Assessment)
    → ((risk_if b d a).hard_data_failure ≡ a.hard_data_failure)
      × ((risk_if b d a).insufficient_data ≡ a.insufficient_data)
keeps_flags true d a = (refl, refl)
keeps_flags false d a = (refl, refl)

module _ (distance : Float → Float → Float) (m : TechnicalMetrics) (state : StructureState)
    (rules : RiskRulesSettings) (a : Assessment) where
  abbrev after1 : Assessment
  after1 = risk_if (is_volatile m rules) high_realized_volatility20 a

  abbrev after2 : Assessment
  after2 = risk_if (has_drawdown m rules) large_drawdown60 after1

  abbrev after3 : Assessment
  after3 = risk_if (is_overextended distance m rules) overextended_from_ma20 after2

  abbrev after4 : Assessment
  after4 = risk_if (has_adverse_volume m rules) adverse_volume_behavior after3

  -- Each market rule that fires leaves its code in the result, and the flags stay.
  pub market_rules-volatile :
      is_volatile m rules ≡ true
      → has high_realized_volatility20 (market_rules distance m state rules a).risk_codes ≡ true
  unfolding market_rules
  market_rules-volatile h =
      keeps _ _ _ after4
        (keeps _ _ _ after3 (keeps _ _ _ after2 (keeps _ _ _ after1 (adds _ _ a h))))

  pub market_rules-drawdown :
      has_drawdown m rules ≡ true
      → has large_drawdown60 (market_rules distance m state rules a).risk_codes ≡ true
  unfolding market_rules
  market_rules-drawdown h =
      keeps _ _ _ after4 (keeps _ _ _ after3 (keeps _ _ _ after2 (adds _ _ after1 h)))

  pub market_rules-overextended :
      is_overextended distance m rules ≡ true
      → has overextended_from_ma20 (market_rules distance m state rules a).risk_codes ≡ true
  unfolding market_rules
  market_rules-overextended h = keeps _ _ _ after4 (keeps _ _ _ after3 (adds _ _ after2 h))

  pub market_rules-volume :
      has_adverse_volume m rules ≡ true
      → has adverse_volume_behavior (market_rules distance m state rules a).risk_codes ≡ true
  unfolding market_rules
  market_rules-volume h = keeps _ _ _ after4 (adds _ _ after3 h)

  pub market_rules-incomplete :
      is_incomplete state ≡ true
      → has incomplete_structure (market_rules distance m state rules a).risk_codes ≡ true
  unfolding market_rules
  market_rules-incomplete h = adds _ _ after4 h

  pub market_rules-flags :
      ((market_rules distance m state rules a).hard_data_failure ≡ a.hard_data_failure)
      × ((market_rules distance m state rules a).insufficient_data ≡ a.insufficient_data)
  unfolding market_rules
  market_rules-flags = ground (
    arith,
    keeps_flags (is_incomplete state) incomplete_structure after4,
    keeps_flags (has_adverse_volume m rules) adverse_volume_behavior after3,
    keeps_flags (is_overextended distance m rules) overextended_from_ma20 after2,
    keeps_flags (has_drawdown m rules) large_drawdown60 after1,
    keeps_flags (is_volatile m rules) high_realized_volatility20 a,
  )

-- A failure is reported.
abbrev pub fails : Assessment → Bool
fails a = a.hard_data_failure || a.insufficient_data

issue_risk-fails : (i : IssueCode) (a : Assessment) → fails (issue_risk i a) ≡ true
issue_risk-fails i a = ground arith

issue_risk-keeps : (i : IssueCode) (a : Assessment) → fails a ≡ true → fails (issue_risk i a) ≡ true
issue_risk-keeps i a h = ground arith

issue_risks-keeps :
    (is : List IssueCode) (a : Assessment) → fails a ≡ true → fails (issue_risks is a) ≡ true
unfolding issue_risks
issue_risks-keeps [] a h = h
issue_risks-keeps (i ∷ is) a h = issue_risks-keeps is (issue_risk i a) (issue_risk-keeps i a h)

issue_risks-fails :
    (i : IssueCode) (is : List IssueCode) (a : Assessment) → fails (issue_risks (i ∷ is) a) ≡ true
unfolding issue_risks
issue_risks-fails i is a = issue_risks-keeps is (issue_risk i a) (issue_risk-fails i a)

-- Bad data quality always ends in one of the two flags.
pub quality_rule-fails :
    (q : Quality) (a : Assessment)
    → fails (quality_rule q a) ≡ false
    → (q.analysis_allowed ≡ true) × (q.issue_codes ≡ [])
unfolding quality_rule
quality_rule-fails q a h = go q.issue_codes refl
  where
    go :
        (is : List IssueCode)
        → q.issue_codes ≡ is
        → (q.analysis_allowed ≡ true) × (q.issue_codes ≡ [])
    go [] e = (ground (arith, e, h), e)
    go (i ∷ is) e = absurd (ground (arith, e, h, issue_risks-fails i is a))
