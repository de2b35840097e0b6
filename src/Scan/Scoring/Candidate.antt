-- ===== src/Scan/Scoring/Candidate.antt =====
-- src/stock_daily_report/market_scan/scoring.py: `score_candidate` of a code that is not blank, from
-- the technical metrics and the structural result of the bars selected.
use stock_daily_report.Prelude.{List, [], ◌∷◌, ◌++◌, Option}
use stock_daily_report.Texts.{Text}
use stock_daily_report.Bars.{Date}
use stock_daily_report.Floats.{Float, fin}
use stock_daily_report.Metrics.{TechnicalMetrics}
use stock_daily_report.Chan.Common.{SimplifiedChanResult}
use stock_daily_report.Scan.Scoring.{
  FloatArithmetic, Evidence, ScoreRisk, bounded, stable_codes, evidence_number, risk_number,
}
use stock_daily_report.Scan.Scoring.Components.{
  score_trend, score_momentum, score_volume, score_structure, score_risk,
}

pub data Profile : Type 0 where
  trend_profile balanced_profile : Profile

pub record ScoreComponents : Type 0 where
  pub trend : Float
  pub momentum : Float
  pub volume : Float
  pub structure : Float
  pub risk : Float

pub record ProfileScore : Type 0 where
  pub code : Text
  pub profile : Profile
  pub as_of : Option Date
  pub total : Float
  pub components : ScoreComponents
  pub evidence_codes : List Evidence
  pub risk_codes : List ScoreRisk

pub record CandidateScores : Type 0 where
  pub trend : ProfileScore
  pub balanced : ProfileScore

module _ (f : FloatArithmetic) where
  -- The components times `TREND_WEIGHTS` or `BALANCED_WEIGHTS`.
  unfoldable pub weighted : Profile → ScoreComponents → List Float
  weighted trend_profile c =
      f.times c.trend (fin 4601778099247172813)
      ∷ f.times c.momentum (fin 4599075939470750515)
      ∷ f.times c.volume (fin 4594572339843380019)
      ∷ f.times c.risk (fin 4591870180066957722)
      ∷ []
  weighted balanced_profile c =
      f.times c.trend (fin 4599075939470750515)
      ∷ f.times c.momentum (fin 4596373779694328218)
      ∷ f.times c.volume (fin 4594572339843380019)
      ∷ f.times c.structure (fin 4596373779694328218)
      ∷ f.times c.risk (fin 4594572339843380019)
      ∷ []

  -- `_profile_score`
  unfoldable pub profile_score :
      Text → Profile → Option Date → ScoreComponents → List Evidence → List ScoreRisk → ProfileScore
  profile_score code profile as_of c evidence_codes risk_codes = record {
    code = code;
    profile = profile;
    as_of = as_of;
    total = bounded (f.fsum (weighted profile c));
    components = c;
    evidence_codes = evidence_codes;
    risk_codes = risk_codes;
  }

  unfoldable pub components_of : TechnicalMetrics → SimplifiedChanResult → ScoreComponents
  components_of m r = record {
    trend = bounded (score_trend f m).score;
    momentum = bounded (score_momentum f m).score;
    volume = bounded (score_volume f m).score;
    structure = bounded (score_structure f r).score;
    risk = bounded (score_risk f m).score;
  }

  abbrev pub unless_risks : List ScoreRisk → List Evidence → List Evidence
  unless_risks [] evidence = evidence
  unless_risks (_ ∷ _) evidence = []

  abbrev pub risks_of : TechnicalMetrics → List ScoreRisk
  risks_of m =
      stable_codes risk_number ((score_momentum f m).risk_codes ++ (score_risk f m).risk_codes)

  unfoldable pub common_evidence : TechnicalMetrics → List Evidence
  common_evidence m = stable_codes evidence_number (
      (score_trend f m).evidence_codes
      ++ ((score_momentum f m).evidence_codes
          ++ ((score_volume f m).evidence_codes
              ++ unless_risks (risks_of m) (score_risk f m).evidence_codes)))

  unfoldable pub score_candidate : Text → TechnicalMetrics → SimplifiedChanResult → CandidateScores
  score_candidate code m r =
      let c = components_of m r in
      record {
        trend = profile_score code trend_profile m.as_of c (common_evidence m) (risks_of m);
        balanced =
            profile_score code balanced_profile m.as_of c
              (stable_codes evidence_number
                (common_evidence m ++ (score_structure f r).evidence_codes))
              (risks_of m);
      }
