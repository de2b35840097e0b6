-- ===== src/Scan/Scoring/Ranking.antt =====
-- src/stock_daily_report/market_scan/: `rank_scores`, `_ranking_records` and `_consensus`, and the
-- validator of the rankings in models.py. The names, dates and providers that a record takes over
-- from the candidate's result are left out. `sorted` is stable: an insertion sort from the right.
use stock_daily_report.Prelude.{
  ℕ, suc, Bool, true, false, not, ◌&&◌, ◌||◌, List, [], ◌∷◌, Option, none, some, ltb, ◌==◌,
  if◌then◌else◌, take, cons?,
}
use stock_daily_report.Texts.{Text, same_text}
use stock_daily_report.Floats.{Float, float_lt}
use stock_daily_report.Scan.Scoring.{Evidence, ScoreRisk}
use stock_daily_report.Scan.Scoring.Candidate.{
  Profile, trend_profile, balanced_profile, ScoreComponents, ProfileScore,
}

-- `a < b` for two strings
unfoldable pub text_lt : Text → Text → Bool
text_lt _ [] = false
text_lt [] (d ∷ ds) = true
text_lt (c ∷ cs) (d ∷ ds) = ltb c d || ((c == d) && text_lt cs ds)

-- The key `(-score.total, score.code)` of `a` is less than that of `b`; no total is NaN.
unfoldable pub precedes : ProfileScore → ProfileScore → Bool
precedes a b = float_lt b.total a.total || (not (float_lt a.total b.total) && text_lt a.code b.code)

unfoldable pub insert_score : ProfileScore → List ProfileScore → List ProfileScore
insert_score x [] = x ∷ []
insert_score x (y ∷ ys) = elim (precedes y x) [ true ↦ y ∷ insert_score x ys | false ↦ x ∷ y ∷ ys ]

unfoldable pub rank_scores : List ProfileScore → List ProfileScore
rank_scores [] = []
rank_scores (x ∷ xs) = insert_score x (rank_scores xs)

pub record RankingRecord : Type 0 where
  pub code : Text
  pub profile : Profile
  pub rank : ℕ
  pub score : Float
  pub components : ScoreComponents
  pub evidence_codes : List Evidence
  pub risk_codes : List ScoreRisk

abbrev pub ranking_record : ℕ → ProfileScore → RankingRecord
ranking_record rank s = record {
  code = s.code;
  profile = s.profile;
  rank = rank;
  score = s.total;
  components = s.components;
  evidence_codes = s.evidence_codes;
  risk_codes = s.risk_codes;
}

-- `enumerate(scores, start=rank)`
unfoldable pub records_from : ℕ → List ProfileScore → List RankingRecord
records_from rank [] = []
records_from rank (s ∷ scores) = ranking_record rank s ∷ records_from (suc rank) scores

-- `_ranking_records`
unfoldable pub ranking_records : List ProfileScore → ℕ → List RankingRecord
ranking_records scores limit = records_from 1 (take limit scores)

-- The ranking of a profile in `scan_market`: `min(settings.trend_limit, 30)` is the limit.
unfoldable pub ranking : List ProfileScore → ℕ → List RankingRecord
ranking scores limit = ranking_records (rank_scores scores) (if ltb 30 limit then 30 else limit)

pub record ConsensusRecord : Type 0 where
  pub code : Text
  pub trend_rank : ℕ
  pub balanced_rank : ℕ
  pub trend_score : Float
  pub balanced_score : Float

-- `{record.code: record for record in records}[code]`: the last one of the code.
unfoldable pub record_for : Text → List RankingRecord → Option RankingRecord
record_for code [] = none
record_for code (r ∷ records) = elim (record_for code records) [
  | some later ↦ some later
  | none ↦ if same_text code r.code then some r else none
]

abbrev pub consensus_record : RankingRecord → Option RankingRecord → Option ConsensusRecord
consensus_record t none = none
consensus_record t (some b) = some (record {
  code = t.code;
  trend_rank = t.rank;
  balanced_rank = b.rank;
  trend_score = t.score;
  balanced_score = b.score;
})

-- `_consensus`
unfoldable pub consensus : List RankingRecord → List RankingRecord → List ConsensusRecord
consensus [] balanced = []
consensus (t ∷ trend) balanced =
    cons? (consensus_record t (record_for t.code balanced)) (consensus trend balanced)

abbrev pub same_profile : Profile → Profile → Bool
same_profile trend_profile trend_profile = true
same_profile balanced_profile balanced_profile = true
same_profile _ _ = false

-- The checks of `ProfileRankings.validate_rankings` on the profiles and the ranks of one ranking. The
-- uniqueness of the codes is left out.
unfoldable pub has_ranks_from : Profile → ℕ → List RankingRecord → Bool
has_ranks_from profile rank [] = true
has_ranks_from profile rank (r ∷ records) =
    (same_profile r.profile profile && (r.rank == rank))
    && has_ranks_from profile (suc rank) records
