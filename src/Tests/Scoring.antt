-- ===== src/Tests/Scoring.antt =====
-- Scores and rankings of src/stock_daily_report/market_scan/ at small inputs.
use mathlib.Core.List.{Perm}
use stock_daily_report.Prelude.{
  Chain, ℕ, ◌≤◌, ◌≡◌, ◌&&◌, refl, true, All, List, [], ◌∷◌, none, some, min, length,
}
use stock_daily_report.Texts.{Text, same_text}
use stock_daily_report.Scan.Scoring.Consensus.{is_ranked, is_agreed, IsAgreed, consensus_lem}
use stock_daily_report.Floats.{fin, nan, infinite, float_lt}
use stock_daily_report.Metrics.{TechnicalMetrics}
use stock_daily_report.Chan.Common.{SimplifiedChanResult, not_enough_data, candidate}
use stock_daily_report.Scan.Scoring.{FloatArithmetic}
use stock_daily_report.Scan.Scoring.Candidate.{ProfileScore, trend_profile, score_candidate}
use stock_daily_report.Scan.Scoring.Bounds.{IsBounded, score_candidate-IsBounded}
use stock_daily_report.Scan.Scoring.Ranking.{
  RankingRecord, consensus, record_for, ranking_records, records_from, rank_scores, ranking,
  has_ranks_from, precedes, insert_score, text_lt,
}
use stock_daily_report.Scan.Scoring.Precedes.{StandsBefore}
use stock_daily_report.Scan.Scoring.Ranks.{IsDescending, rank_scores_lem, ranking_lem}

abbrev pub score_of : ℕ → ℕ → ProfileScore
score_of code total = record {
  code = code ∷ [];
  profile = trend_profile;
  as_of = none;
  total = fin total;
  components = record {
    trend = fin 0;
    momentum = fin 0;
    volume = fin 0;
    structure = fin 0;
    risk = fin 0;
  };
  evidence_codes = [];
  risk_codes = [];
}

abbrev scores : List ProfileScore
scores = score_of 1 5 ∷ score_of 3 8 ∷ score_of 2 8 ∷ []

scores-ranked : rank_scores scores ≡ score_of 2 8 ∷ score_of 3 8 ∷ score_of 1 5 ∷ []
unfolding rank_scores insert_score precedes text_lt float_lt
scores-ranked = refl

rank_scores_lem_example : Perm (rank_scores scores) scores × Chain StandsBefore (rank_scores scores)
rank_scores_lem_example = rank_scores_lem scores

ranking_lem_example :
    (has_ranks_from trend_profile 1 (ranking scores 2) ≡ true)
    × (length (ranking scores 2) ≤ min 2 30)
    × IsDescending (ranking scores 2)
ranking_lem_example = ranking_lem trend_profile scores 2 (refl, (refl, (refl, tt)))

-- An arithmetic that overflows at every turn.
abbrev overflowing : FloatArithmetic
overflowing = record {
  add = λ a b. infinite;
  sub = λ a b. infinite;
  times = λ a b. nan;
  over = λ a b. infinite;
  fsum = λ xs. nan;
  of_count = λ n. fin n;
}

abbrev metrics : TechnicalMetrics
metrics = record {
  as_of = some 9;
  bar_count = 120;
  close = some (fin 30);
  ma5 = none;
  ma10 = none;
  ma20 = some (fin 20);
  ma60 = some (fin 10);
  ma120 = none;
  macd_line = none;
  macd_signal = none;
  macd_histogram = none;
  rsi14 = none;
  return20 = some (fin 7);
  return60 = none;
  return120 = none;
  realized_volatility20 = none;
  drawdown60 = none;
  volume_ratio20 = some (fin 9);
  recent_high20 = none;
  recent_low20 = none;
  ma20_slope5 = some (fin 4);
  ma60_slope5 = none;
}

abbrev structure : SimplifiedChanResult
structure = record {
  processed_bars = [];
  fractals = [];
  strokes = [];
  central_candidates = [];
  central_areas = [];
  support_resistance = [];
  observations = [];
  state = record {
    label = not_enough_data;
    formed_at = none;
    confirmed_at = none;
    tradable_at = none;
    status = candidate;
  };
}

score_candidate-IsBounded_example :
    IsBounded (score_candidate overflowing (1 ∷ []) metrics structure).trend
    × IsBounded (score_candidate overflowing (1 ∷ []) metrics structure).balanced
score_candidate-IsBounded_example = score_candidate-IsBounded overflowing (1 ∷ []) metrics structure

abbrev trend_ranking : List RankingRecord
trend_ranking = ranking scores 3

abbrev balanced_ranking : List RankingRecord
balanced_ranking = ranking (score_of 3 7 ∷ score_of 4 9 ∷ []) 3

consensus-run :
    consensus trend_ranking balanced_ranking
    ≡ record {
      code = 3 ∷ [];
      trend_rank = 2;
      balanced_rank = 2;
      trend_score = fin 8;
      balanced_score = fin 7;
    }
      ∷ []
unfolding consensus record_for ranking ranking_records records_from rank_scores insert_score
    precedes text_lt float_lt same_text
consensus-run = refl

consensus_lem_example :
    ((c : Text)
      → is_agreed c (consensus trend_ranking balanced_ranking)
        ≡ (is_ranked c trend_ranking && is_ranked c balanced_ranking))
    × All (IsAgreed trend_ranking balanced_ranking) (consensus trend_ranking balanced_ranking)
consensus_lem_example = consensus_lem trend_ranking balanced_ranking
