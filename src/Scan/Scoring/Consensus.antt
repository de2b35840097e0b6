-- ===== src/Scan/Scoring/Consensus.antt =====
-- Which codes the consensus names, and with which ranks and scores.
use mathlib.Core.List.{Mem, mem-cons_self, mem-cons_of_mem}
use stock_daily_report.Prelude.{
  ◌≡◌, refl, sym, ap, subst, Bool, true, false, ◌&&◌, ◌||◌, List, [], ◌∷◌, none, some, inl, inr,
  arith, Bool-cases, Option-cases, All, cons?,
}
use stock_daily_report.Texts.{Text, same_text, same_text→≡}
use stock_daily_report.Scan.Scoring.Ranking.{
  RankingRecord, ConsensusRecord, record_for, consensus_record, consensus,
}

-- Whether a ranking has a record of the code.
unfoldable pub is_ranked : Text → List RankingRecord → Bool
is_ranked code [] = false
is_ranked code (r ∷ records) = same_text code r.code || is_ranked code records

unfoldable pub is_agreed : Text → List ConsensusRecord → Bool
is_agreed code [] = false
is_agreed code (r ∷ records) = same_text code r.code || is_agreed code records

-- A record of both rankings.
pub record IsAgreed (trend balanced : List RankingRecord) (c : ConsensusRecord) : Type 0 where
  pub in_trend : RankingRecord
  pub in_balanced : RankingRecord
  pub trend_member : Mem in_trend trend
  pub balanced_member : Mem in_balanced balanced
  pub trend_code : in_trend.code ≡ c.code
  pub balanced_code : in_balanced.code ≡ c.code
  pub trend_rank : c.trend_rank ≡ in_trend.rank
  pub balanced_rank : c.balanced_rank ≡ in_balanced.rank
  pub trend_score : c.trend_score ≡ in_trend.score
  pub balanced_score : c.balanced_score ≡ in_balanced.score

record_for-none :
    (code : Text) (records : List RankingRecord)
    → record_for code records ≡ none
    → is_ranked code records ≡ false
unfolding record_for is_ranked
record_for-none code [] h = refl
record_for-none code (r ∷ records) h = elim (Option-cases (record_for code records)) [
  | inl e ↦ ground (arith, h, e, record_for-none code records e)
  | inr (later, e) ↦ absurd (ground (arith, h, e))
]

record_for-some :
    (code : Text) (records : List RankingRecord) (b : RankingRecord)
    → record_for code records ≡ some b
    → Mem b records × (b.code ≡ code) × (is_ranked code records ≡ true)
unfolding record_for is_ranked
record_for-some code [] b h = absurd (ground (arith, h))
record_for-some code (r ∷ records) b h = elim (Option-cases (record_for code records)) [
  | inr (later, e) ↦
      let same : later ≡ b = ground (arith, h, e) in
      let (member, of_code, found) = record_for-some code records later e in
      subst (λ x. Mem x (r ∷ records) × (x.code ≡ code) × (is_ranked code (r ∷ records) ≡ true))
        same (mem-cons_of_mem r member, of_code, ground (arith, found))
  | inl e ↦ elim (Bool-cases (same_text code r.code)) [
    | inr other ↦ absurd (ground (arith, h, e, other))
    | inl here ↦
        let same : r ≡ b = ground (arith, h, e, here) in
        subst (λ x. Mem x (r ∷ records) × (x.code ≡ code) × (is_ranked code (r ∷ records) ≡ true))
          same (mem-cons_self, sym (same_text→≡ code r.code here), ground (arith, here))
  ]
]

abbrev agreed : RankingRecord → RankingRecord → ConsensusRecord
agreed t b = record {
  code = t.code;
  trend_rank = t.rank;
  balanced_rank = b.rank;
  trend_score = t.score;
  balanced_score = b.score;
}

consensus-some :
    (t b : RankingRecord) (trend balanced : List RankingRecord)
    → record_for t.code balanced ≡ some b
    → consensus (t ∷ trend) balanced ≡ agreed t b ∷ consensus trend balanced
unfolding consensus
consensus-some t b trend balanced e =
    ap (λ o. cons? (consensus_record t o) (consensus trend balanced)) e

consensus-none :
    (t : RankingRecord) (trend balanced : List RankingRecord)
    → record_for t.code balanced ≡ none
    → consensus (t ∷ trend) balanced ≡ consensus trend balanced
unfolding consensus
consensus-none t trend balanced e =
    ap (λ o. cons? (consensus_record t o) (consensus trend balanced)) e

ranked-same :
    (c code : Text) (records : List RankingRecord) (b : Bool)
    → c ≡ code
    → is_ranked code records ≡ b
    → is_ranked c records ≡ b
ranked-same c code records b e h = subst (λ x. is_ranked x records ≡ b) (sym e) h

is_agreed-consensus :
    (c : Text) (trend balanced : List RankingRecord)
    → is_agreed c (consensus trend balanced) ≡ (is_ranked c trend && is_ranked c balanced)
unfolding is_agreed is_ranked consensus
is_agreed-consensus c [] balanced = refl
is_agreed-consensus c (t ∷ trend) balanced =
    let rest = is_agreed-consensus c trend balanced in
    elim (Option-cases (record_for t.code balanced)) [
      | inl e ↦
          let missing = record_for-none t.code balanced e in
          rw (consensus-none t trend balanced e) (elim (Bool-cases (same_text c t.code)) [
            | inr other ↦ ground (arith, rest, other)
            | inl here ↦ ground (
              arith,
              rest,
              ranked-same c t.code balanced false (same_text→≡ c t.code here) missing,
            )
          ])
      | inr (b, e) ↦
          let found = (record_for-some t.code balanced b e).2 in
          rw (consensus-some t b trend balanced e) (elim (Bool-cases (same_text c t.code)) [
            | inr other ↦ ground (arith, rest, other)
            | inl here ↦
                ground (
                  arith,
                  here,
                  ranked-same c t.code balanced true (same_text→≡ c t.code here) found,
                )
          ])
    ]

consensus-All :
    (all trend balanced : List RankingRecord)
    → ((t : RankingRecord) → Mem t trend → Mem t all)
    → All (IsAgreed all balanced) (consensus trend balanced)
unfolding consensus
consensus-All all [] balanced h = tt
consensus-All all (t ∷ trend) balanced h =
    let rest = consensus-All all trend balanced (λ u m. h u (mem-cons_of_mem t m)) in
    elim (Option-cases (record_for t.code balanced)) [
      | inl e ↦ rw (consensus-none t trend balanced e) rest
      | inr (b, e) ↦
          let (member, of_code, _) = record_for-some t.code balanced b e in
          rw (consensus-some t b trend balanced e) (
            record {
              in_trend = t;
              in_balanced = b;
              trend_member = h t mem-cons_self;
              balanced_member = member;
              trend_code = refl;
              balanced_code = of_code;
              trend_rank = refl;
              balanced_rank = refl;
              trend_score = refl;
              balanced_score = refl;
            },
            rest,
          )
    ]

-- The consensus has a record for exactly the codes that both rankings name, and each record carries the
-- rank and the score of its code in either ranking.
pub consensus_lem :
    (trend balanced : List RankingRecord)
    → ((c : Text)
        → is_agreed c (consensus trend balanced) ≡ (is_ranked c trend && is_ranked c balanced))
      × All (IsAgreed trend balanced) (consensus trend balanced)
consensus_lem trend balanced =
    (λ c. is_agreed-consensus c trend balanced, consensus-All trend trend balanced (λ t m. m))
