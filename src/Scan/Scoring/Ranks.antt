-- ===== src/Scan/Scoring/Ranks.antt =====
-- The order of the ranking, and the ranks of its records.
use mathlib.Core.List.{Perm}
use mathlib.Core.List.Perm
use stock_daily_report.Prelude.{
  ℕ, suc, zero, ◌≤◌, ◌≡◌, refl, ap, subst, true, false, List, [], ◌∷◌, inl, inr, arith, Bool-cases,
  ltb, Chain, All, min, if◌then◌else◌, length, take,
}
use stock_daily_report.Floats.{float_lt}
use stock_daily_report.Scan.Scoring.Candidate.{ProfileScore, Profile}
use stock_daily_report.Scan.Scoring.Ranking.{
  precedes, insert_score, rank_scores, RankingRecord, records_from, ranking_records, ranking,
  has_ranks_from, same_profile,
}
use stock_daily_report.Scan.Scoring.Precedes.{precedes-asym, StandsBefore, precedes-StandsBefore}

-- No score's key is less than that of the score before it.
abbrev IsRanked : List ProfileScore → Type 0
IsRanked scores = Chain (λ a b. precedes b a ≡ false) scores

insert_score-before :
    (x y : ProfileScore) (ys : List ProfileScore)
    → precedes y x ≡ true
    → insert_score x (y ∷ ys) ≡ y ∷ insert_score x ys
unfolding insert_score
insert_score-before x y ys e = rw (e, insert_score) refl

insert_score-here :
    (x y : ProfileScore) (ys : List ProfileScore)
    → precedes y x ≡ false
    → insert_score x (y ∷ ys) ≡ x ∷ y ∷ ys
unfolding insert_score
insert_score-here x y ys e = rw (e, insert_score) refl

insert_score-perm : (x : ProfileScore) (ys : List ProfileScore) → Perm (insert_score x ys) (x ∷ ys)
unfolding insert_score
insert_score-perm x [] = Perm.rfl
insert_score-perm x (y ∷ ys) = elim (Bool-cases (precedes y x)) [
  | inl e ↦
      rw (insert_score-before x y ys e)
        (Perm.trans (Perm.cons y (insert_score-perm x ys)) (Perm.swap x y ys))
  | inr e ↦ rw (insert_score-here x y ys e) Perm.rfl
]

insert_score-IsRanked :
    (x : ProfileScore) (ys : List ProfileScore) → IsRanked ys → IsRanked (insert_score x ys)
unfolding insert_score
insert_score-IsRanked x [] h = tt
insert_score-IsRanked x (y ∷ []) h = elim (Bool-cases (precedes y x)) [
  | inl e ↦ rw (insert_score-before x y [] e) (precedes-asym y x e, tt)
  | inr e ↦ rw (insert_score-here x y [] e) (e, tt)
]
insert_score-IsRanked x (y ∷ z ∷ ys) (yz, h) =
    let rest = insert_score-IsRanked x (z ∷ ys) h in
    elim (Bool-cases (precedes y x)) [
      | inr e ↦ rw (insert_score-here x y (z ∷ ys) e) (e, (yz, h))
      | inl e ↦ rw (insert_score-before x y (z ∷ ys) e) (elim (Bool-cases (precedes z x)) [
        | inl e' ↦
            let step = insert_score-before x z ys e' in rw step (yz, subst IsRanked step rest)
        | inr e' ↦
            let step = insert_score-here x z ys e' in
            rw step (precedes-asym y x e, subst IsRanked step rest)
      ])
    ]

IsRanked-StandsBefore : (scores : List ProfileScore) → IsRanked scores → Chain StandsBefore scores
IsRanked-StandsBefore [] h = tt
IsRanked-StandsBefore (a ∷ []) h = tt
IsRanked-StandsBefore (a ∷ b ∷ scores) (e, h) =
    (precedes-StandsBefore a b e, IsRanked-StandsBefore (b ∷ scores) h)

rank_scores-IsRanked :
    (scores : List ProfileScore) → Perm (rank_scores scores) scores × IsRanked (rank_scores scores)
unfolding rank_scores
rank_scores-IsRanked [] = (Perm.rfl, tt)
rank_scores-IsRanked (x ∷ xs) =
    let (perm, ranked) = rank_scores-IsRanked xs in
    (
      Perm.trans (insert_score-perm x (rank_scores xs)) (Perm.cons x perm),
      insert_score-IsRanked x (rank_scores xs) ranked,
    )

-- The ranking of the scores is a permutation of them in which no score's total is less than the total
-- after it, and of two neighbours whose totals are not less than one another the code of the later one
-- does not come before the code of the earlier one.
pub rank_scores_lem :
    (scores : List ProfileScore)
    → Perm (rank_scores scores) scores × Chain StandsBefore (rank_scores scores)
rank_scores_lem scores =
    let (perm, ranked) = rank_scores-IsRanked scores in
    (perm, IsRanked-StandsBefore (rank_scores scores) ranked)

module _ (profile : Profile) where
  abbrev pub IsOf : ProfileScore → Type 0
  IsOf s = same_profile s.profile profile ≡ true

  insert_score-All :
      (x : ProfileScore) (ys : List ProfileScore)
      → IsOf x
      → All IsOf ys
      → All IsOf (insert_score x ys)
  unfolding insert_score
  insert_score-All x [] h hs = (h, tt)
  insert_score-All x (y ∷ ys) h (h', hs) = elim (Bool-cases (precedes y x)) [
    | inl e ↦ rw (insert_score-before x y ys e) (h', insert_score-All x ys h hs)
    | inr e ↦ rw (insert_score-here x y ys e) (h, (h', hs))
  ]

  rank_scores-All : (scores : List ProfileScore) → All IsOf scores → All IsOf (rank_scores scores)
  unfolding rank_scores
  rank_scores-All [] h = tt
  rank_scores-All (x ∷ xs) (h, hs) = insert_score-All x (rank_scores xs) h (rank_scores-All xs hs)

  take-All : (n : ℕ) (scores : List ProfileScore) → All IsOf scores → All IsOf (take n scores)
  take-All zero scores h = tt
  take-All (suc n) [] h = tt
  take-All (suc n) (x ∷ xs) (h, hs) = (h, take-All n xs hs)

  records_from-ranks :
      (scores : List ProfileScore) (rank : ℕ)
      → All IsOf scores
      → has_ranks_from profile rank (records_from rank scores) ≡ true
  unfolding has_ranks_from records_from
  records_from-ranks [] rank h = refl
  records_from-ranks (x ∷ xs) rank (h, hs) = ground (arith, h, records_from-ranks xs (suc rank) hs)

length-records_from :
    (scores : List ProfileScore) (rank : ℕ) → length (records_from rank scores) ≡ length scores
unfolding records_from
length-records_from [] rank = refl
length-records_from (x ∷ xs) rank = ap suc (length-records_from xs (suc rank))

length-take-le : (n : ℕ) (scores : List ProfileScore) → length (take n scores) ≤ n
length-take-le zero scores = omega arith
length-take-le (suc n) [] = omega arith
length-take-le (suc n) (x ∷ xs) = omega (arith, length-take-le n xs)

take-IsRanked : (n : ℕ) (scores : List ProfileScore) → IsRanked scores → IsRanked (take n scores)
take-IsRanked zero scores h = tt
take-IsRanked (suc n) [] h = tt
take-IsRanked (suc zero) (x ∷ xs) h = tt
take-IsRanked (suc (suc n)) (x ∷ []) h = tt
take-IsRanked (suc (suc n)) (x ∷ y ∷ xs) (e, h) = (e, take-IsRanked (suc n) (y ∷ xs) h)

-- No record's score exceeds the score of the record before it.
abbrev pub IsDescending : List RankingRecord → Type 0
IsDescending records = Chain (λ a b. float_lt a.score b.score ≡ false) records

records_from-IsDescending :
    (scores : List ProfileScore) (rank : ℕ)
    → IsRanked scores
    → IsDescending (records_from rank scores)
unfolding records_from
records_from-IsDescending [] rank h = tt
records_from-IsDescending (x ∷ []) rank h = tt
records_from-IsDescending (x ∷ y ∷ xs) rank (e, h) =
    ((precedes-StandsBefore x y e).descends, records_from-IsDescending (y ∷ xs) (suc rank) h)

limit-le : (limit : ℕ) → (if ltb 30 limit then 30 else limit) ≤ min limit 30
limit-le limit = elim (Bool-cases (ltb 30 limit)) [
  | inl e ↦ ground (arith, e)
  | inr e ↦ ground (arith, e)
]

-- A ranking of a profile's scores has at most 30 records, and at most as many as its limit, their
-- ranks count from 1 on as the model's validator wants, and no score exceeds the score before it.
pub ranking_lem :
    (profile : Profile) (scores : List ProfileScore) (limit : ℕ)
    → All (IsOf profile) scores
    → (has_ranks_from profile 1 (ranking scores limit) ≡ true)
      × (length (ranking scores limit) ≤ min limit 30)
      × IsDescending (ranking scores limit)
unfolding ranking ranking_records
ranking_lem profile scores limit h =
    let n = if ltb 30 limit then 30 else limit in
    let ranked = rank_scores scores in
    (
      records_from-ranks profile (take n ranked) 1
          (take-All profile n ranked (rank_scores-All profile scores h)),
      omega (arith, length-records_from (take n ranked) 1, length-take-le n ranked, limit-le limit),
      records_from-IsDescending (take n ranked) 1
          (take-IsRanked n ranked (rank_scores-IsRanked scores).1),
    )
