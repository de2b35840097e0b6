-- ===== src/Chan/Central/Spec.antt =====
-- What the central areas of a list of strokes are, stated without running the search.
use stock_daily_report.Prelude.{
  ℕ, ◌+◌, ◌≤◌, ◌<◌, ◌≡◌, List, [], ◌∷◌, ◌++◌, none, some, arith, All, length, last_or,
}
use stock_daily_report.Chan.Common.{confirmed, Stroke, CentralArea}
use stock_daily_report.Chan.Strokes.{overlap, max_low, min_high}

abbrev pub Contains : ℕ → Stroke → Type 0
Contains price s = (s.low ≤ price) × (price ≤ s.high)

-- No price lies in every stroke of the list.
abbrev pub Disjoint : List Stroke → Type 0
Disjoint ss = (price : ℕ) → ¬ (All (Contains price) ss)

-- The prices that lie in every stroke of the list are those from `low` to `high`, and there are some.
pub record IsCommon (ss : List Stroke) (low high : ℕ) : Type 0 where
  pub within : (price : ℕ) → All (Contains price) ss → (low ≤ price) × (price ≤ high)
  pub covers : (price : ℕ) → low ≤ price → price ≤ high → All (Contains price) ss
  pub ordered : low ≤ high

within-overlap :
    (price : ℕ) (s : Stroke) (ss : List Stroke)
    → All (Contains price) (s ∷ ss)
    → (max_low s ss ≤ price) × (price ≤ min_high s ss)
within-overlap price s [] h = h.0
within-overlap price s (t ∷ ts) h = let ih = within-overlap price t ts h.1 in omega arith

covers-overlap :
    (price : ℕ) (s : Stroke) (ss : List Stroke)
    → max_low s ss ≤ price
    → price ≤ min_high s ss
    → All (Contains price) (s ∷ ss)
covers-overlap price s [] h k = ((h, k), tt)
covers-overlap price s (t ∷ ts) h k =
    (omega arith, covers-overlap price t ts (omega arith) (omega arith))

-- `_overlap` returns the prices that all strokes share.
pub overlap-IsCommon :
    (s : Stroke) (ss : List Stroke) {low high : ℕ}
    → overlap s ss ≡ some (low, high)
    → IsCommon (s ∷ ss) low high
unfolding overlap
overlap-IsCommon s ss {low} {high} e =
    let at : (max_low s ss ≡ low) × (min_high s ss ≡ high) × (low ≤ high) = ground arith in
    record {
      within = λ price h. let w = within-overlap price s ss h in omega arith;
      covers = λ price h k. covers-overlap price s ss (omega arith) (omega arith);
      ordered = at.2;
    }

-- It returns none only if they share no price.
pub overlap-Disjoint : (s : Stroke) (ss : List Stroke) → overlap s ss ≡ none → Disjoint (s ∷ ss)
unfolding overlap
overlap-Disjoint s ss e price h = let w = within-overlap price s ss h in ground arith

-- The stroke after a group, if there is one, shares no price with the whole group.
abbrev pub IsMaximal : List Stroke → List Stroke → Type 0
IsMaximal group [] = Unit
IsMaximal group (next ∷ rest) = Disjoint (group ++ (next ∷ []))

-- The areas of the strokes from `start` on. Three strokes that share no price are passed by one
-- stroke; otherwise they begin an area, which takes all following strokes as long as the whole group
-- shares a price.
pub data Areas : ℕ → List Stroke → List CentralArea → Type 0 where
  too_few : {start : ℕ} {ss : List Stroke} → length ss < 3 → Areas start ss []
  pass :
      {start : ℕ} {a b c : Stroke} {ss : List Stroke} {areas : List CentralArea}
      → Disjoint (a ∷ b ∷ c ∷ [])
      → Areas (start + 1) (b ∷ c ∷ ss) areas
      → Areas start (a ∷ b ∷ c ∷ ss) areas
  area :
      {start : ℕ} {ss : List Stroke} {areas : List CentralArea} {x : CentralArea} (a b c : Stroke)
      (more rest : List Stroke)
      → ss ≡ (a ∷ b ∷ c ∷ more) ++ rest
      → IsCommon (a ∷ b ∷ c ∷ more) x.low x.high
      → IsMaximal (a ∷ b ∷ c ∷ more) rest
      → x.start_stroke_index ≡ start
      → x.end_stroke_index ≡ start + 2 + length more
      → x.formed_at ≡ c.end_formed_at
      → x.confirmed_at ≡ (last_or c more).confirmed_at
      → x.tradable_at ≡ (last_or c more).tradable_at
      → x.status ≡ confirmed
      → Areas (start + 3 + length more) rest areas
      → Areas start ss (x ∷ areas)
