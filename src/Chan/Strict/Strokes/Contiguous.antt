-- ===== src/Chan/Strict/Strokes/Contiguous.antt =====
-- The strict strokes are a contiguous zigzag.
use stock_daily_report.Prelude.{
  ℕ, ◌+◌, ◌≤◌, ◌<◌, ◌≡◌, ◌⊎◌, refl, List, [], ◌∷◌, Option, none, some, inl, inr, arith, min, max,
  if◌then◌else◌, ltb,
}
use stock_daily_report.Chan.Common.{FractalKind}
use stock_daily_report.Chan.Fractals.Alternation.{opposite}
use stock_daily_report.Chan.Fractals.Swings.{Swing}
use stock_daily_report.Chan.Strict.Events.{
  Side, FractalCandidate, StrokeCandidate, kind_of, price_of, low_of, high_of,
}
use stock_daily_report.Chan.Strict.Strokes.{
  Action, skip, replace_active, move_last, append, action, more_extreme, not_beyond, new_stroke,
  moved_stroke,
}

-- A stroke that ends in a fractal of kind `k`: it spans the separation, leads up to a top or down to a
-- bottom, and its event records its bounds and direction.
pub record IsLeg (separation : ℕ) (k : FractalKind) (s : StrokeCandidate) : Type 0 where
  pub gap : s.start_index + separation ≤ s.end_index
  pub swing : Swing k s.start_price s.end_price
  pub low : low_of s ≡ min s.start_price s.end_price
  pub high : high_of s ≡ max s.start_price s.end_price
  pub direction :
      s.event.direction ≡ some (if ltb s.start_price s.end_price then Side.up else Side.down)

-- A list of strokes whose first one ends in a fractal of kind `k` and starts at the given index and
-- price: each starts where the one before it ends, and they go up and down in turn.
abbrev pub Zigzag : ℕ → FractalKind → ℕ → ℕ → List StrokeCandidate → Type 0
Zigzag separation k index price [] = Unit
Zigzag separation k index price (s ∷ ss) =
    IsLeg separation k s
    × (s.start_index ≡ index)
    × (s.start_price ≡ price)
    × Zigzag separation (opposite k) s.end_index s.end_price ss

-- The strokes of a history: no strokes, or a zigzag from some start.
pub record IsZigzag (separation : ℕ) (ss : List StrokeCandidate) : Type 0 where
  pub kind : FractalKind
  pub index : ℕ
  pub price : ℕ
  pub zigzag : Zigzag separation kind index price ss

pub Action-cases :
    (a : Action) → (a ≡ skip) ⊎ ((a ≡ replace_active) ⊎ ((a ≡ move_last) ⊎ (a ≡ append)))
Action-cases skip = inl refl
Action-cases replace_active = inr (inl refl)
Action-cases move_last = inr (inr (inl refl))
Action-cases append = inr (inr (inr refl))

-- `strokes[-1]` ends in the active fractal.
pub record Ends (separation : ℕ) (s : StrokeCandidate) (active : FractalCandidate) : Type 0 where
  pub leg : IsLeg separation (kind_of active) s
  pub index : s.end_index ≡ active.processed_index
  pub price : s.end_price ≡ price_of active

abbrev Later : FractalCandidate → FractalCandidate → Type 0
Later f g = f.processed_index < g.processed_index

pub append_facts :
    (separation : ℕ) (last : Option StrokeCandidate) (active f : FractalCandidate)
    → active.processed_index < f.processed_index
    → action separation last active f ≡ append
    → (active.processed_index + separation ≤ f.processed_index)
      × Swing (kind_of f) (price_of active) (price_of f)
      × (kind_of f ≡ opposite (kind_of active))
unfolding action not_beyond
append_facts separation none active f h e = (ground arith, ground arith, ground arith)
append_facts separation (some s) active f h e = (ground arith, ground arith, ground arith)

pub Ends-new :
    (separation : ℕ) (last : Option StrokeCandidate) (active f : FractalCandidate)
    → active.processed_index < f.processed_index
    → action separation last active f ≡ append
    → Ends separation (new_stroke active f) f
unfolding new_stroke low_of high_of
Ends-new separation last active f h e =
    let (gap, swing, kinds) = append_facts separation last active f h e in
    record {
      leg = record { gap = gap; swing = swing; low = refl; high = refl; direction = refl };
      index = refl;
      price = refl;
    }

pub Ends-moved :
    (separation : ℕ) (s : StrokeCandidate) (active f : FractalCandidate)
    → active.processed_index < f.processed_index
    → Ends separation s active
    → action separation (some s) active f ≡ move_last
    → Ends separation (moved_stroke s f) f × (kind_of f ≡ kind_of active)
unfolding action more_extreme not_beyond moved_stroke low_of high_of
Ends-moved separation s active f h end e = (
  record {
    leg = record {
      gap = ground arith;
      swing = ground arith;
      low = refl;
      high = refl;
      direction = refl;
    };
    index = refl;
    price = refl;
  },
  ground arith,
)

pub replace_facts :
    (separation : ℕ) (last : Option StrokeCandidate) (active f : FractalCandidate)
    → action separation last active f ≡ replace_active
    → (last ≡ none) × (kind_of f ≡ kind_of active)
unfolding action not_beyond
replace_facts separation none active f e = (refl, ground arith)
replace_facts separation (some s) active f e = (ground arith, ground arith)

pub move_facts :
    (separation : ℕ) (active f : FractalCandidate) → ¬ (action separation none active f ≡ move_last)
unfolding action not_beyond
move_facts separation active f e = ground arith
