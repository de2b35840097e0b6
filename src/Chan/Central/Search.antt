-- ===== src/Chan/Central/Search.antt =====
-- The search of `_find_central_areas` against the specification, with its fuel.
use stock_daily_report.Prelude.{
  ℕ, zero, suc, ◌+◌, ◌≤◌, ◌≡◌, refl, ap, List, [], ◌∷◌, ◌++◌, append_assoc, append-nil, none, some,
  inl, inr, arith, length, last_or, length-append, Option-cases,
}
use stock_daily_report.Chan.Common.{Stroke, CentralArea}
use stock_daily_report.Chan.Strokes.{overlap}
use stock_daily_report.Chan.Central.{Growth, extend, make_area, areas_from, find_central_areas}
use stock_daily_report.Chan.Central.Spec.{
  IsCommon, IsMaximal, Areas, too_few, pass, area, overlap-IsCommon, overlap-Disjoint,
}

-- Where the inner loop ends: `others` has grown by `more`, and no further.
record IsGrown (a : Stroke) (others : List Stroke) (last : Stroke) (index : ℕ) (ss : List Stroke)
    (g : Growth) : Type 0 where
  more : List Stroke
  split : ss ≡ more ++ g.rest
  common : IsCommon (a ∷ (others ++ more)) g.range.0 g.range.1
  maximal : IsMaximal (a ∷ (others ++ more)) g.rest
  ends : g.last ≡ last_or last more
  counted : g.end_index ≡ index + length more

extend-stop :
    (a : Stroke) (others : List Stroke) (range : ℕ × ℕ) (last : Stroke) (index : ℕ) (s : Stroke)
    (ss : List Stroke)
    → overlap a (others ++ (s ∷ [])) ≡ none
    → extend a others range last index (s ∷ ss)
      ≡ record { range = range; last = last; end_index = index; rest = s ∷ ss }
unfolding extend
extend-stop a others range last index s ss e = rw (e, extend)

extend-grow :
    (a : Stroke) (others : List Stroke) (range r : ℕ × ℕ) (last : Stroke) (index : ℕ) (s : Stroke)
    (ss : List Stroke)
    → overlap a (others ++ (s ∷ [])) ≡ some r
    → extend a others range last index (s ∷ ss) ≡ extend a (others ++ (s ∷ [])) r s (index + 1) ss
unfolding extend
extend-grow a others range r last index s ss e = rw (e, extend)

IsGrown-stop :
    (a : Stroke) (others : List Stroke) (range : ℕ × ℕ) (last : Stroke) (index : ℕ)
    (ss : List Stroke)
    → IsCommon (a ∷ others) range.0 range.1
    → IsMaximal (a ∷ others) ss
    → IsGrown a others last index ss
        (record { range = range; last = last; end_index = index; rest = ss })
IsGrown-stop a others range last index ss h m = record {
  more = [];
  split = refl;
  common = rw (append-nil others) h;
  maximal = rw (append-nil others) m;
  ends = refl;
  counted = omega arith;
}

IsGrown-grow :
    (a : Stroke) (others : List Stroke) (last : Stroke) (index : ℕ) (s : Stroke) (ss : List Stroke)
    (g : Growth)
    → IsGrown a (others ++ (s ∷ [])) s (index + 1) ss g
    → IsGrown a others last index (s ∷ ss) g
IsGrown-grow a others last index s ss g h = record {
  more = s ∷ h.more;
  split = ap (◌∷◌ s) h.split;
  common = rw (append_assoc others (s ∷ []) h.more) at h.common;
  maximal = rw (append_assoc others (s ∷ []) h.more) at h.maximal;
  ends = h.ends;
  counted = omega (arith, h.counted);
}

extend-IsGrown :
    (a : Stroke) (others : List Stroke) (range : ℕ × ℕ) (last : Stroke) (index : ℕ)
    (ss : List Stroke)
    → IsCommon (a ∷ others) range.0 range.1
    → IsGrown a others last index ss (extend a others range last index ss)
unfolding extend
extend-IsGrown a others range last index [] h = IsGrown-stop a others range last index [] h tt
extend-IsGrown a others range last index (s ∷ ss) h =
    elim (Option-cases (overlap a (others ++ (s ∷ [])))) [
      | inl e ↦ rw (extend-stop a others range last index s ss e) (
          IsGrown-stop a others range last index (s ∷ ss) h
            (overlap-Disjoint a (others ++ (s ∷ [])) e))
      | inr (r, e) ↦ rw (extend-grow a others range r last index s ss e) (
          IsGrown-grow a others last index s ss _ (
            extend-IsGrown a (others ++ (s ∷ [])) r s (index + 1) ss
              (overlap-IsCommon a (others ++ (s ∷ [])) e)))
    ]

areas_from-pass :
    (fuel start : ℕ) (a b c : Stroke) (ss : List Stroke)
    → overlap a (b ∷ c ∷ []) ≡ none
    → areas_from (suc fuel) start (a ∷ b ∷ c ∷ ss) ≡ areas_from fuel (start + 1) (b ∷ c ∷ ss)
unfolding areas_from
areas_from-pass fuel start a b c ss e = rw (e, areas_from)

areas_from-area :
    (fuel start : ℕ) (a b c : Stroke) (ss : List Stroke) (r : ℕ × ℕ)
    → overlap a (b ∷ c ∷ []) ≡ some r
    → let g = extend a (b ∷ c ∷ []) r c (start + 2) ss in
      areas_from (suc fuel) start (a ∷ b ∷ c ∷ ss)
      ≡ make_area start c g ∷ areas_from fuel (g.end_index + 1) g.rest
unfolding areas_from
areas_from-area fuel start a b c ss r e = rw (e, areas_from)

Areas-grown :
    (start : ℕ) (a b c : Stroke) (ss : List Stroke) (g : Growth) (areas : List CentralArea)
    → IsGrown a (b ∷ c ∷ []) c (start + 2) ss g
    → Areas (g.end_index + 1) g.rest areas
    → Areas start (a ∷ b ∷ c ∷ ss) (make_area start c g ∷ areas)
Areas-grown start a b c ss g areas h rest =
    let next : g.end_index + 1 ≡ start + 3 + length h.more = omega (arith, h.counted) in
    area a b c h.more g.rest (ap (λ xs. a ∷ b ∷ c ∷ xs) h.split) h.common h.maximal refl h.counted
      refl (ap (λ (s : Stroke). s.confirmed_at) h.ends) (ap (λ (s : Stroke). s.tradable_at) h.ends)
      refl (rw next at rest)

IsGrown-shorter :
    (a : Stroke) (others : List Stroke) (last : Stroke) (index : ℕ) (ss : List Stroke) (g : Growth)
    → IsGrown a others last index ss g
    → length g.rest ≤ length ss
IsGrown-shorter a others last index ss g h =
    omega (arith, ap length h.split, length-append h.more g.rest)

areas_from-Areas :
    (fuel start : ℕ) (ss : List Stroke)
    → length ss ≤ fuel
    → Areas start ss (areas_from fuel start ss)
unfolding areas_from
areas_from-Areas zero start [] h = too_few (omega arith)
areas_from-Areas zero start (a ∷ ss) h = absurd (omega arith)
areas_from-Areas (suc fuel) start [] h = too_few (omega arith)
areas_from-Areas (suc fuel) start (a ∷ []) h = too_few (omega arith)
areas_from-Areas (suc fuel) start (a ∷ b ∷ []) h = too_few (omega arith)
areas_from-Areas (suc fuel) start (a ∷ b ∷ c ∷ ss) h =
    elim (Option-cases (overlap a (b ∷ c ∷ []))) [
      | inl e ↦ rw (areas_from-pass fuel start a b c ss e) (
          pass (overlap-Disjoint a (b ∷ c ∷ []) e)
            (areas_from-Areas fuel (start + 1) (b ∷ c ∷ ss) (omega arith)))
      | inr (r, e) ↦
          let g = extend a (b ∷ c ∷ []) r c (start + 2) ss in
          let grown =
            extend-IsGrown a (b ∷ c ∷ []) r c (start + 2) ss (overlap-IsCommon a (b ∷ c ∷ []) e) in
          let shorter = IsGrown-shorter a (b ∷ c ∷ []) c (start + 2) ss g grown in
          rw (areas_from-area fuel start a b c ss r e) (
            Areas-grown start a b c ss g _ grown
              (areas_from-Areas fuel (g.end_index + 1) g.rest (omega arith)))
    ]

-- On every list of strokes the search returns areas that meet the specification: each
-- area starts with the first three strokes in a row that share a price, ends before the first
-- stroke that shares no price with the whole group, has the group's common prices as its range and
-- the last stroke's dates; the fuel, the number of strokes, is always enough.
pub find_central_areas-Areas : (ss : List Stroke) → Areas 0 ss (find_central_areas ss)
unfolding find_central_areas
find_central_areas-Areas ss = areas_from-Areas (length ss) 0 ss (omega arith)
