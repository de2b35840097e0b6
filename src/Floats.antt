-- ===== src/Floats.antt =====
-- Python floats as far as the rules look at them: they are tested for being finite and compared. A
-- finite double stands as its rank in the order of the finite doubles: `fin n` is the rank n, 0 for
-- 0.0 (for a double that is not negative this is its bits read as a number), and `neg n` is the rank
-- -(n + 1).
use stock_daily_report.Prelude.{ℕ, suc, Bool, true, false, ◌&&◌, ◌||◌, not, Option, none, some, ltb}

pub data Float : Type 0 where
  nan infinite neg_infinite : Float
  fin neg : ℕ → Float

abbrev pub is_finite : Float → Bool
is_finite (fin _) = true
is_finite (neg _) = true
is_finite _ = false

-- `a < b`, which is false if one of them is NaN.
unfoldable pub float_lt : Float → Float → Bool
float_lt nan _ = false
float_lt (fin a) (fin b) = ltb a b
float_lt (fin a) infinite = true
float_lt (fin a) _ = false
float_lt (neg a) (neg b) = ltb b a
float_lt (neg a) (fin b) = true
float_lt (neg a) infinite = true
float_lt (neg a) _ = false
float_lt infinite _ = false
float_lt neg_infinite nan = false
float_lt neg_infinite neg_infinite = false
float_lt neg_infinite _ = true

abbrev pub is_nan : Float → Bool
is_nan nan = true
is_nan _ = false

-- `a <= b`
unfoldable pub float_le : Float → Float → Bool
unfolding float_lt
float_le a b = not (float_lt b a) && not (is_nan a || is_nan b)

-- `a >= b`
abbrev pub float_ge : Float → Float → Bool
float_ge a b = float_le b a

-- `_finite`
unfoldable pub finite : Option Float → Option Float
finite none = none
finite (some value) = elim (is_finite value) [ true ↦ some value | false ↦ none ]

-- `value > 0` for a float that is finite
abbrev pub is_positive : Float → Bool
is_positive (fin (suc _)) = true
is_positive _ = false

-- `_positive_finite`
unfoldable pub positive_finite : Option Float → Option Float
positive_finite none = none
positive_finite (some value) = elim (is_positive value) [ true ↦ some value | false ↦ none ]

-- `a > b`, where both are given
abbrev pub above : Option Float → Option Float → Bool
above (some a) (some b) = float_lt b a
above _ _ = false

abbrev pub zero_float : Option Float
zero_float = some (fin 0)
