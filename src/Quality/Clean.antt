-- ===== src/Quality/Clean.antt =====
-- Which histories pass the checks.
use stock_daily_report.Prelude.{
  ℕ, zero, suc, ◌≤◌, ◌≡◌, refl, Bool, true, false, ◌&&◌, List, [], ◌∷◌, ◌++◌, Option, none, some,
  arith,
}
use stock_daily_report.Bars.{Date}
use stock_daily_report.Floats.{Float, nan, infinite, neg_infinite, fin, neg, float_lt, float_le}
use stock_daily_report.Quality.{
  BarRecord, price_issues, date_issues, range_issues, record_issues, is_empty,
}

-- A finite positive price.
abbrev pub positive : ℕ → Option Float
positive rank = some (fin (suc rank))

-- The dates and prices of the bar are there, the prices are finite and positive, and the close lies
-- between low and high.
pub record IsClean (r : BarRecord) : Type 0 where
  pub date : Date
  pub opens : ℕ
  pub highest : ℕ
  pub lowest : ℕ
  pub closes : ℕ
  pub is_date : r.trade_date ≡ some date
  pub is_open : r.open_price ≡ positive opens
  pub is_high : r.high ≡ positive highest
  pub is_low : r.low ≡ positive lowest
  pub is_close : r.close ≡ positive closes
  pub above_low : lowest ≤ closes
  pub below_high : closes ≤ highest

is_empty-append {ℓ} :
    {A : Type ℓ} (xs ys : List A) → is_empty (xs ++ ys) ≡ (is_empty xs && is_empty ys)
is_empty-append [] ys = refl
is_empty-append (x ∷ xs) ys = refl

pub price_issues-empty :
    (price : Option Float) (index : ℕ)
    → is_empty (price_issues price index) ≡ true
    → (rank : ℕ) × (price ≡ positive rank)
unfolding price_issues
price_issues-empty none index h = cc
price_issues-empty (some nan) index h = cc
price_issues-empty (some infinite) index h = cc
price_issues-empty (some neg_infinite) index h = cc
price_issues-empty (some (neg n)) index h = cc
price_issues-empty (some (fin zero)) index h = cc
price_issues-empty (some (fin (suc n))) index h = (n, refl)

pub date_issues-empty :
    (date : Option Date) (index : ℕ)
    → is_empty (date_issues date index) ≡ true
    → (d : Date) × (date ≡ some d)
unfolding date_issues
date_issues-empty none index h = cc
date_issues-empty (some d) index h = (d, refl)

split_and : (a b : Bool) → (a && b) ≡ true → (a ≡ true) × (b ≡ true)
split_and true true h = (refl, refl)
split_and true false h = cc
split_and false b h = cc

pub split_empty {ℓ} :
    {A : Type ℓ} (xs ys : List A)
    → is_empty (xs ++ ys) ≡ true
    → (is_empty xs ≡ true) × (is_empty ys ≡ true)
split_empty xs ys h = split_and (is_empty xs) (is_empty ys) (rw (is_empty-append xs ys) at h)

pub join_empty {ℓ} :
    {A : Type ℓ} (xs ys : List A)
    → is_empty xs ≡ true
    → is_empty ys ≡ true
    → is_empty (xs ++ ys) ≡ true
join_empty xs ys h k = rw (is_empty-append xs ys, h, k)

pub range_issues-empty :
    (r : BarRecord) (index h l c : ℕ)
    → r.high ≡ positive h
    → r.low ≡ positive l
    → r.close ≡ positive c
    → is_empty (range_issues r index) ≡ true
    → (l ≤ c) × (c ≤ h)
unfolding range_issues float_le float_lt
range_issues-empty r index h l c eh el ec e = (ground arith, ground arith)

pub range_issues-clean :
    (r : BarRecord) (index h l c : ℕ)
    → r.high ≡ positive h
    → r.low ≡ positive l
    → r.close ≡ positive c
    → l ≤ c
    → c ≤ h
    → is_empty (range_issues r index) ≡ true
unfolding range_issues float_le float_lt
range_issues-clean r index h l c eh el ec below above = ground arith

-- A bar raises no issue exactly if it is clean.
pub record_issues-empty :
    (r : BarRecord) (index : ℕ) → is_empty (record_issues r index) ≡ true → IsClean r
unfolding record_issues
record_issues-empty r index e =
    let (dates, e1) = split_empty (date_issues r.trade_date index) _ e in
    let (opens, e2) = split_empty (price_issues r.open_price index) _ e1 in
    let (highs, e3) = split_empty (price_issues r.high index) _ e2 in
    let (lows, e4) = split_empty (price_issues r.low index) _ e3 in
    let (closes, ranges) = split_empty (price_issues r.close index) _ e4 in
    let (d, ed) = date_issues-empty r.trade_date index dates in
    let (o, eo) = price_issues-empty r.open_price index opens in
    let (h, eh) = price_issues-empty r.high index highs in
    let (l, el) = price_issues-empty r.low index lows in
    let (c, ec) = price_issues-empty r.close index closes in
    let (below, above) = range_issues-empty r index h l c eh el ec ranges in
    record {
      date = d;
      opens = o;
      highest = h;
      lowest = l;
      closes = c;
      is_date = ed;
      is_open = eo;
      is_high = eh;
      is_low = el;
      is_close = ec;
      above_low = below;
      below_high = above;
    }

price_issues-positive :
    (price : Option Float) (rank index : ℕ)
    → price ≡ positive rank
    → is_empty (price_issues price index) ≡ true
unfolding price_issues
price_issues-positive price rank index e = rw (e, price_issues)

pub record_issues-clean :
    (r : BarRecord) (index : ℕ) → IsClean r → is_empty (record_issues r index) ≡ true
unfolding record_issues date_issues
record_issues-clean r index k =
    join_empty (date_issues r.trade_date index) _ (rw (k.is_date, date_issues)) (
      join_empty (price_issues r.open_price index) _ (price_issues-positive _ _ index k.is_open) (
        join_empty (price_issues r.high index) _ (price_issues-positive _ _ index k.is_high) (
          join_empty (price_issues r.low index) _ (price_issues-positive _ _ index k.is_low) (
            join_empty (price_issues r.close index) _ (price_issues-positive _ _ index k.is_close) (
              range_issues-clean r index k.highest k.lowest k.closes k.is_high k.is_low k.is_close
                k.above_low k.below_high)))))
