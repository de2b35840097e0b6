-- ===== src/Prelude/Lists.antt =====
-- Lists measured and indexed by native numbers, under the library's names.
use Prim.Native.Nat.{ℕ, zero, suc, ◌+◌, ◌<◌, ◌≤◌}
use mathlib.Core.Path.{◌≡◌, refl, ap}
use mathlib.Core.Bool.{Bool, true, false}
use mathlib.Core.List.{List, [], ◌∷◌, ◌++◌}
use mathlib.Core.Option.{Option, none, some}
use native.Mathlib.Omega.{arith}

module _ {ℓ} {A : Type ℓ} where
  abbrev pub length : List A → ℕ
  length [] = 0
  length (_ ∷ xs) = suc (length xs)

  abbrev pub get_elem? : List A → ℕ → Option A
  get_elem? [] _ = none
  get_elem? (x ∷ xs) zero = some x
  get_elem? (x ∷ xs) (suc i) = get_elem? xs i

  -- `xs[i:]`
  abbrev pub drop : ℕ → List A → List A
  drop zero xs = xs
  drop (suc n) [] = []
  drop (suc n) (x ∷ xs) = drop n xs

  -- `xs[:n]`
  abbrev pub take : ℕ → List A → List A
  take zero xs = []
  take (suc n) [] = []
  take (suc n) (x ∷ xs) = x ∷ take n xs

  -- `xs[-1]`, or `d` where the list is empty.
  abbrev pub last_or : A → List A → A
  last_or d [] = d
  last_or d (x ∷ xs) = last_or x xs

  -- `xs[0]`, or `d` where the list is empty.
  abbrev pub head_or : A → List A → A
  head_or d [] = d
  head_or d (x ∷ xs) = x

  abbrev pub filter_bool : (A → Bool) → List A → List A
  filter_bool p [] = []
  filter_bool p (x ∷ xs) = elim (p x) [ true ↦ x ∷ filter_bool p xs | false ↦ filter_bool p xs ]

  -- A list with an optional element in front.
  abbrev pub cons? : Option A → List A → List A
  cons? none xs = xs
  cons? (some x) xs = x ∷ xs

  abbrev pub All {κ} : (A → Type κ) → List A → Type κ
  All P [] = Unit
  All P (x ∷ xs) = P x × All P xs

  -- `R` holds between neighbours.
  abbrev pub Chain {κ} : (A → A → Type κ) → List A → Type κ
  Chain R [] = Unit
  Chain R (x ∷ []) = Unit
  Chain R (x ∷ y ∷ xs) = R x y × Chain R (y ∷ xs)

  -- The second list begins with the first.
  abbrev pub Extends : List A → List A → Type ℓ
  Extends xs ys = (rest : List A) × (xs ++ rest ≡ ys)

  pub length-append : (xs ys : List A) → length (xs ++ ys) ≡ length xs + length ys
  length-append [] ys = omega arith
  length-append (x ∷ xs) ys = omega (arith, length-append xs ys)

  pub get_elem?-append :
      (xs ys : List A) (i : ℕ) → i < length xs → get_elem? (xs ++ ys) i ≡ get_elem? xs i
  get_elem?-append [] ys i h = absurd (omega arith)
  get_elem?-append (x ∷ xs) ys zero h = refl
  get_elem?-append (x ∷ xs) ys (suc i) h = get_elem?-append xs ys i (omega arith)

  pub get_elem?-beyond : (xs : List A) (i : ℕ) → length xs ≤ i → get_elem? xs i ≡ none
  get_elem?-beyond [] i h = refl
  get_elem?-beyond (x ∷ xs) zero h = absurd (omega arith)
  get_elem?-beyond (x ∷ xs) (suc i) h = get_elem?-beyond xs i (omega arith)

  pub get_elem?-within : (xs : List A) (i : ℕ) → i < length xs → (x : A) × (get_elem? xs i ≡ some x)
  get_elem?-within [] i h = absurd (omega arith)
  get_elem?-within (x ∷ xs) zero h = (x, refl)
  get_elem?-within (x ∷ xs) (suc i) h = get_elem?-within xs i (omega arith)

  pub All-append {κ} : (P : A → Type κ) (xs ys : List A) → All P xs → All P ys → All P (xs ++ ys)
  All-append P [] ys p q = q
  All-append P (x ∷ xs) ys p q = (p.0, All-append P xs ys p.1 q)

  pub filter_bool-true :
      (p : A → Bool) (x : A) (xs : List A)
      → p x ≡ true
      → filter_bool p (x ∷ xs) ≡ x ∷ filter_bool p xs
  filter_bool-true p x xs e = rw (e, filter_bool) refl

  pub filter_bool-false :
      (p : A → Bool) (x : A) (xs : List A) → p x ≡ false → filter_bool p (x ∷ xs) ≡ filter_bool p xs
  filter_bool-false p x xs e = rw (e, filter_bool) refl

  pub filter_bool-append :
      (p : A → Bool) (xs ys : List A)
      → filter_bool p (xs ++ ys) ≡ filter_bool p xs ++ filter_bool p ys
  filter_bool-append p [] ys = refl
  filter_bool-append p (x ∷ xs) ys = ground (arith, filter_bool-append p xs ys)

  pub Extends-cons : (x : A) (xs ys : List A) → Extends xs ys → Extends (x ∷ xs) (x ∷ ys)
  Extends-cons x xs ys (rest, e) = (rest, ap (◌∷◌ x) e)

module _ {ℓ} {A : Type ℓ} where
  -- `xs[:-1]`
  abbrev pub drop_last : List A → List A
  drop_last [] = []
  drop_last (x ∷ []) = []
  drop_last (x ∷ y ∷ xs) = x ∷ drop_last (y ∷ xs)

  pub drop_last-append-cons :
      (xs : List A) (y : A) (ys : List A) → drop_last (xs ++ (y ∷ ys)) ≡ xs ++ drop_last (y ∷ ys)
  drop_last-append-cons [] y ys = refl
  drop_last-append-cons (x ∷ []) y ys = refl
  drop_last-append-cons (x ∷ x' ∷ xs) y ys = ap (◌∷◌ x) (drop_last-append-cons (x' ∷ xs) y ys)

  pub last_or-append : (d : A) (xs ys : List A) → last_or d (xs ++ ys) ≡ last_or (last_or d xs) ys
  last_or-append d [] ys = refl
  last_or-append d (x ∷ xs) ys = last_or-append x xs ys

  pub Chain-drop_last {κ} : (R : A → A → Type κ) (xs : List A) → Chain R xs → Chain R (drop_last xs)
  Chain-drop_last R [] h = tt
  Chain-drop_last R (x ∷ []) h = tt
  Chain-drop_last R (x ∷ y ∷ []) h = tt
  Chain-drop_last R (x ∷ y ∷ z ∷ xs) h = (h.0, Chain-drop_last R (y ∷ z ∷ xs) h.1)

  pub All-drop_last {κ} : (P : A → Type κ) (xs : List A) → All P xs → All P (drop_last xs)
  All-drop_last P [] h = tt
  All-drop_last P (x ∷ []) h = tt
  All-drop_last P (x ∷ y ∷ xs) h = (h.0, All-drop_last P (y ∷ xs) h.1)
