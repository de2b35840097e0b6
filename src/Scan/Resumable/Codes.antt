-- ===== src/Scan/Resumable/Codes.antt =====
-- The codes of a dictionary of results and of a list of quotes, as Boolean tests on a code.
use stock_daily_report.Prelude.{
  ℕ, suc, zero, ◌≡◌, refl, sym, ap, ◌∙◌, subst, Bool, true, false, not, ◌&&◌, ◌||◌, List, [], ◌∷◌,
  inl, inr, arith, Bool-cases, take, drop, filter_bool, filter_bool-true, filter_bool-false,
}
use stock_daily_report.Texts.{Text, same_text, same_text→≡}
use stock_daily_report.Scan.Filters.{UniverseQuote}
use stock_daily_report.Scan.Retries.{CandidateResult, is_failed}
use stock_daily_report.Scan.Checkpoints.{Completed, has, put, update, in_codes}
use stock_daily_report.Scan.Resumable.{World, process_batch, keep_completed}

or_swap : (a b c : Bool) → (a || (b || c)) ≡ (b || (a || c))
or_swap a b c = ground arith

or_twice : (a b : Bool) → (a || b) ≡ (a || (a || b))
or_twice a b = ground arith

pub put-same :
    (k key : Text) (r s : CandidateResult) (m : Completed)
    → same_text k key ≡ true
    → put k r ((key, s) ∷ m) ≡ (key, r) ∷ m
unfolding put
put-same k key r s m e = rw (e, put) refl

pub put-other :
    (k key : Text) (r s : CandidateResult) (m : Completed)
    → same_text k key ≡ false
    → put k r ((key, s) ∷ m) ≡ (key, s) ∷ put k r m
unfolding put
put-other k key r s m e = rw (e, put) refl

has-cons :
    (c k : Text) (r : CandidateResult) (m : Completed)
    → has c ((k, r) ∷ m) ≡ (same_text c k || has c m)
unfolding has
has-cons c k r m = refl

has-put-same :
    (c k key : Text) (r : CandidateResult) (m : Completed)
    → k ≡ key
    → has c ((key, r) ∷ m) ≡ (same_text c k || has c ((key, r) ∷ m))
has-put-same c k key r m e =
    subst (λ k. has c ((key, r) ∷ m) ≡ (same_text c k || has c ((key, r) ∷ m))) (sym e)
      (ground (arith, has-cons c key r m))

pub has-put :
    (c k : Text) (r : CandidateResult) (m : Completed)
    → has c (put k r m) ≡ (same_text c k || has c m)
unfolding put
has-put c k r [] = has-cons c k r []
has-put c k r ((key, s) ∷ m) = elim (Bool-cases (same_text k key)) [
  | inl e ↦
      rw (put-same k key r s m e, has-cons c key s m, sym (has-cons c key r m))
        (has-put-same c k key r m (same_text→≡ k key e))
  | inr e ↦ ground (
    arith,
    ap (has c) (put-other k key r s m e),
    has-cons c key s (put k r m),
    has-cons c key s m,
    has-put c k r m,
  )
]

pub has-update : (c : Text) (m more : Completed) → has c (update m more) ≡ (has c more || has c m)
unfolding has update
has-update c m [] = refl
has-update c m ((k, r) ∷ more) = ground (arith, has-update c (put k r m) more, has-put c k r m)

pub has-process_batch :
    (c : Text) (w : World) (n : ℕ) (qs : List UniverseQuote)
    → has c (process_batch w n qs) ≡ in_codes c qs
unfolding has process_batch in_codes
has-process_batch c w n [] = refl
has-process_batch c w n (q ∷ qs) = ap (λ b. same_text c q.code || b) (has-process_batch c w n qs)

pub in_codes-split :
    (c : Text) (n : ℕ) (qs : List UniverseQuote)
    → in_codes c qs ≡ (in_codes c (take n qs) || in_codes c (drop n qs))
unfolding in_codes
in_codes-split c zero qs = refl
in_codes-split c (suc n) [] = refl
in_codes-split c (suc n) (q ∷ qs) = ground (arith, in_codes-split c n qs)

-- A round moves the codes of its batch from the pending quotes to the results.
pub codes-advance :
    (c : Text) (w : World) (n k : ℕ) (m : Completed) (qs : List UniverseQuote)
    → (has c (update m (process_batch w n (take k qs))) || in_codes c (drop k qs))
      ≡ (has c m || in_codes c qs)
codes-advance c w n k m qs = ground (
  arith,
  has-update c m (process_batch w n (take k qs)),
  has-process_batch c w n (take k qs),
  in_codes-split c k qs,
)

has-nil : (c : Text) → has c [] ≡ false
unfolding has
has-nil c = refl

-- The kept results are of eligible quotes.
pub has-keep :
    (c : Text) (eligible : List UniverseQuote) (m : Completed)
    → has c (keep_completed eligible m) ≡ true
    → in_codes c eligible ≡ true
unfolding keep_completed
has-keep c eligible [] h = absurd (ground (arith, h, has-nil c))
has-keep c eligible ((key, r) ∷ m) h =
    let keeps : Text × CandidateResult → Bool =
      λ (code, s). in_codes code eligible && not (is_failed s.status) in
    elim (Bool-cases (in_codes key eligible && not (is_failed r.status))) [
      | inr e ↦ has-keep c eligible m (sym (ap (has c) (filter_bool-false keeps (key, r) m e)) ∙ h)
      | inl e ↦
          let found = sym (ap (has c) (filter_bool-true keeps (key, r) m e)) ∙ h in
          elim (Bool-cases (same_text c key)) [
            | inl same ↦
                subst (λ k. in_codes k eligible ≡ true) (sym (same_text→≡ c key same))
                  (ground (arith, e))
            | inr other ↦
                has-keep c eligible m
                  (ground (arith, found, other, has-cons c key r (keep_completed eligible m)))
          ]
    ]

in_codes-cons :
    (c : Text) (q : UniverseQuote) (qs : List UniverseQuote)
    → in_codes c (q ∷ qs) ≡ (same_text c q.code || in_codes c qs)
unfolding in_codes
in_codes-cons c q qs = refl

-- A quote is pending or its result is kept.
pub codes-pending :
    (c : Text) (m : Completed) (qs : List UniverseQuote)
    → (has c m || in_codes c (filter_bool (λ q. not (has q.code m)) qs))
      ≡ (has c m || in_codes c qs)
codes-pending c m [] = refl
codes-pending c m (q ∷ qs) =
    let rest = codes-pending c m qs in
    let whole = in_codes-cons c q qs in
    elim (Bool-cases (has q.code m)) [
      | inr e ↦
          let kept = ap (in_codes c) (filter_bool-true (λ q. not (has q.code m)) q qs (ap not e)) in
          ground
            (arith, rest, whole, kept, in_codes-cons c q (filter_bool (λ q. not (has q.code m)) qs))
      | inl e ↦
          let dropped =
            ap (in_codes c) (filter_bool-false (λ q. not (has q.code m)) q qs (ap not e)) in
          elim (Bool-cases (same_text c q.code)) [
            | inr other ↦ ground (arith, rest, whole, dropped, other)
            | inl same ↦
                let here : has c m ≡ true =
                  subst (λ k. has k m ≡ true) (sym (same_text→≡ c q.code same)) e in
                ground (arith, whole, here)
          ]
    ]

-- At the start every eligible quote is pending or has a kept result, and no other code has.
pub codes-start :
    (c : Text) (eligible : List UniverseQuote) (m : Completed)
    → let kept = keep_completed eligible m in
      (has c kept || in_codes c (filter_bool (λ q. not (has q.code kept)) eligible))
      ≡ in_codes c eligible
codes-start c eligible m = elim (Bool-cases (has c (keep_completed eligible m))) [
  | inl e ↦ ground (arith, e, has-keep c eligible m e)
  | inr e ↦ ground (arith, e, codes-pending c (keep_completed eligible m) eligible)
]
