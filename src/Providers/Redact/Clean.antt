-- ===== src/Providers/Redact/Clean.antt =====
-- What is left after redaction.
use mathlib.Core.Option
use mathlib.Core.Option.{some-injective}
use stock_daily_report.Prelude.{
  ◌≡◌, ◌⊎◌, refl, subst, Bool, true, false, List, Option, none, some, inl, inr, arith,
}
use stock_daily_report.Texts.{Text}
use stock_daily_report.Providers.Redact.{
  Value, null, other, flag, number, text, day, items, mapping, bar, Values, nil, cons, Fields,
  empty, field, is_sensitive_key, then_items, then_field, add_field, redact, redact_items,
  redact_fields,
}

module _ (lower : Text → Text) where
  -- JSON in which no key is sensitive, at any depth.
  abbrev mutual
    pub IsClean : Value → Type 0
    IsClean null = Unit
    IsClean (flag b) = Unit
    IsClean (number x) = Unit
    IsClean (text t) = Unit
    IsClean (items vs) = AllClean vs
    IsClean (mapping fs) = FieldsClean fs
    IsClean other = ⊥
    IsClean (day t) = ⊥
    IsClean (bar fs) = ⊥

    pub AllClean : Values → Type 0
    AllClean nil = Unit
    AllClean (cons v vs) = IsClean v × AllClean vs

    pub FieldsClean : Fields → Type 0
    FieldsClean empty = Unit
    FieldsClean (field key v fs) = (is_sensitive_key lower key ≡ false) × IsClean v × FieldsClean fs

Option-map-some {ℓ κ} :
    {A : Type ℓ} {B : Type κ} (f : A → B) (o : Option A) {b : B}
    → Option.map f o ≡ some b
    → (a : A) × (o ≡ some a) × (f a ≡ b)
Option-map-some f none h = absurd (ground (arith, h))
Option-map-some f (some a) h = (a, refl, some-injective _ _ h)

then_items-some :
    (v : Option Value) (vs : Option Values) {r : Values}
    → then_items v vs ≡ some r
    → (w : Value) × (ws : Values) × (v ≡ some w) × (vs ≡ some ws) × (cons w ws ≡ r)
then_items-some none vs h = cc
then_items-some (some v) none h = cc
then_items-some (some v) (some vs) h = (v, vs, refl, refl, some-injective _ _ h)

then_field-some :
    (key : Text) (v : Option Value) (fs : Option Fields) {r : Fields}
    → then_field key v fs ≡ some r
    → (w : Value) × (gs : Fields) × (v ≡ some w) × (fs ≡ some gs) × (field key w gs ≡ r)
then_field-some key none fs h = cc
then_field-some key (some v) none h = cc
then_field-some key (some v) (some fs) h = (v, fs, refl, refl, some-injective _ _ h)

add_field-some :
    (sensitive : Bool) (key : Text) (v : Option Value) (fs : Option Fields) {r : Fields}
    → add_field sensitive key v fs ≡ some r
    → (fs ≡ some r)
      ⊎ ((sensitive ≡ false)
          × (w : Value) × (gs : Fields) × (v ≡ some w)
          × (fs ≡ some gs)
          × (field key w gs ≡ r))
add_field-some true key v fs h = inl h
add_field-some false key v fs h =
    let (w, gs, e, f, at) = then_field-some key v fs h in inr (refl, w, gs, e, f, at)

module _ (lower : Text → Text) (replace : Text → Text → Text) (secrets : List Text) where
  mutual
    unfolding redact

    redact-IsClean_value : (v r : Value) → redact lower replace secrets v ≡ some r → IsClean lower r
    redact-IsClean_value null r h = subst (IsClean lower) (some-injective _ _ h) tt
    redact-IsClean_value other r h = cc
    redact-IsClean_value (flag b) r h = subst (IsClean lower) (some-injective _ _ h) tt
    redact-IsClean_value (number x) r h = subst (IsClean lower) (some-injective _ _ h) tt
    redact-IsClean_value (text t) r h = subst (IsClean lower) (some-injective _ _ h) tt
    redact-IsClean_value (day t) r h = subst (IsClean lower) (some-injective _ _ h) tt
    redact-IsClean_value (items vs) r h =
        let (ws, e, at) = Option-map-some items (redact_items lower replace secrets vs) h in
        subst (IsClean lower) at (redact_items-AllClean vs ws e)
    redact-IsClean_value (mapping fs) r h =
        let (gs, e, at) = Option-map-some mapping (redact_fields lower replace secrets fs) h in
        subst (IsClean lower) at (redact_fields-FieldsClean fs gs e)
    redact-IsClean_value (bar fs) r h =
        let (gs, e, at) = Option-map-some mapping (redact_fields lower replace secrets fs) h in
        subst (IsClean lower) at (redact_fields-FieldsClean fs gs e)

    redact_items-AllClean :
        (vs ws : Values) → redact_items lower replace secrets vs ≡ some ws → AllClean lower ws
    redact_items-AllClean nil ws h = subst (AllClean lower) (some-injective _ _ h) tt
    redact_items-AllClean (cons v vs) ws h =
        let (w, rest, e, f, at) = then_items-some (redact lower replace secrets v) _ h in
        subst (AllClean lower) at (redact-IsClean_value v w e, redact_items-AllClean vs rest f)

    redact_fields-FieldsClean :
        (fs gs : Fields) → redact_fields lower replace secrets fs ≡ some gs → FieldsClean lower gs
    redact_fields-FieldsClean empty gs h = subst (FieldsClean lower) (some-injective _ _ h) tt
    redact_fields-FieldsClean (field key v fs) gs h =
        elim (add_field-some (is_sensitive_key lower key) key (redact lower replace secrets v) _
          h) [
            | inl dropped ↦ redact_fields-FieldsClean fs gs dropped
            | inr (harmless, w, rest, e, f, at) ↦
                subst (FieldsClean lower) at
                  (harmless, redact-IsClean_value v w e, redact_fields-FieldsClean fs rest f)
          ]

  -- Whatever is redacted is JSON with no sensitive key at any depth.
  pub redact-IsClean : (v r : Value) → redact lower replace secrets v ≡ some r → IsClean lower r
  redact-IsClean = redact-IsClean_value
