-- ===== src/Providers/Redact.antt =====
-- src/stock_daily_report/providers/service.py: `_redact` and `_is_sensitive_key`.
--
-- `lower` and `replace` are parameters: they stand for Python's `str.lower` and `str.replace` by the
-- redaction mark. A date is the text of its `isoformat`, a bar is the mapping of its `model_dump`.
pub mod Clean
use stock_daily_report.Prelude.{
  ℕ, Bool, true, false, ◌&&◌, ◌||◌, List, [], ◌∷◌, Option, none, some, leb, filter_bool, map,
}
use mathlib.Core.Option
use stock_daily_report.Floats.{Float}
use stock_daily_report.Texts.{Text, same_text, ends_with}

-- What a provider may answer. `other` is a value that is not serialized.
mutual
  pub data Value : Type 0 where
    null other : Value
    flag : Bool → Value
    number : Float → Value
    text day : Text → Value
    items : Values → Value
    mapping bar : Fields → Value

  pub data Values : Type 0 where
    nil : Values
    cons : Value → Values → Values

  pub data Fields : Type 0 where
    empty : Fields
    field : Text → Value → Fields → Fields

abbrev is_letter_or_digit : ℕ → Bool
is_letter_or_digit c = (leb 97 c && leb c 122) || (leb 48 c && leb c 57)

-- secret
abbrev secret_text : Text
secret_text = b's' ∷ b'e' ∷ b'c' ∷ b'r' ∷ b'e' ∷ b't' ∷ []

-- password
abbrev password_text : Text
password_text = b'p' ∷ b'a' ∷ b's' ∷ b's' ∷ b'w' ∷ b'o' ∷ b'r' ∷ b'd' ∷ []

-- `_SENSITIVE_KEY_NAMES` without the underscores
abbrev sensitive_names : List Text
sensitive_names =
    (b'a' ∷ b'p' ∷ b'i' ∷ b'k' ∷ b'e' ∷ b'y' ∷ [])
    ∷ (b'a' ∷ b'u' ∷ b't' ∷ b'h' ∷ b'o' ∷ b'r' ∷ b'i' ∷ b'z' ∷ b'a' ∷ b't' ∷ b'i' ∷ b'o' ∷ b'n'
        ∷ [])
    ∷ (b'a' ∷ b'c' ∷ b'c' ∷ b'e' ∷ b's' ∷ b's' ∷ b't' ∷ b'o' ∷ b'k' ∷ b'e' ∷ b'n' ∷ [])
    ∷ (b't' ∷ b'o' ∷ b'k' ∷ b'e' ∷ b'n' ∷ [])
    ∷ (b's' ∷ b'e' ∷ b'c' ∷ b'r' ∷ b'e' ∷ b't' ∷ [])
    ∷ (b'c' ∷ b'l' ∷ b'i' ∷ b'e' ∷ b'n' ∷ b't' ∷ b's' ∷ b'e' ∷ b'c' ∷ b'r' ∷ b'e' ∷ b't' ∷ [])
    ∷ (b'p' ∷ b'a' ∷ b's' ∷ b's' ∷ b'w' ∷ b'o' ∷ b'r' ∷ b'd' ∷ [])
    ∷ (b'p' ∷ b'a' ∷ b's' ∷ b's' ∷ b'w' ∷ b'd' ∷ [])
    ∷ (b'c' ∷ b'r' ∷ b'e' ∷ b'd' ∷ b'e' ∷ b'n' ∷ b't' ∷ b'i' ∷ b'a' ∷ b'l' ∷ [])
    ∷ (b'c' ∷ b'o' ∷ b'o' ∷ b'k' ∷ b'i' ∷ b'e' ∷ [])
    ∷ []

unfoldable pub is_one_of : List Text → Text → Bool
is_one_of [] name = false
is_one_of (n ∷ ns) name = same_text n name || is_one_of ns name

module _ (lower : Text → Text) where
  -- `re.sub(r"[^a-z0-9]", "", key.lower())`
  unfoldable pub normalized_key : Text → Text
  normalized_key key = filter_bool is_letter_or_digit (lower key)

  unfoldable pub is_sensitive_key : Text → Bool
  is_sensitive_key key =
      is_one_of sensitive_names (normalized_key key)
      || (ends_with secret_text (normalized_key key)
          || ends_with password_text (normalized_key key))

module _ (replace : Text → Text → Text) where
  -- The loop over the secrets: `redacted.replace(secret, "***REDACTED***")`
  unfoldable pub mask : List Text → Text → Text
  mask [] t = t
  mask (secret ∷ secrets) t = mask secrets (replace secret t)

abbrev pub then_items : Option Value → Option Values → Option Values
then_items (some v) (some vs) = some (cons v vs)
then_items _ _ = none

abbrev pub then_field : Text → Option Value → Option Fields → Option Fields
then_field key (some v) (some fs) = some (field key v fs)
then_field key _ _ = none

-- A sensitive key is dropped with its value.
abbrev pub add_field : Bool → Text → Option Value → Option Fields → Option Fields
add_field true key v fs = fs
add_field false key v fs = then_field key v fs

module _ (lower : Text → Text) (replace : Text → Text → Text) (secrets : List Text) where
  -- `_redact`; `none` is the TypeError.
  unfoldable mutual
    pub redact : Value → Option Value
    redact null = some null
    redact other = none
    redact (flag b) = some (flag b)
    redact (number x) = some (number x)
    redact (text t) = some (text (mask replace secrets t))
    redact (day t) = some (text t)
    redact (items vs) = Option.map items (redact_items vs)
    redact (mapping fs) = Option.map mapping (redact_fields fs)
    redact (bar fs) = Option.map mapping (redact_fields fs)

    pub redact_items : Values → Option Values
    redact_items nil = some nil
    redact_items (cons v vs) = then_items (redact v) (redact_items vs)

    pub redact_fields : Fields → Option Fields
    redact_fields empty = some empty
    redact_fields (field key v fs) =
        add_field (is_sensitive_key lower key) key (redact v) (redact_fields fs)
