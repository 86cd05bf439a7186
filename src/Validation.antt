-- ===== src/Validation.antt =====
-- pkg/validation/validator.go. A method that returns the validator for the next one returns the
-- validator with what it has added.
pub mod Reporting
pub mod Accepting
use orchestrix_api.Common.{
  ℕ, String, ◌+++◌, Bool, true, false, not, Option, none, some, List, [], ◌∷◌, ◌++◌, ltb, ◌&&◌,
  ◌||◌, ◌==◌, ℤ, pos, ltb_ℤ, is_empty, insert, str_eq, if◌then◌else◌,
}
use orchestrix_api.Fault.{AppError}
use orchestrix_api.Apperror.Constructors.{validation_with_fields}
use Prim.Native.Char.{code}

pub record FieldError : Type 0 where
  pub field : String
  pub message : String

abbrev pub Validator : Type 0
Validator = List FieldError

-- Go's library, as far as the validator uses it: strings.TrimSpace, the number of runes, uuid.Parse,
-- a regular expression on a text (none if it does not compile), json.Unmarshal, strings.Fields,
-- strings.Join and the decimal digits of a number.
pub record Library : Type 0 where
  pub trim_space : String → String
  pub rune_count : String → ℕ
  pub is_uuid : String → Bool
  pub matches : String → String → Option Bool
  pub is_json : String → Bool
  pub field_count : String → ℕ
  pub join : List String → String
  pub digits : ℤ → String

-- New
abbrev pub empty : Validator
empty = []

unfoldable pub add_error : String → String → Validator → Validator
add_error field message v = v ++ record { field = field; message = message } ∷ []

unfoldable pub has_errors : Validator → Bool
has_errors v = not (is_empty v)

-- The loop over the errors: a later message for a field takes the place of an earlier one.
unfoldable pub field_errors : Validator → List (String × String) → List (String × String)
field_errors [] m = m
field_errors (e ∷ es) m = field_errors es (insert e.field e.message m)

-- None is the nil pointer.
unfoldable pub error : Validator → Option AppError
unfolding has_errors field_errors validation_with_fields
error v = if has_errors v then some (validation_with_fields (field_errors v [])) else none

-- A check: an error for the field unless it holds.
abbrev pub check : Bool → String → String → Validator → Validator
check holds field message v = if holds then v else add_error field message v

unfoldable pub is_one_of : String → List String → Bool
is_one_of s [] = false
is_one_of s (a ∷ allowed) = if str_eq s a then true else is_one_of s allowed

abbrev pub cron_shortcuts : List String
cron_shortcuts =
    "@yearly" ∷ "@annually" ∷ "@monthly" ∷ "@weekly" ∷ "@daily" ∷ "@midnight" ∷ "@hourly" ∷ []

-- strings.HasPrefix(value, "@")
unfoldable pub starts_with_at : String → Bool
starts_with_at String.[] = false
starts_with_at (String.◌∷◌ c s) = code c == b'@'

abbrev pub has_matched : Option Bool → Bool
has_matched none = false
has_matched (some b) = b

module _ (l : Library) where
  unfoldable pub required : String → String → Validator → Validator
  required field value v =
      check (not (str_eq (l.trim_space value) "")) field (field +++ " is required") v

  -- A value that is not nil is `true`.
  unfoldable pub required_pointer : String → Bool → Validator → Validator
  required_pointer field present v = check present field (field +++ " is required") v

  unfoldable pub min_length : String → String → ℤ → Validator → Validator
  min_length field value min v =
      check (not (ltb_ℤ (pos (l.rune_count value)) min)) field
        (field +++ " must be at least " +++ l.digits min +++ " characters") v

  unfoldable pub max_length : String → String → ℤ → Validator → Validator
  max_length field value max v =
      check (not (ltb_ℤ max (pos (l.rune_count value)))) field
        (field +++ " must not exceed " +++ l.digits max +++ " characters") v

  unfoldable pub exact_length : String → String → ℤ → Validator → Validator
  exact_length field value length v =
      check
        (not (ltb_ℤ (pos (l.rune_count value)) length || ltb_ℤ length (pos (l.rune_count value))))
        field (field +++ " must be exactly " +++ l.digits length +++ " characters") v

  unfoldable pub at_least : String → ℤ → ℤ → Validator → Validator
  at_least field value min v =
      check (not (ltb_ℤ value min)) field (field +++ " must be at least " +++ l.digits min) v

  unfoldable pub at_most : String → ℤ → ℤ → Validator → Validator
  at_most field value max v =
      check (not (ltb_ℤ max value)) field (field +++ " must not exceed " +++ l.digits max) v

  unfoldable pub range : String → ℤ → ℤ → ℤ → Validator → Validator
  range field value min max v =
      check (not (ltb_ℤ value min || ltb_ℤ max value)) field
        (field +++ " must be between " +++ l.digits min +++ " and " +++ l.digits max) v

  unfoldable pub uuid : String → String → Validator → Validator
  uuid field value v = check (l.is_uuid value) field (field +++ " must be a valid UUID") v

  unfoldable pub email : String → String → Validator → Validator
  email field value v =
      check (has_matched (l.matches "^[a-zA-Z0-9._%+-]+@[a-zA-Z0-9.-]+\\.[a-zA-Z]{2,}$" value))
        field (field +++ " must be a valid email address") v

  unfoldable pub pattern_of : String → String → String → String → Validator → Validator
  unfolding add_error
  pattern_of field value pattern_text message v = elim (l.matches pattern_text value) [
    | none ↦ add_error field "invalid pattern" v
    | some matched ↦ check matched field message v
  ]

  unfoldable pub enum : String → String → List String → Validator → Validator
  unfolding is_one_of
  enum field value allowed v =
      check (is_one_of value allowed) field (field +++ " must be one of: " +++ l.join allowed) v

  unfoldable pub json : String → String → Validator → Validator
  json field value v = check (l.is_json value) field (field +++ " must be valid JSON") v

  unfoldable pub cron_expression : String → String → Validator → Validator
  unfolding is_one_of starts_with_at
  cron_expression field value v =
      if str_eq value ""
      then v
      else if starts_with_at value
      then check (is_one_of value cron_shortcuts) field (field +++ " is not a valid cron shortcut")
          v
      else check (l.field_count value == 5 || l.field_count value == 6) field
          (field +++ " must be a valid cron expression") v

unfoldable pub custom : String → Bool → String → Validator → Validator
custom field valid message v = check valid field message v

unfoldable pub if_holds : Bool → (Validator → Validator) → Validator → Validator
if_holds condition fn v = if condition then fn v else v

unfoldable pub validate : (Validator → Validator) → Option AppError
unfolding has_errors error
validate fn = if has_errors (fn empty) then error (fn empty) else none
