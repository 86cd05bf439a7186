-- ===== src/Validation/Reporting.antt =====
-- What Validate reports: nothing, or the last message for each field that has one.
use orchestrix_api.Common.{
  String, ◌≡◌, Option, none, some, List, [], ◌∷◌, or_else, str_eq, lookup, if◌then◌else◌,
}
use orchestrix_api.Fault.{AppError}
use orchestrix_api.Apperror.Constructors.{validation_with_fields}
use orchestrix_api.Validation.{Validator}

-- The last message that was added for a field.
abbrev pub last_message : String → Validator → Option String
last_message f [] = none
last_message f (e ∷ es) =
    or_else (last_message f es) (if str_eq e.field f then some e.message else none)

-- What Validate returns for the errors that its function leaves.
pub record Reports (es : Validator) (a : AppError) : Type 0 where
  pub fields : List (String × String)
  pub made : a ≡ validation_with_fields fields
  pub entries : (f : String) → lookup f fields ≡ last_message f es
