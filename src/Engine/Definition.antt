-- ===== src/Engine/Definition.antt =====
-- internal/workflow/definition.go
use orchestrix_api.Common.{
  ℕ, zero, suc, ◌==◌, ◌+◌, ◌/◌, ◌%◌, String, ◌+++◌, Bool, Option, List, [], ◌∷◌, ℤ, is_empty,
  str_eq, if◌then◌else◌,
}
use orchestrix_api.Fault.{wrapped, other, Result, ok, err}
use orchestrix_api.Domain.Values.{Float64}

-- A JSON value as far as the interpreter looks into it: texts and objects. Any other stands as its
-- own text.
mutual
  pub data Json : Type 0 where
    text : String → Json
    object : Fields → Json
    opaque : String → Json

  -- The entries of a `map[string]interface{}`, whose keys differ.
  pub data Fields : Type 0 where
    no_fields : Fields
    field : String → Json → Fields → Fields

pub record RetryPolicyDef : Type 0 where
  pub max_attempts : ℤ
  pub initial_interval : String
  pub max_interval : String
  pub multiplier : Float64

-- StepDefinition and its nested lists OnTrue, OnFalse and Parallel.
mutual
  pub data StepDefinition : Type 0 where
    step :
        String
        → String
        → String
        → Fields
        → String
        → Option RetryPolicyDef
        → Bool
        → String
        → StepDefinitions
        → StepDefinitions
        → StepDefinitions
        → StepDefinition

  pub data StepDefinitions : Type 0 where
    no_steps : StepDefinitions
    more_steps : StepDefinition → StepDefinitions → StepDefinitions

module _ where
  abbrev pub id_of : StepDefinition → String
  id_of (step id name kind config timeout retry go_on condition on_true on_false parallel) = id

  abbrev pub name_of : StepDefinition → String
  name_of (step id name kind config timeout retry go_on condition on_true on_false parallel) = name

  abbrev pub kind_of : StepDefinition → String
  kind_of (step id name kind config timeout retry go_on condition on_true on_false parallel) = kind

  abbrev pub config_of : StepDefinition → Fields
  config_of (step id name kind config timeout retry go_on condition on_true on_false parallel) =
      config

  abbrev pub timeout_of : StepDefinition → String
  timeout_of (step id name kind config timeout retry go_on condition on_true on_false parallel) =
      timeout

  abbrev pub retry_of : StepDefinition → Option RetryPolicyDef
  retry_of (step id name kind config timeout retry go_on condition on_true on_false parallel) =
      retry

  -- ContinueOnError
  abbrev pub goes_on : StepDefinition → Bool
  goes_on (step id name kind config timeout retry go_on condition on_true on_false parallel) = go_on

  -- The assignments to the ID and the Name of a step.
  abbrev pub rename : String → String → StepDefinition → StepDefinition
  rename id' name'
        (step id name kind config timeout retry go_on condition on_true on_false parallel) =
      step id' name' kind config timeout retry go_on condition on_true on_false parallel

pub record WorkflowDefinition : Type 0 where
  pub version : String
  pub name : String
  pub description : String
  pub timeout : String
  pub retry_policy : Option RetryPolicyDef
  pub steps : List StepDefinition
  pub on_error : List StepDefinition
  pub on_success : List StepDefinition

-- The decimal text of a number, as `%d` writes it. The first argument bounds the digits: a number
-- has no more of them than its own value and one.
abbrev digit : ℕ → String
digit n =
    if n == 0
    then "0"
    else if n == 1
    then "1"
    else if n == 2
    then "2"
    else if n == 3
    then "3"
    else if n == 4
    then "4"
    else if n == 5
    then "5"
    else if n == 6
    then "6"
    else if n == 7
    then "7"
    else if n == 8
    then "8"
    else "9"

abbrev digits_from : ℕ → ℕ → String
digits_from zero n = digit (n % 10)
digits_from (suc fuel) n =
    let rest = digits_from fuel (n / 10) in
    if n / 10 == 0 then digit (n % 10) else rest +++ digit (n % 10)

abbrev pub decimal : ℕ → String
decimal n = digits_from n n

-- fmt.Sprintf("step_%d", i)
abbrev pub index_key : ℕ → String
index_key i = "step_" +++ decimal i

abbrev pub default_if_empty : String → String → String
default_if_empty s default = if str_eq s "" then default else s

-- The body of the loop over the steps, at the i-th.
unfoldable pub complete_step : ℕ → StepDefinition → StepDefinition
complete_step i s =
    rename (default_if_empty (id_of s) (index_key (i + 1)))
      (default_if_empty (name_of s) (kind_of s)) s

-- The loop: it ends with an error at a step without a type.
unfoldable pub complete_steps : ℕ → List StepDefinition → Result (List StepDefinition)
unfolding complete_step
complete_steps i [] = ok []
complete_steps i (s ∷ ss) =
    let rest = complete_steps (suc i) ss in
    if str_eq (kind_of s) ""
    then err (other ("step " +++ decimal i +++ ": type is required"))
    else elim rest [ ok ts ↦ ok (complete_step i s ∷ ts) | err e ↦ err e ]

unfoldable pub validate_definition : WorkflowDefinition → Result WorkflowDefinition
unfolding complete_steps
validate_definition def =
    if is_empty def.steps
    then err (other "workflow definition must have at least one step")
    else elim (complete_steps 0 def.steps) [
      | ok steps ↦ ok (record def { steps = steps })
      | err e ↦ err e
    ]

-- ParseDefinition, from what json.Unmarshal made of the text.
unfoldable pub parse_definition : Result WorkflowDefinition → Result WorkflowDefinition
unfolding validate_definition
parse_definition (err e) = err (wrapped "failed to parse workflow definition" e)
parse_definition (ok def) = validate_definition def

pub record HttpConfig : Type 0 where
  pub url : String
  pub method : String
  pub headers : List (String × String)
  pub body : Option Json
  pub timeout : String
  pub success_codes : List ℤ

pub record LogConfig : Type 0 where
  pub level : String
  pub message : String

pub record NotifyConfig : Type 0 where
  pub channel : String
  pub target : String
  pub message : String
  pub values : List (String × String)

-- The defaults of ParseHTTPConfig, ParseDelayConfig and ParseLogConfig.
unfoldable pub complete_http : HttpConfig → HttpConfig
complete_http c = record c {
  method = default_if_empty c.method "GET";
  success_codes =
      if is_empty c.success_codes
      then ℤ.pos 200 ∷ ℤ.pos 201 ∷ ℤ.pos 202 ∷ ℤ.pos 204 ∷ []
      else c.success_codes;
}

unfoldable pub complete_delay : String → String
complete_delay duration = default_if_empty duration "1s"

unfoldable pub complete_log : LogConfig → LogConfig
complete_log c = record c { level = default_if_empty c.level "info" }
