-- ===== src/Evaluator/Rendering.antt =====
-- The texts that an alert and its workflow are given: AlertTemplateData, renderTemplate and
-- renderInputTemplate.
use orchestrix_api.Common.{ℕ, String, Option, none, some, List, if◌then◌else◌, str_eq}
use orchestrix_api.Domain.Values.{Float64}
use orchestrix_api.Engine.Definition.{Json, text, object, opaque, Fields, no_fields, field}
use orchestrix_api.Evaluator.Templates.{codes, convert_template_delimiters}

pub record AlertTemplateData : Type 0 where
  pub metric_name : String
  pub value : Float64
  pub threshold : Float64
  pub operator : String
  pub labels : String
  pub source : String
  pub timestamp : String
  pub rule_name : String
  pub severity : String

-- Go's text/template, given a text by its code points: none if it does not parse or execute.
abbrev pub Engine : Type 0
Engine = List ℕ → AlertTemplateData → Option String

-- renderTemplate
unfoldable pub render : Engine → AlertTemplateData → String → Option String
unfolding codes convert_template_delimiters
render engine d s = engine (convert_template_delimiters (codes s)) d

-- The rendered text, or the template itself where that fails.
unfoldable pub render_or_keep : Engine → AlertTemplateData → String → String
unfolding render
render_or_keep engine d s = elim (render engine d s) [ none ↦ s | some rendered ↦ rendered ]

-- `message, _ = renderTemplate(...)` for a template that is there.
abbrev rendered_or_empty : Option String → String
rendered_or_empty none = ""
rendered_or_empty (some s) = s

unfoldable pub render_message : Engine → AlertTemplateData → Option String → String
unfolding render
render_message engine d none = ""
render_message engine d (some s) = if str_eq s "" then "" else rendered_or_empty (render engine d s)

-- renderInputTemplate: the texts are rendered, at any depth; all else stays.
unfoldable mutual
  unfolding render_or_keep

  pub render_input_template : Engine → AlertTemplateData → Fields → Fields
  render_input_template engine d no_fields = no_fields
  render_input_template engine d (field k v fs) =
      field k (render_value engine d v) (render_input_template engine d fs)

  pub render_value : Engine → AlertTemplateData → Json → Json
  render_value engine d (text s) = text (render_or_keep engine d s)
  render_value engine d (object fs) = object (render_input_template engine d fs)
  render_value engine d (opaque s) = opaque s

-- stringPtr
unfoldable pub string_ptr : String → Option String
string_ptr s = if str_eq s "" then none else some s
