-- ===== src/Evaluator/Deciding.antt =====
-- Which rules a metric triggers: `operators`, evaluateRule, and the query that picks the rules.
use orchestrix_api.Common.{
  String, ◌≡◌, refl, ap, sym, ◌∙◌, ◌↔◌, Bool, true, false, Option, none, some, str_eq, eq_iff,
  if◌then◌else◌, not, Bool-cases, inl, inr, ◌⊎◌,
}
use orchestrix_api.Fault.{Error, Result, ok, err}
use orchestrix_api.Domain.Values.{
  Time, Raw, absent, malformed, mistyped, parsed, Float64, gt_float, ge_float, lt_float, le_float,
  eq_float, ne_float,
}
use orchestrix_api.Domain.AlertRule.{ThresholdCondition}
use orchestrix_api.Domain.AlertRule.Threshold.{
  Operator, gt, gte, lt, lte, eq, neq, Holds, test, test_iff,
}
use orchestrix_api.Db.Rows.{AlertRuleRow}

pub record MetricData : Type 0 where
  pub name : String
  pub value : Float64
  pub labels : String
  pub source : String
  pub timestamp : Time

-- The map `operators`; none is a key that it has not.
unfoldable pub operator_of : String → Option (Float64 → Float64 → Bool)
operator_of s =
    if str_eq s "gt"
    then some gt_float
    else if str_eq s "gte"
    then some ge_float
    else if str_eq s "lt"
    then some lt_float
    else if str_eq s "lte"
    then some le_float
    else if str_eq s "eq"
    then some eq_float
    else if str_eq s "ne"
    then some ne_float
    else none

abbrev pub compare_with : Option (Float64 → Float64 → Bool) → Float64 → Float64 → Bool
compare_with none v t = false
compare_with (some f) v t = f v t

unfoldable pub evaluate_condition : ThresholdCondition → MetricData → Bool
unfolding operator_of
evaluate_condition cond m =
    if not (str_eq cond.metric_name m.name)
    then false
    else compare_with (operator_of cond.operator) m.value cond.threshold

-- `unmarshal_error` is the error of json.Unmarshal for a config that does not decode.
abbrev evaluate_config :
    (Raw ThresholdCondition → Error) → Raw ThresholdCondition → MetricData → Result Bool
evaluate_config unmarshal_error absent m = err (unmarshal_error absent)
evaluate_config unmarshal_error malformed m = err (unmarshal_error malformed)
evaluate_config unmarshal_error mistyped m = err (unmarshal_error mistyped)
evaluate_config unmarshal_error (parsed cond) m = ok (evaluate_condition cond m)

unfoldable pub evaluate_rule :
    (Raw ThresholdCondition → Error) → AlertRuleRow → MetricData → Result Bool
unfolding evaluate_condition
evaluate_rule unmarshal_error r m = evaluate_config unmarshal_error r.condition_config m

-- The names of the operators here: unlike the domain's, `ne` has no q.
abbrev pub key : Operator → String
key gt = "gt"
key gte = "gte"
key lt = "lt"
key lte = "lte"
key eq = "eq"
key neq = "ne"

-- A condition is met by a metric: of its name, with an operator that holds of its value.
pub record Meets (m : MetricData) (cond : ThresholdCondition) : Type 0 where
  pub operator : Operator
  pub named : cond.metric_name ≡ m.name
  pub spelled : cond.operator ≡ key operator
  pub holds : Holds operator m.value cond.threshold

operator_of-key : (op : Operator) → operator_of (key op) ≡ some (test op)
unfolding operator_of
operator_of-key gt = refl
operator_of-key _ = refl

operator_known : (s : String) → ((op : Operator) × (s ≡ key op)) ⊎ (operator_of s ≡ none)
unfolding operator_of
operator_known s = elim (Bool-cases (str_eq s "gt")) [
  | inl e ↦ inl (gt, (eq_iff s "gt").0 e)
  | inr n1 ↦ elim (Bool-cases (str_eq s "gte")) [
    | inl e ↦ inl (gte, (eq_iff s "gte").0 e)
    | inr n2 ↦ elim (Bool-cases (str_eq s "lt")) [
      | inl e ↦ inl (lt, (eq_iff s "lt").0 e)
      | inr n3 ↦ elim (Bool-cases (str_eq s "lte")) [
        | inl e ↦ inl (lte, (eq_iff s "lte").0 e)
        | inr n4 ↦ elim (Bool-cases (str_eq s "eq")) [
          | inl e ↦ inl (eq, (eq_iff s "eq").0 e)
          | inr n5 ↦ elim (Bool-cases (str_eq s "ne")) [
            | inl e ↦ inl (neq, (eq_iff s "ne").0 e)
            | inr n6 ↦ inr (rw (n1, n2, n3, n4, n5, n6) refl)
          ]
        ]
      ]
    ]
  ]
]

compare_with-key :
    (cond : ThresholdCondition) (m : MetricData) (op : Operator)
    → cond.operator ≡ key op
    → compare_with (operator_of cond.operator) m.value cond.threshold
      ≡ test op m.value cond.threshold
compare_with-key cond m op q =
    ap (λ s. compare_with (operator_of s) m.value cond.threshold) q
    ∙ ap (λ f. compare_with f m.value cond.threshold) (operator_of-key op)

evaluate_condition-Meets :
    (cond : ThresholdCondition) (m : MetricData) → evaluate_condition cond m ≡ true → Meets m cond
unfolding evaluate_condition
evaluate_condition-Meets cond m h = elim (Bool-cases (str_eq cond.metric_name m.name)) [
  | inr other ↦ cc (rw other at h)
  | inl same ↦ elim (operator_known cond.operator) [
    | inr none_such ↦ cc (ap (λ f. compare_with f m.value cond.threshold) none_such, rw same at h)
    | inl (op, q) ↦ record {
      operator = op;
      named = (eq_iff cond.metric_name m.name).0 same;
      spelled = q;
      holds =
          (test_iff op m.value cond.threshold).0
            (sym (compare_with-key cond m op q) ∙ (rw same at h));
    }
  ]
]

Meets-evaluate_condition :
    (cond : ThresholdCondition) (m : MetricData) → Meets m cond → evaluate_condition cond m ≡ true
unfolding evaluate_condition
Meets-evaluate_condition cond m h = rw ((eq_iff cond.metric_name m.name).1 h.named) (
    compare_with-key cond m h.operator h.spelled
    ∙ (test_iff h.operator m.value cond.threshold).1 h.holds)

-- A rule is triggered by a metric exactly if its config decodes to a condition on a metric of that
-- name whose operator holds of the value; an operator that is none of the six triggers nothing.
pub evaluate_rule_iff :
    (unmarshal_error : Raw ThresholdCondition → Error) (r : AlertRuleRow) (m : MetricData)
    → (evaluate_rule unmarshal_error r m ≡ ok true)
      ↔ ((cond : ThresholdCondition) × (r.condition_config ≡ parsed cond) × Meets m cond)
unfolding evaluate_rule
evaluate_rule_iff unmarshal_error r m = (go r.condition_config refl, back)
  where
    go :
        (c : Raw ThresholdCondition)
        → r.condition_config ≡ c
        → evaluate_config unmarshal_error r.condition_config m ≡ ok true
        → (cond : ThresholdCondition) × (r.condition_config ≡ parsed cond) × Meets m cond
    go absent q h = cc (ap (λ c. evaluate_config unmarshal_error c m) q, h)
    go malformed q h = cc (ap (λ c. evaluate_config unmarshal_error c m) q, h)
    go mistyped q h = cc (ap (λ c. evaluate_config unmarshal_error c m) q, h)
    go (parsed cond) q h = (
      cond,
      q,
      evaluate_condition-Meets cond m (cc (ap (λ c. evaluate_config unmarshal_error c m) q, h)),
    )

    back :
        ((cond : ThresholdCondition) × (r.condition_config ≡ parsed cond) × Meets m cond)
        → evaluate_config unmarshal_error r.condition_config m ≡ ok true
    back (cond, q, h) =
        ap (λ c. evaluate_config unmarshal_error c m) q
        ∙ ap (λ b. ok b) (Meets-evaluate_condition cond m h)
