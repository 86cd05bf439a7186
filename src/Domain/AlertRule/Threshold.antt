-- ===== src/Domain/AlertRule/Threshold.antt =====
-- The operators of EvaluateThreshold against an independent reading of them.
use orchestrix_api.Common.{
  ◌≡◌, ◌≢◌, refl, ◌↔◌, ◌⊎◌, ◌≤◌, ◌<◌, Bool, true, Bool-cases, inl, inr, ap, String, arith, str_eq,
  eq_iff,
}
use orchestrix_api.Domain.Errors.{invalid_operator}
use orchestrix_api.Domain.Values.{
  Float64, nan, at_rank, gt_float, ge_float, lt_float, le_float, eq_float, ne_float, parsed,
}
use orchestrix_api.Domain.AlertRule.{
  ThresholdCondition, AlertRule, Checked, failed, value, compare_threshold, evaluate_threshold,
  parse_threshold_condition, evaluate_with,
}

-- The operators, with the names that a condition gives them.
pub data Operator : Type 0 where
  gt gte lt lte eq neq : Operator

abbrev pub spelling : Operator → String
spelling gt = "gt"
spelling gte = "gte"
spelling lt = "lt"
spelling lte = "lte"
spelling eq = "eq"
spelling neq = "neq"

-- What an operator says of two float64 values: a comparison with NaN is false, but for `neq`.
abbrev pub Holds : Operator → Float64 → Float64 → Type 0
Holds gt (at_rank a) (at_rank b) = b < a
Holds gte (at_rank a) (at_rank b) = b ≤ a
Holds lt (at_rank a) (at_rank b) = a < b
Holds lte (at_rank a) (at_rank b) = a ≤ b
Holds eq (at_rank a) (at_rank b) = a ≡ b
Holds neq (at_rank a) (at_rank b) = a ≢ b
Holds neq _ _ = Unit
Holds _ _ _ = ⊥

abbrev pub test : Operator → Float64 → Float64 → Bool
test gt v t = gt_float v t
test gte v t = ge_float v t
test lt v t = lt_float v t
test lte v t = le_float v t
test eq v t = eq_float v t
test neq v t = ne_float v t

compare_threshold-spelling :
    (op : Operator) (v t : Float64) → compare_threshold (spelling op) v t ≡ value (test op v t)
unfolding compare_threshold
compare_threshold-spelling gt v t = refl
compare_threshold-spelling _ v t = refl

pub test_iff : (op : Operator) (v t : Float64) → (test op v t ≡ true) ↔ Holds op v t
unfolding gt_float ge_float lt_float le_float eq_float ne_float
test_iff gt (at_rank a) (at_rank b) = ground arith
test_iff neq (at_rank a) (at_rank b) = (λ h. ground arith, λ h. ground arith)
test_iff neq nan t = (λ h. tt, λ h. refl)
test_iff neq (at_rank a) nan = (λ h. tt, λ h. refl)
test_iff _ (at_rank a) (at_rank b) = ground arith
test_iff _ nan t = (λ h. cc, λ h. absurd h)
test_iff _ (at_rank a) nan = (λ h. cc, λ h. absurd h)

-- A text that spells no operator is refused.
known_operator :
    (s : String)
    → ((op : Operator) × (s ≡ spelling op))
      ⊎ ((v t : Float64) → compare_threshold s v t ≡ failed invalid_operator)
unfolding compare_threshold
known_operator s = elim (Bool-cases (str_eq s "gt")) [
  | inl e ↦ inl (gt, (eq_iff s "gt").0 e)
  | inr n1 ↦ elim (Bool-cases (str_eq s "gte")) [
    | inl e ↦ inl (gte, (eq_iff s "gte").0 e)
    | inr n2 ↦ elim (Bool-cases (str_eq s "lt")) [
      | inl e ↦ inl (lt, (eq_iff s "lt").0 e)
      | inr n3 ↦ elim (Bool-cases (str_eq s "lte")) [
        | inl e ↦ inl (lte, (eq_iff s "lte").0 e)
        | inr n4 ↦ elim (Bool-cases (str_eq s "eq")) [
          | inl e ↦ inl (eq, (eq_iff s "eq").0 e)
          | inr n5 ↦ elim (Bool-cases (str_eq s "neq")) [
            | inl e ↦ inl (neq, (eq_iff s "neq").0 e)
            | inr n6 ↦ inr (λ v t. rw (n1, n2, n3, n4, n5, n6))
          ]
        ]
      ]
    ]
  ]
]

-- A rule fires on a value: its condition is a threshold with an operator that holds of the value.
pub record Fires (v : Float64) (r : AlertRule) : Type 0 where
  pub condition : ThresholdCondition
  pub operator : Operator
  pub of_type : r.condition_type ≡ "threshold"
  pub configured : r.condition_config ≡ parsed condition
  pub spelled : condition.operator ≡ spelling operator
  pub holds : Holds operator v condition.threshold

value-injective : {a b : Bool} → value a ≡ value b → a ≡ b
value-injective e = cc

compare_threshold-Fires :
    (v : Float64) (r : AlertRule) (cond : ThresholdCondition)
    → r.condition_type ≡ "threshold"
    → r.condition_config ≡ parsed cond
    → compare_threshold cond.operator v cond.threshold ≡ value true
    → Fires v r
compare_threshold-Fires v r cond ty conf h = elim (known_operator cond.operator) [
  | inl (op, s) ↦ record {
    condition = cond;
    operator = op;
    of_type = ty;
    configured = conf;
    spelled = s;
    holds = (test_iff op v cond.threshold).0 (
        cc (
          h,
          ap (λ o. compare_threshold o v cond.threshold) s,
          compare_threshold-spelling op v cond.threshold,
        ));
  }
  | inr refused ↦ absurd (cc (refused v cond.threshold))
]

parse_threshold_condition_value :
    (r : AlertRule) {cond : ThresholdCondition}
    → parse_threshold_condition r ≡ value cond
    → (r.condition_type ≡ "threshold") × (r.condition_config ≡ parsed cond)
unfolding parse_threshold_condition
parse_threshold_condition_value r h =
    (ground (arith, eq_iff r.condition_type "threshold"), ground arith)

parse_threshold_condition_lem :
    (r : AlertRule) (cond : ThresholdCondition)
    → r.condition_type ≡ "threshold"
    → r.condition_config ≡ parsed cond
    → parse_threshold_condition r ≡ value cond
unfolding parse_threshold_condition
parse_threshold_condition_lem r cond ty conf = ground (arith, eq_iff r.condition_type "threshold")

evaluate_with-Fires :
    (v : Float64) (r : AlertRule) (c : Checked ThresholdCondition)
    → parse_threshold_condition r ≡ c
    → evaluate_with c v ≡ value true
    → Fires v r
evaluate_with-Fires v r (failed e) p h = cc
evaluate_with-Fires v r (value cond) p h =
    let (ty, conf) = parse_threshold_condition_value r p in
    compare_threshold-Fires v r cond ty conf h

evaluate_threshold-Fires :
    (v : Float64) (r : AlertRule) → evaluate_threshold v r ≡ value true → Fires v r
unfolding evaluate_threshold
evaluate_threshold-Fires v r h = evaluate_with-Fires v r (parse_threshold_condition r) refl h

Fires-evaluate_threshold :
    (v : Float64) (r : AlertRule) → Fires v r → evaluate_threshold v r ≡ value true
unfolding evaluate_threshold
Fires-evaluate_threshold v r f =
    let c = f.condition in
    rw (parse_threshold_condition_lem r c f.of_type f.configured) (
      cc (
        ap (λ o. compare_threshold o v c.threshold) f.spelled,
        compare_threshold-spelling f.operator v c.threshold,
        ap value ((test_iff f.operator v c.threshold).1 f.holds),
      ))

-- EvaluateThreshold returns true exactly for a rule whose condition is a threshold with one of the
-- six operators that holds of the value; with NaN on either side only `neq` holds.
pub evaluate_threshold_iff :
    (v : Float64) (r : AlertRule) → (evaluate_threshold v r ≡ value true) ↔ Fires v r
evaluate_threshold_iff v r = (evaluate_threshold-Fires v r, Fires-evaluate_threshold v r)
