-- ===== src/Engine/Parsing.antt =====
-- What ParseDefinition accepts, and what it fills in.
use orchestrix_api.Common.{
  ℕ, suc, String, ◌+++◌, ◌≡◌, ◌≢◌, refl, ap, true, false, List, [], ◌∷◌, str_eq, eq_iff, arith, ◌⊎◌,
  inl, inr, ◌+◌, Bool-cases, is_empty,
}
use orchestrix_api.Fault.{Error, other, ok, err}
use orchestrix_api.Engine.Definition.{
  StepDefinition, step, id_of, name_of, kind_of, rename, WorkflowDefinition, index_key, decimal,
  default_if_empty, complete_step, complete_steps, validate_definition,
}

-- The steps that the interpreter is given have a type, and so an ID and a name, which are the
-- definition's own where it gives them.
pub data Completed : ℕ → List StepDefinition → List StepDefinition → Type 0 where
  no_more : (i : ℕ) → Completed i [] []
  more :
      (i : ℕ) (s t : StepDefinition) (ss ts : List StepDefinition)
      → t ≡ rename (id_of t) (name_of t) s
      → kind_of t ≢ ""
      → ((id_of s ≢ "") × (id_of t ≡ id_of s)) ⊎ ((id_of s ≡ "") × (id_of t ≡ index_key (i + 1)))
      → ((name_of s ≢ "") × (name_of t ≡ name_of s)) ⊎ ((name_of s ≡ "") × (name_of t ≡ kind_of s))
      → Completed (suc i) ss ts
      → Completed i (s ∷ ss) (t ∷ ts)

-- A step without a type.
pub data Untyped : List StepDefinition → Type 0 where
  here : (s : StepDefinition) (ss : List StepDefinition) → kind_of s ≡ "" → Untyped (s ∷ ss)
  there : (s : StepDefinition) (ss : List StepDefinition) → Untyped ss → Untyped (s ∷ ss)

default_cases :
    (s d : String)
    → ((s ≢ "") × (default_if_empty s d ≡ s)) ⊎ ((s ≡ "") × (default_if_empty s d ≡ d))
default_cases s d = elim (Bool-cases (str_eq s "")) [
  | inl empty ↦ inr ((eq_iff s "").0 empty, rw empty refl)
  | inr given ↦ inl (λ e. cc ((eq_iff s "").1 e, given), rw given refl)
]

complete_steps_lem :
    (i : ℕ) (ss : List StepDefinition)
    → ((ts : List StepDefinition) × (complete_steps i ss ≡ ok ts) × Completed i ss ts)
      ⊎ ((e : Error) × (complete_steps i ss ≡ err e) × Untyped ss)
unfolding complete_steps complete_step
complete_steps_lem i [] = inl ([], refl, no_more i)
complete_steps_lem i (s ∷ ss) = elim (Bool-cases (str_eq (kind_of s) "")) [
  | inl empty ↦ inr (
    other ("step " +++ decimal i +++ ": type is required"),
    rw empty refl,
    here s ss ((eq_iff (kind_of s) "").0 empty),
  )
  | inr typed ↦ elim (complete_steps_lem (suc i) ss) [
    | inl (ts, q, c) ↦ inl (complete_step i s ∷ ts, rw (typed, q) refl, added i s ss ts typed c)
    | inr (e, q, u) ↦ inr (e, rw (typed, q) refl, there s ss u)
  ]
]
  where
    added :
        (i : ℕ) (s : StepDefinition) (ss ts : List StepDefinition)
        → str_eq (kind_of s) "" ≡ false
        → Completed (suc i) ss ts
        → Completed i (s ∷ ss) (complete_step i s ∷ ts)
    added i (step id name kind config timeout retry go_on condition on_true on_false parallel) ss ts
          typed c =
        more i _ _ ss ts refl (λ q. cc ((eq_iff kind "").1 q))
          (default_cases id (index_key (i + 1))) (default_cases name kind) c

-- ParseDefinition refuses a definition that has no steps or a step without a type, and no other that
-- decodes. Of the one that it returns, each step has a type, keeps its own ID and name, and takes the
-- ID step_i (counted from 1) or its type as the name where it has none; nothing else is changed.
pub validate_definition_lem :
    (def : WorkflowDefinition)
    → ((ts : List StepDefinition) × (validate_definition def ≡ ok (record def { steps = ts }))
        × (def.steps ≢ [])
        × Completed 0 def.steps ts)
      ⊎ ((e : Error) × (validate_definition def ≡ err e) × ((def.steps ≡ []) ⊎ Untyped def.steps))
unfolding validate_definition
validate_definition_lem def = elim (Bool-cases (is_empty def.steps)) [
  | inl empty ↦ inr (
    other "workflow definition must have at least one step",
    rw empty refl,
    inl (empty-nil def.steps empty),
  )
  | inr given ↦ elim (complete_steps_lem 0 def.steps) [
    | inl (ts, q, c) ↦ inl (ts, rw (given, q) refl, λ e. cc (ap (λ l. is_empty l) e), c)
    | inr (e, q, u) ↦ inr (e, rw (given, q) refl, inr u)
  ]
]
  where
    empty-nil : (ss : List StepDefinition) → is_empty ss ≡ true → ss ≡ []
    empty-nil ss q = ground arith
