-- ===== src/Service/Metric/Defining.antt =====
-- When a definition is created, and what an update of one leaves.
use orchestrix_api.Common.{
  String, ◌≡◌, refl, ◌⊎◌, Bool, true, false, Bool-cases, inl, inr, Option, none, some, ◌∷◌,
  override, override_pointer,
}
use orchestrix_api.Fault.{Error, sentinel, Result, ok, err, is_error}
use orchestrix_api.Domain.Errors.{metric_definition_exists}
use orchestrix_api.Domain.Values.{Uuid, Time}
use orchestrix_api.Domain.Metric.{MetricDefinition}
use orchestrix_api.Port.Inputs.{CreateMetricDefinitionInput, UpdateMetricDefinitionInput}
use orchestrix_api.Port.Call.{Ports, History, set_tenant_context, read, save_definition}
use orchestrix_api.Port.Action.{Action, ask, attempt, ◌>>=◌}
use orchestrix_api.Port.After.{After, After-pure, After-bind, After-gets-bind, After-write-bind}
use orchestrix_api.Service.Metric.{
  is_definition_not_found, check_absent, new_definition, apply_update, create_definition,
}

-- The definition that an input asks for.
pub record IsDefinitionOf (i : CreateMetricDefinitionInput) (d : MetricDefinition) : Type 0 where
  pub tenant_id : d.tenant_id ≡ i.tenant_id
  pub name : d.name ≡ i.name
  pub display_name : d.display_name ≡ i.display_name
  pub description : d.description ≡ i.description
  pub unit : d.unit ≡ i.unit
  pub kind : d.kind ≡ i.kind
  pub aggregation : d.aggregation ≡ i.aggregation
  pub alert_threshold : d.alert_threshold ≡ i.alert_threshold
  pub retention_days : d.retention_days ≡ i.retention_days

new_definition-IsDefinitionOf :
    (id : Uuid) (created updated : Time) (i : CreateMetricDefinitionInput)
    → IsDefinitionOf i (new_definition id created updated i)
new_definition-IsDefinitionOf id created updated i = record {
  tenant_id = refl;
  name = refl;
  display_name = refl;
  description = refl;
  unit = refl;
  kind = refl;
  aggregation = refl;
  alert_threshold = refl;
  retention_days = refl;
}

-- How CreateDefinition ends, with the calls that it made.
pub data Created (p : Ports) (i : CreateMetricDefinitionInput) (h : History)
    : Result MetricDefinition → History → Type 0 where
  unset :
      (e : Error)
      → p.set_tenant h i.tenant_id ≡ err e
      → Created p i h (err e) (set_tenant_context i.tenant_id ∷ h)
  exists :
      (d : MetricDefinition)
      → p.definitions.find_by_name (set_tenant_context i.tenant_id ∷ h) i.tenant_id i.name ≡ ok d
      → Created p i h
          (err (sentinel metric_definition_exists))
          (read "definition by name" ∷ set_tenant_context i.tenant_id ∷ h)
  not_read :
      (e : Error)
      → p.definitions.find_by_name (set_tenant_context i.tenant_id ∷ h) i.tenant_id i.name ≡ err e
      → is_error is_definition_not_found e ≡ false
      → Created p i h (err e) (read "definition by name" ∷ set_tenant_context i.tenant_id ∷ h)
  tried :
      (e : Error) (d : MetricDefinition) (r : Result MetricDefinition) (done : Bool)
      → p.definitions.find_by_name (set_tenant_context i.tenant_id ∷ h) i.tenant_id i.name ≡ err e
      → is_error is_definition_not_found e ≡ true
      → IsDefinitionOf i d
      → ((x : Error) × (p.definitions.save
              (read "definition by name" ∷ set_tenant_context i.tenant_id ∷ h)
              d
            ≡ err x)
          × (r ≡ err x)
          × (done ≡ false))
        ⊎ ((p.definitions.save (read "definition by name" ∷ set_tenant_context i.tenant_id ∷ h) d
              ≡ ok tt)
            × (r ≡ ok d)
            × (done ≡ true))
      → Created p i h r
          (save_definition d done ∷ read "definition by name" ∷ set_tenant_context i.tenant_id ∷ h)

-- What the look-up and the tests that follow it do, for any rest of the block.
module _ (p : Ports) (B : Type 0) (Q : Result B → History → Type 0) (what : String) (h : History)
    (k : Unit {0} → Action B) where
  abbrev Exists : Result MetricDefinition → Type 0
  Exists r =
      (d : MetricDefinition)
      → r ≡ ok d
      → Q (err (sentinel metric_definition_exists)) (read what ∷ h)

  abbrev Unknown : Result MetricDefinition → Type 0
  Unknown r =
      (e : Error)
      → r ≡ err e
      → is_error is_definition_not_found e ≡ false
      → Q (err e) (read what ∷ h)

  abbrev Absent : Result MetricDefinition → Type 0
  Absent r =
      (e : Error)
      → r ≡ err e
      → is_error is_definition_not_found e ≡ true
      → After Q (k tt) (read what ∷ h)

  After-check_absent-bind :
      (r : Result MetricDefinition)
      → Exists r
      → Unknown r
      → Absent r
      → After Q (check_absent p r >>= k) (read what ∷ h)
  unfolding ◌>>=◌
  After-check_absent-bind (ok d) f g a = record { at = f d refl }
  After-check_absent-bind (err e) f g a = elim (Bool-cases (is_error is_definition_not_found e)) [
    | inl absent ↦ record { at = rw absent (a e refl absent).at }
    | inr present ↦ record { at = rw present (g e refl present) }
  ]

  After-find-bind :
      (f : History → Result MetricDefinition)
      → Exists (f h)
      → Unknown (f h)
      → Absent (f h)
      → After Q (attempt (ask what f) >>= λ found. check_absent p found >>= k) h
  unfolding ◌>>=◌
  After-find-bind f found unknown absent = record {
    at = (After-check_absent-bind (f h) found unknown absent).at;
  }

module _ (p : Ports) where
  create_definition-After :
      (i : CreateMetricDefinitionInput) (h : History)
      → After (Created p i h) (create_definition p i) h
  unfolding create_definition
  create_definition-After i h =
      After-bind _ _ _ (λ e q. unset e q)
        λ _ _.
          After-find-bind p _ _ _ _ _ _ (λ d q. exists d q) (λ e q b. not_read e q b)
            λ e q b. After-gets-bind _ _ _ (
              After-gets-bind _ _ _ (
                After-gets-bind _ _ _ (
                  After-write-bind _ _ _ _
                    (λ x f.
                      tried e _ _ _ q b (new_definition-IsDefinitionOf _ _ _ i)
                        (inl (x, f, refl, refl)))
                    λ _ s. After-pure _ _ (
                      tried e _ _ _ q b (new_definition-IsDefinitionOf _ _ _ i)
                        (inr (s, refl, refl))))))

-- CreateDefinition refuses a name that the repository finds, and returns every error of the look-up
-- but "not found", wrapped or not, without a write. After "not found" it saves one definition, the
-- input's, and returns it just when the repository took it.
pub create_definition_lem :
    (p : Ports) (i : CreateMetricDefinitionInput) (h : History)
    → Created p i h (create_definition p i h).0 (create_definition p i h).1
create_definition_lem p i h = (create_definition-After p i h).at

-- The update that makes the assignments of two, the second after the first.
abbrev pub merged :
    UpdateMetricDefinitionInput → UpdateMetricDefinitionInput → UpdateMetricDefinitionInput
merged i j = record {
  display_name = override_pointer j.display_name i.display_name;
  description = override_pointer j.description i.description;
  unit = override_pointer j.unit i.unit;
  kind = override_pointer j.kind i.kind;
  aggregation = override_pointer j.aggregation i.aggregation;
  alert_threshold = override_pointer j.alert_threshold i.alert_threshold;
  retention_days = override_pointer j.retention_days i.retention_days;
}

override-override :
    {A : Type 0} (i j : Option A) (a : A)
    → override j (override i a) ≡ override (override_pointer j i) a
override-override i none a = refl
override-override i (some b) a = refl

override_pointer-override_pointer :
    {A : Type 0} (i j o : Option A)
    → override_pointer j (override_pointer i o) ≡ override_pointer (override_pointer j i) o
override_pointer-override_pointer i none o = refl
override_pointer-override_pointer i (some b) o = refl

-- Two updates of a definition leave what one update leaves that has, for each field, the second's
-- value where it is given and else the first's; an absent field keeps its value.
pub apply_update-merged :
    (t u : Time) (i j : UpdateMetricDefinitionInput) (d : MetricDefinition)
    → apply_update u j (apply_update t i d) ≡ apply_update u (merged i j) d
unfolding apply_update
apply_update-merged t u i j d = simp (override-override, override_pointer-override_pointer)
