-- ===== src/Service/Workflow/Updating.antt =====
-- The assignments of Update.
use orchestrix_api.Common.{◌≡◌, refl, true, Option, none, some, override, override_pointer, arith}
use orchestrix_api.Domain.Values.{Time, Raw, absent, malformed, mistyped, parsed, override_raw}
use orchestrix_api.Domain.Workflow.{Workflow, active, can_execute, has_dynamic_definition}
use orchestrix_api.Port.Inputs.{UpdateWorkflowInput}
use orchestrix_api.Service.Workflow.{apply_update}

abbrev pub no_change : UpdateWorkflowInput
no_change = record {
  name = none;
  description = none;
  definition = absent;
  schedule = none;
  status = none;
}

abbrev later {ℓ} : {A : Type ℓ} → Option A → Option A → Option A
later first none = first
later first (some a) = some a

-- Two inputs as one: the second takes precedence, field by field.
abbrev pub merge : UpdateWorkflowInput → UpdateWorkflowInput → UpdateWorkflowInput
merge first second = record {
  name = later first.name second.name;
  description = later first.description second.description;
  definition = override_raw second.definition first.definition;
  schedule = later first.schedule second.schedule;
  status = later first.status second.status;
}

override-later {ℓ} :
    {A : Type ℓ} (f s : Option A) (a : A) → override s (override f a) ≡ override (later f s) a
override-later f none a = refl
override-later f (some b) a = refl

override_pointer-later {ℓ} :
    {A : Type ℓ} (f s a : Option A)
    → override_pointer s (override_pointer f a) ≡ override_pointer (later f s) a
override_pointer-later f none a = refl
override_pointer-later f (some b) a = refl

override_raw-override_raw {ℓ} :
    {A : Type ℓ} (f s a : Raw A)
    → override_raw s (override_raw f a) ≡ override_raw (override_raw s f) a
override_raw-override_raw f absent a = refl
override_raw-override_raw f malformed a = refl
override_raw-override_raw f mistyped a = refl
override_raw-override_raw f (parsed b) a = refl

-- Updates compose: two in a row are the update with their fields merged, the later taking
-- precedence. An input with no field changes only the time of the update, and no input changes the
-- id, the tenant, the version or the creation.
pub apply_update_lem :
    (t t' : Time) (f s : UpdateWorkflowInput) (w : Workflow)
    → (apply_update t' s (apply_update t f w) ≡ apply_update t' (merge f s) w)
      × (apply_update t no_change w ≡ record w { updated_at = t })
      × ((apply_update t f w).id ≡ w.id)
      × ((apply_update t f w).tenant_id ≡ w.tenant_id)
      × ((apply_update t f w).version ≡ w.version)
      × ((apply_update t f w).created_at ≡ w.created_at)
unfolding apply_update
apply_update_lem t t' f s w = (
  λ i. record {
    id = w.id;
    tenant_id = w.tenant_id;
    name = override-later f.name s.name w.name i;
    description = override_pointer-later f.description s.description w.description i;
    definition = override_raw-override_raw f.definition s.definition w.definition i;
    schedule = override_pointer-later f.schedule s.schedule w.schedule i;
    status = override-later f.status s.status w.status i;
    version = w.version;
    created_by = w.created_by;
    created_at = w.created_at;
    updated_at = t';
  },
  refl,
  refl,
  refl,
  refl,
  refl,
)

-- An update that asks for the status `active` and leaves the definition makes a workflow executable
-- whether or not its definition has steps: nothing on the way checks what Activate checks.
pub apply_update_unchecked :
    (t : Time) (input : UpdateWorkflowInput) (w : Workflow)
    → input.status ≡ some active
    → input.definition ≡ absent
    → (can_execute (apply_update t input w) ≡ true)
      × (has_dynamic_definition (apply_update t input w) ≡ has_dynamic_definition w)
unfolding apply_update can_execute has_dynamic_definition
apply_update_unchecked t input w s d = (ground arith, rw d)
