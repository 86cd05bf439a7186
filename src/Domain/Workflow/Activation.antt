-- ===== src/Domain/Workflow/Activation.antt =====
-- When a workflow may run: Activate, Deactivate, CanExecute and HasDynamicDefinition together.
use orchestrix_api.Common.{◌≡◌, refl, ◌↔◌, true, false, none, ◌||◌, arith}
use orchestrix_api.Domain.Workflow.{
  Workflow, can_execute, activate, deactivate, has_dynamic_definition,
}

-- Activate succeeds exactly for a workflow that has a dynamic definition. After it the workflow can
-- execute exactly if it could before or has a dynamic definition, and after Deactivate it cannot.
pub activate_lem :
    (w : Workflow)
    → (((activate w).0 ≡ none) ↔ (has_dynamic_definition w ≡ true))
      × (can_execute (activate w).1 ≡ (can_execute w || has_dynamic_definition w))
      × (can_execute (deactivate w) ≡ false)
unfolding activate deactivate can_execute has_dynamic_definition
activate_lem w = ((λ h. ground arith, λ h. ground arith), ground arith, refl)
