-- ===== src/Service/Audit.antt =====
-- internal/core/service/audit.go, and the nil test before the other services call it.
use orchestrix_api.Common.{
  ◌≡◌, Bool-cases, inl, inr, Option, ◌∷◌, Bool, true, false, ℤ, page_offset,
}
use orchestrix_api.Domain.Values.{Uuid}
use orchestrix_api.Domain.Audit.{
  AuditLog, AuditEvent, ResourceType, AuditAction, Entity, new_audit_log, with_old_value,
  with_new_value,
}
use orchestrix_api.Port.Inputs.{Page}
use orchestrix_api.Port.Call.{Ports, History, set_tenant_context, save_audit_log}
use orchestrix_api.Port.Action.{Action, accepted, ask, write, pure, gets, ignore, ◌>>=◌, ◌>>◌}
use orchestrix_api.Port.After.{After}
use orchestrix_api.Fault.{Result}

-- `if s.auditService == nil { return }`
abbrev audit_if : Bool → Action Unit → Action Unit
audit_if false m = pure tt
audit_if true m = m

module _ (p : Ports) where
  -- s.tenantSetter.SetTenantContext
  abbrev pub set_tenant : Uuid → Action Unit
  set_tenant tenant_id h = (p.set_tenant h tenant_id, set_tenant_context tenant_id ∷ h)

  unfoldable pub list : Uuid → ℤ → ℤ → Action (Page AuditLog)
  list tenant_id page limit = do
    set_tenant tenant_id
    let offset = page_offset page limit
    logs ← ask "audit logs by tenant" λ h. p.audit_logs.find_by_tenant h tenant_id limit offset
    total ← ask "audit logs of tenant" λ h. p.audit_logs.count_by_tenant h tenant_id
    pure (record { items = logs; total = total; page = page; limit = limit })

  unfoldable pub get_by_id : Uuid → Action AuditLog
  get_by_id id = ask "audit log by id" λ h. p.audit_logs.find_by_id h id

  unfoldable pub log : AuditLog → Action Unit
  log entry = write (save_audit_log entry) λ h. p.audit_logs.save h entry

  -- The part that the three `logAudit` methods share: the record is built and written, and the
  -- result dropped, unless the service was given no audit service.
  unfoldable pub record_audit :
      Uuid
      → Option Uuid
      → AuditEvent
      → ResourceType
      → Uuid
      → AuditAction
      → Option Entity
      → Option Entity
      → Action Unit
  unfolding log
  record_audit tenant_id user_id event resource_type resource_id action old new =
      audit_if p.has_audit_service (do
        id ← gets λ h. p.host.new_uuid h 0
        now ← gets λ h. p.host.now h 0
        let entry =
            new_audit_log id now tenant_id user_id event resource_type (Option.some resource_id)
              action
        ignore (log (with_new_value new (with_old_value old entry))))

  -- The record that is written after the calls so far.
  abbrev pub audit_entry :
      History
      → Uuid
      → Option Uuid
      → AuditEvent
      → ResourceType
      → Uuid
      → AuditAction
      → Option Entity
      → Option Entity
      → AuditLog
  audit_entry h tenant_id user_id event resource_type resource_id action old new =
      with_new_value new (
        with_old_value old (
          new_audit_log (p.host.new_uuid h 0) (p.host.now h 0) tenant_id user_id event resource_type
            (Option.some resource_id) action))

  -- The rule for a block that goes on after `logAudit`.
  pub After-record_audit-bind :
      {B : Type 0} {Q : Result B → History → Type 0} (tenant : Uuid) (user : Option Uuid)
      (event : AuditEvent) (ty : ResourceType) (id : Uuid) (action : AuditAction)
      (old new : Option Entity) (k : Unit → Action B) (h : History)
      → p.has_audit_service ≡ true
      → ((done : Bool)
          → After Q
              (k tt)
              (save_audit_log (audit_entry h tenant user event ty id action old new) done ∷ h))
      → After Q (record_audit tenant user event ty id action old new >>= k) h
  unfolding record_audit ◌>>=◌
  After-record_audit-bind tenant user event ty id action old new k h on q = record {
    at =
        rw on
          (q (
            accepted
              (p.audit_logs.save h (audit_entry h tenant user event ty id action old new)))).at;
  }

  -- The same where nothing is assumed of the audit service: a record more, or none.
  pub After-any_audit-bind :
      {B : Type 0} {Q : Result B → History → Type 0} (tenant : Uuid) (user : Option Uuid)
      (event : AuditEvent) (ty : ResourceType) (id : Uuid) (action : AuditAction)
      (old new : Option Entity) (k : Unit → Action B) (h : History)
      → ((log : AuditLog) (done : Bool) → After Q (k tt) (save_audit_log log done ∷ h))
      → After Q (k tt) h
      → After Q (record_audit tenant user event ty id action old new >>= k) h
  unfolding record_audit ◌>>=◌
  After-any_audit-bind tenant user event ty id action old new k h logged skipped =
      elim (Bool-cases p.has_audit_service) [
        | inl on ↦ record {
          at =
              rw on
                (logged (audit_entry h tenant user event ty id action old new) (
                  accepted (
                    p.audit_logs.save h
                      (audit_entry h tenant user event ty id action old new)))).at;
        }
        | inr off ↦ record { at = rw off skipped.at }
      ]
