-- ===== src/Port/Trace.antt =====
-- What a history shows: the audit records that were written, and the other writes.
use orchestrix_api.Common.{◌≡◌, ap, Bool, true, false, List, [], ◌∷◌}
use orchestrix_api.Domain.Audit.{AuditLog}
use orchestrix_api.Domain.Alert.{Alert}
use orchestrix_api.Port.Call.{
  Call, History, save_audit_log, save_alert, read, set_tenant_context, spawn,
}

-- The audit records that the services asked to be written, the newest first.
abbrev pub audit_trail : History → List AuditLog
audit_trail [] = []
audit_trail (save_audit_log log done ∷ h) = log ∷ audit_trail h
audit_trail (_ ∷ h) = audit_trail h

-- A call that changes what an adapter stores or runs, other than the audit log.
abbrev pub is_write : Call → Bool
is_write (set_tenant_context t) = false
is_write (read what) = false
is_write (save_audit_log log done) = false
is_write (spawn task) = false
is_write _ = true

abbrev pub writes : History → List Call
writes [] = []
writes (c ∷ h) = let rest = writes h in elim (is_write c) [ true ↦ c ∷ rest | false ↦ rest ]

-- The alerts that the services asked to be saved, the newest first.
abbrev pub alerts_in : List Call → List Alert
alerts_in [] = []
alerts_in (save_alert a done ∷ cs) = a ∷ alerts_in cs
alerts_in (_ ∷ cs) = alerts_in cs

abbrev pub alert_saves : History → List Alert
alert_saves h = alerts_in (writes h)

-- One more call in front of equal lists.
pub cons_eq : (c : Call) {l m : List Call} → l ≡ m → c ∷ l ≡ c ∷ m
cons_eq c e = ap (λ k. c ∷ k) e
