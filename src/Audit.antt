-- ===== src/Audit.antt =====
-- packages/core/src/audit/service.ts: the append-only audit log.
use fun_makers_system.Base.{ℕ, Bool, true, false, Option, none, some, [], ◌∷◌, ◌++◌}
use fun_makers_system.Data.Audit.{ActorSource, user, AuditEntry, AuditRow}
use fun_makers_system.Data.Errors.{actor_required}
use fun_makers_system.Effects.{Db, Action, ◌>>◌, throw_if, command, pure}

-- `SINGLETON_ORG_ID`
abbrev pub singleton_org_id : ℕ
singleton_org_id = 0

abbrev pub lacks_actor : ActorSource → Option ℕ → Bool
lacks_actor user none = true
lacks_actor _ _ = false

abbrev pub org_or_singleton : Option ℕ → ℕ
org_or_singleton none = singleton_org_id
org_or_singleton (some o) = o

abbrev pub audit_row : AuditEntry → AuditRow
audit_row e = record { entry = e; row_org_id = org_or_singleton e.org_id }

abbrev pub append_audit : AuditEntry → Db → Option Db
append_audit e d = some (record d { audit = d.audit ++ (audit_row e ∷ []) })

-- `auditService.log`; it returns the row.
unfoldable pub audit_log : AuditEntry → Action AuditRow
audit_log e = do
  throw_if (lacks_actor e.actor_source e.actor_user_id) actor_required
  command (append_audit e)
  pure (audit_row e)
