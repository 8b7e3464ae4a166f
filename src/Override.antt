-- ===== src/Override.antt =====
-- packages/core/src/access-control/override-policy.ts and packages/core/src/audit/override.ts: which
-- overrides are permitted, and `withOverride`. An audit row has no id here, so an override row has no
-- link to it.
pub mod Governed
pub mod Policy
use fun_makers_system.Base.{
  ℕ, Bool, true, false, not, ◌||◌, ◌&&◌, Option, none, some, List, [], ◌∷◌, ◌++◌, ◌==◌,
  if◌then◌else◌,
}
use fun_makers_system.Base.Text.{Text}
use fun_makers_system.Data.Audit.{
  OverrideActionType, workflow_force_progress, workflow_force_close, workflow_reassign_approver,
  document_unsign, document_delete, posting_reverse_silently, project_assignment_revoke_immediately,
  user_unlock_account, user_force_password_reset, reference_data_bulk_edit, AuditEntry, AuditRow,
  user, override, OverrideRow,
}
use fun_makers_system.Data.Errors.{
  override_not_permitted, second_approver_required, self_approval_prohibited,
}
use fun_makers_system.Effects.{Db, Action, ◌>>=◌, ◌>>◌, pure, throw, throw_if, command, transaction}
use fun_makers_system.Audit.{audit_log, audit_row}

-- The position of a type in the union, which stands for its name.
abbrev pub type_code : OverrideActionType → ℕ
type_code workflow_force_progress = 0
type_code workflow_force_close = 1
type_code workflow_reassign_approver = 2
type_code document_unsign = 3
type_code document_delete = 4
type_code posting_reverse_silently = 5
type_code project_assignment_revoke_immediately = 6
type_code user_unlock_account = 7
type_code user_force_password_reset = 8
type_code reference_data_bulk_edit = 9

-- The three lists of `OVERRIDE_POLICY`.
abbrev pub allowed : List OverrideActionType
allowed =
    workflow_force_progress ∷ workflow_reassign_approver ∷ user_unlock_account
    ∷ user_force_password_reset ∷ []

abbrev pub second_approver : List OverrideActionType
second_approver =
    workflow_force_close ∷ project_assignment_revoke_immediately ∷ reference_data_bulk_edit ∷ []

abbrev pub never : List OverrideActionType
never = document_unsign ∷ document_delete ∷ posting_reverse_silently ∷ []

abbrev pub lists : List OverrideActionType → OverrideActionType → Bool
lists [] t = false
lists (x ∷ xs) t = let rest = lists xs t in if type_code x == type_code t then true else rest

-- `isNeverOverridable`, `requiresSecondApprover` and `isOverrideAllowed`
unfoldable pub is_never_overridable : OverrideActionType → Bool
is_never_overridable t = lists never t

unfoldable pub requires_second_approver : OverrideActionType → Bool
requires_second_approver t = lists second_approver t

unfoldable pub is_override_allowed : OverrideActionType → Bool
is_override_allowed t = if lists allowed t then true else lists second_approver t

-- What `withOverride` is given beside the business action.
pub record OverrideParams : Type 0 where
  pub override_type : OverrideActionType
  pub reason : Text
  pub actor_user_id : ℕ
  pub approved_by : Option ℕ

-- The two checks on the second approver.
unfoldable pub check_second_approver : OverrideActionType → ℕ → Option ℕ → Action (Unit {0})
check_second_approver t actor none = throw (second_approver_required t)
check_second_approver t actor (some other) = throw_if (other == actor) (self_approval_prohibited t)

abbrev pub second_approver_if : Bool → Action (Unit {0}) → Action (Unit {0})
second_approver_if true check = check
second_approver_if false check = pure tt

unfoldable pub check_policy : OverrideParams → Action (Unit {0})
check_policy p = do
  throw_if (is_never_overridable p.override_type) (override_not_permitted p.override_type)
  second_approver_if (requires_second_approver p.override_type)
      (check_second_approver p.override_type p.actor_user_id p.approved_by)
  throw_if (not (is_override_allowed p.override_type)) (override_not_permitted p.override_type)

abbrev pub override_entry : OverrideParams → AuditEntry
override_entry p = record {
  actor_user_id = some p.actor_user_id;
  actor_source = user;
  action = override p.override_type;
  resource_id = type_code p.override_type;
  project_id = none;
  org_id = none;
  reason = some p.reason;
}

-- The override row; its organisation is the audit row's.
abbrev pub override_row : OverrideParams → AuditRow → OverrideRow
override_row p a = record {
  org_id = a.row_org_id;
  override_type = p.override_type;
  overrider_user_id = p.actor_user_id;
  reason = p.reason;
  approved_by = p.approved_by;
}

abbrev pub append_override : OverrideRow → Db → Option Db
append_override r d = some (record d { overrides = d.overrides ++ (r ∷ []) })

unfoldable pub log_override : OverrideParams → Action (Unit {0})
log_override p = do
  entry ← audit_log (override_entry p)
  command (append_override (override_row p entry))

unfoldable pub run_override : {A : Type 0} → OverrideParams → Action A → Action A
run_override p fn = do result ← fn; log_override p; pure result

-- `withOverride`
unfoldable pub with_override : {A : Type 0} → OverrideParams → Action A → Action A
with_override p fn = do check_policy p; transaction (run_override p fn)
