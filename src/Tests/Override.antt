-- ===== src/Tests/Override.antt =====
-- Runs of `withOverride`.
use fun_makers_system.Base.{ℕ, ◌≡◌, ◌⊎◌, ◌++◌, refl, Option, some, [], ◌∷◌}
use fun_makers_system.Data.Audit.{workflow_force_close}
use fun_makers_system.Data.Errors.{Error, self_approval_prohibited}
use fun_makers_system.Effects.{Action, ok, err, pure, transaction}
use fun_makers_system.Fixtures.{world}
use fun_makers_system.Audit.{audit_log, audit_row}
use fun_makers_system.Override.{
  OverrideParams, check_policy, check_second_approver, is_never_overridable,
  requires_second_approver, is_override_allowed, override_entry, override_row, log_override,
  run_override, with_override,
}
use fun_makers_system.Override.Governed.{Governed, with_override-Governed, with_override_atomic}
use fun_makers_system.Override.Policy.{Permitted, with_override_follows_policy}

-- A forced close; its business action returns 3.
abbrev params : Option ℕ → OverrideParams
params approver = record {
  override_type = workflow_force_close;
  reason = 65 ∷ [];
  actor_user_id = 7;
  approved_by = approver;
}

abbrev close : Action ℕ
close = pure 3

with_override-Governed_example :
    Governed (params (some 8))
    × ((close world).0 ≡ ok 3)
    × ((with_override (params (some 8)) close world).1.db.audit
        ≡ world.db.audit ++ (audit_row (override_entry (params (some 8))) ∷ []))
    × ((with_override (params (some 8)) close world).1.db.overrides
        ≡ world.db.overrides
          ++ (override_row (params (some 8)) (audit_row (override_entry (params (some 8)))) ∷ []))
unfolding with_override run_override log_override check_policy check_second_approver
    is_never_overridable requires_second_approver is_override_allowed audit_log
with_override-Governed_example = with_override-Governed (params (some 8)) close world 3 refl

with_override_atomic_example : (with_override (params (some 7)) close world).1.db ≡ world.db
unfolding with_override run_override log_override check_policy check_second_approver
    is_never_overridable requires_second_approver is_override_allowed audit_log
with_override_atomic_example =
    with_override_atomic (params (some 7)) close world
      (self_approval_prohibited workflow_force_close) refl

with_override_follows_policy_example :
    (Permitted workflow_force_close 7 (some 8)
      × (with_override (params (some 8)) close world
          ≡ transaction (run_override (params (some 8)) close) world))
    ⊎ ((¬ Permitted workflow_force_close 7 (some 8))
        × ((x : Error) × (with_override (params (some 8)) close world ≡ (err x, world))))
with_override_follows_policy_example = with_override_follows_policy (params (some 8)) close world
