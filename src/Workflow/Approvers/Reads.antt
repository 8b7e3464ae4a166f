-- ===== src/Workflow/Approvers/Reads.antt =====
-- Approver resolution only reads.
use fun_makers_system.Base.{ℕ, arith}
use fun_makers_system.Data.Workflow.{
  ApproverRule, ApproverRules, role, user, project_role, any_of, no_rules, one_rule,
}
use fun_makers_system.Effects.Laws.{Reads, SameStore-refl}
use fun_makers_system.Workflow.Approvers.{
  resolve_by_role, resolve_by_user, resolve_by_project_role, resolve_approvers_internal,
  resolve_any_of, resolve_approvers, is_valid_approver,
}

resolve_by_role-Reads : (c at : ℕ) → Reads (resolve_by_role c at)
unfolding resolve_by_role
resolve_by_role-Reads c at w = ground arith

resolve_by_user-Reads : (u p : ℕ) → Reads (resolve_by_user u p)
unfolding resolve_by_user
resolve_by_user-Reads u p w = ground arith

resolve_by_project_role-Reads : (c p at : ℕ) → Reads (resolve_by_project_role c p at)
unfolding resolve_by_project_role
resolve_by_project_role-Reads c p at w = ground arith

mutual
  unfolding resolve_approvers_internal resolve_any_of

  resolve_internal-Reads : (r : ApproverRule) (p at : ℕ) → Reads (resolve_approvers_internal r p at)
  resolve_internal-Reads (role c) p at w = resolve_by_role-Reads c at w
  resolve_internal-Reads (user u) p at w = resolve_by_user-Reads u p w
  resolve_internal-Reads (project_role c) p at w = resolve_by_project_role-Reads c p at w
  resolve_internal-Reads (any_of rs) p at w = resolve_any_of-Reads rs p at w

  resolve_any_of-Reads : (rs : ApproverRules) (p at : ℕ) → Reads (resolve_any_of rs p at)
  resolve_any_of-Reads no_rules p at w = SameStore-refl w
  resolve_any_of-Reads (one_rule r rs) p at w = ground (
    arith,
    resolve_internal-Reads r p at w,
    resolve_any_of-Reads rs p at (resolve_approvers_internal r p at w).1,
  )

resolve_approvers-Reads : (r : ApproverRule) (p at : ℕ) → Reads (resolve_approvers r p at)
unfolding resolve_approvers
resolve_approvers-Reads r p at w = ground (arith, resolve_internal-Reads r p at w)

pub is_valid_approver-Reads : (u : ℕ) (r : ApproverRule) (p : ℕ) → Reads (is_valid_approver u r p)
unfolding is_valid_approver
is_valid_approver-Reads u r p w = ground (arith, resolve_internal-Reads r p (w.env.clock w.tick) w)
