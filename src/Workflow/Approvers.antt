-- ===== src/Workflow/Approvers.antt =====
-- packages/core/src/workflow/approver-resolution.ts: who may act on a step.
pub mod Reads
use fun_makers_system.Base.{
  ℕ, Bool, true, false, ◌&&◌, Option, none, some, List, [], ◌∷◌, ◌++◌, map, leb, ltb, ◌==◌,
  if◌then◌else◌, find, select, includes,
}
use fun_makers_system.Data.Access.{AccessTables, Role, UserRole, ProjectAssignment}
use fun_makers_system.Data.Workflow.{
  ApproverRule, ApproverRules, role, user, project_role, any_of, no_rules, one_rule,
}
use fun_makers_system.Data.Errors.{Error, no_approvers_found}
use fun_makers_system.Effects.{Action, ◌>>=◌, pure, throw, query, now, try_catch}

-- `effectiveFrom <= at` and `effectiveTo` null or later.
abbrev pub is_effective : ℕ → Option ℕ → ℕ → Bool
is_effective from none at = leb from at
is_effective from (some to) at = leb from at && ltb at to

abbrev pub is_null : Option ℕ → Bool
is_null none = true
is_null (some _) = false

abbrev pub holds_role : ℕ → ℕ → UserRole → Bool
holds_role role_id at r = r.role_id == role_id && is_effective r.effective_from r.effective_to at

abbrev pub is_assigned : ℕ → ℕ → ProjectAssignment → Bool
is_assigned project_id at a =
    a.project_id == project_id
    && is_null a.revoked_at
    && is_effective a.effective_from a.effective_to at

abbrev pub holders : AccessTables → ℕ → Option Role → List ℕ
holders t at none = []
holders t at (some r) = map (λ u. u.user_id) (select (holds_role r.id at) t.user_roles)

abbrev pub project_holders : AccessTables → ℕ → ℕ → Option Role → List ℕ
project_holders t project_id at none = []
project_holders t project_id at (some r) =
    map (λ a. a.user_id)
      (select (λ a. a.role_id == r.id && is_assigned project_id at a) t.assignments)

-- The second query is made only if the role exists.
abbrev query_holders : ℕ → Option Role → Action (List ℕ)
query_holders at none = pure []
query_holders at (some r) = query (λ d. holders d.access at (some r))

abbrev query_project_holders : ℕ → ℕ → Option Role → Action (List ℕ)
query_project_holders project_id at none = pure []
query_project_holders project_id at (some r) =
    query (λ d. project_holders d.access project_id at (some r))

abbrev pub user_if : ℕ → Option ProjectAssignment → List ℕ
user_if user_id none = []
user_if user_id (some _) = user_id ∷ []

abbrev pub assignment_of : AccessTables → ℕ → ℕ → ℕ → Option ProjectAssignment
assignment_of t user_id project_id at =
    find (λ a. a.user_id == user_id && is_assigned project_id at a) t.assignments

-- The assignment is read only if the user exists, at the time of the call.
abbrev query_user : ℕ → ℕ → Bool → Action (List ℕ)
query_user user_id project_id false = pure []
query_user user_id project_id true = do
  at ← now
  assignment ← query (λ d. assignment_of d.access user_id project_id at)
  pure (user_if user_id assignment)

unfoldable pub resolve_by_role : ℕ → ℕ → Action (List ℕ)
resolve_by_role role_code at = do
  r ← query (λ d. find (λ r. r.code == role_code) d.access.roles)
  query_holders at r

unfoldable pub resolve_by_user : ℕ → ℕ → Action (List ℕ)
resolve_by_user user_id project_id = do
  known ← query (λ d. includes d.access.users user_id)
  query_user user_id project_id known

unfoldable pub resolve_by_project_role : ℕ → ℕ → ℕ → Action (List ℕ)
resolve_by_project_role role_code project_id at = do
  r ← query (λ d. find (λ r. r.code == role_code) d.access.roles)
  query_project_holders project_id at r

-- `resolveApproversInternal` and `resolveAnyOf`.
unfoldable mutual
  pub resolve_approvers_internal : ApproverRule → ℕ → ℕ → Action (List ℕ)
  resolve_approvers_internal (role c) project_id at = resolve_by_role c at
  resolve_approvers_internal (user u) project_id at = resolve_by_user u project_id
  resolve_approvers_internal (project_role c) project_id at =
      resolve_by_project_role c project_id at
  resolve_approvers_internal (any_of rs) project_id at = resolve_any_of rs project_id at

  pub resolve_any_of : ApproverRules → ℕ → ℕ → Action (List ℕ)
  resolve_any_of no_rules project_id at = pure []
  resolve_any_of (one_rule r rs) project_id at = do
    xs ← resolve_approvers_internal r project_id at
    ys ← resolve_any_of rs project_id at
    pure (xs ++ ys)

-- `[...new Set(xs)]` keeps the first of each.
unfoldable pub unique_from : List ℕ → List ℕ → List ℕ
unique_from seen [] = []
unique_from seen (x ∷ xs) =
    let fresh = x ∷ unique_from (x ∷ seen) xs in
    let rest = unique_from seen xs in if includes seen x then rest else fresh

unfoldable pub unique : List ℕ → List ℕ
unfolding unique_from
unique = unique_from []

abbrev some_approvers : List ℕ → Action (List ℕ)
some_approvers [] = throw no_approvers_found
some_approvers (x ∷ xs) = pure (x ∷ xs)

unfoldable pub resolve_approvers : ApproverRule → ℕ → ℕ → Action (List ℕ)
resolve_approvers rule project_id at = do
  user_ids ← resolve_approvers_internal rule project_id at
  some_approvers (unique user_ids)

abbrev absent_if_none : Error → Action Bool
absent_if_none no_approvers_found = pure false
absent_if_none e = throw e

unfoldable pub is_valid_approver : ℕ → ApproverRule → ℕ → Action Bool
unfolding resolve_approvers
is_valid_approver user_id rule project_id =
    try_catch
      (do
        at ← now
        approvers ← resolve_approvers rule project_id at
        pure (includes approvers user_id))
      absent_if_none
