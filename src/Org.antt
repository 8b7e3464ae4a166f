-- ===== src/Org.antt =====
-- packages/core/src/org-resolution.ts, `resolveProjectOrgId`.
use fun_makers_system.Base.{ℕ, ◌==◌, find}
use fun_makers_system.Data.Errors.{record_not_found}
use fun_makers_system.Effects.{Action, ◌>>=◌, pure, or_throw, query}

unfoldable pub resolve_project_org_id : ℕ → Action ℕ
resolve_project_org_id project_id = do
  q ← query (λ d. find (λ p. p.id == project_id) d.access.projects)
  project ← or_throw q record_not_found
  pure project.org_id
