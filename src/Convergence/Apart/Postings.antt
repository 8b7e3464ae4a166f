-- ===== src/Convergence/Apart/Postings.antt =====
-- A posting leaves the records and the workflow as they are.
use fun_makers_system.Base.{ℕ, arith, Option-cases, inl, inr}
use fun_makers_system.Data.Records.{RecordTables}
use fun_makers_system.Data.Workflow.{WorkflowTables}
use fun_makers_system.Effects.{transaction}
use fun_makers_system.Effects.Keeps.{Keeps, Reads-Keeps, bind-Keeps, query_bind-Keeps}
use fun_makers_system.Audit.{audit_log}
use fun_makers_system.Org.{resolve_project_org_id}
use fun_makers_system.Posting.Registry.{
  Registry, Parsed, validate_payload, unknown_type, invalid, parsed,
}
use fun_makers_system.Posting.Ledger.{find_by_key}
use fun_makers_system.Posting.Service.Effect.{resolve_org-Reads}
use fun_makers_system.Posting.Service.{
  PostInput, post, post_parsed, record_failure, write_posted, existing_or_new,
}
use fun_makers_system.Convergence.Apart.{Standing}

module _ (R : RecordTables) (W : WorkflowTables) where
  write_posted-Standing :
      (i : PostInput) (org payload at : ℕ)
      → Keeps (Standing R W) (transaction (write_posted i org payload at))
  unfolding write_posted audit_log
  write_posted-Standing i org payload at w h = ground arith

  post_parsed-Standing :
      (i : PostInput) (org : ℕ) (q : Parsed) → Keeps (Standing R W) (post_parsed i org q)
  unfolding post_parsed existing_or_new record_failure
  post_parsed-Standing i org unknown_type w h = h
  post_parsed-Standing i org (invalid message) w h = ground arith
  post_parsed-Standing i org (parsed payload) w h =
      query_bind-Keeps (Standing R W) (λ d. find_by_key i.idempotency_key d.posting.events)
        (existing_or_new i org payload)
        (λ v k. elim (Option-cases (find_by_key i.idempotency_key v.db.posting.events)) [
          | inl n ↦ rw n (write_posted-Standing i org payload (v.env.clock v.tick) v k)
          | inr (e, y) ↦ rw y k
        ])
        w h

  pub post-Standing : (r : Registry) (i : PostInput) → Keeps (Standing R W) (post r i)
  unfolding post
  post-Standing r i =
      bind-Keeps (Standing R W) (resolve_project_org_id i.project_id)
        (λ org. post_parsed i org (validate_payload i.event_type i.payload r))
        (Reads-Keeps (Standing R W) (resolve_project_org_id i.project_id)
          (resolve_org-Reads i.project_id))
        (λ org. post_parsed-Standing i org (validate_payload i.event_type i.payload r))
