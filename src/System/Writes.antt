-- ===== src/System/Writes.antt =====
-- A manual transition by a table that leads past the approval only from past it.
use fun_makers_system.Base.{
  ℕ, ◌≡◌, refl, Bool, true, false, Option, none, some, arith, All-In, find-In,
}
use fun_makers_system.Base.Int.{ℤ}
use fun_makers_system.Data.Records.{RecordType, RecordStatus, RecordRow, type_code}
use fun_makers_system.Effects.{Outcome, ok, err, World, Db, Action, ◌>>=◌, ◌>>◌, pure, command}
use fun_makers_system.Effects.Laws.{Reads}
use fun_makers_system.Effects.Keeps.{
  Reads-bind-Keeps, Keeps, Reads-Keeps, bind-Keeps, try_catch-Keeps,
}
use fun_makers_system.Audit.{audit_log}
use fun_makers_system.Workflow.Instances.{start_instance}
use fun_makers_system.Workflow.Resolution.{
  TemplateCodes, Resolution, resolve_template, system_tiers, resolve_below,
}
use fun_makers_system.Convergence.{is_row, set_status}
use fun_makers_system.Transitions.{
  Machine, TransitionInput, check_transition, write_transition, transition_entry, start_workflow,
  start_resolved, start_params, when,
}
use fun_makers_system.System.{is_past_approval, Backing, BackedRow}
use fun_makers_system.System.Backed.{Held, write-Held, is_row_iff}
use fun_makers_system.System.Handlers.{audit_log-Held}
use fun_makers_system.System.Invariant.{
  SystemInv, Held-SystemInv, SystemInv-Held, start_instance-SystemInv,
}
use fun_makers_system.System.Checked.{
  CheckedTransition, check_transition-Reads, check_transition-Checked, Guarded,
}

pub resolve_template-Reads :
    (codes : TemplateCodes) (record_type project_id : ℕ) (amount : Option ℤ)
    → Reads (resolve_template codes record_type project_id amount)
unfolding resolve_template resolve_below system_tiers
resolve_template-Reads codes record_type project_id amount w = ground arith

start_resolved-Keeps :
    (r : RecordRow) (actor : ℕ) (found : Option Resolution)
    → Keeps SystemInv (start_resolved r actor found)
unfolding start_resolved
start_resolved-Keeps r actor none = λ w h. h
start_resolved-Keeps r actor (some found) =
    bind-Keeps SystemInv (start_instance (start_params r actor found)) (λ l. pure tt)
      (start_instance-SystemInv (start_params r actor found)) (λ l w h. h)

pub start_workflow-Keeps :
    (codes : TemplateCodes) (r : RecordRow) (actor : ℕ) (amount : Option ℤ)
    → Keeps SystemInv (start_workflow codes r actor amount)
unfolding start_workflow
start_workflow-Keeps codes r actor amount =
    let m = resolve_template codes (type_code r.kind) r.project_id amount in
    try_catch-Keeps SystemInv (m >>= start_resolved r actor) (λ x. pure tt)
      (bind-Keeps SystemInv m (start_resolved r actor)
        (Reads-Keeps SystemInv m
          (resolve_template-Reads codes (type_code r.kind) r.project_id amount))
        (start_resolved-Keeps r actor))
      (λ x w h. h)

pub when-Keeps :
    (b : Bool) (m : Action (Unit {0})) → (b ≡ true → Keeps SystemInv m) → Keeps SystemInv (when b m)
when-Keeps true m hm = hm refl
when-Keeps false m hm = λ w h. h

pub write_transition-Held :
    (base : Db) (kind : RecordType) (p : TransitionInput) (r : RecordRow) (t : RecordStatus)
    → (is_past_approval kind t ≡ true → Backing kind p.id base)
    → Keeps (Held base) (write_transition kind p r t)
unfolding write_transition
write_transition-Held base kind p r t b =
    let e = transition_entry kind p r in
    bind-Keeps (Held base) (command (set_status kind p.id t)) (λ x. audit_log e >> pure tt)
      (write-Held base kind p.id t b)
      (λ x.
        bind-Keeps (Held base) (audit_log e) (λ y. pure tt) (audit_log-Held base e) (λ y w h. h))

-- What a guarded table leads to.
module _ (m : Machine) (good : Guarded m) (p : TransitionInput) where
  -- The row that is read is past its approval, if the new status is.
  pub target-Backing :
      (w : World) (r : RecordRow) (t : RecordStatus)
      → CheckedTransition m p w r t
      → SystemInv w.db
      → is_past_approval m.kind t ≡ true
      → Backing m.kind p.id w.db
  target-Backing w r t c h q =
      let (n, y) = find-In (is_row m.kind p.id) w.db.records.rows r c.row_found in
      let (k, i) = is_row_iff m.kind p.id r y in
      let past = good p.action r.status t c.targeted c.unmanaged c.permitted q in
      rw (← k, ← i) (All-In (BackedRow w.db) w.db.records.rows r h.backed n (rw k past))

-- A transition by a guarded table, with what follows it.
module _ (m : Machine) (good : Guarded m) (p : TransitionInput)
    (after : RecordRow → RecordStatus → Action (Unit {0}))
    (keeps : (w : World) (r : RecordRow) (t : RecordStatus)
      → CheckedTransition m p w r t
      → Keeps SystemInv (after r t)) where
  written-SystemInv :
      (w : World) (r : RecordRow) (t : RecordStatus) (v : World)
      → CheckedTransition m p w r t
      → SystemInv w.db
      → v.db ≡ w.db
      → SystemInv (write_transition m.kind p r t v).1.db
  written-SystemInv w r t v c h s =
      Held-SystemInv w.db (write_transition m.kind p r t v).1.db h.engine (
        write_transition-Held w.db m.kind p r t (target-Backing m good p w r t c h) v
          (rw s (SystemInv-Held w.db h)))

  pub transition-Keeps :
      Keeps SystemInv
        (check_transition m p >>= λ (r, t). write_transition m.kind p r t >> after r t)
  transition-Keeps =
      Reads-bind-Keeps SystemInv (check_transition m p)
        (λ (r, t). write_transition m.kind p r t >> after r t) (check_transition-Reads m p)
        (λ w h (r, t) e v s.
          let c = check_transition-Checked m p w r t e in
          after_write (write_transition m.kind p r t v) (after r t)
            (written-SystemInv w r t v c h s) (keeps w r t c))
    where
      after_write :
          (q : Outcome (Unit {0}) × World) (k : Action (Unit {0}))
          → SystemInv q.1.db
          → Keeps SystemInv k
          → SystemInv (◌>>=◌ (λ _. q) (λ x. k) q.1).1.db
      after_write (ok a, v) k h hk = hk v h
      after_write (err x, v) k h hk = h
