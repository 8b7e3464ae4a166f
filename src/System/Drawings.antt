-- ===== src/System/Drawings.antt =====
-- A drawing revision becomes current only when its event vouches for it.
use fun_makers_system.Base.{ℕ, Bool, true, false, Option, none, some, arith, ◌==◌}
use fun_makers_system.Data.Records.{
  RecordRow, Drawing, Trigger, same_status, drawing_revision, for_construction, superseded,
}
use fun_makers_system.Data.Workflow.{WorkflowEvent}
use fun_makers_system.Effects.{Db, ◌>>◌, pure, query, command}
use fun_makers_system.Effects.Laws.{query-Reads}
use fun_makers_system.Effects.Keeps.{Keeps, Reads-Keeps, bind-Keeps, command-Keeps}
use fun_makers_system.Audit.{audit_log}
use fun_makers_system.Convergence.{set_status, convergence_entry}
use fun_makers_system.Convergence.Drawings.{
  Revision, find_revision, point_drawing, supersede_unless, supersede_previous, make_current,
  make_current_unless, revision_found, handle_drawing_revision_approved,
}
use fun_makers_system.System.{Backing}
use fun_makers_system.System.Backed.{Held, write-Held}
use fun_makers_system.System.Handlers.{audit_log-Held}

module _ (base : Db) where
  point_drawing-Held :
      (id revision_id : ℕ) → Keeps (Held base) (command (point_drawing id revision_id))
  point_drawing-Held id revision_id =
      command-Keeps (Held base) (point_drawing id revision_id) (λ d d' h e. record {
        same_workflow = ground (arith, h.same_workflow);
        backed = ground (arith, h.backed);
      })

  supersede-Held : (c : Bool) (id : ℕ) → Keeps (Held base) (supersede_unless c id)
  unfolding supersede_unless
  supersede-Held true id = λ w h. h
  supersede-Held false id =
      write-Held base drawing_revision id superseded (λ p. absurd (ground arith))

  previous-Held : (o : Option ℕ) (id : ℕ) → Keeps (Held base) (supersede_previous o id)
  unfolding supersede_previous
  previous-Held none id = λ w h. h
  previous-Held (some p) id = supersede-Held (p == id) p

  module _ (e : WorkflowEvent) (b : Backing drawing_revision e.record_id base) where
    make_current-Held : (r : RecordRow) (x : Drawing) → Keeps (Held base) (make_current r x e)
    unfolding make_current
    make_current-Held r x =
        let entry = convergence_entry drawing_revision Trigger.workflow_approved e in
        bind-Keeps (Held base) (command (set_status drawing_revision e.record_id for_construction))
          (λ u.
            supersede_previous x.current_revision_id r.id
            >> (command (point_drawing x.id r.id) >> (audit_log entry >> pure tt)))
          (write-Held base drawing_revision e.record_id for_construction (λ p. b))
          (λ u.
            bind-Keeps (Held base) (supersede_previous x.current_revision_id r.id)
              (λ u. command (point_drawing x.id r.id) >> (audit_log entry >> pure tt))
              (previous-Held x.current_revision_id r.id)
              (λ u.
                bind-Keeps (Held base) (command (point_drawing x.id r.id))
                  (λ u. audit_log entry >> pure tt) (point_drawing-Held x.id r.id)
                  (λ u.
                    bind-Keeps (Held base) (audit_log entry) (λ u. pure tt)
                      (audit_log-Held base entry) (λ u w h. h))))

    unless-Held :
        (c : Bool) (r : RecordRow) (x : Drawing) → Keeps (Held base) (make_current_unless c r x e)
    unfolding make_current_unless
    unless-Held true r x = λ w h. h
    unless-Held false r x = make_current-Held r x

    found-Held : (found : Option Revision) → Keeps (Held base) (revision_found found e)
    unfolding revision_found
    found-Held none = λ w h. h
    found-Held (some (r, x)) = unless-Held (same_status r.status for_construction) r x

    pub drawing-Held : Keeps (Held base) (handle_drawing_revision_approved e)
    unfolding handle_drawing_revision_approved
    drawing-Held =
        bind-Keeps (Held base) (query (find_revision e.record_id)) (λ found. revision_found found e)
          (Reads-Keeps (Held base) (query (find_revision e.record_id))
            (query-Reads (find_revision e.record_id)))
          found-Held
