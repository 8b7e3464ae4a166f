-- ===== src/Convergence/Drawings.antt =====
-- packages/core/src/workflow/convergence-handlers.ts: a drawing revision that is approved becomes the
-- current revision of its drawing. The writes are separate calls, in no transaction.
use fun_makers_system.Base.{
  ℕ, Bool, true, false, Option, none, some, List, ◌==◌, find, update_where,
}
use fun_makers_system.Data.Records.{
  RecordRow, Drawing, Trigger, drawing_revision, for_construction, superseded, same_status,
}
use fun_makers_system.Effects.{Db, Action, ◌>>=◌, ◌>>◌, pure, query, command}
use fun_makers_system.Audit.{audit_log}
use fun_makers_system.Workflow.Bus.{Handler}
use fun_makers_system.Convergence.{find_row, set_status, convergence_entry}
use fun_makers_system.Data.Workflow.{WorkflowEvent}

abbrev pub Revision : Type 0
Revision = RecordRow × Drawing

abbrev with_drawing : Option RecordRow → List Drawing → Option Revision
with_drawing none ds = none
with_drawing (some r) ds = elim r.drawing_id [
  | none ↦ none
  | some id ↦ elim (find (λ (x : Drawing). x.id == id) ds) [ none ↦ none | some x ↦ some (r, x) ]
]

-- `findUnique({ where, include: { drawing: true } })`
abbrev pub find_revision : ℕ → Db → Option Revision
find_revision id d = with_drawing (find_row drawing_revision id d.records.rows) d.records.drawings

abbrev is_drawing : ℕ → Drawing → Bool
is_drawing id x = x.id == id

abbrev point_at : ℕ → Drawing → Drawing
point_at revision_id x = record x { current_revision_id = some revision_id }

-- `drawing.update`
abbrev pub point_drawing : ℕ → ℕ → Db → Option Db
point_drawing id revision_id d = elim (find (is_drawing id) d.records.drawings) [
  | none ↦ none
  | some _ ↦ some (record d {
    records = record (d.records) {
      drawings = update_where (is_drawing id) (point_at revision_id) d.records.drawings;
    };
  })
]

-- The revision that was current before, if it is another one.
unfoldable pub supersede_unless : Bool → ℕ → Action (Unit {0})
supersede_unless true previous = pure tt
supersede_unless false previous = command (set_status drawing_revision previous superseded)

unfoldable pub supersede_previous : Option ℕ → ℕ → Action (Unit {0})
supersede_previous none id = pure tt
supersede_previous (some previous) id = supersede_unless (previous == id) previous

unfoldable pub make_current : RecordRow → Drawing → WorkflowEvent → Action (Unit {0})
make_current r x e = do
  command (set_status drawing_revision e.record_id for_construction)
  supersede_previous x.current_revision_id r.id
  command (point_drawing x.id r.id)
  audit_log (convergence_entry drawing_revision Trigger.workflow_approved e)
  pure tt

unfoldable pub make_current_unless : Bool → RecordRow → Drawing → WorkflowEvent → Action (Unit {0})
make_current_unless true r x e = pure tt
make_current_unless false r x e = make_current r x e

unfoldable pub revision_found : Option Revision → WorkflowEvent → Action (Unit {0})
revision_found none e = pure tt
revision_found (some (r, x)) e = make_current_unless (same_status r.status for_construction) r x e

unfoldable pub handle_drawing_revision_approved : Handler
handle_drawing_revision_approved e = do
  found ← query (find_revision e.record_id)
  revision_found found e
