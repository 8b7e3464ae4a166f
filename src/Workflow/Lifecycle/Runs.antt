-- ===== src/Workflow/Lifecycle/Runs.antt =====
-- Every run of requests, from an engine with no instances.
use fun_makers_system.Base.{ℕ, ◌≡◌, some, false, List, [], ◌∷◌, In, arith}
use fun_makers_system.Data.Workflow.{WorkflowStep, approved}
use fun_makers_system.Effects.{World, Db}
use fun_makers_system.Workflow.Order.{Loaded, find_loaded}
use fun_makers_system.Workflow.Lifecycle.{
  Request, approve, reject, return_to, cancel, start, perform, perform_all,
}
use fun_makers_system.Workflow.Lifecycle.Template.{GoodTemplates}
use fun_makers_system.Workflow.Lifecycle.Coverage.{HasApproval}
use fun_makers_system.Workflow.Lifecycle.Invariant.{
  EngineInv, approve_step-EngineInv, reject_step-EngineInv, return_step-EngineInv,
  cancel_instance-EngineInv,
}
use fun_makers_system.Workflow.Lifecycle.Starts.{start_instance-EngineInv}

pub perform-EngineInv : (r : Request) (w : World) → EngineInv w.db → EngineInv (perform r w).db
unfolding perform
perform-EngineInv (approve id step_id actor comment) w h =
    approve_step-EngineInv id step_id actor comment w h
perform-EngineInv (reject id step_id actor comment) w h =
    reject_step-EngineInv id step_id actor comment w h
perform-EngineInv (return_to id step_id actor comment to) w h =
    return_step-EngineInv id step_id actor comment to w h
perform-EngineInv (cancel id actor reason) w h = cancel_instance-EngineInv id actor reason w h
perform-EngineInv (start p) w h = start_instance-EngineInv p w h

perform_all-EngineInv :
    (rs : List Request) (w : World) → EngineInv w.db → EngineInv (perform_all rs w).db
unfolding perform_all
perform_all-EngineInv [] w h = h
perform_all-EngineInv (r ∷ rs) w h =
    perform_all-EngineInv rs (perform r w) (perform-EngineInv r w h)

none_loaded :
    (id : ℕ) (d : Db) (l : Loaded) → d.workflow.instances ≡ [] → find_loaded id d ≡ some l → ⊥
unfolding find_loaded
none_loaded id d l e h = ground arith

pub empty-EngineInv :
    (d : Db) → GoodTemplates d.workflow.templates → d.workflow.instances ≡ [] → EngineInv d
empty-EngineInv d g e = record {
  templates = g;
  covered = λ id l h. absurd (none_loaded id d l e h);
}

-- After any requests, granted or refused, to an engine that began with no instances and whose
-- templates have steps with distinct order indices and ids: an approved instance has, for each
-- required step of its template, an approval of that step in the log.
pub perform_all_approved_covers_required :
    (rs : List Request) (w : World) (id : ℕ) (l : Loaded) (s : WorkflowStep)
    → GoodTemplates w.db.workflow.templates
    → w.db.workflow.instances ≡ []
    → find_loaded id (perform_all rs w).db ≡ some l
    → l.instance_row.status ≡ approved
    → In s l.steps
    → s.is_optional ≡ false
    → HasApproval id s.id (perform_all rs w).db.workflow.actions
perform_all_approved_covers_required rs w id l s g e found done m r =
    let inv = perform_all-EngineInv rs w (empty-EngineInv w.db g e) in
    (inv.covered id l found).finished done s m r
