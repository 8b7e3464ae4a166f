-- ===== src/System/Invariant.antt =====
-- The invariant of the whole system: the engine's, and that every record past its approval has an
-- approved instance.
use fun_makers_system.Base.{ℕ, ◌≡◌, refl, sym, ◌∙◌, List, All, All-map}
use fun_makers_system.Data.Records.{RecordType, RecordRow}
use fun_makers_system.Effects.{Db, Action}
use fun_makers_system.Effects.Keeps.{Keeps}
use fun_makers_system.Workflow.Order.{find_loaded}
use fun_makers_system.Workflow.Lifecycle.Invariant.{EngineInv}
use fun_makers_system.Workflow.Instances.{StartParams, start_instance}
use fun_makers_system.Workflow.Lifecycle.Starts.{start_instance-EngineInv}
use fun_makers_system.System.{Backing, BackedRow}
use fun_makers_system.System.Backed.{Held}
use fun_makers_system.System.Engine.{Kept}
use fun_makers_system.System.Starts.{start_instance-Kept}

pub record SystemInv (d : Db) : Type 0 where
  pub engine : EngineInv d
  pub backed : All (BackedRow d) d.records.rows

same_loaded : (id : ℕ) (d d' : Db) → d'.workflow ≡ d.workflow → find_loaded id d' ≡ find_loaded id d
unfolding find_loaded
same_loaded id d d' e = rw e refl

workflow-EngineInv : (d d' : Db) → d'.workflow ≡ d.workflow → EngineInv d → EngineInv d'
workflow-EngineInv d d' e inv = record {
  templates = rw e inv.templates;
  covered = λ id l h. rw e (inv.covered id l (sym (same_loaded id d d' e) ∙ h));
}

pub Backing-Kept :
    (kind : RecordType) (id : ℕ) (d d' : Db) → Kept d d' → Backing kind id d → Backing kind id d'
Backing-Kept kind id d d' k b = record {
  instance_id = b.instance_id;
  loaded = b.loaded;
  found = k b.instance_id b.loaded b.found b.completed;
  of_type = b.of_type;
  of_record = b.of_record;
  completed = b.completed;
}

pub BackedRows-Kept :
    (d d' : Db) (rs : List RecordRow) → Kept d d' → All (BackedRow d) rs → All (BackedRow d') rs
BackedRows-Kept d d' rs k h =
    All-map (BackedRow d) (BackedRow d') (λ r b p. Backing-Kept r.kind r.id d d' k (b p)) rs h

workflow-Kept : (d d' : Db) → d'.workflow ≡ d.workflow → Kept d d'
workflow-Kept d d' e k l h done = same_loaded k d d' e ∙ h

pub Held-SystemInv : (base d : Db) → EngineInv base → Held base d → SystemInv d
Held-SystemInv base d inv h = record {
  engine = workflow-EngineInv base d h.same_workflow inv;
  backed = BackedRows-Kept base d d.records.rows (workflow-Kept base d h.same_workflow) h.backed;
}

pub SystemInv-Held : (d : Db) → SystemInv d → Held d d
SystemInv-Held d h = record { same_workflow = refl; backed = h.backed }

-- What holds the records on every base keeps the invariant.
pub Held-Keeps :
    {A : Type 0} (m : Action A) → ((base : Db) → Keeps (Held base) m) → Keeps SystemInv m
Held-Keeps m hm w h = Held-SystemInv w.db (m w).1.db h.engine (hm w.db w (SystemInv-Held w.db h))

pub start_instance-SystemInv : (p : StartParams) → Keeps SystemInv (start_instance p)
start_instance-SystemInv p w h =
    let d' = (start_instance p w).1.db in
    let (r, k) = start_instance-Kept p w in
    record {
      engine = start_instance-EngineInv p w h.engine;
      backed = rw r (BackedRows-Kept w.db d' w.db.records.rows k h.backed);
    }
