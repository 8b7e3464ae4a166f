-- ===== src/System/Backed.antt =====
-- The records under writes of a status, while the workflow tables stay as they are in a database `base`.
use fun_makers_system.Base.{
  ℕ, ◌≡◌, ◌∙◌, refl, inl, inr, true, some, arith, All, All-update_first, find-In, Option-cases,
}
use fun_makers_system.Data.Records.{RecordType, RecordStatus, RecordRow, type_code, RecordTables}
use fun_makers_system.Data.Workflow.{WorkflowTables}
use fun_makers_system.Effects.{Db, Action, command}
use fun_makers_system.Effects.Keeps.{Keeps, command-Keeps}
use fun_makers_system.Convergence.{is_row, find_row, set_status, to_status}
use fun_makers_system.Convergence.Apart.{Standing}
use fun_makers_system.Convergence.Dispatch.{wired_type}
use fun_makers_system.System.{is_past_approval, Backing, BackedRow}

-- `isConvergenceWired` takes the code of each record type, and tells the types apart.
pub wired_type-type_code : (k : RecordType) → wired_type (type_code k) ≡ some k
unfolding wired_type
wired_type-type_code k = ground arith

pub wired_type_code : (n : ℕ) (k : RecordType) → wired_type n ≡ some k → n ≡ type_code k
unfolding wired_type
wired_type_code n k h = ground arith

pub type_code_injective : (j k : RecordType) → type_code j ≡ type_code k → j ≡ k
type_code_injective j k h = ground (arith, wired_type-type_code j, wired_type-type_code k)

pub is_row_iff :
    (kind : RecordType) (id : ℕ) (r : RecordRow)
    → is_row kind id r ≡ true
    → (r.kind ≡ kind) × (r.id ≡ id)
is_row_iff kind id r h = (type_code_injective r.kind kind (ground arith), ground arith)

module _ (base : Db) where
  pub record Held (d : Db) : Type 0 where
    pub same_workflow : d.workflow ≡ base.workflow
    pub backed : All (BackedRow base) d.records.rows

  pub set_status-Held :
      (kind : RecordType) (id : ℕ) (target : RecordStatus) (d d' : Db)
      → (is_past_approval kind target ≡ true → Backing kind id base)
      → Held d
      → set_status kind id target d ≡ some d'
      → Held d'
  set_status-Held kind id target d d' b h e =
      elim (Option-cases (find_row kind id d.records.rows)) [
        | inl n ↦ absurd (ground arith)
        | inr (r, y) ↦
            let (m, t) = find-In (is_row kind id) d.records.rows r y in
            let (k, i) = is_row_iff kind id r t in
            let backs : BackedRow base (to_status target r) = λ p. rw (k, i) (b (rw k at p)) in
            let rows =
              All-update_first (BackedRow base) (is_row kind id) (to_status target) d.records.rows r
                h.backed y backs in
            record {
              same_workflow = ground (arith, h.same_workflow);
              backed = ground (arith, rows);
            }
      ]

  pub write-Held :
      (kind : RecordType) (id : ℕ) (target : RecordStatus)
      → (is_past_approval kind target ≡ true → Backing kind id base)
      → Keeps Held (command (set_status kind id target))
  write-Held kind id target b =
      command-Keeps Held (set_status kind id target)
        (λ d d' h e. set_status-Held kind id target d d' b h e)

  -- What leaves the records and the workflow tables keeps this.
  pub Standing-Held :
      {A : Type 0} (m : Action A)
      → ((R : RecordTables) (W : WorkflowTables) → Keeps (Standing R W) m)
      → Keeps Held m
  Standing-Held m h w k =
      let (r, f) = h w.db.records w.db.workflow w (refl, refl) in
      record { same_workflow = f ∙ k.same_workflow; backed = rw r k.backed }
