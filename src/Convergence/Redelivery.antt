-- ===== src/Convergence/Redelivery.antt =====
-- A second delivery of an approval.
use fun_makers_system.Base.{
  ℕ, suc, ◌≡◌, refl, inl, inr, true, false, some, List, [], ◌∷◌, arith, update_first, Bool-cases,
  ap,
}
use fun_makers_system.Data.Audit.{AuditEntry}
use fun_makers_system.Data.Records.{
  RecordType, RecordStatus, RecordRow, RecordTables, workflow_approved, same_status,
}
use fun_makers_system.Data.Workflow.{WorkflowEvent, WorkflowTables}
use fun_makers_system.Effects.{World, Db, Action, ◌>>◌, pure, command, advance}
use fun_makers_system.Effects.Keeps.{Keeps, bind-Keeps, bind_at}
use fun_makers_system.Audit.{audit_log}
use fun_makers_system.Convergence.{
  is_row, find_row, to_status, set_status, convergence_entry, write_status, converge,
  converge_found, converge_unless, converge_approved,
}
use fun_makers_system.Convergence.Apart.{Standing, audit_log-Standing}

-- The record is there and has the status.
abbrev pub HasStatus : RecordType → ℕ → RecordStatus → Db → Type 0
HasStatus kind id s d =
    (r : RecordRow) × (find_row kind id d.records.rows ≡ some r) × (r.status ≡ s)

is_row-to_status :
    (kind : RecordType) (id : ℕ) (s : RecordStatus) (x : RecordRow)
    → is_row kind id (to_status s x) ≡ is_row kind id x
is_row-to_status kind id s x = refl

find-update_status :
    (kind : RecordType) (id : ℕ) (s : RecordStatus) (rs : List RecordRow) (r : RecordRow)
    → find_row kind id rs ≡ some r
    → find_row kind id (update_first (is_row kind id) (to_status s) rs) ≡ some (to_status s r)
find-update_status kind id s [] r h = cc h
find-update_status kind id s (x ∷ rs) r h = elim (Bool-cases (is_row kind id x)) [
  | inl y ↦
      let q : x ≡ r = ground arith in
      rw y (rw (is_row-to_status kind id s x, y) (ap (λ z. some (to_status s z)) q))
  | inr n ↦ rw n (rw n (find-update_status kind id s rs r (rw n at h)))
]

pub same_status_eq : (s t : RecordStatus) → same_status s t ≡ true → s ≡ t
same_status_eq s t h = ground arith

same_status_refl : (s : RecordStatus) → same_status s s ≡ true
same_status_refl s = ground arith

-- An approval event for a record that has the target status already changes nothing.
pub converge_settled :
    (kind : RecordType) (target : RecordStatus) (rest : RecordRow → Action (Unit {0}))
    (e : WorkflowEvent) (w : World)
    → HasStatus kind e.record_id target w.db
    → (converge_approved kind target rest e w).1.db ≡ w.db
unfolding converge converge_found converge_unless
converge_settled kind target rest e w (r, f, s) =
    let y : same_status r.status target ≡ true = rw s (same_status_refl target) in
    ground (arith, f, y)

module _ (kind : RecordType) (id : ℕ) (target : RecordStatus) where
  -- What leaves the records leaves the status.
  pub Keeps-HasStatus :
      {A : Type 0} (m : Action A)
      → ((R : RecordTables) (W : WorkflowTables) → Keeps (Standing R W) m)
      → Keeps (HasStatus kind id target) m
  Keeps-HasStatus m h w k = let (q, f) = h w.db.records w.db.workflow w (refl, refl) in rw q k

  -- A write of the status to a record that is there.
  pub write_at :
      (v : World) (r : RecordRow)
      → find_row kind id v.db.records.rows ≡ some r
      → v.env.fails v.tick ≡ false
      → HasStatus kind id target (command (set_status kind id target) v).1.db
  write_at v r f b = (
    to_status target r,
    ground (arith, f, b, find-update_status kind id target v.db.records.rows r f),
    refl,
  )

  -- The write, an audit row, and what follows them.
  pub write_and_log :
      (v : World) (r : RecordRow) (entry : AuditEntry) (rest : Action (Unit {0}))
      → find_row kind id v.db.records.rows ≡ some r
      → v.env.fails v.tick ≡ false
      → ((R : RecordTables) (W : WorkflowTables) → Keeps (Standing R W) rest)
      → let write : Action (Unit {0}) =
          command (set_status kind id target) >> (audit_log entry >> pure tt) in
        HasStatus kind id target ((write >> rest) v).1.db
  write_and_log v r entry rest f b apart =
      let P : Db → Type 0 = HasStatus kind id target in
      let log : Action (Unit {0}) = audit_log entry >> pure tt in
      bind_at P (command (set_status kind id target) >> log) (λ x. rest) v
        (bind_at P (command (set_status kind id target)) (λ x. log) v (write_at v r f b)
          (λ x.
            bind-Keeps P (audit_log entry) (λ y. pure tt)
              (Keeps-HasStatus (audit_log entry) (λ R W. audit_log-Standing R W entry))
              (λ y w h. h)))
        (λ x. Keeps-HasStatus rest apart)

-- What follows the write leaves the status.
module _ (kind : RecordType) (target : RecordStatus) (rest : RecordRow → Action (Unit {0}))
    (e : WorkflowEvent)
    (apart : (R : RecordTables) (W : WorkflowTables) (r : RecordRow)
      → Keeps (Standing R W) (rest r)) where
  written_once :
      (v : World) (r : RecordRow)
      → find_row kind e.record_id v.db.records.rows ≡ some r
      → v.env.fails v.tick ≡ false
      → HasStatus kind e.record_id target
          ((write_status kind target workflow_approved e >> rest r) v).1.db
  unfolding write_status
  written_once v r f b =
      write_and_log kind e.record_id target v r (convergence_entry kind workflow_approved e)
        (rest r) f b (λ R W. apart R W r)

  -- Once the status is written, whatever fails after it.
  delivered_once :
      (w : World) (r : RecordRow)
      → find_row kind e.record_id w.db.records.rows ≡ some r
      → w.env.fails w.tick ≡ false
      → w.env.fails (suc w.tick) ≡ false
      → HasStatus kind e.record_id target (converge_approved kind target rest e w).1.db
  unfolding converge converge_found converge_unless
  delivered_once w r f a b = elim (Bool-cases (same_status r.status target)) [
    | inl y ↦ (r, ground (arith, f, a, y), same_status_eq r.status target y)
    | inr n ↦
        let at = advance w in
        let same : (converge_approved kind target rest e w)
            ≡ (write_status kind target workflow_approved e >> rest r) at =
          ground (arith, f, a, n) in
        rw same (written_once at r f b)
  ]

  -- The second delivery.
  pub redelivered :
      (w : World) (r : RecordRow)
      → find_row kind e.record_id w.db.records.rows ≡ some r
      → w.env.fails w.tick ≡ false
      → w.env.fails (suc w.tick) ≡ false
      → let v = (converge_approved kind target rest e w).1 in
        (converge_approved kind target rest e v).1.db ≡ v.db
  redelivered w r f a b =
      converge_settled kind target rest e (converge_approved kind target rest e w).1
        (delivered_once w r f a b)
