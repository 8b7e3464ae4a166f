-- ===== src/Budget/Effect.antt =====
-- What a handler that reports an absorption has written.
use fun_makers_system.Base.{
  ℕ, ◌≡◌, ◌≢◌, inl, inr, refl, Option, none, some, [], ◌∷◌, ◌++◌, ◌==◌, find, update_first, arith,
  Option-cases,
}
use fun_makers_system.Base.Int.{ℤ}
use fun_makers_system.Data.Audit.{AuditAction, AuditEntry, absorb_po_commitment}
use fun_makers_system.Data.Budget.{
  BudgetLine, PurchaseOrder, ReasonCode, Category, ProjectBudget, no_category,
}
use fun_makers_system.Data.Errors.{record_not_found}
use fun_makers_system.Effects.{World, Db, Action, ok, advance}
use fun_makers_system.Effects.Laws.{SameStore, Outcome-cases, read_or_fail_ok}
use fun_makers_system.Audit.{audit_log, audit_row}
use fun_makers_system.Budget.Lines.{
  Source, same_line, find_line, line_at, add_committed, resolved, unresolved, resolve_budget_line,
  resolve_in_budget, resolve_by_code, resolve_in_category,
}
use fun_makers_system.Budget.Sound.{resolve_budget_line-Reads}
use fun_makers_system.Budget.Absorption.{
  AbsorptionResult, absorbed, refuse, record_crash, guarded, on_line, on_category, change_line,
  absorption_entry, find_po, absorb_po, absorb_po_commitment_handler, po_source,
}

-- The line of the project's budget whose category has the code of the procurement category.
pub record LineOf (d : Db) (project_id category_id : ℕ) (l : BudgetLine) : Type 0 where
  pub its_budget : ProjectBudget
  pub from_category : Category
  pub to_category : Category
  pub budget_found : find (λ b. b.project_id == project_id) d.budget.budgets ≡ some its_budget
  pub from_found :
      find (λ x. x.id == category_id) d.budget.procurement_categories ≡ some from_category
  pub to_found :
      find (λ x. x.code == from_category.code) d.budget.budget_categories ≡ some to_category
  pub line_found : find (line_at its_budget.id to_category.id) d.budget.lines ≡ some l

pub resolve_budget_line_ok :
    (p c : ℕ) (w : World) (l : BudgetLine)
    → (resolve_budget_line p c w).0 ≡ ok (resolved l)
    → LineOf w.db p c l
unfolding resolve_budget_line resolve_in_budget resolve_by_code resolve_in_category
resolve_budget_line_ok p c w l h =
    elim (Option-cases (find (λ b. b.project_id == p) w.db.budget.budgets)) [
      | inl n ↦ absurd (ground arith)
      | inr (b, hb) ↦
          elim (Option-cases (find (λ x. x.id == c) w.db.budget.procurement_categories)) [
            | inl n ↦ absurd (ground arith)
            | inr (x, hx) ↦
                elim (Option-cases (find (λ y. y.code == x.code) w.db.budget.budget_categories)) [
                  | inl n ↦ absurd (ground arith)
                  | inr (y, hy) ↦ record {
                    its_budget = b;
                    from_category = x;
                    to_category = y;
                    budget_found = hb;
                    from_found = hx;
                    to_found = hy;
                    line_found = ground arith;
                  }
                ]
          ]
    ]

-- A category that does not resolve has no line.
pub resolve_budget_line-unresolved :
    (p c : ℕ) (w : World) (reason : ReasonCode) (l : BudgetLine)
    → (resolve_budget_line p c w).0 ≡ ok (unresolved reason)
    → ¬ LineOf w.db p c l
unfolding resolve_budget_line resolve_in_budget resolve_by_code resolve_in_category
resolve_budget_line-unresolved p c w reason l h f =
    let b = f.budget_found in
    let x = f.from_found in let y = f.to_found in let z = f.line_found in ground arith

-- The absorption of `amount` by one line, and its audit row.
pub record Absorbed (f : BudgetLine → BudgetLine) (e : AuditEntry) (id : ℕ) (w w' : World)
    : Type 0 where
  pub line : BudgetLine
  pub line_found : find_line id w.db.budget.lines ≡ some line
  pub lines_after : w'.db.budget.lines ≡ update_first (same_line id) f w.db.budget.lines
  pub audit_after : w'.db.audit ≡ w.db.audit ++ (audit_row e ∷ [])
  pub exceptions_after : w'.db.budget.absorption_exceptions ≡ w.db.budget.absorption_exceptions

pub change_line_ok :
    (f : BudgetLine → BudgetLine) (a : ℤ) (k : AuditAction) (s : Source) (actor : ℕ)
    (l : BudgetLine) (w : World) (id : ℕ) (b : ℤ)
    → (change_line f a k s actor l w).0 ≡ ok (absorbed id b)
    → (id ≡ l.id)
      × (b ≡ a)
      × Absorbed f (absorption_entry k s actor l.id) l.id w (change_line f a k s actor l w).1
unfolding change_line audit_log
change_line_ok f a k s actor l w id b h = elim (Option-cases (find_line l.id w.db.budget.lines)) [
  | inl n ↦ absurd (ground arith)
  | inr (x, y) ↦ (
    ground arith,
    ground arith,
    record {
      line = x;
      line_found = y;
      lines_after = ground arith;
      audit_after = ground arith;
      exceptions_after = ground arith;
    },
  )
]

refuse_never_absorbs :
    (s : Source) (r : ReasonCode) (w : World) (id : ℕ) (b : ℤ)
    → (refuse s r w).0 ≢ ok (absorbed id b)
unfolding refuse
refuse_never_absorbs s r w id b h = ground arith

-- An absorption that is reported is that of the handler's body.
pub guarded_absorbed :
    (s : Source) (m : Action AbsorptionResult) (w : World) (id : ℕ) (b : ℤ)
    → (guarded s m w).0 ≡ ok (absorbed id b)
    → ((m w).0 ≡ ok (absorbed id b)) × ((guarded s m w).1 ≡ (m w).1)
unfolding guarded record_crash
guarded_absorbed s m w id b h = elim (Outcome-cases (m w).0) [
  | inl (r, c) ↦ (ground arith, ground arith)
  | inr (e, c) ↦ absurd (ground arith)
]

pub on_category_absorbed :
    (s : Source) (o : Option ℕ) (k : BudgetLine → Action AbsorptionResult) (w : World) (id : ℕ)
    (b : ℤ)
    → (on_category s o k w).0 ≡ ok (absorbed id b)
    → (c : ℕ) × (l : BudgetLine) × (v : World) × (o ≡ some c)
      × LineOf w.db s.project_id c l
      × SameStore w v
      × (on_category s o k w ≡ k l v)
unfolding on_category on_line
on_category_absorbed s none k w id b h = absurd (refuse_never_absorbs s no_category w id b h)
on_category_absorbed s (some c) k w id b h =
    let v = (resolve_budget_line s.project_id c w).1 in
    elim (Outcome-cases (resolve_budget_line s.project_id c w).0) [
      | inl (resolved l, y) ↦ (
        c,
        l,
        v,
        refl,
        resolve_budget_line_ok s.project_id c w l y,
        resolve_budget_line-Reads s.project_id c w,
        ground arith,
      )
      | inl (unresolved r, y) ↦ absurd (refuse_never_absorbs s r v id b (ground arith))
      | inr (e, y) ↦ absurd (ground arith)
    ]

-- Reads before an absorption change nothing of it.
Absorbed-from :
    {f : BudgetLine → BudgetLine} {e : AuditEntry} {id : ℕ} {w v w' : World}
    → SameStore w v
    → Absorbed f e id v w'
    → Absorbed f e id w w'
Absorbed-from same done = record {
  line = done.line;
  line_found = rw (same.same_db) at (done.line_found);
  lines_after = ground (arith, same, done);
  audit_after = ground (arith, same, done);
  exceptions_after = ground (arith, same, done);
}

Absorbed-to :
    {k : AuditAction} (s : Source) {actor id id' : ℕ} {amount amount' : ℤ} {v w w' : World}
    → w' ≡ w
    → id ≡ id'
    → amount ≡ amount'
    → Absorbed (add_committed amount') (absorption_entry k s actor id') id' v w
    → Absorbed (add_committed amount) (absorption_entry k s actor id) id v w'
Absorbed-to s e i a d = rw (e, i, a) d

absorb_po_ok :
    (s : Source) (actor : ℕ) (w : World) (r : AbsorptionResult)
    → (absorb_po s actor w).0 ≡ ok r
    → (po : PurchaseOrder) × (find_po s.record_id w.db.budget ≡ some po)
      × (absorb_po s actor w
          ≡ on_category s po.category_id
              (change_line
                (add_committed po.total_amount)
                po.total_amount
                absorb_po_commitment
                s
                actor)
              (advance w))
unfolding absorb_po
absorb_po_ok s actor w r h =
    read_or_fail_ok (λ d. find_po s.record_id d.budget) record_not_found
      (λ po.
        on_category s po.category_id (
          change_line (add_committed po.total_amount) po.total_amount absorb_po_commitment s actor))
      w r h

-- What `absorbPoCommitment` has done when it reports an absorption into line `id`: the order exists,
-- its category leads to that line in the project's budget, the line's commitment rose by the order's
-- total, which is the amount reported, and the audit log gained one row; all other lines and the
-- exceptions are as they were.
pub absorb_po_commitment-Absorbed :
    (project_id po_id actor : ℕ) (w : World) (id : ℕ) (amount : ℤ)
    → (absorb_po_commitment_handler project_id po_id actor w).0 ≡ ok (absorbed id amount)
    → let s = po_source project_id po_id in
      (po : PurchaseOrder) × (c : ℕ) × (l : BudgetLine) × (find_po po_id w.db.budget ≡ some po)
      × (po.category_id ≡ some c)
      × (amount ≡ po.total_amount)
      × LineOf w.db project_id c l
      × (id ≡ l.id)
      × Absorbed
          (add_committed amount)
          (absorption_entry absorb_po_commitment s actor id)
          id
          w
          (absorb_po_commitment_handler project_id po_id actor w).1
unfolding absorb_po_commitment_handler
absorb_po_commitment-Absorbed project_id po_id actor w id amount h =
    let s = po_source project_id po_id in
    let (m, run) = guarded_absorbed s (absorb_po s actor) w id amount h in
    let (po, found, body) = absorb_po_ok s actor w (absorbed id amount) m in
    let k =
      change_line (add_committed po.total_amount) po.total_amount absorb_po_commitment s actor in
    let o : (on_category s po.category_id k (advance w)).0 ≡ ok (absorbed id amount) =
      rw body at m in
    let (c, l, v, has, line, same, tail) =
      on_category_absorbed s po.category_id k (advance w) id amount o in
    let p : (k l v).0 ≡ ok (absorbed id amount) = rw tail at o in
    let (i, a, done) =
      change_line_ok (add_committed po.total_amount) po.total_amount absorb_po_commitment s actor l
        v id amount p in
    let read : SameStore w v = record {
      same_db = same.same_db;
      same_emitted = same.same_emitted;
      same_env = same.same_env;
    } in
    let last : (absorb_po_commitment_handler project_id po_id actor w).1 ≡ (k l v).1 =
      ground arith in
    (po, c, l, found, has, a, line, i, Absorbed-to s last i a (Absorbed-from read done))
