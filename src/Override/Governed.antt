-- ===== src/Override/Governed.antt =====
-- What `withOverride` lets through, and what it leaves behind.
use fun_makers_system.Base.{
  ℕ, ◌≡◌, ◌≢◌, inl, inr, true, false, some, [], ◌∷◌, ◌++◌, arith, Option-cases,
}
use fun_makers_system.Data.Errors.{Error}
use fun_makers_system.Effects.{World, Action, ok, err, transaction, committed}
use fun_makers_system.Effects.Laws.{Reads, Outcome-cases}
use fun_makers_system.Audit.{audit_log, audit_row}
use fun_makers_system.Override.{
  is_never_overridable, requires_second_approver, is_override_allowed, OverrideParams,
  check_second_approver, check_policy, override_entry, override_row, log_override, run_override,
  with_override,
}

-- A permitted override: its type is not on the `never` list, and if the type needs a second approver
-- there is one, who is not the actor.
pub record Governed (p : OverrideParams) : Type 0 where
  pub not_never : is_never_overridable p.override_type ≡ false
  pub classified : is_override_allowed p.override_type ≡ true
  pub second :
      requires_second_approver p.override_type ≡ true
      → (other : ℕ) × (p.approved_by ≡ some other) × (other ≢ p.actor_user_id)

check_policy-Reads : (p : OverrideParams) → Reads (check_policy p)
unfolding check_policy check_second_approver
check_policy-Reads p w = ground arith

check_policy_ok :
    (p : OverrideParams) (w : World)
    → (check_policy p w).0 ≡ ok tt
    → Governed p × ((check_policy p w).1 ≡ w)
unfolding check_policy check_second_approver
check_policy_ok p w h = (
  record {
    not_never = ground arith;
    classified = ground arith;
    second = λ r. elim (Option-cases p.approved_by) [
      | inl n ↦ absurd (ground arith)
      | inr (other, y) ↦ (other, y, ground arith)
    ];
  },
  ground arith,
)

log_override_ok :
    (p : OverrideParams) (w : World)
    → (log_override p w).0 ≡ ok tt
    → let a = audit_row (override_entry p) in
      ((log_override p w).1.db.audit ≡ w.db.audit ++ (a ∷ []))
      × ((log_override p w).1.db.overrides ≡ w.db.overrides ++ (override_row p a ∷ []))
unfolding log_override audit_log
log_override_ok p w h = (ground arith, ground arith)

run_override_ok :
    {A : Type 0} (p : OverrideParams) (fn : Action A) (w : World) (a : A)
    → (transaction (run_override p fn) w).0 ≡ ok a
    → ((fn w).0 ≡ ok a)
      × ((log_override p (fn w).1).0 ≡ ok tt)
      × ((transaction (run_override p fn) w).1.db ≡ (log_override p (fn w).1).1.db)
unfolding run_override
run_override_ok p fn w a h = ground arith

-- An override that returns was permitted, its business action ran and returned the same value, and
-- one audit row and one override row with the reason and the second approver followed its writes.
pub with_override-Governed :
    {A : Type 0} (p : OverrideParams) (fn : Action A) (w : World) (a : A)
    → (with_override p fn w).0 ≡ ok a
    → let w' = (with_override p fn w).1 in
      let row = audit_row (override_entry p) in
      Governed p
      × ((fn w).0 ≡ ok a)
      × (w'.db.audit ≡ (fn w).1.db.audit ++ (row ∷ []))
      × (w'.db.overrides ≡ (fn w).1.db.overrides ++ (override_row p row ∷ []))
unfolding with_override
with_override-Governed p fn w a h = elim (Outcome-cases (check_policy p w).0) [
  | inl (u, c) ↦
      let (g, same) = check_policy_ok p w c in
      let run : with_override p fn w ≡ transaction (run_override p fn) w = ground arith in
      let (f, l, d) = run_override_ok p fn w a (rw run at h) in
      let (x, y) = log_override_ok p (fn w).1 l in (g, f, rw (run, d) x, rw (run, d) y)
  | inr (e, c) ↦ absurd (ground arith)
]

-- An override that throws, for whichever reason, leaves the database as it was.
pub with_override_atomic :
    {A : Type 0} (p : OverrideParams) (fn : Action A) (w : World) (x : Error)
    → (with_override p fn w).0 ≡ err x
    → (with_override p fn w).1.db ≡ w.db
unfolding with_override
with_override_atomic p fn w x h = elim (Outcome-cases (check_policy p w).0) [
  | inl (u, c) ↦
      let (g, same) = check_policy_ok p w c in
      elim (Outcome-cases (committed (run_override p fn) w).0) [
        | inl (a, d) ↦ absurd (ground arith)
        | inr (e, d) ↦ ground arith
      ]
  | inr (e, c) ↦ ground (arith, check_policy-Reads p w)
]
