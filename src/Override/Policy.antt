-- ===== src/Override/Policy.antt =====
-- The policy that packages/core/src/access-control/override-policy.ts lays down, written out type by
-- type, and what `withOverride` makes of it.
use fun_makers_system.Base.{
  ℕ, ◌≡◌, ◌≢◌, ◌⊎◌, inl, inr, Option, some, true, false, arith, Option-cases, Bool-cases, ◌==◌,
  refl, sym, ◌∙◌,
}
use fun_makers_system.Data.Audit.{
  OverrideActionType, workflow_force_progress, workflow_force_close, workflow_reassign_approver,
  document_unsign, document_delete, posting_reverse_silently, project_assignment_revoke_immediately,
  user_unlock_account, user_force_password_reset, reference_data_bulk_edit,
}
use fun_makers_system.Data.Errors.{
  Error, override_not_permitted, second_approver_required, self_approval_prohibited,
}
use fun_makers_system.Effects.{World, Action, ◌>>◌, ok, err, transaction}
use fun_makers_system.Override.{
  is_never_overridable, requires_second_approver, is_override_allowed, check_second_approver,
  check_policy, OverrideParams, run_override, with_override,
}

-- A second approver who is not the actor.
abbrev pub BySecond : ℕ → Option ℕ → Type 0
BySecond actor approver = (other : ℕ) × (approver ≡ some other) × (other ≢ actor)

-- Whether the actor may override, with this second approver.
abbrev pub Permitted : OverrideActionType → ℕ → Option ℕ → Type 0
Permitted workflow_force_progress actor approver = Unit
Permitted workflow_force_close actor approver = BySecond actor approver
Permitted workflow_reassign_approver actor approver = Unit
Permitted document_unsign actor approver = ⊥
Permitted document_delete actor approver = ⊥
Permitted posting_reverse_silently actor approver = ⊥
Permitted project_assignment_revoke_immediately actor approver = BySecond actor approver
Permitted user_unlock_account actor approver = Unit
Permitted user_force_password_reset actor approver = Unit
Permitted reference_data_bulk_edit actor approver = BySecond actor approver

module _ (p : OverrideParams) (w : World) where
  abbrev Passes : Type 0
  Passes = check_policy p w ≡ (ok tt, w)

  abbrev Refuses : Type 0
  Refuses = (x : Error) × (check_policy p w ≡ (err x, w))

  alone :
      is_never_overridable p.override_type ≡ false
      → requires_second_approver p.override_type ≡ false
      → is_override_allowed p.override_type ≡ true
      → Passes
  unfolding check_policy
  alone n r a = rw (n, r, a) refl

  with_second :
      is_never_overridable p.override_type ≡ false
      → requires_second_approver p.override_type ≡ true
      → is_override_allowed p.override_type ≡ true
      → (BySecond p.actor_user_id p.approved_by × Passes)
        ⊎ ((¬ BySecond p.actor_user_id p.approved_by) × Refuses)
  unfolding check_policy check_second_approver
  with_second n r a = elim (Option-cases p.approved_by) [
    | inl e ↦ inr (
      λ (other, q, ne). absurd (cc (e, q)),
      (second_approver_required p.override_type, rw (n, r, e) refl),
    )
    | inr (other, e) ↦ elim (Bool-cases (other == p.actor_user_id)) [
      | inl same ↦ inr (
        λ (o, q, ne). absurd (ne (same_approver o other (sym q ∙ e) same)),
        (self_approval_prohibited p.override_type, rw (n, r, e, same) refl),
      )
      | inr ne ↦ inl ((other, e, ==_false other p.actor_user_id ne), rw (n, r, a, e, ne) refl)
    ]
  ]
    where
      same_approver :
          (o other : ℕ)
          → some o ≡ some other
          → (other == p.actor_user_id) ≡ true
          → o ≡ p.actor_user_id
      same_approver o other q t = ground arith

      ==_false : (a b : ℕ) → (a == b) ≡ false → a ≢ b
      ==_false a b f = ground arith

  refuses_always : is_never_overridable p.override_type ≡ true → Refuses
  unfolding check_policy
  refuses_always n = (override_not_permitted p.override_type, rw n refl)

  abbrev Follows : OverrideActionType → Type 0
  Follows t =
      (Permitted t p.actor_user_id p.approved_by × Passes)
      ⊎ ((¬ Permitted t p.actor_user_id p.approved_by) × Refuses)

  follows : (t : OverrideActionType) → p.override_type ≡ t → Follows t
  unfolding is_never_overridable requires_second_approver is_override_allowed
  follows workflow_force_progress e = inl (tt, alone (rw e) (rw e) (rw e))
  follows workflow_force_close e = with_second (rw e) (rw e) (rw e)
  follows workflow_reassign_approver e = inl (tt, alone (rw e) (rw e) (rw e))
  follows document_unsign e = inr (λ f. absurd f, refuses_always (rw e))
  follows document_delete e = inr (λ f. absurd f, refuses_always (rw e))
  follows posting_reverse_silently e = inr (λ f. absurd f, refuses_always (rw e))
  follows project_assignment_revoke_immediately e = with_second (rw e) (rw e) (rw e)
  follows user_unlock_account e = inl (tt, alone (rw e) (rw e) (rw e))
  follows user_force_password_reset e = inl (tt, alone (rw e) (rw e) (rw e))
  follows reference_data_bulk_edit e = with_second (rw e) (rw e) (rw e)

then_ok :
    {A : Type 0} (m : Action (Unit {0})) (k : Action A) (w : World)
    → m w ≡ (ok tt, w)
    → (m >> k) w ≡ k w
then_ok m k w e = ground (arith, e)

then_err :
    {A : Type 0} (m : Action (Unit {0})) (k : Action A) (w : World) (x : Error)
    → m w ≡ (err x, w)
    → (m >> k) w ≡ (err x, w)
then_err m k w x e = ground (arith, e)

-- `withOverride` decides by the policy that `Permitted` writes out type by type: a permitted override runs
-- its business action and the log in one transaction, and one that is not permitted throws before the
-- action runs, with nothing changed at all.
pub with_override_follows_policy :
    {A : Type 0} (p : OverrideParams) (fn : Action A) (w : World)
    → (Permitted p.override_type p.actor_user_id p.approved_by
        × (with_override p fn w ≡ transaction (run_override p fn) w))
      ⊎ ((¬ Permitted p.override_type p.actor_user_id p.approved_by)
          × ((x : Error) × (with_override p fn w ≡ (err x, w))))
unfolding with_override
with_override_follows_policy p fn w = elim (follows p w p.override_type refl) [
  | inl (permitted, passes) ↦
      inl (permitted, then_ok (check_policy p) (transaction (run_override p fn)) w passes)
  | inr (denied, (x, refuses)) ↦
      inr (denied, (x, then_err (check_policy p) (transaction (run_override p fn)) w x refuses))
]
