-- ===== src/Tests/Budget.antt =====
-- Runs of the absorption handlers.
use fun_makers_system.Base.{ℕ, ◌≡◌, ◌⊎◌, refl, some, List, [], ◌∷◌, arith}
use fun_makers_system.Base.Int.{pos, ◌≤ℤ◌, ◌+ℤ◌, ◌-ℤ◌}
use fun_makers_system.Data.Audit.{absorb_po_commitment}
use fun_makers_system.Data.Budget.{BudgetLine, PurchaseOrder}
use fun_makers_system.Effects.{ok}
use fun_makers_system.Fixtures.{world}
use fun_makers_system.Audit.{audit_log}
use fun_makers_system.Budget.Lines.{
  release_commitment_bounded, release_in_tx, add_committed, bounded_release, resolve_budget_line,
  resolve_in_budget, resolve_by_code, resolve_in_category,
}
use fun_makers_system.Budget.Absorption.{
  AbsorptionResult, absorption_entry, find_po, po_source, guarded, on_category, on_line,
  change_line, absorb_po, absorb_po_commitment_handler,
}
use fun_makers_system.Budget.Sound.{Sound}
use fun_makers_system.Budget.Release.{bounded_release_bounds}
use fun_makers_system.Budget.Split.{release_commitment_bounded_in_parts}
use fun_makers_system.Budget.Runs.{
  Absorption, po_approved, invoice_approved, po_cancelled, absorb, absorb_all, absorb_all-Sound,
  absorb_returns,
}
use fun_makers_system.Budget.Effect.{LineOf, Absorbed, absorb_po_commitment-Absorbed}

-- An order is approved, invoiced in part, and cancelled.
abbrev calls : List Absorption
calls = po_approved 5 50 7 ∷ invoice_approved 5 60 7 ∷ po_cancelled 5 50 7 ∷ []

sound : Sound world.db
sound = record { lines_sound = ground arith; orders_sound = ground arith }

absorb_all-Sound_example : Sound (absorb_all calls world).db
absorb_all-Sound_example = absorb_all-Sound calls world sound

absorb_returns_example : (r : AbsorptionResult) × ((absorb (po_approved 5 51 7) world).0 ≡ ok r)
absorb_returns_example = absorb_returns (po_approved 5 51 7) world

bounded_release_bounds_example :
    (pos 0 ≤ℤ (pos 500 -ℤ bounded_release (pos 500) (pos 700)))
    × (pos 0 ≤ℤ bounded_release (pos 500) (pos 700))
    × (bounded_release (pos 500) (pos 700) ≤ℤ pos 500)
    × (pos 0 ≤ℤ pos 700
        → (bounded_release (pos 500) (pos 700) ≤ℤ pos 700)
          × ((bounded_release (pos 500) (pos 700) ≡ pos 700)
              ⊎ (bounded_release (pos 500) (pos 700) ≡ pos 500)))
bounded_release_bounds_example = bounded_release_bounds (pos 500) (pos 700) (ground arith)

abbrev line : BudgetLine
line = record {
  id = 31;
  budget_id = 30;
  category_id = 42;
  committed_amount = pos 500;
  actual_amount = pos 0;
}

-- The second release finds less than it asks for.
release_commitment_bounded_in_parts_example :
    (pos 300 +ℤ pos 200 ≡ pos 500)
    × ((release_commitment_bounded 31
          (pos 400)
          (release_commitment_bounded 31 (pos 300) world).1).1.db.budget.lines
        ≡ (release_commitment_bounded 31 (pos 300 +ℤ pos 400) world).1.db.budget.lines)
unfolding release_commitment_bounded release_in_tx bounded_release ◌-ℤ◌ ◌+ℤ◌
release_commitment_bounded_in_parts_example =
    release_commitment_bounded_in_parts 31 (pos 300) (pos 400) world line (pos 300) (pos 200)
      (pos 500) refl (ground arith) (ground arith) (ground arith) refl refl refl

absorb_po_commitment-Absorbed_example :
    (po : PurchaseOrder) × (c : ℕ) × (l : BudgetLine) × (find_po 50 world.db.budget ≡ some po)
    × (po.category_id ≡ some c)
    × (pos 1000 ≡ po.total_amount)
    × LineOf world.db 5 c l
    × (31 ≡ l.id)
    × Absorbed
        (add_committed (pos 1000))
        (absorption_entry absorb_po_commitment (po_source 5 50) 7 31)
        31
        world
        (absorb_po_commitment_handler 5 50 7 world).1
unfolding absorb_po_commitment_handler guarded absorb_po on_category on_line change_line
    resolve_budget_line resolve_in_budget resolve_by_code resolve_in_category audit_log
absorb_po_commitment-Absorbed_example =
    absorb_po_commitment-Absorbed 5 50 7 world 31 (pos 1000) refl
