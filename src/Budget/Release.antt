-- ===== src/Budget/Release.antt =====
-- What `releaseCommitmentBounded` releases.
use fun_makers_system.Base.{◌≡◌, ◌⊎◌, arith}
use fun_makers_system.Base.Int.{ℤ, pos, ◌≤ℤ◌, ◌-ℤ◌, ◌+ℤ◌}
use fun_makers_system.Budget.Lines.{bounded_release}

-- From a commitment that is not negative, a release leaves one that is not negative; for an amount
-- that is not negative it lies between 0 and both, and it is one of the two.
pub bounded_release_bounds :
    (current amount : ℤ)
    → pos 0 ≤ℤ current
    → (pos 0 ≤ℤ (current -ℤ bounded_release current amount))
      × (pos 0 ≤ℤ bounded_release current amount)
      × (bounded_release current amount ≤ℤ current)
      × (pos 0 ≤ℤ amount
          → (bounded_release current amount ≤ℤ amount)
            × ((bounded_release current amount ≡ amount)
                ⊎ (bounded_release current amount ≡ current)))
unfolding bounded_release ◌-ℤ◌
bounded_release_bounds current amount h = ground arith

-- Two releases in a row release as much as one release of their sum.
pub bounded_release_twice :
    (current a b : ℤ)
    → pos 0 ≤ℤ current
    → pos 0 ≤ℤ a
    → pos 0 ≤ℤ b
    → bounded_release current a +ℤ bounded_release (current -ℤ bounded_release current a) b
      ≡ bounded_release current (a +ℤ b)
unfolding bounded_release ◌-ℤ◌ ◌+ℤ◌
bounded_release_twice current a b hc ha hb = ground arith
