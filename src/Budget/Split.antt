-- ===== src/Budget/Split.antt =====
-- `releaseCommitmentBounded` twice on one line: how an amount that is released in parts adds up.
use fun_makers_system.Base.{
  ℕ, ◌≡◌, ◌==◌, inl, inr, refl, some, List, [], ◌∷◌, arith, update_first, Bool-cases, true, sym, ap,
  ◌∙◌,
}
use fun_makers_system.Base.Int.{ℤ, pos, ◌≤ℤ◌, ◌-ℤ◌, ◌+ℤ◌, leb_ℤ}
use fun_makers_system.Data.Budget.{BudgetLine}
use fun_makers_system.Effects.{World, ok}
use fun_makers_system.Budget.Lines.{
  same_line, find_line, bounded_release, release_commitment_bounded, sub_committed,
}
use fun_makers_system.Budget.Relief.{released_lines, Released, release_ok}
use fun_makers_system.Budget.Release.{bounded_release_twice}

sub-twice : (c r s : ℤ) → (c -ℤ r) -ℤ s ≡ c -ℤ (r +ℤ s)
unfolding ◌-ℤ◌ ◌+ℤ◌
sub-twice c r s = ground arith

update-twice :
    (id : ℕ) (r s : ℤ) (ls : List BudgetLine)
    → update_first
        (same_line id)
        (sub_committed s)
        (update_first (same_line id) (sub_committed r) ls)
      ≡ update_first (same_line id) (sub_committed (r +ℤ s)) ls
update-twice id r s [] = refl
update-twice id r s (l ∷ ls) = elim (Bool-cases (l.id == id)) [
  | inl y ↦ rw y (rw y (rw (sub-twice l.committed_amount r s) refl))
  | inr n ↦ rw n (rw n (rw (update-twice id r s ls) refl))
]

released_lines-twice :
    (id : ℕ) (r s : ℤ) (ls : List BudgetLine)
    → pos 0 ≤ℤ r
    → pos 0 ≤ℤ s
    → released_lines id s (released_lines id r ls) ≡ released_lines id (r +ℤ s) ls
unfolding ◌+ℤ◌
released_lines-twice id r s ls hr hs = elim (Bool-cases (leb_ℤ r (pos 0))) [
  | inl y ↦ ground arith
  | inr n ↦ elim (Bool-cases (leb_ℤ s (pos 0))) [
    | inl z ↦ ground arith
    | inr m ↦ ground (arith, update-twice id r s ls)
  ]
]

find-updated :
    (id : ℕ) (r : ℤ) (ls : List BudgetLine) (l : BudgetLine)
    → find_line id ls ≡ some l
    → find_line id (update_first (same_line id) (sub_committed r) ls) ≡ some (sub_committed r l)
find-updated id r [] l e = cc
find-updated id r (x ∷ xs) l e = elim (Bool-cases (x.id == id)) [
  | inl y ↦ let q : x ≡ l = ground arith in rw y (rw y (rw q refl))
  | inr n ↦ rw n (rw n (find-updated id r xs l (rw n at e)))
]

sub_zero : (c r : ℤ) → pos 0 ≤ℤ r → leb_ℤ r (pos 0) ≡ true → c ≡ c -ℤ r
unfolding ◌-ℤ◌
sub_zero c r h e = ground arith

find_line-released :
    (id : ℕ) (r : ℤ) (ls : List BudgetLine) (l : BudgetLine)
    → pos 0 ≤ℤ r
    → find_line id ls ≡ some l
    → (k : BudgetLine) × (find_line id (released_lines id r ls) ≡ some k)
      × (k.committed_amount ≡ l.committed_amount -ℤ r)
find_line-released id r ls l h e = elim (Bool-cases (leb_ℤ r (pos 0))) [
  | inl y ↦ (l, rw y e, sub_zero l.committed_amount r h y)
  | inr n ↦ (sub_committed r l, rw n (find-updated id r ls l e), refl)
]

amount_of :
    {id : ℕ} {a r : ℤ} {w w' : World} (l : BudgetLine)
    → find_line id w.db.budget.lines ≡ some l
    → Released id a r w w'
    → r ≡ bounded_release l.committed_amount a
amount_of l e d = let q : d.line ≡ l = ground arith in rw q at (d.amount_released)

left_over :
    {id : ℕ} {a r : ℤ} {w w' : World} (l : BudgetLine)
    → find_line id w.db.budget.lines ≡ some l
    → pos 0 ≤ℤ r
    → Released id a r w w'
    → (k : BudgetLine) × (find_line id w'.db.budget.lines ≡ some k)
      × (k.committed_amount ≡ l.committed_amount -ℤ r)
left_over {id} {r} {w} l e h d =
    rw (d.lines_after) (find_line-released id r w.db.budget.lines l h e)

not_negative : (c a r : ℤ) → r ≡ bounded_release c a → pos 0 ≤ℤ r
unfolding bounded_release
not_negative c a r e = ground arith

amounts_add :
    (c a b r s t : ℤ)
    → pos 0 ≤ℤ c
    → pos 0 ≤ℤ a
    → pos 0 ≤ℤ b
    → r ≡ bounded_release c a
    → s ≡ bounded_release (c -ℤ r) b
    → t ≡ bounded_release c (a +ℤ b)
    → r +ℤ s ≡ t
amounts_add c a b r s t hc ha hb er es et = rw (et, es, er) (bounded_release_twice c a b hc ha hb)

-- Two releases by one line, of `a` and then of `b`, release together what one release of `a + b` would,
-- and leave the budget lines as that one would, where all three succeed, the amounts are not negative,
-- and neither is what is committed on the line before.
pub release_commitment_bounded_in_parts :
    (id : ℕ) (a b : ℤ) (w : World) (l : BudgetLine) (r s t : ℤ)
    → find_line id w.db.budget.lines ≡ some l
    → pos 0 ≤ℤ l.committed_amount
    → pos 0 ≤ℤ a
    → pos 0 ≤ℤ b
    → (release_commitment_bounded id a w).0 ≡ ok r
    → (release_commitment_bounded id b (release_commitment_bounded id a w).1).0 ≡ ok s
    → (release_commitment_bounded id (a +ℤ b) w).0 ≡ ok t
    → (r +ℤ s ≡ t)
      × ((release_commitment_bounded id b (release_commitment_bounded id a w).1).1.db.budget.lines
          ≡ (release_commitment_bounded id (a +ℤ b) w).1.db.budget.lines)
release_commitment_bounded_in_parts id a b w l r s t found hl ha hb hr hs ht =
    let v = (release_commitment_bounded id a w).1 in
    let x = release_ok id a w r hr in
    let y = release_ok id b v s hs in
    let z = release_ok id (a +ℤ b) w t ht in
    let er = amount_of l found x in
    let nr = not_negative l.committed_amount a r er in
    let (k, fk, ck) = left_over l found nr x in
    let ey = amount_of k fk y in
    let es : s ≡ bounded_release (l.committed_amount -ℤ r) b = rw ck at ey in
    let ns = not_negative k.committed_amount b s ey in
    let sum = amounts_add l.committed_amount a b r s t hl ha hb er es (amount_of l found z) in
    (
      sum,
      y.lines_after
          ∙ ap (released_lines id s) x.lines_after
          ∙ released_lines-twice id r s w.db.budget.lines nr ns
          ∙ ap (λ q. released_lines id q w.db.budget.lines) sum
          ∙ sym z.lines_after,
    )
