-- ===== src/Posting/Reversal/Effect.antt =====
-- What `reverse_posting_event` leaves behind.
use fun_makers_system.Base.{
  ℕ, ◌≡◌, inl, inr, false, none, some, [], ◌∷◌, ◌++◌, ◌==◌, arith, Bool-cases, update_where,
}
use fun_makers_system.Base.Text.{Text, is_blank}
use fun_makers_system.Data.Posting.{PostingEvent, posted, reversal}
use fun_makers_system.Data.Errors.{Error}
use fun_makers_system.Effects.{World, ok, err, transaction}
use fun_makers_system.Effects.Laws.{SameStore, Reads, Outcome-cases}
use fun_makers_system.Audit.{audit_log, audit_row}
use fun_makers_system.Posting.Ledger.{find_event, find_by_key}
use fun_makers_system.Posting.Reversal.{
  check_reversible, reverse_posting_event, write_reversal, reversal_event, point_to, reversed_entry,
}

pub check_reversible-Reads : (id : ℕ) → Reads (check_reversible id)
unfolding check_reversible
check_reversible-Reads id w = ground arith

check_reversible_ok :
    (id : ℕ) (w : World) (e : PostingEvent)
    → (check_reversible id w).0 ≡ ok e
    → (find_event id w.db.posting.events ≡ some e)
      × (e.status ≡ posted)
      × (e.reversed_by_event_id ≡ none)
unfolding check_reversible
check_reversible_ok id w e h = ground arith

-- The two rows and the audit row that a reversal writes.
pub record Reversed (e : PostingEvent) (at id : ℕ) (actor : ℕ) (reason : Text) (w w' : World)
    : Type 0 where
  pub id_free : find_event id w.db.posting.events ≡ none
  pub key_free : find_by_key (reversal e.id) w.db.posting.events ≡ none
  pub events_after :
      w'.db.posting.events
      ≡ update_where
          (λ x. x.id == e.id)
          (point_to id)
          (w.db.posting.events ++ (reversal_event e at id ∷ []))
  pub audit_after : w'.db.audit ≡ w.db.audit ++ (audit_row (reversed_entry e actor reason) ∷ [])

write_reversal_ok :
    (e : PostingEvent) (reason : Text) (actor at : ℕ) (w : World) (id : ℕ)
    → (transaction (write_reversal e reason actor at) w).0 ≡ ok id
    → Reversed e at id actor reason w (transaction (write_reversal e reason actor at) w).1
unfolding write_reversal audit_log
write_reversal_ok e reason actor at w id h = ground arith

write_reversal_err :
    (e : PostingEvent) (reason : Text) (actor at : ℕ) (w : World) (x : Error)
    → (transaction (write_reversal e reason actor at) w).0 ≡ err x
    → SameStore w (transaction (write_reversal e reason actor at) w).1
unfolding write_reversal audit_log
write_reversal_err e reason actor at w x h = ground arith

-- A reversal that returns `id` found a posted event that nothing had reversed and whose reversal key
-- was free, and it wrote three rows: the mirror event `id` at the end of the ledger, the back-pointer
-- of the original, and the audit row. Nothing else in the ledger changed.
pub reverse_posting_event-Reversed :
    (original_id : ℕ) (reason : Text) (actor : ℕ) (w : World) (id : ℕ)
    → (reverse_posting_event original_id reason actor w).0 ≡ ok id
    → (is_blank reason ≡ false)
      × ((e : PostingEvent) × (at : ℕ) × (find_event original_id w.db.posting.events ≡ some e)
          × (e.status ≡ posted)
          × (e.reversed_by_event_id ≡ none)
          × Reversed e at id actor reason w (reverse_posting_event original_id reason actor w).1)
unfolding reverse_posting_event
reverse_posting_event-Reversed original_id reason actor w id h =
    elim (Outcome-cases (check_reversible original_id w).0) [
      | inl (e, c) ↦
          let v = (check_reversible original_id w).1 in
          let at = v.env.clock v.tick in
          let (f, s, n) = check_reversible_ok original_id w e c in
          let reads = check_reversible-Reads original_id w in
          elim (Bool-cases (is_blank reason)) [
            | inl b ↦ absurd (ground arith)
            | inr b ↦
                let o : (transaction (write_reversal e reason actor at) v).0 ≡ ok id =
                  ground arith in
                let r = write_reversal_ok e reason actor at v id o in
                (
                  b,
                  (
                    e,
                    at,
                    f,
                    s,
                    n,
                    record {
                      id_free = ground (arith, r, reads);
                      key_free = ground (arith, r, reads);
                      events_after = ground (arith, r, reads);
                      audit_after = ground (arith, r, reads);
                    },
                  ),
                )
          ]
      | inr (x, c) ↦ absurd (ground arith)
    ]

-- A reversal that throws has changed nothing.
pub reverse_posting_event_atomic :
    (original_id : ℕ) (reason : Text) (actor : ℕ) (w : World) {x : Error}
    → (reverse_posting_event original_id reason actor w).0 ≡ err x
    → SameStore w (reverse_posting_event original_id reason actor w).1
unfolding reverse_posting_event
reverse_posting_event_atomic original_id reason actor w {x} h =
    elim (Outcome-cases (check_reversible original_id w).0) [
      | inl (e, c) ↦
          let v = (check_reversible original_id w).1 in
          let at = v.env.clock v.tick in
          ground (
            arith,
            c,
            h,
            write_reversal_err e reason actor at v x,
            check_reversible-Reads original_id w,
          )
      | inr (y, c) ↦ ground (arith, c, check_reversible-Reads original_id w)
    ]
