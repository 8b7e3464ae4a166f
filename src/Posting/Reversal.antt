-- ===== src/Posting/Reversal.antt =====
-- packages/core/src/posting/reversal.ts: `reversePostingEvent`.
pub mod Effect
use fun_makers_system.Base.{ℕ, Bool, true, false, not, Option, none, some, ◌==◌, update_where}
use fun_makers_system.Base.Text.{Text, is_blank}
use fun_makers_system.Data.Audit.{AuditEntry, user, posting_event_reversed}
use fun_makers_system.Data.Posting.{PostingStatus, posted, reversed, live, reversal, PostingEvent}
use fun_makers_system.Data.Errors.{
  reason_required, posting_event_not_found, posting_not_reversible, posting_already_reversed,
}
use fun_makers_system.Effects.{
  Db, Action, ◌>>=◌, ◌>>◌, pure, throw_if, or_throw, query, command, create, now, transaction,
}
use fun_makers_system.Audit.{audit_log}
use fun_makers_system.Posting.Ledger.{find_event, insert_event, with_events}

abbrev pub is_posted : PostingStatus → Bool
is_posted posted = true
is_posted _ = false

abbrev pub is_set : Option ℕ → Bool
is_set none = false
is_set (some _) = true

-- The mirror of the original; its origin is the column's default.
abbrev pub reversal_event : PostingEvent → ℕ → ℕ → PostingEvent
reversal_event e at id = record {
  id = id;
  org_id = e.org_id;
  event_type = e.event_type;
  source_service = e.source_service;
  source_record_type = e.source_record_type;
  source_record_id = e.source_record_id;
  project_id = e.project_id;
  entity_id = e.entity_id;
  idempotency_key = reversal e.id;
  payload = e.payload;
  status = reversed;
  origin = live;
  import_batch_id = none;
  posted_at = some at;
  reversed_by_event_id = none;
  failure_reason = none;
}

abbrev pub point_to : ℕ → PostingEvent → PostingEvent
point_to id e = record e { reversed_by_event_id = some id }

-- `postingEvent.update`, which sets the back-pointer alone.
abbrev pub set_reversed_by : ℕ → ℕ → Db → Option Db
set_reversed_by original_id id d = elim (find_event original_id d.posting.events) [
  | none ↦ none
  | some _ ↦
      some (with_events d (update_where (λ e. e.id == original_id) (point_to id) d.posting.events))
]

abbrev pub reversed_entry : PostingEvent → ℕ → Text → AuditEntry
reversed_entry e actor reason = record {
  actor_user_id = some actor;
  actor_source = user;
  action = posting_event_reversed;
  resource_id = e.id;
  project_id = some e.project_id;
  org_id = some e.org_id;
  reason = some reason;
}

unfoldable pub write_reversal : PostingEvent → Text → ℕ → ℕ → Action ℕ
write_reversal e reason actor at = do
  id ← create (λ id. insert_event (reversal_event e at id))
  command (set_reversed_by e.id id)
  audit_log (reversed_entry e actor reason)
  pure id

-- The checks: the event exists, is posted, and has not been reversed.
unfoldable pub check_reversible : ℕ → Action PostingEvent
check_reversible original_id = do
  found ← query (λ d. find_event original_id d.posting.events)
  e ← or_throw found (posting_event_not_found original_id)
  throw_if (not (is_posted e.status)) posting_not_reversible
  throw_if (is_set e.reversed_by_event_id) posting_already_reversed
  pure e

-- `reversePostingEvent`; it returns the id of the reversal.
unfoldable pub reverse_posting_event : ℕ → Text → ℕ → Action ℕ
reverse_posting_event original_id reason actor = do
  throw_if (is_blank reason) reason_required
  e ← check_reversible original_id
  at ← now
  transaction (write_reversal e reason actor at)
