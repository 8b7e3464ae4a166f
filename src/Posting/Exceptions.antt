-- ===== src/Posting/Exceptions.antt =====
-- packages/core/src/posting/exceptions.ts: retrying and resolving a failed posting.
use fun_makers_system.Base.{ℕ, Option, none, some}
use fun_makers_system.Data.Audit.{
  AuditAction, AuditEntry, user, posting_exception_retried, posting_exception_retry_failed,
  posting_exception_resolved,
}
use fun_makers_system.Data.Posting.{
  retry, PostingEvent, PostingException, retry_failed, ResolutionNote, retried_successfully, note,
}
use fun_makers_system.Data.Errors.{Error, posting_exception_not_found, exception_already_resolved}
use fun_makers_system.Effects.{
  Db, Action, ok, ◌>>=◌, ◌>>◌, pure, throw, throw_if, or_throw, try_catch, query, command, now,
}
use fun_makers_system.Audit.{audit_log}
use fun_makers_system.Posting.Registry.{Registry}
use fun_makers_system.Posting.Ledger.{find_event, find_exception, update_exception}
use fun_makers_system.Posting.Service.{PostInput, post}
use fun_makers_system.Posting.Reversal.{is_set}

abbrev pub join_event :
    PostingException → Option PostingEvent → Option (PostingException × PostingEvent)
join_event x none = none
join_event x (some e) = some (x, e)

abbrev pub with_event : Db → Option PostingException → Option (PostingException × PostingEvent)
with_event d none = none
with_event d (some x) = join_event x (find_event x.event_id d.posting.events)

-- `findUnique` with its event, which a foreign key guarantees; then the two checks.
unfoldable pub open_exception_with_event : ℕ → Action (PostingException × PostingEvent)
open_exception_with_event id = do
  found ← query (λ d. with_event d (find_exception id d.posting.exceptions))
  (x, e) ← or_throw found (posting_exception_not_found id)
  throw_if (is_set x.resolved_at) exception_already_resolved
  pure (x, e)

abbrev pub resolve_with : ℕ → ℕ → ResolutionNote → PostingException → PostingException
resolve_with at actor n x = record x {
  resolved_at = some at;
  resolved_by = some actor;
  resolution_note = some n;
}

abbrev pub exception_entry : AuditAction → ℕ → ℕ → ℕ → AuditEntry
exception_entry action id actor project_id = record {
  actor_user_id = some actor;
  actor_source = user;
  action = action;
  resource_id = id;
  project_id = some project_id;
  org_id = none;
  reason = none;
}

-- The input of the second try: the origin and the batch of the first are not passed on.
abbrev pub retry_input : PostingEvent → ℕ → ℕ → ℕ → PostInput
retry_input e exception_id uuid actor = record {
  event_type = e.event_type;
  source_service = e.source_service;
  source_record_type = e.source_record_type;
  source_record_id = e.source_record_id;
  project_id = e.project_id;
  entity_id = e.entity_id;
  idempotency_key = retry exception_id uuid;
  payload = e.payload;
  actor_user_id = some actor;
  origin = none;
  import_batch_id = none;
  posted_at_override = none;
}

-- `randomUUID()`
abbrev pub random_uuid : Action ℕ
random_uuid w = (ok (w.env.uuid w.tick), w)

unfoldable pub retry_post : Registry → ℕ → ℕ → PostingEvent → Action PostingEvent
retry_post r id actor e = do
  uuid ← random_uuid
  new_event ← post r (retry_input e id uuid actor)
  at ← now
  command (update_exception id (resolve_with at actor retried_successfully))
  audit_log (exception_entry posting_exception_retried id actor e.project_id)
  pure new_event

abbrev pub note_failure : Error → PostingException → PostingException
note_failure x ex = record ex { reason = retry_failed x }

unfoldable pub record_retry_failure : ℕ → ℕ → PostingEvent → Error → Action PostingEvent
record_retry_failure id actor e x = do
  command (update_exception id (note_failure x))
  audit_log (exception_entry posting_exception_retry_failed id actor e.project_id)
  throw x

-- `retryException`
unfoldable pub retry_exception : Registry → ℕ → ℕ → Action PostingEvent
retry_exception r id actor = do
  (x, e) ← open_exception_with_event id
  try_catch (retry_post r id actor e) (record_retry_failure id actor e)

-- `resolveException`
unfoldable pub resolve_exception : ℕ → ℕ → ℕ → Action (Unit {0})
resolve_exception id message actor = do
  (x, e) ← open_exception_with_event id
  at ← now
  command (update_exception id (resolve_with at actor (note message)))
  audit_log (exception_entry posting_exception_resolved id actor e.project_id)
  pure tt
