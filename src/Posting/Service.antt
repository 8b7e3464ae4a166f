-- ===== src/Posting/Service.antt =====
-- packages/core/src/posting/service.ts: `postingService.post`.
pub mod Effect
use fun_makers_system.Base.{ℕ, Option, none, some}
use fun_makers_system.Data.Audit.{ActorSource, user, system, AuditEntry, posting_event_posted}
use fun_makers_system.Data.Posting.{
  posted, failed, PostingOrigin, live, imported_historical, IdempotencyKey, PostingEvent,
  PostingException, ExceptionReason, payload_validation_failed,
}
use fun_makers_system.Data.Errors.{unknown_event_type, payload_invalid}
use fun_makers_system.Effects.{Action, ◌>>=◌, ◌>>◌, pure, throw, query, create, now, transaction}
use fun_makers_system.Audit.{audit_log}
use fun_makers_system.Org.{resolve_project_org_id}
use fun_makers_system.Posting.Registry.{
  Registry, Parsed, parsed, invalid, unknown_type, validate_payload,
}
use fun_makers_system.Posting.Ledger.{find_by_key, insert_event, insert_exception}

-- `PostInput`
pub record PostInput : Type 0 where
  pub event_type : ℕ
  pub source_service : ℕ
  pub source_record_type : ℕ
  pub source_record_id : ℕ
  pub project_id : ℕ
  pub entity_id : Option ℕ
  pub idempotency_key : IdempotencyKey
  pub payload : ℕ
  pub actor_user_id : Option ℕ
  pub origin : Option PostingOrigin
  pub import_batch_id : Option ℕ
  pub posted_at_override : Option ℕ

-- `input.origin ?? 'live'`
abbrev pub origin_of : Option PostingOrigin → PostingOrigin
origin_of none = live
origin_of (some o) = o

-- The backdated time counts for imported events only.
abbrev pub posted_at_of : PostingOrigin → Option ℕ → ℕ → ℕ
posted_at_of imported_historical (some t) at = t
posted_at_of _ _ at = at

abbrev pub source_of : Option ℕ → ActorSource
source_of none = system
source_of (some _) = user

-- The payload is stored as it was given; the default `{}` for a missing one is left out.
abbrev pub failed_event : PostInput → ℕ → ℕ → ℕ → PostingEvent
failed_event i org_id message id = record {
  id = id;
  org_id = org_id;
  event_type = i.event_type;
  source_service = i.source_service;
  source_record_type = i.source_record_type;
  source_record_id = i.source_record_id;
  project_id = i.project_id;
  entity_id = i.entity_id;
  idempotency_key = i.idempotency_key;
  payload = i.payload;
  status = failed;
  origin = origin_of i.origin;
  import_batch_id = i.import_batch_id;
  posted_at = none;
  reversed_by_event_id = none;
  failure_reason = some message;
}

abbrev pub posted_event : PostInput → ℕ → ℕ → ℕ → ℕ → PostingEvent
posted_event i org_id payload at id = record {
  id = id;
  org_id = org_id;
  event_type = i.event_type;
  source_service = i.source_service;
  source_record_type = i.source_record_type;
  source_record_id = i.source_record_id;
  project_id = i.project_id;
  entity_id = i.entity_id;
  idempotency_key = i.idempotency_key;
  payload = payload;
  status = posted;
  origin = origin_of i.origin;
  import_batch_id = i.import_batch_id;
  posted_at = some (posted_at_of (origin_of i.origin) i.posted_at_override at);
  reversed_by_event_id = none;
  failure_reason = none;
}

abbrev pub open_exception : ExceptionReason → ℕ → ℕ → PostingException
open_exception reason event_id id = record {
  id = id;
  event_id = event_id;
  reason = reason;
  resolved_at = none;
  resolved_by = none;
  resolution_note = none;
}

abbrev pub posted_entry : PostInput → ℕ → ℕ → AuditEntry
posted_entry i org_id id = record {
  actor_user_id = i.actor_user_id;
  actor_source = source_of i.actor_user_id;
  action = posting_event_posted;
  resource_id = id;
  project_id = some i.project_id;
  org_id = some org_id;
  reason = none;
}

-- The failed event and its exception are two writes of their own, before the error is thrown again.
unfoldable pub record_failure : PostInput → ℕ → ℕ → Action PostingEvent
record_failure i org_id message = do
  id ← create (λ id. insert_event (failed_event i org_id message id))
  create (λ x. insert_exception (open_exception payload_validation_failed id x))
  throw (payload_invalid message)

-- The event and its audit row, in one transaction.
unfoldable pub write_posted : PostInput → ℕ → ℕ → ℕ → Action PostingEvent
write_posted i org_id payload at = do
  id ← create (λ id. insert_event (posted_event i org_id payload at id))
  audit_log (posted_entry i org_id id)
  pure (posted_event i org_id payload at id)

unfoldable pub existing_or_new : PostInput → ℕ → ℕ → Option PostingEvent → Action PostingEvent
existing_or_new i org_id payload (some e) = pure e
existing_or_new i org_id payload none = do at ← now; transaction (write_posted i org_id payload at)

unfoldable pub post_parsed : PostInput → ℕ → Parsed → Action PostingEvent
post_parsed i org_id unknown_type = throw (unknown_event_type i.event_type)
post_parsed i org_id (invalid message) = record_failure i org_id message
post_parsed i org_id (parsed payload) = do
  existing ← query (λ d. find_by_key i.idempotency_key d.posting.events)
  existing_or_new i org_id payload existing

-- `post`
unfoldable pub post : Registry → PostInput → Action PostingEvent
post r i = do
  org_id ← resolve_project_org_id i.project_id
  post_parsed i org_id (validate_payload i.event_type i.payload r)
