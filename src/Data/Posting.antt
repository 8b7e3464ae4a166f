-- ===== src/Data/Posting.antt =====
-- The posting ledger: events and exceptions.
use fun_makers_system.Base.{ℕ, Option, List}
use fun_makers_system.Data.Errors.{Error}

pub data PostingStatus : Type 0 where
  pending posted reversed failed : PostingStatus

pub data PostingOrigin : Type 0 where
  live imported_historical : PostingOrigin

-- A key of the caller's, `retry-{exceptionId}-{uuid}`, `reversal-{eventId}`, or that of an event type and
-- a record, as `po-committed-{id}` and `ipa:{id}:approved_internal` are.
pub data IdempotencyKey : Type 0 where
  given : ℕ → IdempotencyKey
  retry : ℕ → ℕ → IdempotencyKey
  reversal : ℕ → IdempotencyKey
  of_record : ℕ → ℕ → IdempotencyKey

-- Payloads and messages are numbers: the services pass them on unread.
pub record PostingEvent : Type 0 where
  pub id : ℕ
  pub org_id : ℕ
  pub event_type : ℕ
  pub source_service : ℕ
  pub source_record_type : ℕ
  pub source_record_id : ℕ
  pub project_id : ℕ
  pub entity_id : Option ℕ
  pub idempotency_key : IdempotencyKey
  pub payload : ℕ
  pub status : PostingStatus
  pub origin : PostingOrigin
  pub import_batch_id : Option ℕ
  pub posted_at : Option ℕ
  pub reversed_by_event_id : Option ℕ
  pub failure_reason : Option ℕ

pub data ExceptionReason : Type 0 where
  payload_validation_failed : ExceptionReason
  retry_failed : Error → ExceptionReason

pub data ResolutionNote : Type 0 where
  retried_successfully : ResolutionNote
  note : ℕ → ResolutionNote

pub record PostingException : Type 0 where
  pub id : ℕ
  pub event_id : ℕ
  pub reason : ExceptionReason
  pub resolved_at : Option ℕ
  pub resolved_by : Option ℕ
  pub resolution_note : Option ResolutionNote

pub record PostingTables : Type 0 where
  pub events : List PostingEvent
  pub exceptions : List PostingException
