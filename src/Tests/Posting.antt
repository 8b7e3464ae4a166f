-- ===== src/Tests/Posting.antt =====
-- Runs of the posting service.
use fun_makers_system.Base.{ℕ, ◌≡◌, refl, some, none, [], ◌∷◌, false, ◌+◌}
use fun_makers_system.Base.Text.{is_blank}
use fun_makers_system.Data.Posting.{PostingEvent, posted, given}
use fun_makers_system.Data.Errors.{event_type_registered}
use fun_makers_system.Effects.{World}
use fun_makers_system.Effects.Laws.{SameStore}
use fun_makers_system.Fixtures.{world}
use fun_makers_system.Audit.{audit_log}
use fun_makers_system.Org.{resolve_project_org_id}
use fun_makers_system.Posting.Registry.{
  Registry, parsed, invalid, refused, register_event_type, validate_payload,
}
use fun_makers_system.Posting.Ledger.{find_event}
use fun_makers_system.Posting.Service.{
  PostInput, posted_event, post, post_parsed, existing_or_new, write_posted,
}
use fun_makers_system.Posting.Reversal.{reverse_posting_event, check_reversible, write_reversal}
use fun_makers_system.Posting.Reversal.Effect.{
  Reversed, reverse_posting_event-Reversed, reverse_posting_event_atomic,
}
use fun_makers_system.Posting.Invariant.{LedgerInv}
use fun_makers_system.Posting.Runs.{post_input, reverse, serve_all, serve_all-Ledgered}
use fun_makers_system.Posting.Keys.{PostResult, post_result, post_idempotent}

-- The schema adds 1 to a payload.
abbrev registry : Registry
registry = record { name = 9; schema = λ p. parsed (p + 1) } ∷ []

abbrev input : PostInput
input = record {
  event_type = 9;
  source_service = 1;
  source_record_type = 2;
  source_record_id = 3;
  project_id = 5;
  entity_id = none;
  idempotency_key = given 77;
  payload = 20;
  actor_user_id = some 7;
  origin = none;
  import_batch_id = none;
  posted_at_override = none;
}

abbrev event : PostingEvent
event = posted_event input 1 21 2 1002

-- The ledger with the event.
abbrev ledger_world : World
ledger_world = (post registry input world).1

no_events : LedgerInv world.db.posting.events
no_events = record { ids = λ e m. absurd m; keys = λ e m. absurd m; pointers = λ e r m p. absurd m }

serve_all-Ledgered_example :
    LedgerInv
      (serve_all registry
        (post_input input ∷ reverse 1002 (65 ∷ []) 7 ∷ [])
        world).db.posting.events
serve_all-Ledgered_example =
    serve_all-Ledgered registry (post_input input ∷ reverse 1002 (65 ∷ []) 7 ∷ []) world no_events

post_idempotent_example :
    (event ≡ event)
    × ((post registry input (post registry input world).1).1.db ≡ (post registry input world).1.db)
unfolding post post_parsed existing_or_new write_posted validate_payload resolve_project_org_id
    audit_log
post_idempotent_example = post_idempotent registry input input world event event refl refl refl

post_result_example :
    (payload : ℕ) × (validate_payload 9 20 registry ≡ parsed payload)
    × PostResult input payload world (post registry input world).1 event
unfolding post post_parsed existing_or_new write_posted validate_payload resolve_project_org_id
    audit_log
post_result_example = post_result registry input world event refl

reverse_posting_event-Reversed_example :
    (is_blank (65 ∷ []) ≡ false)
    × ((e : PostingEvent) × (at : ℕ) × (find_event 1002 ledger_world.db.posting.events ≡ some e)
        × (e.status ≡ posted)
        × (e.reversed_by_event_id ≡ none)
        × Reversed e at 1006 7
            (65 ∷ [])
            ledger_world
            (reverse_posting_event 1002 (65 ∷ []) 7 ledger_world).1)
unfolding post post_parsed existing_or_new write_posted validate_payload resolve_project_org_id
    audit_log reverse_posting_event check_reversible write_reversal is_blank
reverse_posting_event-Reversed_example =
    reverse_posting_event-Reversed 1002 (65 ∷ []) 7 ledger_world 1006 refl

reverse_posting_event_atomic_example :
    SameStore ledger_world (reverse_posting_event 1003 (65 ∷ []) 7 ledger_world).1
unfolding post post_parsed existing_or_new write_posted validate_payload resolve_project_org_id
    audit_log reverse_posting_event check_reversible write_reversal is_blank
reverse_posting_event_atomic_example =
    reverse_posting_event_atomic 1003 (65 ∷ []) 7 ledger_world refl

-- A type is registered once.
type_registered_again :
    register_event_type 9 (λ p. invalid p) registry ≡ refused (event_type_registered 9)
unfolding register_event_type
type_registered_again = refl
