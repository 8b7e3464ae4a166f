-- ===== src/Posting/Service/Effect.antt =====
-- What `post` leaves behind.
use fun_makers_system.Base.{
  ℕ, ◌≡◌, ◌≢◌, ◌⊎◌, inl, inr, refl, false, Option, none, some, List, [], ◌∷◌, ◌++◌, arith,
  Bool-cases,
}
use fun_makers_system.Data.Posting.{PostingEvent, IdempotencyKey}
use fun_makers_system.Data.Errors.{Error}
use fun_makers_system.Effects.{World, ok, err, advance, transaction}
use fun_makers_system.Effects.Laws.{SameStore, Reads, Outcome-cases}
use fun_makers_system.Audit.{audit_log, audit_row}
use fun_makers_system.Org.{resolve_project_org_id}
use fun_makers_system.Posting.Registry.{
  Registry, Parsed, parsed, invalid, unknown_type, validate_payload,
}
use fun_makers_system.Posting.Ledger.{find_event, find_by_key}
use fun_makers_system.Posting.Service.{
  PostInput, post, post_parsed, existing_or_new, write_posted, record_failure, posted_event,
  failed_event, posted_entry,
}

-- The ledger gained one event, with an id and a key that were free.
pub record Gained (e : PostingEvent) (es es' : List PostingEvent) : Type 0 where
  pub id_free : find_event e.id es ≡ none
  pub key_free : find_by_key e.idempotency_key es ≡ none
  pub events_after : es' ≡ es ++ (e ∷ [])

pub write_posted_ok :
    (i : PostInput) (org payload at : ℕ) (w : World) (e : PostingEvent)
    → (transaction (write_posted i org payload at) w).0 ≡ ok e
    → let w' = (transaction (write_posted i org payload at) w).1 in
      Gained e w.db.posting.events w'.db.posting.events
      × (e ≡ posted_event i org payload at e.id)
      × (w'.db.audit ≡ w.db.audit ++ (audit_row (posted_entry i org e.id) ∷ []))
unfolding write_posted audit_log
write_posted_ok i org payload at w e h = ground arith

pub write_posted_err :
    (i : PostInput) (org payload at : ℕ) (w : World) (x : Error)
    → (transaction (write_posted i org payload at) w).0 ≡ err x
    → SameStore w (transaction (write_posted i org payload at) w).1
unfolding write_posted audit_log
write_posted_err i org payload at w x h = ground arith

pub resolve_org-Reads : (p : ℕ) → Reads (resolve_project_org_id p)
unfolding resolve_project_org_id
resolve_org-Reads p w = ground arith

-- A failed posting is recorded or not, and is thrown either way.
pub record_failure_effect :
    (i : PostInput) (org message : ℕ) (w : World)
    → let (r, w') = record_failure i org message w in
      ((e : PostingEvent) → r ≢ ok e)
      × ((w'.db.posting.events ≡ w.db.posting.events)
          ⊎ Gained
              (failed_event i org message (w.env.uuid w.tick))
              w.db.posting.events
              w'.db.posting.events)
unfolding record_failure
record_failure_effect i org message w = (λ e. ground arith, ground arith)

-- The ledger is as it was, or has one event more, which nothing has reversed.
abbrev pub Grown : IdempotencyKey → List PostingEvent → List PostingEvent → Type 0
Grown k es es' =
    (es' ≡ es)
    ⊎ ((e : PostingEvent) × Gained e es es'
        × (e.reversed_by_event_id ≡ none)
        × (e.idempotency_key ≡ k))

existing_or_new_effect :
    (i : PostInput) (org payload : ℕ) (o : Option PostingEvent) (w : World)
    → Grown i.idempotency_key w.db.posting.events
        (existing_or_new i org payload o w).1.db.posting.events
unfolding existing_or_new
existing_or_new_effect i org payload (some e) w = inl refl
existing_or_new_effect i org payload none w =
    let at = w.env.clock w.tick in
    elim (Outcome-cases (transaction (write_posted i org payload at) w).0) [
      | inl (e, c) ↦
          let (g, q, a) = write_posted_ok i org payload at w e c in
          inr (e, g, ground (arith, q), ground (arith, q))
      | inr (x, c) ↦ inl (ground (arith, write_posted_err i org payload at w x c))
    ]

-- A read that succeeds hands its result on.
pub post_parsed_reads :
    (i : PostInput) (org payload : ℕ) (w : World)
    → w.env.fails w.tick ≡ false
    → post_parsed i org (parsed payload) w
      ≡ existing_or_new i org payload
          (find_by_key i.idempotency_key w.db.posting.events)
          (advance w)
unfolding post_parsed
post_parsed_reads i org payload w f = ground arith

post_parsed_effect :
    (i : PostInput) (org : ℕ) (p : Parsed) (w : World)
    → Grown i.idempotency_key w.db.posting.events (post_parsed i org p w).1.db.posting.events
unfolding post_parsed
post_parsed_effect i org unknown_type w = inl refl
post_parsed_effect i org (invalid message) w = elim (record_failure_effect i org message w).1 [
  | inl same ↦ inl same
  | inr g ↦ inr (failed_event i org message (w.env.uuid w.tick), g, refl, refl)
]
post_parsed_effect i org (parsed payload) w = elim (Bool-cases (w.env.fails w.tick)) [
  | inl f ↦ inl (ground arith)
  | inr f ↦
      let o = find_by_key i.idempotency_key w.db.posting.events in
      rw (post_parsed_reads i org payload w f) (existing_or_new_effect i org payload o (advance w))
]

pub post_resolved :
    (r : Registry) (i : PostInput) (org : ℕ) (w : World)
    → (resolve_project_org_id i.project_id w).0 ≡ ok org
    → post r i w
      ≡ post_parsed i org
          (validate_payload i.event_type i.payload r)
          (resolve_project_org_id i.project_id w).1
unfolding post
post_resolved r i org w c = ground arith

-- The ledger after `post`, whatever it returns.
pub post_effect :
    (r : Registry) (i : PostInput) (w : World)
    → Grown i.idempotency_key w.db.posting.events (post r i w).1.db.posting.events
unfolding post
post_effect r i w = elim (Outcome-cases (resolve_project_org_id i.project_id w).0) [
  | inl (org, c) ↦
      let read = (resolve_org-Reads i.project_id w).same_db in
      let p = validate_payload i.event_type i.payload r in
      let grown = post_parsed_effect i org p (resolve_project_org_id i.project_id w).1 in
      rw (post_resolved r i org w c) (rw read at grown)
  | inr (x, c) ↦ inl (ground (arith, resolve_org-Reads i.project_id w))
]
