-- ===== src/Posting/Keys.antt =====
-- What `post` returns, and how keys make it idempotent.
use fun_makers_system.Base.{
  ℕ, ◌≡◌, inl, inr, refl, [], ◌∷◌, ◌++◌, true, Option, some, none, arith, ◌∙◌, Bool-cases,
  find-append_fresh,
}
use fun_makers_system.Data.Posting.{PostingEvent}
use fun_makers_system.Effects.{World, ok, advance}
use fun_makers_system.Effects.Laws.{Outcome-cases}
use fun_makers_system.Audit.{audit_row}
use fun_makers_system.Org.{resolve_project_org_id}
use fun_makers_system.Posting.Registry.{
  Registry, Parsed, parsed, invalid, unknown_type, validate_payload,
}
use fun_makers_system.Posting.Ledger.{find_by_key, same_key, same_key_iff}
use fun_makers_system.Posting.Service.{
  PostInput, post, post_parsed, existing_or_new, posted_event, posted_entry,
}
use fun_makers_system.Posting.Service.Effect.{
  Gained, write_posted_ok, resolve_org-Reads, record_failure_effect, post_parsed_reads,
  post_resolved,
}

-- The key was in the ledger, and its event comes back; or the event is new.
pub data PostResult (i : PostInput) (payload : ℕ) (w w' : World) (e : PostingEvent) : Type 0 where
  repeated :
      find_by_key i.idempotency_key w.db.posting.events ≡ some e
      → w'.db ≡ w.db
      → PostResult i payload w w' e
  new :
      (org at : ℕ)
      → e ≡ posted_event i org payload at e.id
      → Gained e w.db.posting.events w'.db.posting.events
      → w'.db.audit ≡ w.db.audit ++ (audit_row (posted_entry i org e.id) ∷ [])
      → PostResult i payload w w' e

existing_or_new_result :
    (i : PostInput) (org payload : ℕ) (o : Option PostingEvent) (w : World) (e : PostingEvent)
    → find_by_key i.idempotency_key w.db.posting.events ≡ o
    → (existing_or_new i org payload o w).0 ≡ ok e
    → PostResult i payload w (existing_or_new i org payload o w).1 e
unfolding existing_or_new
existing_or_new_result i org payload (some x) w e f h = repeated (ground arith) refl
existing_or_new_result i org payload none w e f h =
    let at = w.env.clock w.tick in
    let (g, q, a) = write_posted_ok i org payload at w e h in new org at q g a

-- The same result seen from an earlier world with the same database.
PostResult-from :
    {i : PostInput} {payload : ℕ} {w v w' : World} {e : PostingEvent}
    → v.db ≡ w.db
    → PostResult i payload v w' e
    → PostResult i payload w w' e
PostResult-from s (repeated f d) = repeated (rw s at f) (d ∙ s)
PostResult-from s (new org at q g a) = new org at q (rw s at g) (rw s at a)

post_parsed_result :
    (i : PostInput) (org : ℕ) (p : Parsed) (w : World) (e : PostingEvent)
    → (post_parsed i org p w).0 ≡ ok e
    → (payload : ℕ) × (p ≡ parsed payload) × PostResult i payload w (post_parsed i org p w).1 e
unfolding post_parsed
post_parsed_result i org unknown_type w e h = absurd (ground arith)
post_parsed_result i org (invalid message) w e h =
    absurd ((record_failure_effect i org message w).0 e h)
post_parsed_result i org (parsed payload) w e h = elim (Bool-cases (w.env.fails w.tick)) [
  | inl f ↦ absurd (ground arith)
  | inr f ↦
      let o = find_by_key i.idempotency_key w.db.posting.events in
      let q = post_parsed_reads i org payload w f in
      let r = existing_or_new_result i org payload o (advance w) e refl (rw q at h) in
      (payload, refl, rw q (PostResult-from refl r))
]

-- A post that returns an event: the payload was valid, and either the ledger held the event under the
-- post's key and the database is as it was, or the event is the posted event of this input, its id and
-- its key were free, and it is the one event added, with its audit row.
pub post_result :
    (r : Registry) (i : PostInput) (w : World) (e : PostingEvent)
    → (post r i w).0 ≡ ok e
    → (payload : ℕ) × (validate_payload i.event_type i.payload r ≡ parsed payload)
      × PostResult i payload w (post r i w).1 e
unfolding post
post_result r i w e h = elim (Outcome-cases (resolve_project_org_id i.project_id w).0) [
  | inl (org, c) ↦
      let q = post_resolved r i org w c in
      let v = (resolve_project_org_id i.project_id w).1 in
      let (payload, y, p) =
        post_parsed_result i org (validate_payload i.event_type i.payload r) v e (rw q at h) in
      (payload, y, rw q (PostResult-from ((resolve_org-Reads i.project_id w).same_db) p))
  | inr (x, c) ↦ absurd (ground arith)
]

-- After a result, the key leads to the event.
result_keyed :
    {i : PostInput} {payload : ℕ} {w w' : World} {e : PostingEvent}
    → PostResult i payload w w' e
    → find_by_key i.idempotency_key w'.db.posting.events ≡ some e
result_keyed (repeated f d) = rw d f
result_keyed {i} {w = w} {e = e} (new org at q g a) =
    let k : e.idempotency_key ≡ i.idempotency_key = ground arith in
    let y : same_key e.idempotency_key e.idempotency_key ≡ true =
      (same_key_iff e.idempotency_key e.idempotency_key).1 refl in
    rw (g.events_after, ← k)
      (rw
        (find-append_fresh (λ x. same_key x.idempotency_key e.idempotency_key) w.db.posting.events e
          g.key_free)
        (rw y refl))

-- With its key taken, a post is a repetition.
again :
    {j : PostInput} {payload : ℕ} {w w' : World} {e e' : PostingEvent}
    → PostResult j payload w w' e'
    → find_by_key j.idempotency_key w.db.posting.events ≡ some e
    → (e' ≡ e) × (w'.db ≡ w.db)
again (repeated f d) f' = (ground arith, d)
again (new org at q g a) f' = absurd (ground arith)

-- Two posts in a row with the same key: if both return, they return the same event, and the second
-- leaves the database as the first left it, whatever else the second input says.
pub post_idempotent :
    (r : Registry) (i j : PostInput) (w : World) (e e' : PostingEvent)
    → j.idempotency_key ≡ i.idempotency_key
    → (post r i w).0 ≡ ok e
    → (post r j (post r i w).1).0 ≡ ok e'
    → (e' ≡ e) × ((post r j (post r i w).1).1.db ≡ (post r i w).1.db)
post_idempotent r i j w e e' k h h' =
    let (p, y, first) = post_result r i w e h in
    let (p', y', second) = post_result r j (post r i w).1 e' h' in
    again second (rw k (result_keyed first))
