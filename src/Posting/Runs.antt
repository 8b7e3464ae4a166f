-- ===== src/Posting/Runs.antt =====
-- The ledger under sequences of requests.
use fun_makers_system.Base.{
  ℕ, ◌≡◌, inl, inr, refl, List, [], ◌∷◌, ◌++◌, some, arith, find-append_fresh, ==_refl, ◌==◌,
}
use fun_makers_system.Base.Text.{Text}
use fun_makers_system.Data.Audit.{
  AuditEntry, posting_exception_retried, posting_exception_retry_failed, posting_exception_resolved,
}
use fun_makers_system.Data.Posting.{PostingEvent, PostingException, retried_successfully, note}
use fun_makers_system.Data.Errors.{Error}
use fun_makers_system.Effects.{World, Db, Action, ◌>>=◌, ◌>>◌, pure, throw, now, command, try_catch}
use fun_makers_system.Effects.Laws.{Reads, Outcome-cases}
use fun_makers_system.Effects.Keeps.{Keeps, Reads-Keeps, bind-Keeps, try_catch-Keeps}
use fun_makers_system.Audit.{audit_log}
use fun_makers_system.Posting.Registry.{Registry}
use fun_makers_system.Posting.Ledger.{find_event, update_exception}
use fun_makers_system.Posting.Service.{PostInput, post}
use fun_makers_system.Posting.Service.Effect.{post_effect}
use fun_makers_system.Posting.Reversal.{reverse_posting_event, reversal_event}
use fun_makers_system.Posting.Reversal.Effect.{
  reverse_posting_event-Reversed, reverse_posting_event_atomic,
}
use fun_makers_system.Posting.Exceptions.{
  open_exception_with_event, retry_exception, retry_post, record_retry_failure, resolve_exception,
  retry_input, exception_entry, note_failure, resolve_with,
}
use fun_makers_system.Posting.Invariant.{LedgerInv, append-LedgerInv, point-LedgerInv}

abbrev pub Ledgered : Db → Type 0
Ledgered d = LedgerInv d.posting.events

-- A call of the posting service.
pub data PostingRequest : Type 0 where
  post_input : PostInput → PostingRequest
  reverse : ℕ → Text → ℕ → PostingRequest
  retry : ℕ → ℕ → PostingRequest
  resolve : ℕ → ℕ → ℕ → PostingRequest

abbrev pub serve : Registry → PostingRequest → World → World
serve r (post_input i) w = (post r i w).1
serve r (reverse id reason actor) w = (reverse_posting_event id reason actor w).1
serve r (retry id actor) w = (retry_exception r id actor w).1
serve r (resolve id message actor) w = (resolve_exception id message actor w).1

abbrev pub serve_all : Registry → List PostingRequest → World → World
serve_all r [] w = w
serve_all r (q ∷ qs) w = serve_all r qs (serve r q w)

post-Keeps : (r : Registry) (i : PostInput) → Keeps Ledgered (post r i)
post-Keeps r i w h = elim (post_effect r i w) [
  | inl same ↦ rw same h
  | inr (e, g, n, k) ↦
      rw (g.events_after) (append-LedgerInv w.db.posting.events e g.id_free g.key_free n h)
]

reverse-Keeps :
    (id : ℕ) (reason : Text) (actor : ℕ) → Keeps Ledgered (reverse_posting_event id reason actor)
reverse-Keeps id reason actor w h =
    elim (Outcome-cases (reverse_posting_event id reason actor w).0) [
      | inl (x, c) ↦
          let (b, (e, at, f, s, n, g)) = reverse_posting_event-Reversed id reason actor w x c in
          let m = reversal_event e at x in
          let longer = append-LedgerInv w.db.posting.events m g.id_free g.key_free refl h in
          let found : find_event x (w.db.posting.events ++ (m ∷ [])) ≡ some m =
            rw (find-append_fresh (λ y. y.id == x) w.db.posting.events m g.id_free)
              (rw (==_refl x) refl) in
          rw (g.events_after)
            (point-LedgerInv (w.db.posting.events ++ (m ∷ [])) e.id x m found refl refl longer)
      | inr (x, c) ↦ rw ((reverse_posting_event_atomic id reason actor w c).same_db) h
    ]

-- Calls that leave the events alone.
same_events : (d d' : Db) → d'.posting.events ≡ d.posting.events → Ledgered d → Ledgered d'
same_events d d' e h = rw e h

audit_log-Ledgered : (e : AuditEntry) → Keeps Ledgered (audit_log e)
unfolding audit_log
audit_log-Ledgered e w = same_events w.db (audit_log e w).1.db (ground arith)

update_exception-Ledgered :
    (id : ℕ) (f : PostingException → PostingException)
    → Keeps Ledgered (command (update_exception id f))
update_exception-Ledgered id f w =
    same_events w.db (command (update_exception id f) w).1.db (ground arith)

open_exception-Reads : (id : ℕ) → Reads (open_exception_with_event id)
unfolding open_exception_with_event
open_exception-Reads id w = ground arith

-- An update of an exception and its audit row, before anything else.
noted-Ledgered :
    {A : Type 0} (id : ℕ) (f : PostingException → PostingException) (e : AuditEntry)
    (last : Action A)
    → Keeps Ledgered last
    → Keeps Ledgered (command (update_exception id f) >> (audit_log e >> last))
noted-Ledgered id f e last h =
    bind-Keeps Ledgered (command (update_exception id f)) (λ x. audit_log e >> last)
      (update_exception-Ledgered id f)
      (λ x. bind-Keeps Ledgered (audit_log e) (λ y. last) (audit_log-Ledgered e) (λ y. h))

retry_post-Keeps :
    (r : Registry) (id actor : ℕ) (e : PostingEvent) → Keeps Ledgered (retry_post r id actor e)
unfolding retry_post
retry_post-Keeps r id actor e w =
    let i = retry_input e id (w.env.uuid w.tick) actor in
    let entry = exception_entry posting_exception_retried id actor e.project_id in
    bind-Keeps Ledgered (post r i)
      (λ n. now >>= λ at.
        command (update_exception id (resolve_with at actor retried_successfully))
        >> (audit_log entry >> pure n))
      (post-Keeps r i)
      (λ n v.
        noted-Ledgered id (resolve_with (v.env.clock v.tick) actor retried_successfully) entry
          (pure n) (λ u k. k) v)
      w

record_retry_failure-Keeps :
    (id actor : ℕ) (e : PostingEvent) (x : Error)
    → Keeps Ledgered (record_retry_failure id actor e x)
unfolding record_retry_failure
record_retry_failure-Keeps id actor e x =
    noted-Ledgered id (note_failure x)
      (exception_entry posting_exception_retry_failed id actor e.project_id) (throw x) (λ u k. k)

retry-Keeps : (r : Registry) (id actor : ℕ) → Keeps Ledgered (retry_exception r id actor)
unfolding retry_exception
retry-Keeps r id actor =
    bind-Keeps Ledgered (open_exception_with_event id)
      (λ (x, e). try_catch (retry_post r id actor e) (record_retry_failure id actor e))
      (Reads-Keeps Ledgered (open_exception_with_event id) (open_exception-Reads id))
      (λ (x, e).
        try_catch-Keeps Ledgered (retry_post r id actor e) (record_retry_failure id actor e)
          (retry_post-Keeps r id actor e) (record_retry_failure-Keeps id actor e))

resolve-Keeps : (id message actor : ℕ) → Keeps Ledgered (resolve_exception id message actor)
unfolding resolve_exception
resolve-Keeps id message actor =
    bind-Keeps Ledgered (open_exception_with_event id)
      (λ (x, e). now >>= λ at.
        command (update_exception id (resolve_with at actor (note message)))
        >> (audit_log (exception_entry posting_exception_resolved id actor e.project_id)
            >> pure tt))
      (Reads-Keeps Ledgered (open_exception_with_event id) (open_exception-Reads id))
      (λ (x, e) v.
        noted-Ledgered id (resolve_with (v.env.clock v.tick) actor (note message))
          (exception_entry posting_exception_resolved id actor e.project_id) (pure tt) (λ u k. k) v)

serve-Ledgered :
    (r : Registry) (q : PostingRequest) (w : World) → Ledgered w.db → Ledgered (serve r q w).db
serve-Ledgered r (post_input i) w h = post-Keeps r i w h
serve-Ledgered r (reverse id reason actor) w h = reverse-Keeps id reason actor w h
serve-Ledgered r (retry id actor) w h = retry-Keeps r id actor w h
serve-Ledgered r (resolve id message actor) w h = resolve-Keeps id message actor w h

-- From a ledger whose ids and keys are unique and whose back-pointers lead to the reversals of their
-- events, every sequence of posts, reversals, retries and resolutions, whatever fails in them, leads
-- to such a ledger.
pub serve_all-Ledgered :
    (r : Registry) (qs : List PostingRequest) (w : World)
    → Ledgered w.db
    → Ledgered (serve_all r qs w).db
serve_all-Ledgered r [] w h = h
serve_all-Ledgered r (q ∷ qs) w h = serve_all-Ledgered r qs (serve r q w) (serve-Ledgered r q w h)
