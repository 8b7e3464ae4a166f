-- ===== src/Posting/Ledger.antt =====
-- The ledger's rows: keys, and the insertion that the unique columns guard.
use fun_makers_system.Base.{
  ℕ, ◌≡◌, ◌↔◌, Bool, true, false, Option, none, some, List, [], ◌∷◌, ◌++◌, ◌==◌, if◌then◌else◌,
  find, update_where, arith,
}
use fun_makers_system.Data.Posting.{
  IdempotencyKey, given, retry, reversal, of_record, PostingEvent, PostingException,
}
use fun_makers_system.Effects.{Db}

-- Equality of keys, as texts.
abbrev pub same_key : IdempotencyKey → IdempotencyKey → Bool
same_key (given a) (given b) = a == b
same_key (retry a b) (retry c d) = if a == c then b == d else false
same_key (reversal a) (reversal b) = a == b
same_key (of_record a b) (of_record c d) = if a == c then b == d else false
same_key _ _ = false

pub same_key_iff : (a b : IdempotencyKey) → (same_key a b ≡ true) ↔ (a ≡ b)
same_key_iff a b = ground arith

abbrev pub find_by_key : IdempotencyKey → List PostingEvent → Option PostingEvent
find_by_key k = find (λ e. same_key e.idempotency_key k)

abbrev pub find_event : ℕ → List PostingEvent → Option PostingEvent
find_event id = find (λ e. e.id == id)

abbrev pub with_events : Db → List PostingEvent → Db
with_events d es = record d { posting = record (d.posting) { events = es } }

abbrev pub with_exceptions : Db → List PostingException → Db
with_exceptions d xs = record d { posting = record (d.posting) { exceptions = xs } }

abbrev pub if_free : Option PostingEvent → Option Db → Option Db
if_free none d = d
if_free (some _) d = none

-- `postingEvent.create`: the id and the idempotency key are unique columns.
abbrev pub insert_event : PostingEvent → Db → Option Db
insert_event e d = if_free (find_event e.id d.posting.events) (
    if_free (find_by_key e.idempotency_key d.posting.events)
      (some (with_events d (d.posting.events ++ (e ∷ [])))))

abbrev pub find_exception : ℕ → List PostingException → Option PostingException
find_exception id = find (λ x. x.id == id)

abbrev pub insert_exception : PostingException → Db → Option Db
insert_exception x d = elim (find_exception x.id d.posting.exceptions) [
  | none ↦ some (with_exceptions d (d.posting.exceptions ++ (x ∷ [])))
  | some _ ↦ none
]

-- `postingException.update`
abbrev pub update_exception : ℕ → (PostingException → PostingException) → Db → Option Db
update_exception id f d = elim (find_exception id d.posting.exceptions) [
  | none ↦ none
  | some _ ↦ some (with_exceptions d (update_where (λ x. x.id == id) f d.posting.exceptions))
]
