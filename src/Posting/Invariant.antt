-- ===== src/Posting/Invariant.antt =====
-- The ledger's invariant: ids and keys are unique, and every back-pointer leads to the reversal of its
-- event.
use fun_makers_system.Base.{
  ℕ, ◌≡◌, inl, inr, refl, sym, ap, ◌∙◌, true, none, some, List, [], ◌∷◌, ◌++◌, ◌==◌, arith,
  Bool-cases, In, update_where, changed_where, find-update_where, In-update_where, In-append_one,
  find-append_fresh, find-append_kept, ==_refl,
}
use fun_makers_system.Data.Posting.{PostingEvent, reversed, IdempotencyKey, reversal}
use fun_makers_system.Posting.Ledger.{find_event, find_by_key, same_key, same_key_iff}
use fun_makers_system.Posting.Reversal.{point_to}

-- The reversal that a back-pointer names.
pub record PointsTo (es : List PostingEvent) (e : PostingEvent) (r : ℕ) : Type 0 where
  pub target : PostingEvent
  pub target_found : find_event r es ≡ some target
  pub target_key : target.idempotency_key ≡ reversal e.id
  pub target_status : target.status ≡ reversed

pub record LedgerInv (es : List PostingEvent) : Type 0 where
  pub ids : (e : PostingEvent) → In e es → find_event e.id es ≡ some e
  pub keys : (e : PostingEvent) → In e es → find_by_key e.idempotency_key es ≡ some e
  pub pointers :
      (e : PostingEvent) (r : ℕ) → In e es → e.reversed_by_event_id ≡ some r → PointsTo es e r

-- An event with a free id and a free key, which nothing has reversed.
pub append-LedgerInv :
    (es : List PostingEvent) (e : PostingEvent)
    → find_event e.id es ≡ none
    → find_by_key e.idempotency_key es ≡ none
    → e.reversed_by_event_id ≡ none
    → LedgerInv es
    → LedgerInv (es ++ (e ∷ []))
append-LedgerInv es e i k n h = record {
  ids = λ a m. elim (In-append_one es e a m) [
    | inl o ↦ find-append_kept (λ x. x.id == a.id) es a e (h.ids a o)
    | inr q ↦ rw q (rw (find-append_fresh (λ x. x.id == e.id) es e i) (rw (==_refl e.id) refl))
  ];
  keys = λ a m. elim (In-append_one es e a m) [
    | inl o ↦
        find-append_kept (λ x. same_key x.idempotency_key a.idempotency_key) es a e (h.keys a o)
    | inr q ↦
        let y : same_key e.idempotency_key e.idempotency_key ≡ true =
          (same_key_iff e.idempotency_key e.idempotency_key).1 refl in
        rw q (
          rw (find-append_fresh (λ x. same_key x.idempotency_key e.idempotency_key) es e k)
            (rw y refl))
  ];
  pointers = λ a r m p. elim (In-append_one es e a m) [
    | inl o ↦
        let q = h.pointers a r o p in
        record {
          target = q.target;
          target_found = find-append_kept (λ x. x.id == r) es q.target e q.target_found;
          target_key = q.target_key;
          target_status = q.target_status;
        }
    | inr q ↦ absurd (ground arith)
  ];
}

-- What a change of the back-pointer leaves.
abbrev pub pointed : ℕ → ℕ → PostingEvent → PostingEvent
pointed id r = changed_where (λ x. x.id == id) (point_to r)

pointed_same :
    (id r : ℕ) (e : PostingEvent)
    → ((pointed id r e).id ≡ e.id)
      × ((pointed id r e).idempotency_key ≡ e.idempotency_key)
      × ((pointed id r e).status ≡ e.status)
pointed_same id r e = (ground arith, ground arith, ground arith)

find_event-pointed :
    (id r i : ℕ) (es : List PostingEvent) (e : PostingEvent)
    → find_event i es ≡ some e
    → find_event i (update_where (λ x. x.id == id) (point_to r) es) ≡ some (pointed id r e)
find_event-pointed id r i es e h =
    rw (find-update_where (λ x. x.id == i) (λ x. x.id == id) (point_to r) (λ a. refl) es, h) refl

find_by_key-pointed :
    (id r : ℕ) (k : IdempotencyKey) (es : List PostingEvent) (e : PostingEvent)
    → find_by_key k es ≡ some e
    → find_by_key k (update_where (λ x. x.id == id) (point_to r) es) ≡ some (pointed id r e)
find_by_key-pointed id r k es e h =
    rw
      (
        find-update_where (λ x. same_key x.idempotency_key k) (λ x. x.id == id) (point_to r)
            (λ a. refl) es,
        h,
      )
      refl

-- A back-pointer after the change: the new one, or an old one.
PointsTo-pointed :
    (es : List PostingEvent) (id r : ℕ) (b b' : PostingEvent) (t : ℕ)
    → b'.id ≡ b.id
    → PointsTo es b t
    → PointsTo (update_where (λ e. e.id == id) (point_to r) es) b' t
PointsTo-pointed es id r b b' t same p = record {
  target = pointed id r p.target;
  target_found = find_event-pointed id r t es p.target p.target_found;
  target_key = (pointed_same id r p.target).1 ∙ p.target_key ∙ ap reversal (sym same);
  target_status = (pointed_same id r p.target).2 ∙ p.target_status;
}

pointed-PointsTo :
    (es : List PostingEvent) (id r : ℕ) (x : PostingEvent)
    → find_event r es ≡ some x
    → x.idempotency_key ≡ reversal id
    → x.status ≡ reversed
    → LedgerInv es
    → (b : PostingEvent) (t : ℕ) → In b es
    → (pointed id r b).reversed_by_event_id ≡ some t
    → PointsTo (update_where (λ e. e.id == id) (point_to r) es) (pointed id r b) t
pointed-PointsTo es id r x f k s h b t o p = elim (Bool-cases (b.id == id)) [
  | inl y ↦
      let e : r ≡ t = ground arith in
      let i : b.id ≡ id = ground arith in
      PointsTo-pointed es id r b (pointed id r b) t (ground arith)
        (record { target = x; target_found = rw (← e) f; target_key = rw i k; target_status = s })
  | inr n ↦
      let e : b.reversed_by_event_id ≡ some t = ground arith in
      PointsTo-pointed es id r b (pointed id r b) t (ground arith) (h.pointers b t o e)
]

-- Setting the back-pointer of `id` to its reversal.
pub point-LedgerInv :
    (es : List PostingEvent) (id r : ℕ) (x : PostingEvent)
    → find_event r es ≡ some x
    → x.idempotency_key ≡ reversal id
    → x.status ≡ reversed
    → LedgerInv es
    → LedgerInv (update_where (λ e. e.id == id) (point_to r) es)
point-LedgerInv es id r x f k s h = record {
  ids = λ a m.
      let (b, o, q) = In-update_where (λ e. e.id == id) (point_to r) es a m in
      let (i, y, z) = pointed_same id r b in
      rw (q, i) (find_event-pointed id r b.id es b (h.ids b o));
  keys = λ a m.
      let (b, o, q) = In-update_where (λ e. e.id == id) (point_to r) es a m in
      let (i, y, z) = pointed_same id r b in
      rw (q, y) (find_by_key-pointed id r b.idempotency_key es b (h.keys b o));
  pointers = λ a t m p.
      let (b, o, q) = In-update_where (λ e. e.id == id) (point_to r) es a m in
      rw q (pointed-PointsTo es id r x f k s h b t o (rw q at p));
}
