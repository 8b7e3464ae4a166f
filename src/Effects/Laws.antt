-- ===== src/Effects/Laws.antt =====
-- Calls that only read: the database, the published events and the environment stay.
use fun_makers_system.Base.{◌≡◌, ◌⊎◌, inl, inr, refl, Option, some, Option-cases, arith}
use fun_makers_system.Data.Errors.{Error}
use fun_makers_system.Effects.{World, Action, Outcome, ok, err, ◌>>=◌, query, or_throw, advance, Db}

-- What a read leaves as it was.
pub record SameStore (w w' : World) : Type 0 where
  pub same_db : w'.db ≡ w.db
  pub same_emitted : w'.emitted ≡ w.emitted
  pub same_env : w'.env ≡ w.env

pub SameStore-refl : (w : World) → SameStore w w
SameStore-refl w = record { same_db = refl; same_emitted = refl; same_env = refl }

pub SameStore-trans : {u v w : World} → SameStore u v → SameStore v w → SameStore u w
SameStore-trans p q = ground arith

-- A computation that reads, whatever it returns and wherever it stops.
abbrev pub Reads : {A : Type 0} → Action A → Type 0
Reads m = (w : World) → SameStore w (m w).1

pub query-Reads : {A : Type 0} (f : Db → A) → Reads (query f)
query-Reads f w = ground arith

pub bind-Reads :
    {A B : Type 0} (m : Action A) (f : A → Action B)
    → Reads m
    → ((a : A) → Reads (f a))
    → Reads (m >>= f)
bind-Reads {A} {B} m f hm hf w = go (m w) (hm w)
  where
    go : (p : Outcome A × World) → SameStore w p.1 → SameStore w (◌>>=◌ (λ _. p) f w).1
    go (ok a, w') h = SameStore-trans h (hf a w')
    go (err e, w') h = h

pub Outcome-cases :
    {A : Type 0} (r : Outcome A) → ((a : A) × (r ≡ ok a)) ⊎ ((e : Error) × (r ≡ err e))
Outcome-cases (ok a) = inl (a, refl)
Outcome-cases (err e) = inr (e, refl)

-- A row that is read, or else thrown for: what follows has run on it.
pub read_or_fail_ok :
    {A B : Type 0} (f : Db → Option A) (e : Error) (k : A → Action B) (w : World) (b : B)
    → ((query f >>= λ found. or_throw found e >>= k) w).0 ≡ ok b
    → (a : A) × (f w.db ≡ some a)
      × ((query f >>= λ found. or_throw found e >>= k) w ≡ k a (advance w))
read_or_fail_ok f e k w b h = elim (Option-cases (f w.db)) [
  | inl n ↦ absurd (ground arith)
  | inr (a, y) ↦ (a, y, ground arith)
]

-- A read that is followed by a result has read the database.
pub query_bind_ok :
    {A B : Type 0} (f : Db → A) (k : A → Action B) (w : World) (b : B)
    → ((query f >>= k) w).0 ≡ ok b
    → (k (f w.db) (advance w)).0 ≡ ok b
query_bind_ok f k w b h = ground arith
