-- ===== src/Effects/Keeps.antt =====
-- Actions that keep a property of the database, whatever they return and wherever they stop.
use fun_makers_system.Base.{
  ◌≡◌, ◌⊎◌, inl, inr, Option, none, some, arith, Option-cases, refl, Bool, true, false, Bool-cases,
}
use fun_makers_system.Data.Errors.{Error}
use fun_makers_system.Effects.{
  World, Db, Action, Outcome, ok, err, ◌>>=◌, pure, or_throw, try_catch, query, command, committed,
  transaction, advance, call,
}
use fun_makers_system.Effects.Laws.{Reads, Outcome-cases}

module _ (P : Db → Type 0) where
  abbrev pub Keeps : {A : Type 0} → Action A → Type 0
  Keeps m = (w : World) → P w.db → P (m w).1.db

  pub Reads-Keeps : {A : Type 0} (m : Action A) → Reads m → Keeps m
  Reads-Keeps m r w h = rw ((r w).same_db) h

  pub bind-Keeps :
      {A B : Type 0} (m : Action A) (f : A → Action B)
      → Keeps m
      → ((a : A) → Keeps (f a))
      → Keeps (m >>= f)
  bind-Keeps {A} {B} m f hm hf w h = go (m w) (hm w h)
    where
      go : (p : Outcome A × World) → P p.1.db → P (◌>>=◌ (λ _. p) f w).1.db
      go (ok a, w') k = hf a w' k
      go (err e, w') k = k

  -- The same from one world.
  pub bind_at :
      {A B : Type 0} (m : Action A) (f : A → Action B) (w : World)
      → P (m w).1.db
      → ((a : A) → Keeps (f a))
      → P (◌>>=◌ m f w).1.db
  bind_at {A} {B} m f w k hf = go (m w) k
    where
      go : (p : Outcome A × World) → P p.1.db → P (◌>>=◌ (λ _. p) f w).1.db
      go (ok a, w') k = hf a w' k
      go (err e, w') k = k

  pub try_catch-Keeps :
      {A : Type 0} (m : Action A) (f : Error → Action A)
      → Keeps m
      → ((e : Error) → Keeps (f e))
      → Keeps (try_catch m f)
  try_catch-Keeps {A} m f hm hf w h = go (m w) (hm w h)
    where
      go : (p : Outcome A × World) → P p.1.db → P (try_catch (λ _. p) f w).1.db
      go (ok a, w') k = k
      go (err e, w') k = hf e w' k

  -- What is read is what the rest then finds.
  pub query_bind-Keeps :
      {A B : Type 0} (f : Db → A) (k : A → Action B)
      → ((v : World) → P v.db → P (k (f v.db) v).1.db)
      → Keeps (query f >>= k)
  query_bind-Keeps {A} {B} f k hk w h = go (w.env.fails w.tick)
    where
      go : (b : Bool) → P (◌>>=◌ (λ v. call b (λ u. (ok (f u.db), u)) (advance v)) k w).1.db
      go true = h
      go false = hk (advance w) h

  -- A row that is read, or else thrown for.
  pub read_or_fail-Keeps :
      {A B : Type 0} (f : Db → Option A) (e : Error) (k : A → Action B)
      → ((v : World) → P v.db → (a : A) → f v.db ≡ some a → P (k a v).1.db)
      → Keeps (query f >>= λ found. or_throw found e >>= k)
  read_or_fail-Keeps {A} {B} f e k hk =
      query_bind-Keeps f (λ found. or_throw found e >>= k) (λ v h. go v h (Option-cases (f v.db)))
    where
      go :
          (v : World)
          → P v.db
          → (f v.db ≡ none) ⊎ ((a : A) × (f v.db ≡ some a))
          → P (◌>>=◌ (or_throw (f v.db) e) k v).1.db
      go v h (inl n) = rw n h
      go v h (inr (a, y)) = rw y (hk v h a y)

  -- A computation that reads: the rest finds the database as it was, and what was returned.
  pub Reads-bind-Keeps :
      {A B : Type 0} (m : Action A) (f : A → Action B)
      → Reads m
      → ((w : World)
          → P w.db
          → (a : A) → (m w).0 ≡ ok a
          → (v : World) → v.db ≡ w.db
          → P (f a v).1.db)
      → Keeps (m >>= f)
  Reads-bind-Keeps {A} {B} m f r hf w h = go (m w) refl (r w).same_db
    where
      go : (p : Outcome A × World) → (m w).0 ≡ p.0 → p.1.db ≡ w.db → P (◌>>=◌ (λ _. p) f w).1.db
      go (ok a, v) e s = hf w h a e v s
      go (err x, v) e s = rw s h

  -- A write at one world.
  pub command_at :
      (f : Db → Option Db) (w : World)
      → P w.db
      → ((d : Db) → f w.db ≡ some d → P d)
      → P (command f w).1.db
  command_at f w h hf = elim (Bool-cases (w.env.fails w.tick)) [
    | inl y ↦ rw y h
    | inr n ↦ elim (Option-cases (f w.db)) [ inl e ↦ rw (n, e) h | inr (d, e) ↦ rw (n, e) (hf d e) ]
  ]

  pub command-Keeps :
      (f : Db → Option Db) → ((d d' : Db) → P d → f d ≡ some d' → P d') → Keeps (command f)
  command-Keeps f hf w h = command_at f w h (λ d. hf w.db d h)

  pub transaction-Keeps : {A : Type 0} (m : Action A) → Keeps m → Keeps (transaction m)
  transaction-Keeps m hm w h = elim (Outcome-cases (committed m w).0) [
    | inl (a, c) ↦
        let e : (transaction m w).1.db ≡ (committed m w).1.db = ground (arith, c) in
        rw e (
          bind-Keeps m (λ a. query (λ d. d) >>= λ x. pure a) hm
            (λ a. query_bind-Keeps (λ d. d) (λ x. pure a) (λ v k. k)) w h)
    | inr (x, c) ↦ let e : (transaction m w).1.db ≡ w.db = ground (arith, c) in rw e h
  ]
