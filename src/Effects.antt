-- ===== src/Effects.antt =====
-- A service method: a state transformer over the database that may throw. What was written before a
-- throw stays written, unless a transaction takes it back. Every call of the database may fail, as
-- the environment decides; the ids that it generates and the clock are the environment's too.
pub mod Laws
pub mod Keeps
use fun_makers_system.Base.{
  ℕ, suc, Bool, true, false, Option, none, some, List, ◌++◌, ◌∷◌, [], if◌then◌else◌,
}
use fun_makers_system.Data.Audit.{AuditRow, OverrideRow}
use fun_makers_system.Data.Access.{AccessTables}
use fun_makers_system.Data.Workflow.{WorkflowTables, WorkflowEvent}
use fun_makers_system.Data.Posting.{PostingTables}
use fun_makers_system.Data.Budget.{BudgetTables}
use fun_makers_system.Data.Records.{RecordTables}
use fun_makers_system.Data.Settings.{SettingTables}
use fun_makers_system.Data.Errors.{Error, driver_failure, write_refused}

pub record Db : Type 0 where
  pub audit : List AuditRow
  pub overrides : List OverrideRow
  pub access : AccessTables
  pub workflow : WorkflowTables
  pub posting : PostingTables
  pub budget : BudgetTables
  pub records : RecordTables
  pub settings : SettingTables

-- What the program does not decide, by the number of the call: whether it fails, the id that is
-- generated, and the time.
pub record Environment : Type 0 where
  pub fails : ℕ → Bool
  pub uuid : ℕ → ℕ
  pub clock : ℕ → ℕ

-- `emitted` lists the events handed to the workflow event bus, in order; no rollback reaches it.
pub record World : Type 0 where
  pub db : Db
  pub emitted : List WorkflowEvent
  pub tick : ℕ
  pub env : Environment

pub data Outcome (A : Type 0) : Type 0 where
  ok : A → Outcome A
  err : Error → Outcome A

abbrev pub Action : Type 0 → Type 0
Action A = World → Outcome A × World

infixl 5 ◌>>=◌ ◌>>◌
abbrev pub ◌>>=◌ : {A B : Type 0} → Action A → (A → Action B) → Action B
◌>>=◌ m f w = let (r, w') = m w in elim r [ ok a ↦ f a w' | err e ↦ (err e, w') ]

abbrev pub ◌>>◌ : {A B : Type 0} → Action A → Action B → Action B
m >> k = m >>= λ _. k

module _ {A : Type 0} where
  abbrev pub pure : A → Action A
  pure a w = (ok a, w)

  abbrev pub throw : Error → Action A
  throw e w = (err e, w)

  -- `if (!x) throw`
  abbrev pub or_throw : Option A → Error → Action A
  or_throw none e = throw e
  or_throw (some a) e = pure a

  -- `try { m } catch (e) { h }`
  abbrev pub try_catch : Action A → (Error → Action A) → Action A
  try_catch m h w = let (r, w') = m w in elim r [ ok a ↦ (ok a, w') | err e ↦ h e w' ]

abbrev pub throw_if : Bool → Error → Action (Unit {0})
throw_if true e = throw e
throw_if false e = pure tt

abbrev pub advance : World → World
advance w = record w { tick = suc w.tick }

-- A call of the database, which may fail.
abbrev pub call : {A : Type 0} → Bool → Action A → Action A
call true m w = (err driver_failure, w)
call false m w = m w

-- A read.
abbrev pub query : {A : Type 0} → (Db → A) → Action A
query f w = call (w.env.fails w.tick) (λ v. (ok (f v.db), v)) (advance w)

abbrev pub store : Option Db → Action (Unit {0})
store none w = (err write_refused, w)
store (some d) w = (ok tt, record w { db = d })

-- A write; `none` is a row that is not there, or a unique key that is taken.
abbrev pub command : (Db → Option Db) → Action (Unit {0})
command f w = call (w.env.fails w.tick) (λ v. store (f v.db) v) (advance w)

-- A write of a row with a generated id, which is returned.
abbrev pub create : (ℕ → Db → Option Db) → Action ℕ
create f w = (command (f (w.env.uuid w.tick)) >> pure (w.env.uuid w.tick)) w

-- `new Date()`
abbrev pub now : Action ℕ
now w = (ok (w.env.clock w.tick), w)

abbrev pub emit : WorkflowEvent → Action (Unit {0})
emit e w = (ok tt, record w { emitted = w.emitted ++ (e ∷ []) })

-- `prisma.$transaction(m)`: the commit may fail too, and whatever fails takes all writes back.
abbrev pub committed : {A : Type 0} → Action A → Action A
committed m = do a ← m; query (λ d. d); pure a

abbrev pub transaction : {A : Type 0} → Action A → Action A
transaction m w =
    let (r, w') = committed m w in
    elim r [ ok a ↦ (ok a, w') | err e ↦ (err e, record w' { db = w.db }) ]
