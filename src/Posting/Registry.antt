-- ===== src/Posting/Registry.antt =====
-- packages/core/src/posting/event-registry.ts: the schemas of the event types. A schema is a Zod
-- object, which is a parameter here: a function that parses a payload or says why it cannot.
use fun_makers_system.Base.{ℕ, Option, none, some, List, ◌∷◌, ◌==◌, find}
use fun_makers_system.Data.Errors.{Error, event_type_registered}

pub data Parsed : Type 0 where
  parsed : ℕ → Parsed
  invalid : ℕ → Parsed
  unknown_type : Parsed

pub record EventType : Type 0 where
  pub name : ℕ
  pub schema : ℕ → Parsed

-- `EVENT_REGISTRY`
abbrev pub Registry : Type 0
Registry = List EventType

abbrev pub event_schema : ℕ → Registry → Option EventType
event_schema event_type r = find (λ t. t.name == event_type) r

pub data Registered : Type 0 where
  registered : Registry → Registered
  refused : Error → Registered

-- `registerEventType`
unfoldable pub register_event_type : ℕ → (ℕ → Parsed) → Registry → Registered
register_event_type event_type schema r = elim (event_schema event_type r) [
  | none ↦ registered (record { name = event_type; schema = schema } ∷ r)
  | some t ↦ refused (event_type_registered event_type)
]

abbrev pub parse_with : Option EventType → ℕ → Parsed
parse_with none payload = unknown_type
parse_with (some t) payload = t.schema payload

-- `validatePayload`: `unknown_type` is its `UnknownEventTypeError`.
unfoldable pub validate_payload : ℕ → ℕ → Registry → Parsed
validate_payload event_type payload r = parse_with (event_schema event_type r) payload
