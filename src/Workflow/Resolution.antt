-- ===== src/Workflow/Resolution.antt =====
-- packages/core/src/workflow/template-resolution.ts: the template that a record's workflow is started
-- with, for calls that pass no subtype. Template codes are numbers, in the order of the codes; the codes
-- `{prefix}_standard` and `{prefix}_high_value` of a record type are a parameter.
pub mod Tiers
use fun_makers_system.Base.{
  ℕ, Bool, true, false, Option, none, some, List, [], ◌∷◌, ◌==◌, ltb, if◌then◌else◌, find,
}
use fun_makers_system.Base.Int.{ℤ, ltb_ℤ}
use fun_makers_system.Data.Settings.{SettingKey, template_for, threshold_for, ProjectSetting}
use fun_makers_system.Data.Workflow.{
  WorkflowTemplate, ResolutionSource, project_override, entity_default, system_default,
}
use fun_makers_system.Effects.{Db, Action, ◌>>=◌, pure, query, try_catch}

pub record Resolution : Type 0 where
  pub code : ℕ
  pub source : ResolutionSource

-- The numbers of `{prefix}_standard` and `{prefix}_high_value`, by record type.
pub record TemplateCodes : Type 0 where
  pub standard : ℕ → ℕ
  pub high_value : ℕ → ℕ

-- `WORKFLOW_TEMPLATE_REGISTRY` (packages/contracts/src/workflow.ts).
pub data RegistryMode : Type 0 where
  standard_default subtype_driven unregistered : RegistryMode

unfoldable pub registry_mode : ℕ → RegistryMode
registry_mode record_type =
    if record_type == 5
    then subtype_driven
    else if record_type == 0
    then unregistered
    else if ltb 14 record_type
    then unregistered
    else standard_default

abbrev pub resolved : ResolutionSource → Option ℕ → Option Resolution
resolved source none = none
resolved source (some code) = some (record { code = code; source = source })

abbrev pub or_else_do : {A : Type 0} → Option A → Action (Option A) → Action (Option A)
or_else_do (some a) rest = pure (some a)
or_else_do none rest = rest

abbrev same_key : SettingKey → SettingKey → Bool
same_key (template_for a none) (template_for b none) = a == b
same_key (threshold_for a) (threshold_for b) = a == b
same_key _ _ = false

abbrev setting_at : ℕ → SettingKey → ProjectSetting → Bool
setting_at project_id key s = if s.project_id == project_id then same_key s.key key else false

abbrev pub find_setting : ℕ → SettingKey → Db → Option ProjectSetting
find_setting project_id key d = find (setting_at project_id key) d.settings.settings

abbrev setting_text : Option ProjectSetting → Option ℕ
setting_text none = none
setting_text (some s) = s.text

abbrev pub override_code : ℕ → ℕ → Db → Option ℕ
override_code record_type project_id d =
    setting_text (find_setting project_id (template_for record_type none) d)

-- `project?.entityId`
abbrev pub entity_of : ℕ → Db → Option ℕ
entity_of project_id d = elim (find (λ p. p.project_id == project_id) d.settings.entities) [
  | none ↦ none
  | some p ↦ some p.entity_id
]

abbrev is_generic : Option ℕ → Bool
is_generic none = true
is_generic (some _) = false

-- `metadataJson.workflow_templates[recordType]` of the entity.
abbrev pub default_code : ℕ → ℕ → Db → Option ℕ
default_code record_type entity_id d =
    elim (find
      (λ m.
        if m.entity_id == entity_id
        then (if m.record_type == record_type then is_generic m.subtype else false)
        else false)
      d.settings.defaults) [ none ↦ none | some m ↦ some m.code ]

-- `findFirst({ where: { recordType, isActive: true, code } })`
abbrev pub find_template : ℕ → ℕ → Db → Option ℕ
find_template record_type code d =
    elim (find
      (λ (t : WorkflowTemplate).
        if t.record_type == record_type
        then (if t.is_active then t.code == code else false)
        else false)
      d.workflow.templates) [ none ↦ none | some t ↦ some t.code ]

abbrev lower_code : ℕ → Option ℕ → Option ℕ
lower_code c none = some c
lower_code c (some k) = if ltb k c then some k else some c

-- `findFirst({ where: { recordType, isActive: true }, orderBy: { code: 'asc' } })`
unfoldable pub first_code : ℕ → List WorkflowTemplate → Option ℕ
first_code record_type [] = none
first_code record_type (t ∷ ts) =
    let rest = first_code record_type ts in
    if t.record_type == record_type
    then (if t.is_active then lower_code t.code rest else rest)
    else rest

-- The entity's default, if the project has an entity.
abbrev pub query_default : ℕ → Option ℕ → Action (Option ℕ)
query_default record_type none = pure none
query_default record_type (some entity_id) = query (default_code record_type entity_id)

-- `amountDec.greaterThan(threshold)`; a setting that is missing, empty or no decimal is passed over.
abbrev pub over_threshold : ℤ → Option ProjectSetting → Bool
over_threshold amount none = false
over_threshold amount (some s) = elim s.text [
  | none ↦ false
  | some _ ↦ elim s.decimal [ none ↦ false | some threshold ↦ ltb_ℤ threshold amount ]
]

abbrev pub high_value_if : TemplateCodes → ℕ → Bool → Action (Option ℕ)
high_value_if codes record_type false = pure none
high_value_if codes record_type true =
    query (find_template record_type (codes.high_value record_type))

-- The third tier. The `try` takes in the lookup of the template, whose failure is passed over too.
abbrev pub escalate : TemplateCodes → ℕ → ℕ → RegistryMode → Option ℤ → Action (Option ℕ)
escalate codes record_type project_id standard_default (some amount) = do
  setting ← query (find_setting project_id (threshold_for record_type))
  try_catch (high_value_if codes record_type (over_threshold amount setting)) (λ x. pure none)
escalate codes record_type project_id _ _ = pure none

abbrev pub fallback : TemplateCodes → ℕ → RegistryMode → Action (Option ℕ)
fallback codes record_type standard_default =
    query (find_template record_type (codes.standard record_type))
fallback codes record_type subtype_driven = pure none
fallback codes record_type unregistered = query (λ d. first_code record_type d.workflow.templates)

unfoldable pub system_tiers :
    TemplateCodes → ℕ → ℕ → RegistryMode → Option ℤ → Action (Option Resolution)
system_tiers codes record_type project_id mode amount = do
  high ← escalate codes record_type project_id mode amount
  or_else_do (resolved system_default high)
      (do code ← fallback codes record_type mode; pure (resolved system_default code))

-- The tiers below the project's override.
unfoldable pub resolve_below :
    TemplateCodes → ℕ → ℕ → RegistryMode → Option ℤ → Action (Option Resolution)
resolve_below codes record_type project_id mode amount = do
  entity ← query (entity_of project_id)
  code ← query_default record_type entity
  or_else_do (resolved entity_default code) (system_tiers codes record_type project_id mode amount)

-- `resolveTemplate`
unfoldable pub resolve_template : TemplateCodes → ℕ → ℕ → Option ℤ → Action (Option Resolution)
resolve_template codes record_type project_id amount = do
  override ← query (override_code record_type project_id)
  or_else_do (resolved project_override override)
      (resolve_below codes record_type project_id (registry_mode record_type) amount)
