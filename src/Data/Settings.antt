-- ===== src/Data/Settings.antt =====
-- The settings that choose a workflow template: those of a project, and an entity's defaults.
use fun_makers_system.Base.{ℕ, Option, List}
use fun_makers_system.Base.Int.{ℤ}

-- `workflow_template:{recordType}[:{subtype}]` and `workflow_template_high_value_threshold:{recordType}`.
pub data SettingKey : Type 0 where
  template_for : ℕ → Option ℕ → SettingKey
  threshold_for : ℕ → SettingKey

-- `text` is the value if it is a string that is not empty; `decimal` is the number it reads as, if any.
pub record ProjectSetting : Type 0 where
  pub project_id : ℕ
  pub key : SettingKey
  pub text : Option ℕ
  pub decimal : Option ℤ

-- The entity of a project.
pub record ProjectEntity : Type 0 where
  pub project_id : ℕ
  pub entity_id : ℕ

-- An entry of `metadataJson.workflow_templates`; an entry without a subtype is the generic one.
pub record EntityDefault : Type 0 where
  pub entity_id : ℕ
  pub record_type : ℕ
  pub subtype : Option ℕ
  pub code : ℕ

pub record SettingTables : Type 0 where
  pub settings : List ProjectSetting
  pub entities : List ProjectEntity
  pub defaults : List EntityDefault
