-- ===== src/Workflow/Resolution/Tiers.antt =====
-- The tiers of a resolution as a choice among what the tables hold.
use fun_makers_system.Base.{
  ℕ, ◌≡◌, ◌⊎◌, inl, inr, Bool, true, false, Option, none, some, arith, Option-cases, suc,
}
use fun_makers_system.Base.Int.{ℤ}
use fun_makers_system.Data.Settings.{threshold_for}
use fun_makers_system.Data.Workflow.{project_override, entity_default, system_default}
use fun_makers_system.Effects.{World, Db, Action, ok, ◌>>=◌, advance}
use fun_makers_system.Effects.Laws.{query_bind_ok}
use fun_makers_system.Workflow.Resolution.{
  Resolution, TemplateCodes, RegistryMode, standard_default, subtype_driven, unregistered,
  registry_mode, resolved, override_code, entity_of, default_code, find_template, find_setting,
  over_threshold, first_code, or_else_do, query_default, resolve_template, resolve_below,
  system_tiers,
}

-- The first that is there.
abbrev pub first_of : Option Resolution → Option Resolution → Option Resolution
first_of (some r) rest = some r
first_of none rest = rest

abbrev pub default_of : ℕ → Option ℕ → Db → Option ℕ
default_of record_type none d = none
default_of record_type (some entity_id) d = default_code record_type entity_id d

abbrev pub if_over : Bool → Option ℕ → Option ℕ
if_over true code = code
if_over false code = none

-- The template for high values, where the amount is over the project's threshold.
abbrev pub high_value_of : TemplateCodes → ℕ → ℕ → RegistryMode → Option ℤ → Db → Option ℕ
high_value_of codes record_type project_id standard_default (some amount) d =
    if_over (over_threshold amount (find_setting project_id (threshold_for record_type) d))
      (find_template record_type (codes.high_value record_type) d)
high_value_of codes record_type project_id _ _ d = none

abbrev pub standard_of : TemplateCodes → ℕ → RegistryMode → Db → Option ℕ
standard_of codes record_type standard_default d =
    find_template record_type (codes.standard record_type) d
standard_of codes record_type subtype_driven d = none
standard_of codes record_type unregistered d = first_code record_type d.workflow.templates

-- The project's override, the entity's default, the high-value template, the standard one.
abbrev pub choose_template : TemplateCodes → ℕ → ℕ → Option ℤ → Db → Option Resolution
choose_template codes record_type project_id amount d =
    let mode = registry_mode record_type in
    first_of (resolved project_override (override_code record_type project_id d)) (
      first_of (resolved entity_default (default_of record_type (entity_of project_id d) d)) (
        first_of
          (resolved system_default (high_value_of codes record_type project_id mode amount d))
          (resolved system_default (standard_of codes record_type mode d))))

-- The same without the third tier.
abbrev pub choose_standard : TemplateCodes → ℕ → ℕ → Db → Option Resolution
choose_standard codes record_type project_id d =
    let mode = registry_mode record_type in
    first_of (resolved project_override (override_code record_type project_id d)) (
      first_of (resolved entity_default (default_of record_type (entity_of project_id d) d))
        (resolved system_default (standard_of codes record_type mode d)))

-- Either choice, with the third tier or without.
abbrev Either : Option Resolution → Option Resolution → Option Resolution → Type 0
Either a b r = (r ≡ a) ⊎ (r ≡ b)

tiers-Either :
    (codes : TemplateCodes) (record_type project_id : ℕ) (mode : RegistryMode) (amount : Option ℤ)
    (w : World) (r : Option Resolution)
    → (system_tiers codes record_type project_id mode amount w).0 ≡ ok r
    → Either
        (first_of
          (resolved system_default (high_value_of codes record_type project_id mode amount w.db))
          (resolved system_default (standard_of codes record_type mode w.db)))
        (resolved system_default (standard_of codes record_type mode w.db))
        r
unfolding system_tiers
tiers-Either codes record_type project_id subtype_driven amount w r h = inl (ground (arith, h))
tiers-Either codes record_type project_id unregistered amount w r h = inl (ground (arith, h))
tiers-Either codes record_type project_id standard_default none w r h = inl (ground (arith, h))
tiers-Either codes record_type project_id standard_default (some amount) w r h = ground (arith, h)

below-Either :
    (codes : TemplateCodes) (record_type project_id : ℕ) (mode : RegistryMode) (amount : Option ℤ)
    (w : World) (r : Option Resolution)
    → (resolve_below codes record_type project_id mode amount w).0 ≡ ok r
    → let entity =
        resolved entity_default (default_of record_type (entity_of project_id w.db) w.db) in
      let standard = resolved system_default (standard_of codes record_type mode w.db) in
      let high =
        resolved system_default (high_value_of codes record_type project_id mode amount w.db) in
      Either (first_of entity (first_of high standard)) (first_of entity standard) r
unfolding resolve_below
below-Either codes record_type project_id mode amount w r h =
    let tail : Option ℕ → Action (Option Resolution) = λ code.
      or_else_do (resolved entity_default code)
        (system_tiers codes record_type project_id mode amount) in
    let ran =
      query_bind_ok (entity_of project_id) (λ entity. query_default record_type entity >>= tail) w r
        h in
    elim (Option-cases (entity_of project_id w.db)) [
      | inl n ↦
          rw n (tiers-Either codes record_type project_id mode amount (advance w) r (rw n at ran))
      | inr (id, e) ↦
          let ran' = query_bind_ok (default_code record_type id) tail (advance w) r (rw e at ran) in
          elim (Option-cases (default_code record_type id w.db)) [
            | inl n ↦
                rw (e, n)
                  (tiers-Either codes record_type project_id mode amount (advance (advance w)) r
                    (rw n at ran'))
            | inr (c, f) ↦ rw (e, f) (inl (ground (arith, ran', f)))
          ]
    ]

-- Whatever calls of the database fail, what `resolveTemplate` (called without a subtype) returns is the
-- first there is of the project's override, the entity's default, the template for high values where
-- the amount is over the project's threshold, and the standard template; or the same choice without the
-- template for high values.
pub resolve_template_chooses :
    (codes : TemplateCodes) (record_type project_id : ℕ) (amount : Option ℤ) (w : World)
    (r : Option Resolution)
    → (resolve_template codes record_type project_id amount w).0 ≡ ok r
    → (r ≡ choose_template codes record_type project_id amount w.db)
      ⊎ (r ≡ choose_standard codes record_type project_id w.db)
unfolding resolve_template
resolve_template_chooses codes record_type project_id amount w r h =
    let mode = registry_mode record_type in
    let ran =
      query_bind_ok (override_code record_type project_id)
        (λ override.
          or_else_do (resolved project_override override)
            (resolve_below codes record_type project_id mode amount))
        w r h in
    elim (Option-cases (override_code record_type project_id w.db)) [
      | inl n ↦
          rw n (below-Either codes record_type project_id mode amount (advance w) r (rw n at ran))
      | inr (c, e) ↦ rw e (inl (ground (arith, ran, e)))
    ]

-- Where no call fails, all tiers count.
tiers_ok :
    (codes : TemplateCodes) (record_type project_id : ℕ) (mode : RegistryMode) (amount : Option ℤ)
    (w : World)
    → ((n : ℕ) → w.env.fails n ≡ false)
    → (system_tiers codes record_type project_id mode amount w).0
      ≡ ok (
          first_of
            (resolved system_default (high_value_of codes record_type project_id mode amount w.db))
            (resolved system_default (standard_of codes record_type mode w.db)))
unfolding system_tiers
tiers_ok codes record_type project_id subtype_driven amount w h = ground arith
tiers_ok codes record_type project_id unregistered amount w h = ground (arith, h w.tick)
tiers_ok codes record_type project_id standard_default none w h = ground (arith, h w.tick)
tiers_ok codes record_type project_id standard_default (some amount) w h =
    ground (arith, h w.tick, h (suc w.tick), h (suc (suc w.tick)))

below_ok :
    (codes : TemplateCodes) (record_type project_id : ℕ) (mode : RegistryMode) (amount : Option ℤ)
    (w : World)
    → ((n : ℕ) → w.env.fails n ≡ false)
    → let entity =
        resolved entity_default (default_of record_type (entity_of project_id w.db) w.db) in
      let standard = resolved system_default (standard_of codes record_type mode w.db) in
      let high =
        resolved system_default (high_value_of codes record_type project_id mode amount w.db) in
      (resolve_below codes record_type project_id mode amount w).0
      ≡ ok (first_of entity (first_of high standard))
unfolding resolve_below
below_ok codes record_type project_id mode amount w h =
    elim (Option-cases (entity_of project_id w.db)) [
      | inl n ↦
          ground
            (arith, n, h w.tick, tiers_ok codes record_type project_id mode amount (advance w) h)
      | inr (id, e) ↦ elim (Option-cases (default_code record_type id w.db)) [
        | inl n ↦ ground (
          arith,
          e,
          n,
          h w.tick,
          h (suc w.tick),
          tiers_ok codes record_type project_id mode amount (advance (advance w)) h,
        )
        | inr (c, f) ↦ ground (arith, e, f, h w.tick, h (suc w.tick))
      ]
    ]

-- Where no call of the database fails, `resolveTemplate` (called without a subtype) returns, and what it
-- returns is the first there is of the project's override, the entity's default, the template for high
-- values where the amount is over the project's threshold, and the standard template.
pub resolve_template_complete :
    (codes : TemplateCodes) (record_type project_id : ℕ) (amount : Option ℤ) (w : World)
    → ((n : ℕ) → w.env.fails n ≡ false)
    → (resolve_template codes record_type project_id amount w).0
      ≡ ok (choose_template codes record_type project_id amount w.db)
unfolding resolve_template
resolve_template_complete codes record_type project_id amount w h =
    let below =
      below_ok codes record_type project_id (registry_mode record_type) amount (advance w) h in
    elim (Option-cases (override_code record_type project_id w.db)) [
      | inl n ↦ ground (arith, n, h w.tick, below)
      | inr (c, e) ↦ ground (arith, e, h w.tick)
    ]
