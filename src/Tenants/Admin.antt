-- ===== src/Tenants/Admin.antt =====
-- app/services/tenant_admin_service.py. The state is what the storage of runtime records holds
-- (`none` without one) and the audit log; a method is one step. The list that a load gives is fresh,
-- so the records that a method changes reach the storage only when it persists them.
pub mod Checks
pub mod Collisions
pub mod Preserved
pub mod Renamed
pub mod Kept
pub mod Runs
use validador_final.Prelude.{
  ℕ, String, Bool, true, false, not, ◌&&◌, List, [], ◌∷◌, ◌++◌, map, Option, none, some,
  if◌then◌else◌, str_eq, Result, ok, err,
}
use validador_final.Prelude.Text.{is_member}
use validador_final.Prelude.Exec.{Exec, pure, raise, lift, gets, modify, ◌>>=◌, ◌>>◌}
use validador_final.Job.{Time}
use validador_final.Tenants.Config.{TenantConfig, ValidationProfileData}
use validador_final.Tenants.{
  TenantFiles, RuntimeTenantRecord, LoadError, multiple_match, load_tenant_config, list_tenants,
}
use validador_final.Tenants.Admin.Checks.{
  AdminError, admin_error, load_error, value_error, TextFacts, validate_identifier,
  validate_display_name, validate_aliases, collision_with, of_load,
}

pub data TenantSource : Type 0 where
  file runtime : TenantSource

pub record TenantAdminRecord : Type 0 where
  pub tenant_id : String
  pub display_name : String
  pub aliases : List String
  pub disabled : Bool
  pub source : TenantSource
  pub is_default : Bool

pub data TenantEventType : Type 0 where
  tenant_created tenant_updated tenant_disabled tenant_reactivated : TenantEventType

-- The arguments of `record_event`; the details are the fields of the record and the actor.
pub record TenantEvent : Type 0 where
  pub event_type : TenantEventType
  pub tenant : TenantAdminRecord
  pub api_key_id : Option String
  pub operator_id : Option String

pub record TenantAdmin : Type 0 where
  pub storage : Option (List RuntimeTenantRecord)
  pub audit : Option (List TenantEvent)

abbrev pub AdminAction : Type 0 → Type 0
AdminAction A = Exec TenantAdmin AdminError A

-- Who calls: the key and the operator.
pub record Caller : Type 0 where
  pub api_key_id : Option String
  pub operator_id : Option String

unfoldable pub runtime_records : TenantAdmin → List RuntimeTenantRecord
runtime_records s = elim s.storage [ none ↦ [] | some records ↦ records ]

unfoldable pub load_runtime_records : AdminAction (List RuntimeTenantRecord)
unfolding runtime_records
load_runtime_records = gets runtime_records

unfoldable pub persist_runtime_records : List RuntimeTenantRecord → AdminAction (Unit {0})
persist_runtime_records records = modify (λ s. record s { storage = some records })

unfoldable pub is_configured : Option (List RuntimeTenantRecord) → Result AdminError (Unit {0})
is_configured none =
    err (admin_error 503 "Tenant administration requires persistent operational storage")
is_configured (some records) = ok tt

unfoldable pub ensure_storage_configured : AdminAction (Unit {0})
ensure_storage_configured = do storage ← gets (λ s. s.storage); lift (is_configured storage)

-- The record that is there for the tenant is overwritten, or a new one is appended.
unfoldable pub upserted : RuntimeTenantRecord → List RuntimeTenantRecord → List RuntimeTenantRecord
upserted r [] = r ∷ []
upserted r (old ∷ records) =
    let rest = upserted r records in
    if str_eq old.tenant_id r.tenant_id
    then record r { created_at = old.created_at } ∷ records
    else old ∷ rest

unfoldable pub recorded_event :
    TenantEventType
    → TenantAdminRecord
    → Caller
    → Option (List TenantEvent)
    → Option (List TenantEvent)
recorded_event event_type tenant caller none = none
recorded_event event_type tenant caller (some events) = some (
    events
    ++ (record {
      event_type = event_type;
      tenant = tenant;
      api_key_id = caller.api_key_id;
      operator_id = caller.operator_id;
    })
      ∷ [])

unfoldable pub record_tenant_event :
    TenantEventType → TenantAdminRecord → Caller → AdminAction (Unit {0})
unfolding recorded_event
record_tenant_event event_type tenant caller =
    modify (λ s. record s { audit = recorded_event event_type tenant caller s.audit })

-- What the service reads besides its storage, and what it knows of characters.
pub record AdminWorld : Type 0 where
  pub files : TenantFiles
  pub published_profile : String → Option ValidationProfileData
  pub texts : TextFacts

unfoldable pub add_config :
    Result LoadError TenantConfig
    → Result LoadError (List TenantConfig)
    → Result LoadError (List TenantConfig)
add_config (err e) rest = err e
add_config (ok config) (err e) = err e
add_config (ok config) (ok configs) = ok (config ∷ configs)

unfoldable pub of_existing : Result LoadError TenantConfig → Result AdminError TenantConfig
of_existing (ok config) = ok config
of_existing (err multiple_match) = err value_error
of_existing (err e) = err (admin_error 404 "Tenant not found")

unfoldable pub checked_against :
    TextFacts
    → String
    → String
    → List String
    → Option String
    → Result LoadError (List TenantConfig)
    → Result AdminError (Unit {0})
unfolding collision_with
checked_against texts tenant_id display_name aliases existing (err e) = err (load_error e)
checked_against texts tenant_id display_name aliases existing (ok configs) =
    collision_with texts tenant_id display_name aliases existing configs

module _ (world : AdminWorld) where
  unfoldable pub load : List RuntimeTenantRecord → String → Result LoadError TenantConfig
  load records tenant_id =
      load_tenant_config world.files world.published_profile records true tenant_id

  unfoldable pub build_admin_record : TenantConfig → List RuntimeTenantRecord → TenantAdminRecord
  build_admin_record config records = record {
    tenant_id = config.tenant_id;
    display_name = config.display_name;
    aliases = config.aliases;
    disabled = config.disabled;
    source =
        if is_member config.tenant_id (map (λ r. r.tenant_id) records)
          && not (is_member config.tenant_id world.files.directory_names)
        then runtime
        else file;
    is_default = str_eq config.tenant_id "default";
  }

  unfoldable pub load_each :
      List RuntimeTenantRecord → List String → Result LoadError (List TenantConfig)
  load_each records [] = ok []
  load_each records (tenant_id ∷ ids) = add_config (load records tenant_id) (load_each records ids)

  -- `list_tenants`
  unfoldable pub list_admin_records : AdminAction (List TenantAdminRecord)
  list_admin_records = do
    records ← load_runtime_records
    configs ← lift (of_load (load_each records (list_tenants world.files records true)))
    pure (map (λ c. build_admin_record c records) configs)

  unfoldable pub load_existing_tenant : String → AdminAction TenantConfig
  load_existing_tenant tenant_id = do
    records ← load_runtime_records
    lift (of_existing (load records tenant_id))

  unfoldable pub validate_no_collisions :
      String → String → List String → Option String → AdminAction (Unit {0})
  validate_no_collisions tenant_id display_name aliases existing_tenant_id = do
    records ← load_runtime_records
    lift (
        checked_against world.texts tenant_id display_name aliases existing_tenant_id
          (load_each records (list_tenants world.files records true)))

  -- The record, read back as the tenant that it makes, and the event about it.
  unfoldable pub finish : TenantEventType → Caller → String → AdminAction TenantAdminRecord
  finish event_type caller tenant_id = do
    records ← load_runtime_records
    config ← lift (of_load (load records tenant_id))
    let admin_record = build_admin_record config records
    record_tenant_event event_type admin_record caller
    pure admin_record

  module _ (now : Time) where
    unfoldable pub create_tenant :
        String → String → List String → Caller → AdminAction TenantAdminRecord
    create_tenant tenant_id display_name aliases caller = do
      ensure_storage_configured
      normalized_tenant_id ← lift (validate_identifier "tenant_id" tenant_id)
      normalized_display_name ← lift (validate_display_name world.texts display_name)
      normalized_aliases ← lift (validate_aliases normalized_tenant_id [] aliases)
      validate_no_collisions normalized_tenant_id normalized_display_name normalized_aliases none
      records ← load_runtime_records
      persist_runtime_records (
          records
          ++ (record {
            tenant_id = normalized_tenant_id;
            display_name = normalized_display_name;
            aliases = normalized_aliases;
            disabled = false;
            created_at = now;
            updated_at = now;
          })
            ∷ [])
      finish tenant_created caller normalized_tenant_id

    unfoldable pub upsert_runtime_record :
        TenantConfig → String → List String → Bool → AdminAction (Unit {0})
    upsert_runtime_record config display_name aliases disabled = do
      records ← load_runtime_records
      persist_runtime_records (
          upserted
            (record {
              tenant_id = config.tenant_id;
              display_name = display_name;
              aliases = aliases;
              disabled = disabled;
              created_at = now;
              updated_at = now;
            })
            records)

    -- The changes that are asked for: a display name, aliases.
    unfoldable pub checked_name : Option String → String → Result AdminError String
    checked_name none current = ok current
    checked_name (some display_name) current = validate_display_name world.texts display_name

    abbrev pub is_given {ℓ} : {A : Type ℓ} → Option A → Bool
    is_given none = false
    is_given (some a) = true

    abbrev pub given_aliases : Option (List String) → List String → List String
    given_aliases none current = current
    given_aliases (some aliases) current = aliases

    unfoldable pub apply_update :
        TenantConfig → Option String → Option (List String) → Caller → AdminAction TenantAdminRecord
    apply_update config display_name aliases caller = do
      normalized_display_name ← lift (checked_name display_name config.display_name)
      normalized_aliases ←
          lift (validate_aliases config.tenant_id [] (given_aliases aliases config.aliases))
      validate_no_collisions config.tenant_id normalized_display_name normalized_aliases
          (some config.tenant_id)
      upsert_runtime_record config normalized_display_name normalized_aliases config.disabled
      finish tenant_updated caller config.tenant_id

    unfoldable pub update_tenant :
        String → Option String → Option (List String) → Caller → AdminAction TenantAdminRecord
    update_tenant tenant_id display_name aliases caller = do
      ensure_storage_configured
      config ← load_existing_tenant tenant_id
      if not (is_given display_name) && not (is_given aliases)
          then raise (admin_error 422 "No tenant changes provided")
          else apply_update config display_name aliases caller

    unfoldable pub disable_tenant : String → Caller → AdminAction TenantAdminRecord
    disable_tenant tenant_id caller = do
      ensure_storage_configured
      config ← load_existing_tenant tenant_id
      if str_eq config.tenant_id "default"
          then raise (admin_error 409 "Cannot disable the default tenant")
          else (do
            upsert_runtime_record config config.display_name config.aliases true
            finish tenant_disabled caller config.tenant_id)

    unfoldable pub reactivate_tenant : String → Caller → AdminAction TenantAdminRecord
    reactivate_tenant tenant_id caller = do
      ensure_storage_configured
      config ← load_existing_tenant tenant_id
      upsert_runtime_record config config.display_name config.aliases false
      finish tenant_reactivated caller config.tenant_id
