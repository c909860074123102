-- ===== src/Tenants.antt =====
-- app/core/tenant_loader.py: the tenants that the files and the records of the administration give,
-- and how a text names one of them. What the files hold is a parameter.
pub mod Config
pub mod Unique
pub mod Records
pub mod Changed
pub mod Upserts
pub mod Admin
use validador_final.Prelude.{
  ℕ, String, Bool, true, false, not, ◌&&◌, ◌||◌, List, [], ◌∷◌, ◌++◌, map, Option, none, some,
  if◌then◌else◌, str_eq, filter, Result, ok, err,
}
use validador_final.Prelude.Text.{strip, is_member, sorted_set}
use validador_final.Prelude.Dict.{get, put, values}
use validador_final.Job.{Time}
use validador_final.Tenants.Config.{
  TenantConfig, ValidationProfileData, apply_validation_profile_to_tenant_config,
}

pub record RuntimeTenantRecord : Type 0 where
  pub tenant_id : String
  pub display_name : String
  pub aliases : List String
  pub disabled : Bool
  pub created_at : Time
  pub updated_at : Time

-- The tenants' files, in the order of their paths, with the names of their directories; the file of
-- the default tenant if it is there; and the defaults of the fields of a configuration.
pub record TenantFiles : Type 0 where
  pub configs : List TenantConfig
  pub directory_names : List String
  pub default_config : Option TenantConfig
  pub blank : TenantConfig

pub data LoadError : Type 0 where
  not_found multiple_match tenant_disabled : LoadError

unfoldable pub runtime_record_map :
    List (String × RuntimeTenantRecord)
    → List RuntimeTenantRecord
    → List (String × RuntimeTenantRecord)
runtime_record_map found [] = found
runtime_record_map found (r ∷ records) = runtime_record_map (put r.tenant_id r found) records

unfoldable pub config_map :
    List (String × TenantConfig) → List TenantConfig → List (String × TenantConfig)
config_map found [] = found
config_map found (c ∷ configs) = config_map (put c.tenant_id c found) configs

unfoldable pub apply_runtime_record : TenantConfig → Option RuntimeTenantRecord → TenantConfig
apply_runtime_record config none = config
apply_runtime_record config (some r) = record config {
  display_name = r.display_name;
  aliases = r.aliases;
  disabled = r.disabled;
}

-- The text is the tenant's identifier or one of its aliases.
unfoldable pub is_named : String → TenantConfig → Bool
is_named text config = str_eq text config.tenant_id || is_member text config.aliases

unfoldable pub the_match : Bool → List TenantConfig → Result LoadError TenantConfig
the_match include_disabled [] = err not_found
the_match include_disabled (config ∷ []) =
    if config.disabled && not include_disabled then err tenant_disabled else ok config
the_match include_disabled (c ∷ d ∷ configs) = err multiple_match

-- `published_profile` is what the store of profiles gives, or nothing where the profile is left out.
unfoldable pub with_profile :
    (String → Option ValidationProfileData)
    → Result LoadError TenantConfig
    → Result LoadError TenantConfig
unfolding apply_validation_profile_to_tenant_config
with_profile published_profile (err e) = err e
with_profile published_profile (ok config) = elim (published_profile config.tenant_id) [
  | none ↦ ok config
  | some profile ↦ ok (apply_validation_profile_to_tenant_config config profile)
]

-- A text that names no tenant stands for itself.
unfoldable pub canonical_of : String → Result LoadError TenantConfig → Result LoadError String
canonical_of text (ok config) = ok config.tenant_id
canonical_of text (err not_found) = ok text
canonical_of text (err multiple_match) = err multiple_match
canonical_of text (err tenant_disabled) = err tenant_disabled

abbrev pub is_none {ℓ} : {A : Type ℓ} → Option A → Bool
is_none none = true
is_none (some a) = false

module _ (files : TenantFiles) where
  unfoldable pub build_runtime_tenant_config : RuntimeTenantRecord → TenantConfig
  build_runtime_tenant_config r = elim files.default_config [
    | some base ↦ record base {
      tenant_id = r.tenant_id;
      display_name = r.display_name;
      aliases = r.aliases;
      disabled = r.disabled;
      api_keys = [];
      operators = [];
    }
    | none ↦ record files.blank {
      tenant_id = r.tenant_id;
      display_name = r.display_name;
      aliases = r.aliases;
      disabled = r.disabled;
    }
  ]

  abbrev pub file_configs : List (String × TenantConfig)
  file_configs = config_map [] files.configs

  unfoldable pub is_runtime_only : RuntimeTenantRecord → Bool
  is_runtime_only r = is_none (get r.tenant_id file_configs)

  unfoldable pub iter_effective_tenant_configs : List RuntimeTenantRecord → List TenantConfig
  iter_effective_tenant_configs records =
      let by_id = runtime_record_map [] records in
      map (λ c. apply_runtime_record c (get c.tenant_id by_id)) (values file_configs)
      ++ map build_runtime_tenant_config (filter is_runtime_only (values by_id))

  unfoldable pub load_tenant_config :
      (String → Option ValidationProfileData)
      → List RuntimeTenantRecord
      → Bool
      → String
      → Result LoadError TenantConfig
  load_tenant_config published_profile records include_disabled tenant_id =
      with_profile published_profile (
        the_match include_disabled
          (filter (is_named (strip tenant_id)) (iter_effective_tenant_configs records)))

  unfoldable pub list_tenants : List RuntimeTenantRecord → Bool → List String
  list_tenants records include_disabled = sorted_set (
      map (λ c. c.tenant_id)
        (filter (λ c. include_disabled || not c.disabled) (iter_effective_tenant_configs records)))

  unfoldable pub canonicalize_tenant_id :
      (String → Option ValidationProfileData)
      → List RuntimeTenantRecord
      → String
      → Result LoadError String
  canonicalize_tenant_id published_profile records tenant_id =
      canonical_of (strip tenant_id)
        (load_tenant_config published_profile records true (strip tenant_id))
