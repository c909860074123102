-- ===== src/Tenants/Config.antt =====
-- The configuration of a tenant (app/core/tenant_config.py) and the profile that may replace a part
-- of it (app/core/tenant_profile.py). Sections that no code here looks into are values.
use validador_final.Prelude.{String, Bool, List}
use validador_final.Json.{Value}

pub record CategoryConfig : Type 0 where
  pub name : String
  pub display_name : String
  pub keywords : List String
  pub critical_checks : List String
  pub critical_check_fields : List (String × List String)
  pub required_fields : List String
  pub field_help : List (String × String)

pub record LlmConfig : Type 0 where
  pub prompt_file : String
  pub rest : Value

pub record ValidationProfileData : Type 0 where
  pub columns : List (String × String)
  pub enabled_rules : List String
  pub disabled_rules : List String
  pub thresholds : List (String × Value)
  pub categories : List CategoryConfig
  pub normalization : Value
  pub suspicious_patterns : Value
  pub llm : LlmConfig

-- The fields of a profile stand together.
pub record TenantConfig : Type 0 where
  pub tenant_id : String
  pub display_name : String
  pub aliases : List String
  pub disabled : Bool
  pub profile : ValidationProfileData
  pub csv : Value
  pub auth : Value
  pub api_keys : List Value
  pub operators : List Value

unfoldable pub build_validation_profile_from_tenant_config : TenantConfig → ValidationProfileData
build_validation_profile_from_tenant_config config = config.profile

-- The fields of the profile; the source's `model_copy` leaves the nested ones as plain dicts, which
-- hold the same values.
unfoldable pub apply_validation_profile_to_tenant_config :
    TenantConfig → ValidationProfileData → TenantConfig
apply_validation_profile_to_tenant_config config profile = record config { profile = profile }
