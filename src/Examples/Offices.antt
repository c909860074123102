-- ===== src/Examples/Offices.antt =====
-- Two tenants, and calls of the administration.
use validador_final.Prelude.{◌≡◌, refl, List, [], ◌∷◌, none, some, true, false, ok, arith}
use mathlib.Core.List.{Memᴰ}
use validador_final.Prelude.Dict.{get, put}
use validador_final.Prelude.Text.{strip, strip_start, strip_end}
use validador_final.Json.{null}
use validador_final.Job.{Time}
use validador_final.Tenants.Config.{TenantConfig}
use validador_final.Tenants.{
  iter_effective_tenant_configs, config_map, runtime_record_map, apply_runtime_record, is_named,
  load_tenant_config,
}
use validador_final.Tenants.Unique.{SameNames, load_tenant_config-SameNames}
use validador_final.Tenants.Admin.{AdminWorld, TenantAdmin, Caller, runtime_records}
use validador_final.Tenants.Admin.Preserved.{HasUniqueNames}
use validador_final.Tenants.Admin.Runs.{
  AdminCall, create, update, disable, reactivate, perform_calls, perform_calls-HasUniqueNames,
}

abbrev acme : TenantConfig
acme = record {
  tenant_id = "acme";
  display_name = "Acme";
  aliases = "acme-br" ∷ [];
  disabled = false;
  profile = record {
    columns = [];
    enabled_rules = [];
    disabled_rules = [];
    thresholds = [];
    categories = [];
    normalization = null;
    suspicious_patterns = null;
    llm = record { prompt_file = ""; rest = null };
  };
  csv = null;
  auth = null;
  api_keys = [];
  operators = [];
}

abbrev offices : AdminWorld
offices = record {
  files = record {
    configs = acme ∷ [];
    directory_names = "acme" ∷ [];
    default_config = none;
    blank = acme;
  };
  published_profile = λ t. none;
  texts = record { casefold = λ t. t; isprintable = λ t. true };
}

abbrev opened : TenantAdmin
opened = record { storage = some []; audit = some [] }

opened-HasUniqueNames : HasUniqueNames offices opened
unfolding iter_effective_tenant_configs config_map runtime_record_map apply_runtime_record get put
    strip strip_start strip_end runtime_records
opened-HasUniqueNames = record { at_most_one = λ text. ground arith; trimmed = (refl, tt) }

abbrev nobody : Caller
nobody = record { api_key_id = none; operator_id = none }

abbrev calls : List (Time × Caller × AdminCall)
calls =
    (1, nobody, create "beta" "Beta" ("beta-br" ∷ []))
    ∷ (2, nobody, create "beta-br" "Other" [])
    ∷ (3, nobody, update "acme" (some "Acme SA") (some ("beta-br" ∷ [])))
    ∷ (4, nobody, disable "beta")
    ∷ (5, nobody, reactivate "beta-br")
    ∷ []

perform_calls-HasUniqueNames_example : HasUniqueNames offices (perform_calls offices calls opened)
perform_calls-HasUniqueNames_example =
    perform_calls-HasUniqueNames offices calls opened opened-HasUniqueNames

load_tenant_config-SameNames_example :
    (d : TenantConfig) × (load_tenant_config offices.files (λ t. none) [] true "acme-br " ≡ ok d)
    × SameNames d acme
unfolding iter_effective_tenant_configs config_map runtime_record_map apply_runtime_record get put
    strip strip_start strip_end runtime_records is_named
load_tenant_config-SameNames_example =
    load_tenant_config-SameNames offices.files (λ t. none) [] acme "acme-br " opened-HasUniqueNames
      (Memᴰ.head refl) refl
