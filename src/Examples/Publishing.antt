-- ===== src/Examples/Publishing.antt =====
-- A tenant whose draft is published and rolled back.
use validador_final.Prelude.{◌≡◌, refl, List, [], ◌∷◌, none, some, true, false, ok}
use validador_final.Json.{null}
use validador_final.Tenants.Config.{TenantConfig, ValidationProfileData}
use validador_final.Tenants.{
  iter_effective_tenant_configs, config_map, runtime_record_map, apply_runtime_record, the_match,
  is_named, with_profile, load_tenant_config,
}
use validador_final.Tenants.Unique.{IsUnique}
use native.Mathlib.Omega.{arith}
use validador_final.Prelude.Text.{strip, strip_start, strip_end, sorted_set, distinct}
use validador_final.Prelude.Sorting.{sort_by}
use validador_final.Prelude.Dict.{get, put}
use validador_final.Prelude.Exec.{◌>>=◌}
use validador_final.Profiles.Checks.{
  validate_profile_against_base_config, note, unknown_keys, collect_duplicates, duplicates_after,
  all_category_issues, prompt_issues,
}
use validador_final.Profiles.{
  ProfileService, ProfileStore, ProfileWorld, ProfileError, profile_error,
  ValidationProfileDraftRecord, ValidationProfileVersionRecord, TenantValidationProfileState,
  publish, base_config, of_load, get_draft, publish_draft, rollback_to_version, version_with,
  loaded_store, ensure_storage_configured, is_configured,
}
use validador_final.Profiles.Published.{
  IsReleased, publish_draft-IsReleased, rollback_to_version-IsReleased, publish_draft-raises,
  rollback_to_version-raises,
}
use validador_final.Profiles.Numbers.{
  HasSoundStore, ProfileRequest, publish_as, roll_back_as, perform_requests,
  perform_requests-HasSoundStore,
}

abbrev strict : ValidationProfileData
strict = record {
  columns = ("item", "Item") ∷ [];
  enabled_rules = "zero" ∷ [];
  disabled_rules = [];
  thresholds = [];
  categories = [];
  normalization = null;
  suspicious_patterns = null;
  llm = record { prompt_file = ""; rest = null };
}

abbrev acme : TenantConfig
acme = record {
  tenant_id = "acme";
  display_name = "Acme";
  aliases = [];
  disabled = false;
  profile = record strict { enabled_rules = [] };
  csv = null;
  auth = null;
  api_keys = [];
  operators = [];
}

abbrev offices : ProfileWorld
offices = record {
  files = record {
    configs = acme ∷ [];
    directory_names = "acme" ∷ [];
    default_config = none;
    blank = acme;
  };
  runtime_records = [];
  facts = record { model_validate = λ c p. true; is_absolute = λ t. false; parts = λ t. [] };
}

abbrev draft : ValidationProfileDraftRecord
draft = record { tenant_id = "acme"; profile = strict; updated_at = 3; updated_by = none }

abbrev first_version : ValidationProfileVersionRecord
first_version = record {
  tenant_id = "acme";
  version_id = "v1";
  version_number = 1;
  profile = strict;
  published_at = 1;
  published_by = none;
  source = publish;
  rollback_source_version_id = none;
}

abbrev store : ProfileStore
store = record { drafts = draft ∷ []; versions = first_version ∷ [] }

offices-IsUnique : IsUnique (iter_effective_tenant_configs offices.files offices.runtime_records)
unfolding iter_effective_tenant_configs config_map runtime_record_map apply_runtime_record get put
    strip strip_start strip_end
offices-IsUnique = record { at_most_one = λ text. ground arith; trimmed = (refl, tt) }

publish_draft-IsReleased_example :
    (shown : TenantValidationProfileState) × ((publish_draft offices 9 none none "v2" "acme"
        (record { storage = some store; audit = some [] })).0
      ≡ ok shown)
    × IsReleased "acme" strict store shown (
        loaded_store
          (publish_draft offices 9 none none "v2" "acme"
            (record { storage = some store; audit = some [] })).1)
unfolding base_config of_load load_tenant_config iter_effective_tenant_configs config_map
    runtime_record_map apply_runtime_record the_match is_named with_profile strip strip_start
    strip_end get put get_draft validate_profile_against_base_config note unknown_keys
    collect_duplicates duplicates_after all_category_issues prompt_issues sorted_set distinct
    sort_by
publish_draft-IsReleased_example =
    publish_draft-IsReleased offices 9 none none "v2" "acme" store (some []) acme draft
      offices-IsUnique refl refl refl

rollback_to_version-IsReleased_example :
    (shown : TenantValidationProfileState) × ((rollback_to_version offices 9 none none "v2" "acme"
        "v1"
        (record { storage = some store; audit = some [] })).0
      ≡ ok shown)
    × IsReleased "acme" strict store shown (
        loaded_store
          (rollback_to_version offices 9 none none "v2" "acme" "v1"
            (record { storage = some store; audit = some [] })).1)
unfolding base_config of_load load_tenant_config iter_effective_tenant_configs config_map
    runtime_record_map apply_runtime_record the_match is_named with_profile strip strip_start
    strip_end get put version_with validate_profile_against_base_config note unknown_keys
    collect_duplicates duplicates_after all_category_issues prompt_issues sorted_set distinct
    sort_by
rollback_to_version-IsReleased_example =
    rollback_to_version-IsReleased offices 9 none none "v2" "acme" store (some []) acme "v1"
      first_version offices-IsUnique refl refl refl

abbrev unconfigured : ProfileService
unconfigured = record { storage = none; audit = none }

abbrev refusal : ProfileError
refusal =
    profile_error 503 "Validation profile administration requires persistent operational storage"

publish_draft-raises_example :
    (publish_draft offices 9 none none "v2" "acme" unconfigured).1 ≡ unconfigured
unfolding publish_draft ensure_storage_configured is_configured ◌>>=◌
publish_draft-raises_example =
    publish_draft-raises offices 9 none none "v2" "acme" unconfigured refusal refl

rollback_to_version-raises_example :
    (rollback_to_version offices 9 none none "v2" "acme" "v1" unconfigured).1 ≡ unconfigured
unfolding rollback_to_version ensure_storage_configured is_configured ◌>>=◌
rollback_to_version-raises_example =
    rollback_to_version-raises offices 9 none none "v2" "acme" unconfigured refusal "v1" refl

abbrev requests : List ProfileRequest
requests =
    (record { now = 4; actor = none; api_key_id = none; asked = publish_as "v2" "acme" })
    ∷ (record { now = 5; actor = none; api_key_id = none; asked = roll_back_as "v3" "acme" "v2" })
    ∷ []

abbrev fresh : ProfileService
fresh = record { storage = some (record { drafts = draft ∷ []; versions = [] }); audit = none }

perform_requests-HasSoundStore_example :
    HasSoundStore offices (perform_requests offices requests fresh)
unfolding loaded_store
perform_requests-HasSoundStore_example =
    perform_requests-HasSoundStore offices requests fresh (record { numbered = tt; approved = tt })
