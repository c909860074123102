-- ===== src/Profiles/Checks.antt =====
-- `validate_profile_against_base_config` of app/core/tenant_profile.py. A problem is the message
-- without its wording: which check failed, and on what.
use validador_final.Prelude.{
  String, Bool, not, ◌&&◌, ◌||◌, List, [], ◌∷◌, ◌++◌, map, if◌then◌else◌, filter,
}
use validador_final.Prelude.Text.{strip, truthy, is_member, sorted_set}
use validador_final.Tenants.Config.{TenantConfig, ValidationProfileData, CategoryConfig}

pub data ProfileIssue : Type 0 where
  schema_mismatch : ProfileIssue
  unknown_columns : List String → ProfileIssue
  duplicate_enabled_rules : List String → ProfileIssue
  duplicate_disabled_rules : List String → ProfileIssue
  overlapping_rules : List String → ProfileIssue
  duplicate_categories : List String → ProfileIssue
  unknown_required_fields : String → List String → ProfileIssue
  unknown_check_fields : String → String → List String → ProfileIssue
  prompt_not_relative : ProfileIssue

-- What pydantic says of the configuration with the profile's fields, and what pathlib says of a text.
pub record ProfileFacts : Type 0 where
  pub model_validate : TenantConfig → ValidationProfileData → Bool
  pub is_absolute : String → Bool
  pub parts : String → List String

-- The keys of `DEFAULT_TENANT_COLUMNS`.
abbrev pub canonical_keys : List String
canonical_keys =
    "item" ∷ "placa_anterior" ∷ "descricao" ∷ "marca" ∷ "modelo" ∷ "ns" ∷ "local" ∷ "cc"
    ∷ "complemento" ∷ "observacao" ∷ []

-- `_collect_duplicates`, with the values that were seen.
unfoldable pub duplicates_after : List String → List String → List String
duplicates_after seen [] = []
duplicates_after seen (v ∷ values) =
    let rest = duplicates_after (v ∷ seen) values in if is_member v seen then v ∷ rest else rest

unfoldable pub collect_duplicates : List String → List String
unfolding duplicates_after sorted_set
collect_duplicates values = sorted_set (duplicates_after [] values)

-- A problem is noted where some texts show it.
unfoldable pub note : (List String → ProfileIssue) → List String → List ProfileIssue
note issue [] = []
note issue (t ∷ texts) = issue (t ∷ texts) ∷ []

-- `sorted(set(keys) - CANONICAL_PROFILE_FIELD_KEYS)`
unfoldable pub unknown_keys : List String → List String
unfolding sorted_set
unknown_keys keys = sorted_set (filter (λ k. not (is_member k canonical_keys)) keys)

unfoldable pub check_issues : String → List (String × List String) → List ProfileIssue
unfolding note unknown_keys
check_issues name [] = []
check_issues name ((check_name, fields) ∷ checks) =
    note (unknown_check_fields name check_name) (unknown_keys fields) ++ check_issues name checks

-- `_validate_category_fields`
unfoldable pub category_issues : CategoryConfig → List ProfileIssue
unfolding note unknown_keys check_issues
category_issues category =
    note (unknown_required_fields category.name) (unknown_keys category.required_fields)
    ++ check_issues category.name category.critical_check_fields

unfoldable pub all_category_issues : List CategoryConfig → List ProfileIssue
unfolding category_issues
all_category_issues [] = []
all_category_issues (category ∷ categories) =
    category_issues category ++ all_category_issues categories

unfoldable pub prompt_issues : ProfileFacts → String → List ProfileIssue
prompt_issues facts prompt_file =
    if truthy prompt_file
      && (facts.is_absolute prompt_file || is_member ".." (facts.parts prompt_file))
    then prompt_not_relative ∷ []
    else []

-- The problems found; the first check raises by itself.
unfoldable pub validate_profile_against_base_config :
    ProfileFacts → TenantConfig → ValidationProfileData → List ProfileIssue
unfolding note unknown_keys collect_duplicates all_category_issues prompt_issues sorted_set strip
validate_profile_against_base_config facts config profile =
    if not (facts.model_validate config profile)
    then schema_mismatch ∷ []
    else note unknown_columns (unknown_keys (map (λ c. c.0) profile.columns))
      ++ note duplicate_enabled_rules (collect_duplicates profile.enabled_rules)
      ++ note duplicate_disabled_rules (collect_duplicates profile.disabled_rules)
      ++ note overlapping_rules
          (sorted_set (filter (λ r. is_member r profile.disabled_rules) profile.enabled_rules))
      ++ note duplicate_categories (collect_duplicates (map (λ c. c.name) profile.categories))
      ++ all_category_issues profile.categories
      ++ prompt_issues facts (strip profile.llm.prompt_file)
