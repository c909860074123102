-- ===== src/Engine.antt =====
-- app/core/engine.py: which rules of a tenant run, which of them in parallel, and which rows they
pub mod Plan
pub mod Rows
use validador_final.Prelude.{
  ℕ, suc, ◌<◌, min, String, Bool, true, false, not, ◌&&◌, List, [], ◌∷◌, ◌++◌, Option, none, some,
  if◌then◌else◌, ltb, ◌==◌, ◌%◌, length, str_eq, filter, any, map,
}
use validador_final.Prelude.Dict.{get, put}
use validador_final.Prelude.Exec.{Exec}

-- The fields of `TenantConfig` that the engine reads.
pub record TenantConfig : Type 0 where
  pub enabled_rules : List String
  pub disabled_rules : List String
  pub llm_enabled : Bool
  pub llm_parallel_requests : ℕ

pub record ValidationExecutionPlan : Type 0 where
  pub serial_rule_names : List String
  pub parallel_rule_names : List String
  pub parallel_workers : ℕ

-- `name in names`
abbrev pub contains : String → List String → Bool
contains name = any (str_eq name)

abbrev pub parallel_safe_rule_names : List String
parallel_safe_rule_names = "llm_audit" ∷ []

pub record ValidationContext (Row Raw : Type 0) : Type 0 where
  pub row_index : ℕ
  pub raw_row : Option Raw
  pub normalized_row : Row
  pub all_rows : List Row

-- A rule reaches the world `W`, raises `E`, and answers its issues and the shared context it leaves.
pub record Rule (W E Issue Row Raw Shared : Type 0) : Type 0 where
  pub name : String
  pub applies : ValidationContext Row Raw → Shared → Bool
  pub validate : ValidationContext Row Raw → Shared → Exec W E (List Issue × Shared)

module _ {W E Issue Row Raw Shared : Type 0} where
  -- `register_rule` of app/core/registry.py
  unfoldable pub register_rule :
      Rule W E Issue Row Raw Shared
      → List (String × Rule W E Issue Row Raw Shared)
      → List (String × Rule W E Issue Row Raw Shared)
  register_rule rule registry = put rule.name rule registry

  -- The registry after the rules are registered, the last of the list first.
  unfoldable pub register_all :
      List (Rule W E Issue Row Raw Shared) → List (String × Rule W E Issue Row Raw Shared)
  unfolding register_rule
  register_all [] = []
  register_all (rule ∷ rules) = register_rule rule (register_all rules)

  module _ (registry : List (String × Rule W E Issue Row Raw Shared)) where
    unfoldable pub selected : TenantConfig → List String → List (Rule W E Issue Row Raw Shared)
    selected tenant [] = []
    selected tenant (rule_name ∷ names) =
        let rest = selected tenant names in
        if contains rule_name tenant.disabled_rules
        then rest
        else elim (get rule_name registry) [ none ↦ rest | some rule ↦ rule ∷ rest ]

    unfoldable pub get_enabled_rules :
        TenantConfig → Option (List String) → List (Rule W E Issue Row Raw Shared)
    get_enabled_rules tenant none = selected tenant tenant.enabled_rules
    get_enabled_rules tenant (some rule_names) = selected tenant rule_names

    -- The parallel rules: those that may, when the tenant asks for more than one request.
    unfoldable pub parallel_names : TenantConfig → ℕ → List String → List String
    parallel_names tenant scoped_row_count enabled_rule_names =
        if ltb 1 scoped_row_count && tenant.llm_enabled && ltb 1 tenant.llm_parallel_requests
        then filter (λ n. contains n parallel_safe_rule_names) enabled_rule_names
        else []

    unfoldable pub build_execution_plan : TenantConfig → ℕ → ValidationExecutionPlan
    build_execution_plan tenant scoped_row_count =
        let enabled_rule_names = map (λ r. r.name) (get_enabled_rules tenant none) in
        let parallel = parallel_names tenant scoped_row_count enabled_rule_names in
        record {
          serial_rule_names = filter (λ n. not (contains n parallel)) enabled_rule_names;
          parallel_rule_names = parallel;
          parallel_workers = elim parallel [
            | [] ↦ 1
            | n ∷ ns ↦ min scoped_row_count tenant.llm_parallel_requests
          ];
        }
