-- ===== src/Examples/Rules.antt =====
-- The plan of a run and the rows in scope, at concrete inputs.
use validador_final.Prelude.{
  ℕ, ◌≡◌, ◌≤◌, max, Bool, true, false, not, ◌&&◌, ◌||◌, List, [], ◌∷◌, Option, none, some, Result,
  ok, String, arith, map, str_eq,
}
use validador_final.Prelude.Exec.{pure}
use validador_final.Prelude.{indices_from, ap, elem, leb, str_eq_refl, str_eq_iff}
use validador_final.Prelude.Sorting.{IsSorted}
use validador_final.Duplicates.{get_duplicate_item_row_indices}
use validador_final.Duplicates.Groups.{IsEquality}
use validador_final.Duplicates.Indices.{is_shared, get_duplicate_item_row_indices-shared}
use validador_final.Engine.{
  TenantConfig, Rule, contains, parallel_safe_rule_names, get_enabled_rules, register_all,
  build_execution_plan,
}
use validador_final.Engine.Plan.{build_execution_plan-split, build_execution_plan-workers}
use validador_final.Engine.Rows.{
  zero_items, get_scoped_row_indices, is_row_in_scope, get_scoped_row_indices-filters,
}

abbrev SomeRule : Type 0
SomeRule = Rule Bool Bool String Bool Bool Bool

abbrev quiet : String → SomeRule
quiet name = record { name = name; applies = λ c s. true; validate = λ c s. pure ([], s) }

abbrev acme : TenantConfig
acme = record {
  enabled_rules = "llm_audit" ∷ "duplicate_item" ∷ [];
  disabled_rules = "zero_item_quality" ∷ [];
  llm_enabled = true;
  llm_parallel_requests = 4;
}

abbrev rules : List SomeRule
rules = quiet "llm_audit" ∷ quiet "duplicate_item" ∷ []

build_execution_plan-split_example :
    let plan = build_execution_plan (register_all rules) acme 10 in
    (contains "llm_audit" (map (λ r. r.name) (get_enabled_rules (register_all rules) acme none)) ≡ (
      contains "llm_audit" plan.serial_rule_names || contains "llm_audit" plan.parallel_rule_names))
    × ((contains "llm_audit" plan.serial_rule_names
          && contains "llm_audit" plan.parallel_rule_names)
        ≡ false)
    × ((contains "llm_audit" plan.parallel_rule_names
          && not (contains "llm_audit" parallel_safe_rule_names))
        ≡ false)
build_execution_plan-split_example =
    build_execution_plan-split (register_all rules) acme 10 "llm_audit"

build_execution_plan-workers_example :
    let workers = (build_execution_plan (register_all rules) acme 10).parallel_workers in
    (1 ≤ workers) × (workers ≤ 4) × (workers ≤ max 1 10)
build_execution_plan-workers_example =
    build_execution_plan-workers (register_all rules) acme 10 (omega arith)

abbrev lot : List (List (String × Option String))
lot =
    (("flag_item_cadastrado_do_zero", some "1") ∷ [])
    ∷ (("flag_item_cadastrado_do_zero", none) ∷ [])
    ∷ []

get_scoped_row_indices-filters_example :
    ◌≡◌ {A = Result Bool (List ℕ) × Bool}
      (get_scoped_row_indices str_eq "1" none lot zero_items true)
      (ok (indices_from (λ row. is_row_in_scope str_eq "1" row zero_items) 0 lot), true)
get_scoped_row_indices-filters_example =
    get_scoped_row_indices-filters str_eq "1" lot zero_items true (λ e. cc)

str_eq-IsEquality : IsEquality str_eq
str_eq-IsEquality = record {
  reflexive = str_eq_refl;
  congruent = λ c d x h. ap (λ y. str_eq y x) ((str_eq_iff c d).0 h);
}

abbrev items : List (List (String × Option String))
items = (("item", some "17") ∷ []) ∷ (("item", some "18") ∷ []) ∷ (("item", some "17") ∷ []) ∷ []

get_duplicate_item_row_indices-shared_example :
    (is : List ℕ) × (◌≡◌ {A = Result Bool (List ℕ) × Bool}
      (get_duplicate_item_row_indices str_eq none items true)
      (ok is, true))
    × IsSorted leb is
    × ((i : ℕ) → elem i is ≡ is_shared str_eq items i)
get_duplicate_item_row_indices-shared_example =
    get_duplicate_item_row_indices-shared str_eq str_eq-IsEquality items true
