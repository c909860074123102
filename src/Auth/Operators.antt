-- ===== src/Auth/Operators.antt =====
-- The operators of a tenant: those of its configuration, overridden by stored records, and those
-- that are only stored. The tenant files are read by app/core/tenant_loader.py, a parameter here.
use validador_final.Prelude.{
  ℕ, Bool, true, false, not, List, [], ◌∷◌, ◌++◌, Option, none, some, if◌then◌else◌, String, str_eq,
  filter, any, Result, ok, err, ◌>>=◌,
}
use validador_final.Prelude.Sorting.{sort_by}

pub data OperatorRole : Type 0 where
  platform_admin tenant_admin operator : OperatorRole

abbrev pub role_eq : OperatorRole → OperatorRole → Bool
role_eq platform_admin platform_admin = true
role_eq tenant_admin tenant_admin = true
role_eq operator operator = true
role_eq _ _ = false

-- `AuthServiceError` with its status code and detail
pub record AuthError : Type 0 where
  pub status_code : ℕ
  pub detail : String

-- `OperatorConfig` of the tenant's file
pub record OperatorConfig : Type 0 where
  pub operator_id : String
  pub username : String
  pub password_hash : String
  pub role : OperatorRole
  pub disabled : Bool
  pub must_change_password : Bool

pub record StoredOperatorRecord : Type 0 where
  pub tenant_id : String
  pub operator_id : String
  pub username : String
  pub password_hash : String
  pub role : OperatorRole
  pub disabled : Bool
  pub must_change_password : Bool

pub record EffectiveOperator : Type 0 where
  pub tenant_id : String
  pub operator_id : String
  pub username : String
  pub password_hash : String
  pub role : OperatorRole
  pub disabled : Bool
  pub must_change_password : Bool
  pub is_seed : Bool

-- What `load_tenant_config` raises.
pub data LoadError : Type 0 where
  file_not_found tenant_disabled : LoadError

-- The tenant files, the policy on seed operators, and the order of `(username.casefold(), id)`.
pub record Directory : Type 0 where
  pub canonicalize_tenant_id : String → String
  pub load_operators : String → Result LoadError (List OperatorConfig)
  pub seed_operators_enabled : Bool
  pub name_le : StoredOperatorRecord → StoredOperatorRecord → Bool

unfoldable pub operator_from_config : String → OperatorConfig → Bool → EffectiveOperator
operator_from_config tenant_id o is_seed = record {
  tenant_id = tenant_id;
  operator_id = o.operator_id;
  username = o.username;
  password_hash = o.password_hash;
  role = o.role;
  disabled = o.disabled;
  must_change_password = o.must_change_password;
  is_seed = is_seed;
}

unfoldable pub operator_from_record : StoredOperatorRecord → Bool → EffectiveOperator
operator_from_record r is_seed = record {
  tenant_id = r.tenant_id;
  operator_id = r.operator_id;
  username = r.username;
  password_hash = r.password_hash;
  role = r.role;
  disabled = r.disabled;
  must_change_password = r.must_change_password;
  is_seed = is_seed;
}

-- The record of the tenant with the identifier.
unfoldable pub stored_by_id : String → List StoredOperatorRecord → Option StoredOperatorRecord
stored_by_id operator_id [] = none
stored_by_id operator_id (r ∷ rs) =
    if str_eq r.operator_id operator_id then some r else stored_by_id operator_id rs

unfoldable pub of_tenant : String → List StoredOperatorRecord → List StoredOperatorRecord
of_tenant tenant_id = filter (λ r. str_eq r.tenant_id tenant_id)

module _ (directory : Directory) where
  unfoldable pub load_tenant_for_login : String → Result AuthError (List OperatorConfig)
  load_tenant_for_login tenant_id = elim (directory.load_operators tenant_id) [
    | ok operators ↦ ok operators
    | err e ↦ elim e [
      | file_not_found ↦ err (record { status_code = 404; detail = "Tenant not found" })
      | tenant_disabled ↦ err (record { status_code = 403; detail = "Tenant is disabled" })
    ]
  ]

  -- The seed operators: as stored, or as configured if the policy allows them.
  unfoldable pub seed_operators :
      String → List StoredOperatorRecord → List OperatorConfig → List EffectiveOperator
  seed_operators tenant_id stored [] = []
  seed_operators tenant_id stored (o ∷ os) =
      let rest = seed_operators tenant_id stored os in
      elim (stored_by_id o.operator_id stored) [
        | some r ↦ operator_from_record r true ∷ rest
        | none ↦
            if directory.seed_operators_enabled
            then operator_from_config tenant_id o true ∷ rest
            else rest
      ]

  -- `operator_id not in seen_operator_ids`; a seed that the policy hides has no stored record.
  unfoldable pub is_managed : List OperatorConfig → StoredOperatorRecord → Bool
  is_managed os r = not (any (λ o. str_eq o.operator_id r.operator_id) os)

  managed_operators : List StoredOperatorRecord → List EffectiveOperator
  managed_operators [] = []
  managed_operators (r ∷ rs) = operator_from_record r false ∷ managed_operators rs

  unfoldable pub list_effective_operators :
      List StoredOperatorRecord → String → Result AuthError (List EffectiveOperator)
  unfolding load_tenant_for_login managed_operators
  list_effective_operators records tenant_id = do
    configured ← load_tenant_for_login tenant_id
    let stored = of_tenant tenant_id records
    ok (
        seed_operators tenant_id stored configured
        ++ managed_operators (sort_by directory.name_le (filter (is_managed configured) stored)))

  unfoldable pub first_with_id : String → List EffectiveOperator → Option EffectiveOperator
  first_with_id operator_id [] = none
  first_with_id operator_id (o ∷ os) =
      if str_eq o.operator_id operator_id then some o else first_with_id operator_id os

  unfoldable pub find_operator_by_id :
      List StoredOperatorRecord → String → String → Result AuthError (Option EffectiveOperator)
  find_operator_by_id records tenant_id operator_id = do
    operators ← list_effective_operators records tenant_id
    ok (first_with_id operator_id operators)
