-- ===== src/Examples/Permissions.antt =====
-- What the operators of a small directory may do.
use validador_final.Prelude.{
  ◌≡◌, refl, true, false, ◌&&◌, ◌||◌, [], ◌∷◌, none, some, String, ok, not,
}
use validador_final.Prelude.Exec.{◌>>=◌}
use validador_final.Auth.Operators.{
  platform_admin, tenant_admin, role_eq, OperatorConfig, EffectiveOperator, Directory,
  find_operator_by_id, list_effective_operators, load_tenant_for_login, seed_operators,
  operator_from_config, of_tenant, first_with_id, stored_by_id,
}
use validador_final.Auth.Access.{
  Caller, AuditReadAuthorization, is_enabled_with, tenant_ids_match, canonical, find_actor,
  authorize_operator_management, authorize_audit_read, authorize_operator_role_assignment,
}
use validador_final.Auth.Access.Decisions.{
  Decided, IsLogged, authorize_operator_management_lem, authorize_operator_role_assignment_lem,
  authorize_audit_read_isolated,
}

abbrev ana : OperatorConfig
ana = record {
  operator_id = "ana";
  username = "ana";
  password_hash = "hash";
  role = tenant_admin;
  disabled = false;
  must_change_password = false;
}

abbrev directory : Directory
directory = record {
  canonicalize_tenant_id = λ t. t;
  load_operators = λ t. ok (ana ∷ []);
  seed_operators_enabled = true;
  name_le = λ a b. true;
}

abbrev caller : Caller
caller = record {
  actor_tenant_id = "acme";
  actor_operator_id = some "ana";
  api_key_id = some "key-1";
}

abbrev actor : EffectiveOperator
unfolding operator_from_config
actor = operator_from_config "acme" ana true

caller_is_actor : find_actor directory [] caller ≡ ok (some actor)
unfolding find_actor find_operator_by_id list_effective_operators load_tenant_for_login
    seed_operators of_tenant first_with_id stored_by_id operator_from_config actor
caller_is_actor = refl

authorize_operator_management_lem_example :
    Decided
      (is_enabled_with platform_admin (some actor)
        || (is_enabled_with tenant_admin (some actor) && tenant_ids_match directory "acme" "other"))
      (λ t. t ≡ "other")
      (IsLogged "acme" caller "operators.list")
      (some [])
      (authorize_operator_management directory [] caller "other" "operators.list" (some []))
authorize_operator_management_lem_example =
    authorize_operator_management_lem directory [] caller "other" "operators.list" (some actor)
      (some []) caller_is_actor

authorize_operator_role_assignment_lem_example :
    Decided
      (not (role_eq platform_admin platform_admin) || is_enabled_with platform_admin (some actor))
      (λ u. Unit)
      (IsLogged "acme" caller "operators.create.platform_admin")
      (some [])
      (authorize_operator_role_assignment directory [] caller "acme" platform_admin
        "operators.create.platform_admin"
        (some []))
authorize_operator_role_assignment_lem_example =
    authorize_operator_role_assignment_lem directory [] caller "acme"
      "operators.create.platform_admin" platform_admin (some actor) (some []) caller_is_actor

abbrev own_log : AuditReadAuthorization
own_log = record { tenant_id = some "acme"; include_administrative = true }

authorize_audit_read_isolated_example :
    (t : String) × (own_log.tenant_id ≡ some t)
    × (tenant_ids_match directory t "acme" ≡ true)
    × (own_log.include_administrative ≡ is_enabled_with tenant_admin (some actor))
unfolding authorize_audit_read find_actor find_operator_by_id list_effective_operators actor
    load_tenant_for_login seed_operators of_tenant first_with_id operator_from_config
    is_enabled_with canonical tenant_ids_match ◌>>=◌ stored_by_id
authorize_audit_read_isolated_example =
    authorize_audit_read_isolated directory [] caller none (some actor) (some []) own_log
      caller_is_actor refl refl
