-- ===== src/Auth/Access.antt =====
-- app/services/auth_service.py: what an operator may do, by role and tenant, and the audit event of
-- each refusal.
pub mod Decisions
use validador_final.Prelude.{
  Bool, true, false, not, List, [], ◌∷◌, ◌++◌, Option, none, some, if◌then◌else◌, String, str_eq,
  Result, ok, err, ◌&&◌,
}
use validador_final.Prelude.Text.{truthy}
use Prim.Native.String.{◌++◌ as ◌++ₛ◌}
use validador_final.Prelude.Exec.{Exec, pure, raise, lift, modify, ◌>>=◌, ◌>>◌}
use validador_final.Auth.Operators.{
  OperatorRole, platform_admin, tenant_admin, operator, role_eq, AuthError, StoredOperatorRecord,
  EffectiveOperator, Directory, find_operator_by_id,
}

-- The `AUTHORIZATION_DENIED` event, with the details that `extra` carries.
pub record DeniedEvent : Type 0 where
  pub tenant_id : String
  pub api_key_id : Option String
  pub action : String
  pub target_tenant_id : String
  pub operator_id : Option String
  pub username : Option String
  pub role : Option OperatorRole

pub record AuditReadAuthorization : Type 0 where
  pub tenant_id : Option String
  pub include_administrative : Bool

-- The three arguments that say who calls.
pub record Caller : Type 0 where
  pub actor_tenant_id : String
  pub actor_operator_id : Option String
  pub api_key_id : Option String

-- The event log of the audit service, newest first; `none` where no service is configured.
abbrev pub Audit : Type 0
Audit = Option (List DeniedEvent)

abbrev mapped : {A B : Type 0} → (A → B) → Option A → Option B
mapped f none = none
mapped f (some a) = some (f a)

unfoldable pub record_authorization_denied_event :
    String → Option String → String → String → Option EffectiveOperator → Audit → Audit
record_authorization_denied_event tenant_id api_key_id action target actor none = none
record_authorization_denied_event tenant_id api_key_id action target actor (some log) = some (
    record {
      tenant_id = tenant_id;
      api_key_id = api_key_id;
      action = action;
      target_tenant_id = target;
      operator_id = mapped (λ o. o.operator_id) actor;
      username = mapped (λ o. o.username) actor;
      role = mapped (λ o. o.role) actor;
    }
    ∷ log)

-- `actor is not None and not actor.disabled and actor.role is role`
unfoldable pub is_enabled_with : OperatorRole → Option EffectiveOperator → Bool
is_enabled_with role none = false
is_enabled_with role (some actor) = not actor.disabled && role_eq actor.role role

-- `given if given is not None else other`
abbrev given_else : Option String → String → String
given_else none other = other
given_else (some given) other = given

-- `requested or given`
abbrev pub or_text : Option String → String → String
or_text none given = given
or_text (some requested) given = if truthy requested then requested else given

module _ (directory : Directory) where
  unfoldable pub tenant_ids_match : String → String → Bool
  tenant_ids_match left right =
      str_eq (directory.canonicalize_tenant_id left) (directory.canonicalize_tenant_id right)

  unfoldable pub canonical : Option String → Option String
  canonical none = none
  canonical (some t) = some (directory.canonicalize_tenant_id t)

  -- `requested is not None and not tenant_ids_match(requested, actor)`
  unfoldable pub is_foreign : Option String → String → Bool
  unfolding tenant_ids_match
  is_foreign none actor = false
  is_foreign (some requested) actor = not (tenant_ids_match requested actor)

module _ (directory : Directory) (records : List StoredOperatorRecord) where
  unfoldable pub find_actor : Caller → Result AuthError (Option EffectiveOperator)
  find_actor caller = elim caller.actor_operator_id [
    | none ↦ ok none
    | some id ↦
        find_operator_by_id directory records
          (directory.canonicalize_tenant_id caller.actor_tenant_id) id
  ]

  unfoldable pub get_operator_role : String → Option String → Result AuthError OperatorRole
  get_operator_role tenant_id none = ok operator
  get_operator_role tenant_id (some id) =
      elim (find_operator_by_id directory records (directory.canonicalize_tenant_id tenant_id) id) [
        | err e ↦ err e
        | ok none ↦ ok operator
        | ok (some o) ↦ if o.disabled then ok operator else ok o.role
      ]

  -- The refusal: the event, then the error 403.
  unfoldable pub deny :
      {A : Type 0}
      → Caller
      → String
      → String
      → Option EffectiveOperator
      → String
      → Exec Audit AuthError A
  deny caller action target actor detail = do
    modify (
        record_authorization_denied_event (directory.canonicalize_tenant_id caller.actor_tenant_id)
          caller.api_key_id action target actor)
    raise (record { status_code = 403; detail = detail })

  unfoldable pub authorize_operator_management :
      Caller → String → String → Exec Audit AuthError String
  authorize_operator_management caller target_tenant_id action =
      let actor_tenant = directory.canonicalize_tenant_id caller.actor_tenant_id in
      let target = directory.canonicalize_tenant_id target_tenant_id in
      do
        actor ← lift (find_actor caller)
        if is_enabled_with platform_admin actor
            then pure target
            else if is_enabled_with tenant_admin actor
                && tenant_ids_match directory actor_tenant target
            then pure target
            else deny caller action target actor "Operator is not allowed to manage this tenant"

  unfoldable pub authorize_tenant_administration :
      Caller → String → Option String → Exec Audit AuthError (Unit {0})
  authorize_tenant_administration caller action target_tenant_id = do
    actor ← lift (find_actor caller)
    if is_enabled_with platform_admin actor
        then pure tt
        else deny caller action
            (given_else (canonical directory target_tenant_id)
              (directory.canonicalize_tenant_id caller.actor_tenant_id))
            actor "Only platform_admin can manage tenants"

  unfoldable pub no_access : Option String → String
  no_access requested = "API key does not grant access to tenant '" ++ₛ or_text requested "" ++ₛ "'"

  unfoldable pub authorize_audit_read :
      Caller → Option String → Exec Audit AuthError AuditReadAuthorization
  authorize_audit_read caller requested_tenant_id =
      let actor_tenant = directory.canonicalize_tenant_id caller.actor_tenant_id in
      let requested = canonical directory requested_tenant_id in
      let target = or_text requested actor_tenant in
      do
        actor ← lift (find_actor caller)
        if is_enabled_with platform_admin actor
            then pure (record { tenant_id = requested; include_administrative = true })
            else if is_enabled_with tenant_admin actor
                && tenant_ids_match directory target actor_tenant
            then pure (record { tenant_id = some target; include_administrative = true })
            else if is_foreign directory requested actor_tenant
            then deny caller "audit.read" (or_text requested "") actor (no_access requested)
            else pure (record { tenant_id = some actor_tenant; include_administrative = false })

  unfoldable pub authorize_operational_kpi_read :
      Caller → Option String → Exec Audit AuthError (Option String)
  authorize_operational_kpi_read caller requested_tenant_id =
      let actor_tenant = directory.canonicalize_tenant_id caller.actor_tenant_id in
      let requested = canonical directory requested_tenant_id in
      let target = or_text requested actor_tenant in
      do
        actor ← lift (find_actor caller)
        if is_enabled_with platform_admin actor
            then pure requested
            else if is_enabled_with tenant_admin actor
                && tenant_ids_match directory target actor_tenant
            then pure (some actor_tenant)
            else if is_foreign directory requested actor_tenant
            then deny caller "kpis.read" (or_text requested "") actor (no_access requested)
            else deny caller "kpis.read" target actor
                "Only tenant_admin or platform_admin can read operational KPIs"

  unfoldable pub authorize_operator_role_assignment :
      Caller → String → OperatorRole → String → Exec Audit AuthError (Unit {0})
  authorize_operator_role_assignment caller target_tenant_id requested_role action =
      if not (role_eq requested_role platform_admin) then pure tt else do
        actor ← lift (find_actor caller)
        if is_enabled_with platform_admin actor
            then pure tt
            else deny caller action (directory.canonicalize_tenant_id target_tenant_id) actor
                "Only platform_admin can create platform administrators"
