-- ===== src/Auth/Access/Decisions.antt =====
-- Who is admitted by the `authorize_*` methods of app/services/auth_service.py, and what a refusal
-- leaves in the audit log.
use validador_final.Prelude.{
  Bool, true, false, not, List, ◌∷◌, Option, none, some, if◌then◌else◌, String, ◌≡◌, Bool-cases,
  ◌∙◌, sym, ap, ok_injective, str_eq_refl, refl, inl, inr, Result, ok, err, ◌&&◌, ◌||◌,
}
use validador_final.Prelude.Text.{truthy}
use validador_final.Prelude.Exec.{pure, raise, lift, modify, ◌>>=◌}
use validador_final.Auth.Operators.{
  OperatorRole, platform_admin, tenant_admin, role_eq, AuthError, StoredOperatorRecord,
  EffectiveOperator, Directory,
}
use validador_final.Auth.Access.{
  DeniedEvent, AuditReadAuthorization, Caller, Audit, record_authorization_denied_event,
  is_enabled_with, or_text, tenant_ids_match, canonical, is_foreign, find_actor, deny,
  authorize_operator_management, authorize_tenant_administration, authorize_audit_read,
  authorize_operational_kpi_read, authorize_operator_role_assignment,
}

-- The log of `after` holds one more event than that of `before`: a refusal of the caller's, about
-- the action, naming the caller's tenant and API key.
pub data IsLogged (tenant : String) (caller : Caller) (action : String)
    : Audit → Audit → Type 0 where
  no_service : IsLogged tenant caller action none none
  one_event :
      {log : List DeniedEvent} (e : DeniedEvent)
      → e.tenant_id ≡ tenant
      → e.api_key_id ≡ caller.api_key_id
      → e.action ≡ action
      → IsLogged tenant caller action (some log) (some (e ∷ log))

-- A decision: admitted, with nothing logged, or refused with 403 and one event.
pub data Decided {ℓ} {A : Type ℓ} (admits : Bool) (Q : A → Type ℓ) (L : Audit → Audit → Type 0)
    : Audit → Result AuthError A × Audit → Type ℓ where
  admitted : {s : Audit} (a : A) → admits ≡ true → Q a → Decided admits Q L s (ok a, s)
  refused :
      {s s' : Audit} (e : AuthError)
      → admits ≡ false
      → e.status_code ≡ 403
      → L s s'
      → Decided admits Q L s (err e, s')

module _ (directory : Directory) (records : List StoredOperatorRecord) (caller : Caller) where
  -- The canonical identifier of the caller's tenant.
  abbrev pub home : String
  home = directory.canonicalize_tenant_id caller.actor_tenant_id

  deny-Decided :
      {A : Type 0} {Q : A → Type 0} {admits : Bool} (action target : String)
      (actor : Option EffectiveOperator) (detail : String) (s : Audit)
      → admits ≡ false
      → Decided admits Q
          (IsLogged home caller action)
          s
          (deny directory records caller action target actor detail s)
  unfolding deny ◌>>=◌ modify raise record_authorization_denied_event
  deny-Decided action target actor detail none h = Decided.refused _ h refl IsLogged.no_service
  deny-Decided action target actor detail (some log) h =
      Decided.refused _ h refl (IsLogged.one_event _ refl refl refl)

  -- Given the caller's operator, management is granted to an enabled platform administrator and to
  -- an enabled tenant administrator of the target, with the target's canonical identifier and no
  -- event; any other caller is refused with 403 and one event.
  pub authorize_operator_management_lem :
      (target action : String) (actor : Option EffectiveOperator) (s : Audit)
      → find_actor directory records caller ≡ ok actor
      → Decided
          (is_enabled_with platform_admin actor
            || (is_enabled_with tenant_admin actor
                && tenant_ids_match directory home (directory.canonicalize_tenant_id target)))
          (λ t. t ≡ directory.canonicalize_tenant_id target)
          (IsLogged home caller action)
          s
          (authorize_operator_management directory records caller target action s)
  unfolding authorize_operator_management ◌>>=◌ lift pure
  authorize_operator_management_lem target action actor s h =
      let at_target = tenant_ids_match directory home (directory.canonicalize_tenant_id target) in
      elim (Bool-cases (is_enabled_with platform_admin actor)) [
        | inl p ↦ rw (h, p) (Decided.admitted _ refl refl)
        | inr p ↦ elim (Bool-cases (is_enabled_with tenant_admin actor && at_target)) [
          | inl t ↦ rw (h, p, t) (Decided.admitted _ refl refl)
          | inr t ↦ rw (h, p, t) (deny-Decided _ _ actor _ s refl)
        ]
      ]

  -- Given the caller's operator, the administration of tenants is open to an enabled platform
  -- administrator alone; any other caller is refused with 403 and one event.
  pub authorize_tenant_administration_lem :
      (target : Option String) (action : String) (actor : Option EffectiveOperator) (s : Audit)
      → find_actor directory records caller ≡ ok actor
      → Decided
          (is_enabled_with platform_admin actor)
          (λ u. Unit)
          (IsLogged home caller action)
          s
          (authorize_tenant_administration directory records caller action target s)
  unfolding authorize_tenant_administration ◌>>=◌ lift pure canonical
  authorize_tenant_administration_lem target action actor s h =
      elim (Bool-cases (is_enabled_with platform_admin actor)) [
        | inl p ↦ rw (h, p) (Decided.admitted _ refl tt)
        | inr p ↦ rw (h, p) (deny-Decided _ _ actor _ s refl)
      ]

  -- Given the caller's operator, the KPIs are open to an enabled platform administrator, for the
  -- tenant asked for, and to an enabled tenant administrator of that tenant, for its own; any other
  -- caller is refused with 403 and one event.
  pub authorize_operational_kpi_read_lem :
      (requested : Option String) (actor : Option EffectiveOperator) (s : Audit)
      → find_actor directory records caller ≡ ok actor
      → Decided
          (is_enabled_with platform_admin actor
            || (is_enabled_with tenant_admin actor
                && tenant_ids_match directory (or_text (canonical directory requested) home) home))
          (λ t. t ≡ (
            if is_enabled_with platform_admin actor
            then canonical directory requested
            else some home))
          (IsLogged home caller "kpis.read")
          s
          (authorize_operational_kpi_read directory records caller requested s)
  unfolding authorize_operational_kpi_read ◌>>=◌ lift pure
  authorize_operational_kpi_read_lem requested actor s h =
      let at_home =
        tenant_ids_match directory (or_text (canonical directory requested) home) home in
      elim (Bool-cases (is_enabled_with platform_admin actor)) [
        | inl p ↦ rw (h, p) (Decided.admitted _ refl refl)
        | inr p ↦ elim (Bool-cases (is_enabled_with tenant_admin actor && at_home)) [
          | inl t ↦ rw (h, p, t) (Decided.admitted _ refl refl)
          | inr t ↦ elim (Bool-cases (is_foreign directory (canonical directory requested) home)) [
            | inl f ↦ rw (h, p, t, f) (deny-Decided _ _ actor _ s refl)
            | inr f ↦ rw (h, p, t, f) (deny-Decided _ _ actor _ s refl)
          ]
        ]
      ]

  -- Given the caller's operator, the role platform_admin is given by an enabled platform
  -- administrator alone, other roles are not restricted here, and a refused call gives 403 and one
  -- event.
  pub authorize_operator_role_assignment_lem :
      (target action : String) (role : OperatorRole) (actor : Option EffectiveOperator) (s : Audit)
      → find_actor directory records caller ≡ ok actor
      → Decided
          (not (role_eq role platform_admin) || is_enabled_with platform_admin actor)
          (λ u. Unit)
          (IsLogged home caller action)
          s
          (authorize_operator_role_assignment directory records caller target role action s)
  unfolding authorize_operator_role_assignment ◌>>=◌ lift pure
  authorize_operator_role_assignment_lem target action role actor s h =
      elim (Bool-cases (not (role_eq role platform_admin))) [
        | inl r ↦ rw r (Decided.admitted _ refl tt)
        | inr r ↦ elim (Bool-cases (is_enabled_with platform_admin actor)) [
          | inl p ↦ rw (r, h, p) (Decided.admitted _ refl tt)
          | inr p ↦ rw (r, h, p) (deny-Decided _ _ actor _ s refl)
        ]
      ]

  home_matches : (t : String) → tenant_ids_match directory t t ≡ true
  unfolding tenant_ids_match
  home_matches t = str_eq_refl (directory.canonicalize_tenant_id t)

  -- A request that does not fall on the caller's tenant asks for a foreign one.
  foreign_of_mismatch :
      (requested : Option String)
      → tenant_ids_match directory (or_text requested home) home ≡ false
      → is_foreign directory requested home ≡ true
  unfolding is_foreign
  foreign_of_mismatch none m = cc (home_matches home)
  foreign_of_mismatch (some r) m = elim (Bool-cases (truthy r)) [
    | inl t ↦ let m' = rw t at m in rw m' refl
    | inr t ↦ let m' = rw t at m in cc (home_matches home)
  ]

  -- Given the caller's operator, a caller who is no enabled platform administrator and whose
  -- request to read the audit log is admitted is limited to a tenant that matches its own, and sees
  -- the administrative events if and only if it is an enabled tenant administrator.
  pub authorize_audit_read_isolated :
      (requested : Option String) (actor : Option EffectiveOperator) (s : Audit)
      (granted : AuditReadAuthorization)
      → find_actor directory records caller ≡ ok actor
      → is_enabled_with platform_admin actor ≡ false
      → (authorize_audit_read directory records caller requested s).0 ≡ ok granted
      → (t : String) × (granted.tenant_id ≡ some t)
        × (tenant_ids_match directory t home ≡ true)
        × (granted.include_administrative ≡ is_enabled_with tenant_admin actor)
  unfolding authorize_audit_read ◌>>=◌ lift pure deny raise modify
  authorize_audit_read_isolated requested actor s granted h p e =
      let at_home =
        tenant_ids_match directory (or_text (canonical directory requested) home) home in
      elim (Bool-cases (is_enabled_with tenant_admin actor)) [
        | inl t ↦ elim (Bool-cases at_home) [
          | inl m ↦
              let e' = rw (h, p, t, m) at e in
              (
                _,
                sym (ap (λ g. g.tenant_id) (ok_injective e')),
                m,
                sym (ap (λ g. g.include_administrative) (ok_injective e')) ∙ sym t,
              )
          | inr m ↦
              let e' =
                rw (h, p, t, m, foreign_of_mismatch (canonical directory requested) m) at e in
              cc
        ]
        | inr t ↦ elim (Bool-cases (is_foreign directory (canonical directory requested) home)) [
          | inl f ↦ let e' = rw (h, p, t, f) at e in cc
          | inr f ↦
              let e' = rw (h, p, t, f) at e in
              (
                home,
                sym (ap (λ g. g.tenant_id) (ok_injective e')),
                home_matches home,
                sym (ap (λ g. g.include_administrative) (ok_injective e')) ∙ sym t,
              )
        ]
      ]
