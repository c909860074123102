-- ===== src/Tenants/Admin/Kept.antt =====
-- Updates, disabling and reactivation in app/services/tenant_admin_service.py keep the names of the
-- tenants apart.
use validador_final.Prelude.{
  ◌≡◌, sym, ap, ◌∙◌, inl, inr, String, Bool, true, false, not, ◌&&◌, List, [], ◌∷◌, Option, some,
  str_eq, str_eq_iff, arith, Result, ok, err, ok_injective, Bool-cases, All, All-map, All-self,
}
use mathlib.Core.List.{Memᴰ}
use validador_final.Prelude.Exec.{◌>>=◌, ◌>>◌, gets, modify, raise, lift_leads, if_leads}
use validador_final.Prelude.Text.{is_member}
use validador_final.Job.{Time}
use validador_final.Tenants.Config.{TenantConfig}
use validador_final.Tenants.{
  LoadError, not_found, multiple_match, tenant_disabled, is_named, iter_effective_tenant_configs,
  list_tenants,
}
use validador_final.Tenants.Unique.{SameNames, filter-only, load_tenant_config-found}
use validador_final.Tenants.Upserts.{effective-upserted}
use validador_final.Tenants.Admin.Checks.{admin_error, validate_aliases}
use validador_final.Tenants.Admin.{
  TenantAdmin, AdminWorld, Caller, tenant_reactivated, given_aliases, TenantEventType,
  runtime_records, load_runtime_records, persist_runtime_records, ensure_storage_configured,
  is_configured, load, finish, update_tenant, apply_update, disable_tenant, reactivate_tenant,
  upsert_runtime_record, load_existing_tenant, of_existing, validate_no_collisions, is_given,
  checked_against, checked_name, load_each, tenant_updated,
}
use validador_final.Tenants.Admin.Collisions.{IsClear, checked_against-IsClear}
use validador_final.Tenants.Admin.Preserved.{HasUniqueNames, finish-Keeps}
use validador_final.Tenants.Admin.Renamed.{changed-IsUnique}

head_same : {x y : TenantConfig} → ◌≡◌ {A = List TenantConfig} (x ∷ []) (y ∷ []) → x ≡ y
head_same p = cc

of_existing_ok :
    (r : Result LoadError TenantConfig) (d : TenantConfig) → of_existing r ≡ ok d → r ≡ ok d
unfolding of_existing
of_existing_ok (ok c) d h = ap ok (ok_injective h)
of_existing_ok (err not_found) d h = cc
of_existing_ok (err multiple_match) d h = cc
of_existing_ok (err tenant_disabled) d h = cc

module _ (world : AdminWorld) where
  -- A tenant among those in effect, whose names the loaded configuration has.
  abbrev IsLoaded : TenantAdmin → TenantConfig → Type 0
  IsLoaded s d =
      (c : TenantConfig) × Memᴰ c (iter_effective_tenant_configs world.files (runtime_records s))
      × SameNames d c

  existing-IsLoaded :
      (s : TenantAdmin) (tenant_id : String) (d : TenantConfig)
      → of_existing (load world (runtime_records s) tenant_id) ≡ ok d
      → IsLoaded s d
  unfolding load
  existing-IsLoaded s tenant_id d h =
      let (c, m, n, same) =
        load_tenant_config-found world.files world.published_profile (runtime_records s) true
          tenant_id d (of_existing_ok _ d h) in
      (c, m, same)

  -- The names that a tenant has already are clear of those of the others.
  own_names :
      (s : TenantAdmin) (d : TenantConfig)
      → HasUniqueNames world s
      → IsLoaded s d
      → All
          (IsClear (some d.tenant_id) (d.tenant_id ∷ d.aliases))
          (iter_effective_tenant_configs world.files (runtime_records s))
  unfolding is_named
  own_names s d u (c, m, same) =
      let cs = iter_effective_tenant_configs world.files (runtime_records s) in
      All-map _ _ cs
        (λ x k. elim (Bool-cases (str_eq x.tenant_id d.tenant_id)) [
          | inl e ↦ inl e
          | inr e ↦ inr (λ text t. not_named x k e text t)
        ])
        (All-self cs)
    where
      not_named :
          (x : TenantConfig)
          → Memᴰ x (iter_effective_tenant_configs world.files (runtime_records s))
          → str_eq x.tenant_id d.tenant_id ≡ false
          → (text : String) → is_member text (d.tenant_id ∷ d.aliases) ≡ true
          → is_named text x ≡ false
      not_named x k e text t = elim (Bool-cases (is_named text x)) [
        | inr f ↦ f
        | inl f ↦
            let cs = iter_effective_tenant_configs world.files (runtime_records s) in
            let named : is_named text c ≡ true =
              rw (← same.same_id, ← same.same_aliases) (ground (arith, t)) in
            let one = filter-only (is_named text) c cs m named (u.at_most_one text) in
            let two = filter-only (is_named text) x cs k f (u.at_most_one text) in
            let same_tenant = head_same (sym one ∙ two) in
            let same_id : d.tenant_id ≡ x.tenant_id =
              same.same_id ∙ ap (λ (y : TenantConfig). y.tenant_id) same_tenant in
            ground (arith, str_eq_iff x.tenant_id d.tenant_id, sym same_id)
      ]

  module _ (now : Time) where
    upsert-HasUniqueNames :
        (s : TenantAdmin) (d : TenantConfig) (display_name : String) (aliases : List String)
        (disabled : Bool) (t : TenantEventType) (caller : Caller)
        → HasUniqueNames world s
        → IsLoaded s d
        → All
            (IsClear (some d.tenant_id) (d.tenant_id ∷ aliases))
            (iter_effective_tenant_configs world.files (runtime_records s))
        → HasUniqueNames world
            ((upsert_runtime_record world now d display_name aliases disabled
                >> finish world t caller d.tenant_id)
              s).1
    unfolding upsert_runtime_record load_runtime_records persist_runtime_records ◌>>=◌ gets modify
    upsert-HasUniqueNames s d display_name aliases disabled t caller u (c, m, same) clear =
        ((finish-Keeps world t caller d.tenant_id).at _ (
          changed-IsUnique d.tenant_id aliases
            (iter_effective_tenant_configs world.files (runtime_records s)) _ u clear
            (effective-upserted world.files (runtime_records s)
              (record {
                tenant_id = d.tenant_id;
                display_name = display_name;
                aliases = aliases;
                disabled = disabled;
                created_at = now;
                updated_at = now;
              })
              c m (sym same.same_id)))).0

    pub disable_tenant-HasUniqueNames :
        (tenant_id : String) (caller : Caller) (s : TenantAdmin)
        → HasUniqueNames world s
        → HasUniqueNames world (disable_tenant world now tenant_id caller s).1
    unfolding disable_tenant ensure_storage_configured load_existing_tenant load_runtime_records
        ◌>>=◌ gets raise
    disable_tenant-HasUniqueNames tenant_id caller s u =
        lift_leads (HasUniqueNames world) (is_configured s.storage) _ s u (λ x _.
          lift_leads (HasUniqueNames world) (of_existing (load world (runtime_records s) tenant_id))
            _ s u
            (λ d e.
              let loaded = existing-IsLoaded s tenant_id d e in
              if_leads (HasUniqueNames world) (str_eq d.tenant_id "default") _ _ s u (
                upsert-HasUniqueNames s d d.display_name d.aliases true
                  TenantEventType.tenant_disabled caller u loaded (own_names s d u loaded))))

    pub reactivate_tenant-HasUniqueNames :
        (tenant_id : String) (caller : Caller) (s : TenantAdmin)
        → HasUniqueNames world s
        → HasUniqueNames world (reactivate_tenant world now tenant_id caller s).1
    unfolding reactivate_tenant ensure_storage_configured load_existing_tenant load_runtime_records
        ◌>>=◌ gets
    reactivate_tenant-HasUniqueNames tenant_id caller s u =
        lift_leads (HasUniqueNames world) (is_configured s.storage) _ s u (λ x _.
          lift_leads (HasUniqueNames world) (of_existing (load world (runtime_records s) tenant_id))
            _ s u
            (λ d e.
              let loaded = existing-IsLoaded s tenant_id d e in
              upsert-HasUniqueNames s d d.display_name d.aliases false tenant_reactivated caller u
                loaded (own_names s d u loaded)))

    apply_update-HasUniqueNames :
        (d : TenantConfig) (name : Option String) (aliases : Option (List String)) (caller : Caller)
        (s : TenantAdmin)
        → HasUniqueNames world s
        → IsLoaded s d
        → HasUniqueNames world (apply_update world now d name aliases caller s).1
    unfolding apply_update validate_no_collisions load_runtime_records ◌>>=◌ gets
    apply_update-HasUniqueNames d name aliases caller s u loaded =
        lift_leads (HasUniqueNames world) (checked_name world now name d.display_name) _ s u (λ n e.
          lift_leads (HasUniqueNames world)
            (validate_aliases d.tenant_id [] (given_aliases world now aliases d.aliases)) _ s u
            (λ names f.
              lift_leads (HasUniqueNames world)
                (checked_against world.texts d.tenant_id n names (some d.tenant_id) (
                  load_each world (runtime_records s)
                    (list_tenants world.files (runtime_records s) true)))
                _ s u
                (λ y c.
                  upsert-HasUniqueNames s d n names d.disabled tenant_updated caller u loaded (
                    checked_against-IsClear world (runtime_records s) d.tenant_id n names
                      (some d.tenant_id) y u c))))

    pub update_tenant-HasUniqueNames :
        (tenant_id : String) (name : Option String) (aliases : Option (List String))
        (caller : Caller) (s : TenantAdmin)
        → HasUniqueNames world s
        → HasUniqueNames world (update_tenant world now tenant_id name aliases caller s).1
    unfolding update_tenant ensure_storage_configured load_existing_tenant load_runtime_records
        ◌>>=◌ gets raise
    update_tenant-HasUniqueNames tenant_id name aliases caller s u =
        lift_leads (HasUniqueNames world) (is_configured s.storage) _ s u (λ x _.
          lift_leads (HasUniqueNames world) (of_existing (load world (runtime_records s) tenant_id))
            _ s u
            (λ d e.
              if_leads (HasUniqueNames world)
                (not (is_given world now name) && not (is_given world now aliases))
                (raise (admin_error 422 "No tenant changes provided"))
                (apply_update world now d name aliases caller) s u
                (apply_update-HasUniqueNames d name aliases caller s u
                  (existing-IsLoaded s tenant_id d e))))
