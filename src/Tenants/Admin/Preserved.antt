-- ===== src/Tenants/Admin/Preserved.antt =====
-- The methods of app/services/tenant_admin_service.py keep the names of the tenants apart.
use validador_final.Prelude.{
  ◌≡◌, refl, sym, ap, ◌∙◌, inl, inr, String, true, false, List, [], ◌∷◌, ◌++◌, none, str_eq_refl,
  arith, filter, length-append, Result, ok, err, ok_injective, Bool-cases, All, All-map, All-append,
  filter-append, filter-none,
}
use mathlib.Core.Path.{subst}
use validador_final.Prelude.Exec.{
  Keeps, Returned, Anything, Keeps-pure, Keeps-lift, Keeps-gets, Keeps-modify, Keeps-bind, ◌>>=◌,
  gets, modify, lift_leads,
}
use validador_final.Prelude.Text.{strip, strip-strip, is_member}
use validador_final.Job.{Time}
use validador_final.Tenants.Config.{TenantConfig}
use validador_final.Tenants.{
  RuntimeTenantRecord, list_tenants, is_named, iter_effective_tenant_configs,
  build_runtime_tenant_config,
}
use validador_final.Tenants.Unique.{IsUnique}
use validador_final.Tenants.Records.{iter_effective-append, built_id, built_names}
use validador_final.Tenants.Admin.Checks.{
  AdminError, of_load, is_identifier, validate_identifier, validate_display_name, validate_aliases,
}
use validador_final.Tenants.Admin.{
  TenantAdmin, AdminWorld, Caller, TenantEventType, runtime_records, load_runtime_records,
  persist_runtime_records, ensure_storage_configured, record_tenant_event, build_admin_record, load,
  finish, create_tenant, validate_no_collisions, checked_against, load_each, tenant_created,
  is_configured,
}
use validador_final.Tenants.Admin.Collisions.{IsClear, checked_against-IsClear}

-- A tenant all of whose names are clear of the others joins them.
IsUnique-append :
    (b : TenantConfig) (cs : List TenantConfig)
    → IsUnique cs
    → strip b.tenant_id ≡ b.tenant_id
    → ((text : String) → is_named text b ≡ true → All (λ c. is_named text c ≡ false) cs)
    → IsUnique (cs ++ b ∷ [])
IsUnique-append b cs u t f = record {
  at_most_one = λ text. elim (Bool-cases (is_named text b)) [
    | inl e ↦
        rw (filter-append (is_named text) cs, filter-none (is_named text) cs (f text e), e)
          (omega arith)
    | inr e ↦
        rw (filter-append (is_named text) cs, e, length-append (filter (is_named text) cs) [])
          (omega (arith, u.at_most_one text))
  ];
  trimmed = All-append _ cs (b ∷ []) u.trimmed (t, tt);
}

validate_identifier-strip :
    (field value text : String) → validate_identifier field value ≡ ok text → strip text ≡ text
unfolding validate_identifier
validate_identifier-strip field value text h = elim (Bool-cases (is_identifier (strip value))) [
  | inl e ↦
      let same = ok_injective (rw (validate_identifier, e) at h) in
      ap strip (sym same) ∙ strip-strip value ∙ same
  | inr e ↦ let h' = rw (validate_identifier, e) at h in cc
]

module _ (world : AdminWorld) where
  -- No text names two tenants of the files and the storage.
  abbrev pub HasUniqueNames : TenantAdmin → Type 0
  HasUniqueNames s = IsUnique (iter_effective_tenant_configs world.files (runtime_records s))

  pub finish-Keeps :
      (t : TenantEventType) (caller : Caller) (tenant_id : String)
      → Keeps HasUniqueNames Anything (finish world t caller tenant_id)
  unfolding finish load_runtime_records record_tenant_event runtime_records
  finish-Keeps t caller tenant_id =
      Keeps-bind {Q = Anything} load_runtime_records _ (Keeps-gets runtime_records (λ s h. tt))
        (λ records _.
          Keeps-bind {Q = Anything} _ _
            (Keeps-lift (of_load (load world records tenant_id)) (any_result _))
            (λ config _.
              Keeps-bind {Q = Anything}
                (record_tenant_event t (build_admin_record world config records) caller) _
                (Keeps-modify _ (λ s h. h)) (λ u _. Keeps-pure _ tt)))
    where
      any_result : (r : Result AdminError TenantConfig) → Returned (Anything {0, 0}) r
      any_result (ok a) = tt
      any_result (err e) = tt

  module _ (now : Time) (tenant_id display_name : String) (aliases : List String) where
    abbrev new_record : RuntimeTenantRecord
    new_record = record {
      tenant_id = tenant_id;
      display_name = display_name;
      aliases = aliases;
      disabled = false;
      created_at = now;
      updated_at = now;
    }

    appended :
        (records : List RuntimeTenantRecord)
        → IsUnique (iter_effective_tenant_configs world.files records)
        → strip tenant_id ≡ tenant_id
        → All
            (IsClear none (tenant_id ∷ aliases))
            (iter_effective_tenant_configs world.files records)
        → IsUnique (iter_effective_tenant_configs world.files (records ++ new_record ∷ []))
    appended records u t clear =
        let cs = iter_effective_tenant_configs world.files records in
        let claim : (text : String)
            → is_member text (tenant_id ∷ aliases) ≡ true
            → All (λ c. is_named text c ≡ false) cs =
          λ text m. All-map _ _ cs (λ c k. claimed_only text m c k) clear in
        subst IsUnique
          (sym (
            iter_effective-append world.files records new_record
              (claim tenant_id (rw (str_eq_refl tenant_id) refl))))
          (IsUnique-append (build_runtime_tenant_config world.files new_record) cs u
            (rw (built_id world.files new_record) t)
            (λ text n. claim text (ground (arith, built_names world.files text new_record))))
      where
        claimed_only :
            (text : String)
            → is_member text (tenant_id ∷ aliases) ≡ true
            → (c : TenantConfig) → IsClear none (tenant_id ∷ aliases) c
            → is_named text c ≡ false
        claimed_only text m c (inl e) = cc
        claimed_only text m c (inr f) = f text m

  -- Creating a tenant keeps the names apart, whether it returns or raises.
  pub create_tenant-HasUniqueNames :
      (now : Time) (tenant_id display_name : String) (aliases : List String) (caller : Caller)
      (s : TenantAdmin)
      → HasUniqueNames s
      → HasUniqueNames (create_tenant world now tenant_id display_name aliases caller s).1
  unfolding create_tenant ensure_storage_configured validate_no_collisions load_runtime_records
      ◌>>=◌ gets modify persist_runtime_records
  create_tenant-HasUniqueNames now tenant_id display_name aliases caller s u =
      lift_leads HasUniqueNames (is_configured s.storage) _ s u (λ x _.
        lift_leads HasUniqueNames (validate_identifier "tenant_id" tenant_id) _ s u (λ id i.
          lift_leads HasUniqueNames (validate_display_name world.texts display_name) _ s u
            (λ name n. lift_leads HasUniqueNames (validate_aliases id [] aliases) _ s u (λ names a.
              lift_leads HasUniqueNames
                (checked_against world.texts id name names none (
                  load_each world (runtime_records s)
                    (list_tenants world.files (runtime_records s) true)))
                _ s u
                (λ y c.
                  ((finish-Keeps tenant_created caller id).at _ (
                    appended now id name names (runtime_records s) u
                      (validate_identifier-strip "tenant_id" tenant_id id i)
                      (checked_against-IsClear world (runtime_records s) id name names none y u
                        c))).0)))))
