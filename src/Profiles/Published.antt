-- ===== src/Profiles/Published.antt =====
-- What publication and rollback of app/services/tenant_profile_service.py leave in the store, and
-- that they leave it alone where they raise.
use validador_final.Prelude.{
  ◌<◌, String, ◌≡◌, refl, sym, ap, ◌⊎◌, inl, inr, true, List, [], ◌∷◌, Option, none, some, str_eq,
  arith, Result, ok, err, ok_injective, Result-cases, Bool-cases,
}
use mathlib.Core.Path.{subst}
use validador_final.Prelude.Exec.{◌>>=◌, gets, lift-unchanged}
use validador_final.Job.{Time}
use validador_final.Tenants.Config.{
  TenantConfig, ValidationProfileData, build_validation_profile_from_tenant_config,
}
use validador_final.Tenants.{
  LoadError, not_found, multiple_match, tenant_disabled, load_tenant_config,
  iter_effective_tenant_configs,
}
use validador_final.Tenants.Unique.{IsUnique, load_tenant_config-again}
use validador_final.Profiles.Checks.{ProfileIssue, validate_profile_against_base_config}
use validador_final.Profiles.Releases.{
  get_latest-released, get_draft-released, versions_of-released, get_draft-released_other,
}
use validador_final.Profiles.{
  state_with, of_load, of_issues, ProfileService, ProfileStore, ProfileEvent, ProfileWorld,
  ProfileError, Actor, ValidationProfileDraftRecord, ValidationProfileVersionRecord,
  TenantValidationProfileState, published, profile_published, profile_rolled_back, publish,
  rollback, ProfileEventType, base_config, publish_draft, rollback_to_version, release, get_draft,
  found_or, validate_profile_for_publication, judged, build_next_version, ensure_storage_configured,
  is_configured, load_store, loaded_store, persist_store, record_profile_event, get_profile_state,
  state_of, released, versions_of, max_number, get_latest_published_validation_profile_version,
  load_published_validation_profile, version_with,
}

of_load_ok : (r : Result LoadError TenantConfig) (c : TenantConfig) → of_load r ≡ ok c → r ≡ ok c
unfolding of_load
of_load_ok (ok d) c h = ap ok (ok_injective h)
of_load_ok (err not_found) c h = cc
of_load_ok (err multiple_match) c h = cc
of_load_ok (err tenant_disabled) c h = cc

module _ (world : ProfileWorld) (now : Time) (actor : Option Actor)
    (api_key_id : Option String) where
  release_ok :
      (t : ProfileEventType) (v : ValidationProfileVersionRecord)
      (source : Option ValidationProfileVersionRecord) (store : ProfileStore) (s : ProfileService)
      (config : TenantConfig)
      → base_config world v.tenant_id ≡ ok config
      → (release world now actor api_key_id t v source store s).0
        ≡ ok (state_of config (released v store))
  unfolding release persist_store record_profile_event get_profile_state load_store loaded_store
      ◌>>=◌
  release_ok t v source store s config h = rw h refl

  release-raises :
      (t : ProfileEventType) (v : ValidationProfileVersionRecord)
      (source : Option ValidationProfileVersionRecord) (store : ProfileStore) (s : ProfileService)
      (config : TenantConfig) (e : ProfileError)
      → base_config world v.tenant_id ≡ ok config
      → (release world now actor api_key_id t v source store s).0 ≡ err e
      → (release world now actor api_key_id t v source store s).1 ≡ s
  release-raises t v source store s config e h r =
      let returned = release_ok t v source store s config h in cc

  validated :
      (tenant_id : String) (profile : ValidationProfileData) (u : Unit {0})
      → validate_profile_for_publication world tenant_id profile ≡ ok u
      → (config : TenantConfig) × (base_config world tenant_id ≡ ok config)
        × (validate_profile_against_base_config world.facts config profile ≡ [])
  unfolding validate_profile_for_publication judged
  validated tenant_id profile u h = elim (Result-cases (base_config world tenant_id)) [
    | inl (config, e) ↦ (
      config,
      e,
      issueless (validate_profile_against_base_config world.facts config profile) (rw e at h),
    )
    | inr (d, e) ↦ let h' = rw e at h in cc
  ]
    where
      issueless : (is : List ProfileIssue) → of_issues is ≡ ok u → is ≡ []
      issueless [] h = refl
      issueless (i ∷ is) h = cc

  module _ (version_id tenant_id : String) (s : ProfileService) (e : ProfileError) where
    -- A publication that raises leaves the service as it was.
    pub publish_draft-raises :
        (publish_draft world now actor api_key_id version_id tenant_id s).0 ≡ err e
        → (publish_draft world now actor api_key_id version_id tenant_id s).1 ≡ s
    unfolding publish_draft ensure_storage_configured load_store ◌>>=◌ gets build_next_version
    publish_draft-raises = lift-unchanged (is_configured s.storage) _ s e (λ u _.
        lift-unchanged (base_config world tenant_id) _ s e (λ config _.
          lift-unchanged
            (found_or 409 "No validation profile draft to publish"
              (get_draft (loaded_store s) config.tenant_id))
            _ s e
            (λ draft _.
              lift-unchanged (validate_profile_for_publication world config.tenant_id draft.profile)
                _ s e
                (λ v valid r.
                  let (known, k, _) = validated config.tenant_id draft.profile v valid in
                  release-raises profile_published
                    (build_next_version now version_id (loaded_store s) config.tenant_id
                      draft.profile actor publish none)
                    none (loaded_store s) s known e k r))))

    -- So does a rollback that raises.
    pub rollback_to_version-raises :
        (source_id : String)
        → (rollback_to_version world now actor api_key_id version_id tenant_id source_id s).0
          ≡ err e
        → (rollback_to_version world now actor api_key_id version_id tenant_id source_id s).1 ≡ s
    unfolding rollback_to_version ensure_storage_configured load_store ◌>>=◌ gets build_next_version
    rollback_to_version-raises source_id = lift-unchanged (is_configured s.storage) _ s e (λ u _.
        lift-unchanged (base_config world tenant_id) _ s e (λ config _.
          lift-unchanged
            (found_or 404 "Validation profile version not found"
              (version_with world now actor api_key_id config.tenant_id source_id (loaded_store s)))
            _ s e
            (λ source _.
              lift-unchanged
                (validate_profile_for_publication world config.tenant_id source.profile) _ s e
                (λ v valid r.
                  let (known, k, _) = validated config.tenant_id source.profile v valid in
                  release-raises profile_rolled_back
                    (build_next_version now version_id (loaded_store s) config.tenant_id
                      source.profile actor rollback (some source.version_id))
                    (some source) (loaded_store s) s known e k r))))

-- The profile is what the tenant's state shows as published and what the loader of tenants applies;
-- no draft of the tenant is left; versions and drafts of other tenants are those of before.
pub record IsReleased (tenant_id : String) (profile : ValidationProfileData) (before : ProfileStore)
    (shown : TenantValidationProfileState) (after : ProfileStore) : Type 0 where
  pub current : shown.current_profile ≡ profile
  pub is_published : shown.source ≡ published
  pub no_draft : shown.draft ≡ none
  pub is_loaded : load_published_validation_profile after tenant_id ≡ some profile
  pub others :
      (t : String)
      → (str_eq tenant_id t ≡ true)
        ⊎ ((versions_of t after.versions ≡ versions_of t before.versions)
            × (get_draft after t ≡ get_draft before t))

module _ (world : ProfileWorld) (now : Time) (actor : Option Actor)
    (api_key_id : Option String) where
  module _ (v : ValidationProfileVersionRecord) (store : ProfileStore)
      (base : ValidationProfileData) where
    shows : Option ValidationProfileVersionRecord → TenantValidationProfileState
    shows = state_with v.tenant_id base (released v store)

    IsReleased_some :
        (o : Option ValidationProfileVersionRecord)
        → o ≡ some v
        → load_published_validation_profile (released v store) v.tenant_id ≡ some v.profile
        → IsReleased v.tenant_id v.profile store (shows o) (released v store)
    unfolding shows state_with
    IsReleased_some none e l = cc
    IsReleased_some (some w) e l = record {
      current = cc;
      is_published = refl;
      no_draft = get_draft-released v store;
      is_loaded = l;
      others = λ t. elim (Bool-cases (str_eq v.tenant_id t)) [
        | inl same ↦ inl same
        | inr e ↦ inr (versions_of-released v store t e, get_draft-released_other v store t e)
      ];
    }

  released-IsReleased :
      (v : ValidationProfileVersionRecord) (store : ProfileStore) (config : TenantConfig)
      → config.tenant_id ≡ v.tenant_id
      → max_number (versions_of v.tenant_id store.versions) < v.version_number
      → IsReleased v.tenant_id v.profile store
          (state_of config (released v store))
          (released v store)
  unfolding state_of load_published_validation_profile shows
  released-IsReleased v store config same h =
      let base = build_validation_profile_from_tenant_config config in
      let latest = get_latest-released v store h in
      subst
        (λ t.
          IsReleased v.tenant_id v.profile store
            (state_with t base (released v store)
              (get_latest_published_validation_profile_version (released v store) t))
            (released v store))
        (sym same)
        (IsReleased_some v store base
          (get_latest_published_validation_profile_version (released v store) v.tenant_id) latest
          (rw (load_published_validation_profile, latest) refl))

  module _ (new_version_id tenant_id : String) (store : ProfileStore)
      (audit : Option (List ProfileEvent)) (config : TenantConfig) where
    abbrev pub configured : ProfileService
    configured = record { storage = some store; audit = audit }

    passes :
        (profile : ValidationProfileData)
        → base_config world config.tenant_id ≡ ok config
        → validate_profile_against_base_config world.facts config profile ≡ []
        → validate_profile_for_publication world config.tenant_id profile ≡ ok tt
    unfolding validate_profile_for_publication judged of_issues
    passes profile g v = rw (g, v) refl

    after_release :
        (t : ProfileEventType) (v : ValidationProfileVersionRecord)
        (source : Option ValidationProfileVersionRecord)
        (m : Result ProfileError TenantValidationProfileState × ProfileService)
        → config.tenant_id ≡ v.tenant_id
        → base_config world v.tenant_id ≡ ok config
        → max_number (versions_of v.tenant_id store.versions) < v.version_number
        → m ≡ release world now actor api_key_id t v source store configured
        → (shown : TenantValidationProfileState) × (m.0 ≡ ok shown)
          × IsReleased v.tenant_id v.profile store shown (loaded_store m.1)
    unfolding release persist_store record_profile_event get_profile_state load_store loaded_store
        ◌>>=◌
    after_release t v source m same g h r = (
      state_of config (released v store),
      rw (r, g) refl,
      subst (λ x. IsReleased v.tenant_id v.profile store (state_of config (released v store)) x)
          (rw (r, g) refl) (released-IsReleased v store config same h),
    )

    publish_draft-release :
        (draft : ValidationProfileDraftRecord)
        → base_config world tenant_id ≡ ok config
        → base_config world config.tenant_id ≡ ok config
        → get_draft store config.tenant_id ≡ some draft
        → validate_profile_against_base_config world.facts config draft.profile ≡ []
        → publish_draft world now actor api_key_id new_version_id tenant_id configured
          ≡ release world now actor api_key_id profile_published
              (build_next_version now new_version_id store config.tenant_id draft.profile actor
                publish none)
              none
              store
              configured
    unfolding publish_draft ensure_storage_configured is_configured load_store loaded_store found_or
        ◌>>=◌
    publish_draft-release draft f g d v =
        let valid : validate_profile_for_publication world config.tenant_id draft.profile ≡ ok tt =
          passes draft.profile g v in
        rw (f, d, valid) refl

    again :
        IsUnique (iter_effective_tenant_configs world.files world.runtime_records)
        → base_config world tenant_id ≡ ok config
        → base_config world config.tenant_id ≡ ok config
    unfolding base_config of_load
    again u f = ap of_load (
        load_tenant_config-again world.files world.runtime_records tenant_id config u (
          of_load_ok
            (load_tenant_config world.files (λ t. none) world.runtime_records true tenant_id) config
            f))

    -- Where no text names two tenants, no tenant's identifier has white space at its ends, the
    -- tenant is found, and its draft passes validation, a publication returns, and the draft's
    -- profile is the tenant's profile from then on.
    pub publish_draft-IsReleased :
        (draft : ValidationProfileDraftRecord)
        → IsUnique (iter_effective_tenant_configs world.files world.runtime_records)
        → base_config world tenant_id ≡ ok config
        → get_draft store config.tenant_id ≡ some draft
        → validate_profile_against_base_config world.facts config draft.profile ≡ []
        → (shown : TenantValidationProfileState) × ((publish_draft world now actor api_key_id
              new_version_id tenant_id configured).0
            ≡ ok shown)
          × IsReleased config.tenant_id draft.profile store shown (
              loaded_store
                (publish_draft world now actor api_key_id new_version_id tenant_id configured).1)
    unfolding build_next_version
    publish_draft-IsReleased draft u f d v =
        let g = again u f in
        after_release profile_published
          (build_next_version now new_version_id store config.tenant_id draft.profile actor publish
            none)
          none (publish_draft world now actor api_key_id new_version_id tenant_id configured) refl g
          (omega arith) (publish_draft-release draft f g d v)

    rollback_to_version-release :
        (version_id : String) (source : ValidationProfileVersionRecord)
        → base_config world tenant_id ≡ ok config
        → base_config world config.tenant_id ≡ ok config
        → version_with world now actor api_key_id config.tenant_id version_id store ≡ some source
        → validate_profile_against_base_config world.facts config source.profile ≡ []
        → rollback_to_version world now actor api_key_id new_version_id tenant_id version_id
            configured
          ≡ release world now actor api_key_id profile_rolled_back
              (build_next_version now new_version_id store config.tenant_id source.profile actor
                rollback
                (some source.version_id))
              (some source)
              store
              configured
    unfolding rollback_to_version ensure_storage_configured is_configured load_store loaded_store
        found_or ◌>>=◌
    rollback_to_version-release version_id source f g d v =
        let valid : validate_profile_for_publication world config.tenant_id source.profile ≡ ok tt =
          passes source.profile g v in
        rw (f, d, valid) refl

    -- Where no text names two tenants, no tenant's identifier has white space at its ends, the
    -- tenant is found, and the version is one of its own and still passes validation, a rollback
    -- returns, and that version's profile is the tenant's profile from then on.
    pub rollback_to_version-IsReleased :
        (version_id : String) (source : ValidationProfileVersionRecord)
        → IsUnique (iter_effective_tenant_configs world.files world.runtime_records)
        → base_config world tenant_id ≡ ok config
        → version_with world now actor api_key_id config.tenant_id version_id store ≡ some source
        → validate_profile_against_base_config world.facts config source.profile ≡ []
        → (shown : TenantValidationProfileState) × ((rollback_to_version world now actor api_key_id
              new_version_id tenant_id version_id configured).0
            ≡ ok shown)
          × IsReleased config.tenant_id source.profile store shown (
              loaded_store
                (rollback_to_version world now actor api_key_id new_version_id tenant_id version_id
                  configured).1)
    unfolding build_next_version
    rollback_to_version-IsReleased version_id source u f d v =
        let g = again u f in
        after_release profile_rolled_back
          (build_next_version now new_version_id store config.tenant_id source.profile actor
            rollback (some source.version_id))
          (some source)
          (rollback_to_version world now actor api_key_id new_version_id tenant_id version_id
            configured)
          refl g (omega arith) (rollback_to_version-release version_id source f g d v)
