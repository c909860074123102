-- ===== src/Profiles.antt =====
-- app/services/tenant_profile_service.py over the store of app/core/tenant_profile.py. The state is
-- the store (`none` without a path to one) and the audit log; a method is one step. The tenants'
-- files and the records of the administration are those of Tenants.
pub mod Checks
pub mod Releases
pub mod Published
pub mod Numbers
use validador_final.Prelude.{
  ℕ, ◌+◌, String, Bool, true, false, not, ◌&&◌, List, [], ◌∷◌, ◌++◌, Option, none, some, max, leb,
  ltb, if◌then◌else◌, str_eq, filter, head?, Result, ok, err,
}
use validador_final.Prelude.Sorting.{sort_by}
use validador_final.Prelude.Exec.{Exec, pure, raise, lift, gets, modify, ◌>>=◌, ◌>>◌}
use validador_final.Job.{Time}
use validador_final.Tenants.Config.{
  TenantConfig, ValidationProfileData, build_validation_profile_from_tenant_config,
}
use validador_final.Tenants.{
  TenantFiles, RuntimeTenantRecord, LoadError, multiple_match, load_tenant_config,
}
use validador_final.Profiles.Checks.{
  ProfileFacts, ProfileIssue, validate_profile_against_base_config,
}

-- The operator that acts.
pub record Actor : Type 0 where
  pub operator_id : String
  pub username : String
  pub role : String

pub record ValidationProfileDraftRecord : Type 0 where
  pub tenant_id : String
  pub profile : ValidationProfileData
  pub updated_at : Time
  pub updated_by : Option Actor

pub data VersionSource : Type 0 where
  publish rollback : VersionSource

pub record ValidationProfileVersionRecord : Type 0 where
  pub tenant_id : String
  pub version_id : String
  pub version_number : ℕ
  pub profile : ValidationProfileData
  pub published_at : Time
  pub published_by : Option Actor
  pub source : VersionSource
  pub rollback_source_version_id : Option String

pub record ProfileStore : Type 0 where
  pub drafts : List ValidationProfileDraftRecord
  pub versions : List ValidationProfileVersionRecord

pub data ProfileEventType : Type 0 where
  draft_saved profile_published profile_rolled_back : ProfileEventType

-- The arguments of `record_event`: the new version and the one that is rolled back to.
pub record ProfileEvent : Type 0 where
  pub event_type : ProfileEventType
  pub tenant_id : String
  pub api_key_id : Option String
  pub actor : Option Actor
  pub version : Option ValidationProfileVersionRecord
  pub rollback_source : Option ValidationProfileVersionRecord

pub record ProfileService : Type 0 where
  pub storage : Option ProfileStore
  pub audit : Option (List ProfileEvent)

-- `TenantProfileServiceError`, with the problems of an invalid profile, or an error of the loader
-- that no method catches.
pub data ProfileError : Type 0 where
  profile_error : ℕ → String → ProfileError
  invalid_profile : List ProfileIssue → ProfileError
  value_error : ProfileError

abbrev pub ProfileAction : Type 0 → Type 0
ProfileAction A = Exec ProfileService ProfileError A

pub data ProfileSource : Type 0 where
  published file : ProfileSource

pub record TenantValidationProfileState : Type 0 where
  pub tenant_id : String
  pub source : ProfileSource
  pub current_profile : ValidationProfileData
  pub draft : Option ValidationProfileDraftRecord
  pub published_version : Option ValidationProfileVersionRecord
  pub versions : List ValidationProfileVersionRecord

pub record ProfileWorld : Type 0 where
  pub files : TenantFiles
  pub runtime_records : List RuntimeTenantRecord
  pub facts : ProfileFacts

unfoldable pub versions_of :
    String → List ValidationProfileVersionRecord → List ValidationProfileVersionRecord
versions_of tenant_id versions = filter (λ v. str_eq v.tenant_id tenant_id) versions

-- `max(versions, key=version_number)`: the first of the largest.
unfoldable pub latest :
    ValidationProfileVersionRecord
    → List ValidationProfileVersionRecord
    → ValidationProfileVersionRecord
latest best [] = best
latest best (v ∷ versions) =
    latest (if ltb best.version_number v.version_number then v else best) versions

unfoldable pub latest_of :
    List ValidationProfileVersionRecord → Option ValidationProfileVersionRecord
unfolding latest
latest_of [] = none
latest_of (v ∷ versions) = some (latest v versions)

unfoldable pub get_latest_published_validation_profile_version :
    ProfileStore → String → Option ValidationProfileVersionRecord
unfolding latest_of versions_of
get_latest_published_validation_profile_version store tenant_id =
    latest_of (versions_of tenant_id store.versions)

unfoldable pub load_published_validation_profile :
    ProfileStore → String → Option ValidationProfileData
unfolding get_latest_published_validation_profile_version
load_published_validation_profile store tenant_id =
    elim (get_latest_published_validation_profile_version store tenant_id) [
      | none ↦ none
      | some v ↦ some v.profile
    ]

unfoldable pub get_draft : ProfileStore → String → Option ValidationProfileDraftRecord
get_draft store tenant_id = head? (filter (λ d. str_eq d.tenant_id tenant_id) store.drafts)

unfoldable pub list_versions : ProfileStore → String → List ValidationProfileVersionRecord
unfolding versions_of
list_versions store tenant_id =
    sort_by (λ v w. leb w.version_number v.version_number) (versions_of tenant_id store.versions)

unfoldable pub other_drafts :
    String → List ValidationProfileDraftRecord → List ValidationProfileDraftRecord
other_drafts tenant_id drafts = filter (λ d. not (str_eq d.tenant_id tenant_id)) drafts

unfoldable pub max_number : List ValidationProfileVersionRecord → ℕ
max_number [] = 0
max_number (v ∷ versions) = max v.version_number (max_number versions)

-- `_build_next_version`; the identifier is what `uuid4` gives.
unfoldable pub build_next_version :
    Time
    → String
    → ProfileStore
    → String
    → ValidationProfileData
    → Option Actor
    → VersionSource
    → Option String
    → ValidationProfileVersionRecord
unfolding max_number versions_of
build_next_version now version_id store tenant_id profile actor source rollback_source = record {
  tenant_id = tenant_id;
  version_id = version_id;
  version_number = max_number (versions_of tenant_id store.versions) + 1;
  profile = profile;
  published_at = now;
  published_by = actor;
  source = source;
  rollback_source_version_id = rollback_source;
}

-- The store with a new version, which takes the place of the tenant's draft.
unfoldable pub released : ValidationProfileVersionRecord → ProfileStore → ProfileStore
unfolding other_drafts
released version store = record {
  versions = store.versions ++ version ∷ [];
  drafts = other_drafts version.tenant_id store.drafts;
}

unfoldable pub loaded_store : ProfileService → ProfileStore
loaded_store s = elim s.storage [
  | none ↦ record { drafts = []; versions = [] }
  | some store ↦ store
]

unfoldable pub load_store : ProfileAction ProfileStore
unfolding loaded_store
load_store = gets loaded_store

unfoldable pub persist_store : ProfileStore → ProfileAction (Unit {0})
persist_store store = modify (λ s. record s { storage = some store })

unfoldable pub is_configured : Option ProfileStore → Result ProfileError (Unit {0})
is_configured none =
    err (
      profile_error 503 "Validation profile administration requires persistent operational storage")
is_configured (some store) = ok tt

unfoldable pub ensure_storage_configured : ProfileAction (Unit {0})
unfolding is_configured
ensure_storage_configured = do storage ← gets (λ s. s.storage); lift (is_configured storage)

unfoldable pub recorded : ProfileEvent → Option (List ProfileEvent) → Option (List ProfileEvent)
recorded event none = none
recorded event (some events) = some (events ++ event ∷ [])

unfoldable pub record_profile_event : ProfileEvent → ProfileAction (Unit {0})
unfolding recorded
record_profile_event event = modify (λ s. record s { audit = recorded event s.audit })

unfoldable pub of_load : Result LoadError TenantConfig → Result ProfileError TenantConfig
of_load (ok config) = ok config
of_load (err multiple_match) = err value_error
of_load (err e) = err (profile_error 404 "Tenant not found")

unfoldable pub of_issues : List ProfileIssue → Result ProfileError (Unit {0})
of_issues [] = ok tt
of_issues (issue ∷ issues) = err (invalid_profile (issue ∷ issues))

-- The result of a search, or the error that stands for its failure.
unfoldable pub found_or {ℓ} : {A : Type ℓ} → ℕ → String → Option A → Result ProfileError A
found_or status detail none = err (profile_error status detail)
found_or status detail (some a) = ok a

-- The state of a tenant with the latest version and the profile of its file.
unfoldable pub state_with :
    String
    → ValidationProfileData
    → ProfileStore
    → Option ValidationProfileVersionRecord
    → TenantValidationProfileState
unfolding get_draft list_versions
state_with tenant_id base store none = record {
  tenant_id = tenant_id;
  source = file;
  current_profile = base;
  draft = get_draft store tenant_id;
  published_version = none;
  versions = list_versions store tenant_id;
}
state_with tenant_id base store (some version) = record {
  tenant_id = tenant_id;
  source = published;
  current_profile = version.profile;
  draft = get_draft store tenant_id;
  published_version = some version;
  versions = list_versions store tenant_id;
}

unfoldable pub state_of : TenantConfig → ProfileStore → TenantValidationProfileState
state_of config store =
    state_with config.tenant_id (build_validation_profile_from_tenant_config config) store
      (get_latest_published_validation_profile_version store config.tenant_id)

unfoldable pub judged :
    ProfileFacts
    → ValidationProfileData
    → Result ProfileError TenantConfig
    → Result ProfileError (Unit {0})
unfolding of_issues validate_profile_against_base_config
judged facts profile (err e) = err e
judged facts profile (ok config) =
    of_issues (validate_profile_against_base_config facts config profile)

module _ (world : ProfileWorld) where
  unfoldable pub base_config : String → Result ProfileError TenantConfig
  base_config tenant_id =
      of_load (load_tenant_config world.files (λ t. none) world.runtime_records true tenant_id)

  unfoldable pub get_profile_state : String → ProfileAction TenantValidationProfileState
  get_profile_state tenant_id = do
    config ← lift (base_config tenant_id)
    store ← load_store
    pure (state_of config store)

  unfoldable pub validate_profile_for_publication :
      String → ValidationProfileData → Result ProfileError (Unit {0})
  validate_profile_for_publication tenant_id profile =
      judged world.facts profile (base_config tenant_id)

  module _ (now : Time) (actor : Option Actor) (api_key_id : Option String) where
    unfoldable pub save_draft :
        String → ValidationProfileData → ProfileAction TenantValidationProfileState
    save_draft tenant_id profile = do
      ensure_storage_configured
      config ← lift (base_config tenant_id)
      store ← load_store
      persist_store (record store {
        drafts =
            other_drafts config.tenant_id store.drafts
            ++ (record {
              tenant_id = config.tenant_id;
              profile = profile;
              updated_at = now;
              updated_by = actor;
            })
              ∷ [];
      })
      record_profile_event (record {
        event_type = draft_saved;
        tenant_id = config.tenant_id;
        api_key_id = api_key_id;
        actor = actor;
        version = none;
        rollback_source = none;
      })
      get_profile_state config.tenant_id

    -- The end of `publish_draft` and of `rollback_to_version`.
    unfoldable pub release :
        ProfileEventType
        → ValidationProfileVersionRecord
        → Option ValidationProfileVersionRecord
        → ProfileStore
        → ProfileAction TenantValidationProfileState
    release event_type version source store = do
      persist_store (released version store)
      record_profile_event (record {
        event_type = event_type;
        tenant_id = version.tenant_id;
        api_key_id = api_key_id;
        actor = actor;
        version = some version;
        rollback_source = source;
      })
      get_profile_state version.tenant_id

    unfoldable pub publish_draft : String → String → ProfileAction TenantValidationProfileState
    publish_draft version_id tenant_id = do
      ensure_storage_configured
      config ← lift (base_config tenant_id)
      store ← load_store
      draft ←
          lift (
            found_or 409 "No validation profile draft to publish"
              (get_draft store config.tenant_id))
      lift (validate_profile_for_publication config.tenant_id draft.profile)
      release profile_published
          (build_next_version now version_id store config.tenant_id draft.profile actor publish
            none)
          none store

    unfoldable pub version_with :
        String → String → ProfileStore → Option ValidationProfileVersionRecord
    version_with tenant_id version_id store = head? (
        filter (λ v. str_eq v.tenant_id tenant_id && str_eq v.version_id version_id) store.versions)

    unfoldable pub rollback_to_version :
        String → String → String → ProfileAction TenantValidationProfileState
    rollback_to_version new_version_id tenant_id version_id = do
      ensure_storage_configured
      config ← lift (base_config tenant_id)
      store ← load_store
      source ← lift (
          found_or 404 "Validation profile version not found"
            (version_with config.tenant_id version_id store))
      lift (validate_profile_for_publication config.tenant_id source.profile)
      release profile_rolled_back
          (build_next_version now new_version_id store config.tenant_id source.profile actor
            rollback (some source.version_id))
          (some source) store
