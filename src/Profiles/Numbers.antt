-- ===== src/Profiles/Numbers.antt =====
-- The numbers of the versions, and that only profiles that pass validation become versions, through
-- any calls of app/services/tenant_profile_service.py.
use validador_final.Prelude.{
  ◌<◌, max, String, ◌≡◌, refl, ◌⊎◌, inl, inr, false, List, [], ◌∷◌, ◌++◌, Option, none, some,
  str_eq, str_eq_iff, arith, Result, ok, err, Bool-cases, All, All-append,
}
use validador_final.Prelude.Exec.{
  Keeps, Returned, Anything, Keeps-pure, Keeps-lift, Keeps-gets, Keeps-modify, Keeps-bind, ◌>>◌,
  lift, gets,
}
use validador_final.Job.{Time}
use validador_final.Tenants.Config.{ValidationProfileData}
use validador_final.Profiles.{
  ProfileService, ProfileStore, ProfileEvent, ProfileWorld, ProfileError, Actor, ProfileAction,
  ValidationProfileVersionRecord, TenantValidationProfileState, ProfileEventType, VersionSource,
  base_config, save_draft, publish_draft, rollback_to_version, release, get_draft, found_or,
  validate_profile_for_publication, build_next_version, ensure_storage_configured, is_configured,
  load_store, loaded_store, persist_store, record_profile_event, get_profile_state, released,
  versions_of, max_number, profile_published, profile_rolled_back, publish, rollback, version_with,
}

-- Later versions of the same tenant have larger numbers.
abbrev pub IsNumbered : List ValidationProfileVersionRecord → Type 0
IsNumbered [] = Unit
IsNumbered (v ∷ vs) =
    All (λ w. (str_eq w.tenant_id v.tenant_id ≡ false) ⊎ (v.version_number < w.version_number)) vs
    × IsNumbered vs

IsNumbered-append :
    (w : ValidationProfileVersionRecord) (vs : List ValidationProfileVersionRecord)
    → IsNumbered vs
    → All (λ u. (str_eq w.tenant_id u.tenant_id ≡ false) ⊎ (u.version_number < w.version_number)) vs
    → IsNumbered (vs ++ w ∷ [])
IsNumbered-append w [] n h = (tt, tt)
IsNumbered-append w (v ∷ vs) n h =
    (All-append _ vs (w ∷ []) n.0 (h.0, tt), IsNumbered-append w vs n.1 h.1)

above_max :
    (w : ValidationProfileVersionRecord) (vs : List ValidationProfileVersionRecord)
    → max_number (versions_of w.tenant_id vs) < w.version_number
    → All (λ u. (str_eq w.tenant_id u.tenant_id ≡ false) ⊎ (u.version_number < w.version_number)) vs
unfolding max_number versions_of
above_max w [] h = tt
above_max w (u ∷ vs) h = elim (Bool-cases (str_eq u.tenant_id w.tenant_id)) [
  | inl e ↦
      let h' : max u.version_number (max_number (versions_of w.tenant_id vs)) < w.version_number =
        rw e at h in
      (inr (omega arith), above_max w vs (omega arith))
  | inr e ↦ (
    inl (ground (arith, str_eq_iff w.tenant_id u.tenant_id, str_eq_iff u.tenant_id w.tenant_id)),
    above_max w vs (rw e at h),
  )
]

module _ (world : ProfileWorld) where
  -- The versions are numbered, and each has a profile that passes validation.
  pub record IsSound (store : ProfileStore) : Type 0 where
    pub numbered : IsNumbered store.versions
    pub approved :
        All
          (λ v. validate_profile_for_publication world v.tenant_id v.profile ≡ ok tt)
          store.versions

  abbrev pub HasSoundStore : ProfileService → Type 0
  HasSoundStore s = IsSound (loaded_store s)

  released-IsSound :
      (v : ValidationProfileVersionRecord) (store : ProfileStore)
      → IsSound store
      → max_number (versions_of v.tenant_id store.versions) < v.version_number
      → validate_profile_for_publication world v.tenant_id v.profile ≡ ok tt
      → IsSound (released v store)
  unfolding released
  released-IsSound v store h m p = record {
    numbered = IsNumbered-append v store.versions h.numbered (above_max v store.versions m);
    approved = All-append _ store.versions (v ∷ []) h.approved (p, tt);
  }

  persist_store-Keeps :
      (store : ProfileStore) → IsSound store → Keeps HasSoundStore Anything (persist_store store)
  unfolding persist_store loaded_store
  persist_store-Keeps store h = Keeps-modify _ (λ s _. h)

  record_profile_event-Keeps :
      (event : ProfileEvent) → Keeps HasSoundStore Anything (record_profile_event event)
  unfolding record_profile_event loaded_store
  record_profile_event-Keeps event = Keeps-modify _ (λ s h. h)

  load_store-Keeps : Keeps HasSoundStore IsSound load_store
  unfolding load_store
  load_store-Keeps = Keeps-gets loaded_store (λ s h. h)

  any_result : {A : Type 0} (r : Result ProfileError A) → Returned (λ a. r ≡ ok a) r
  any_result (ok a) = refl
  any_result (err e) = tt

  checked :
      {A : Type 0} (r : Result ProfileError A)
      → Keeps {S = ProfileService} HasSoundStore (λ a. r ≡ ok a) (lift r)
  checked r = Keeps-lift r (any_result r)

  configured-Keeps : Keeps HasSoundStore Anything ensure_storage_configured
  unfolding ensure_storage_configured
  configured-Keeps =
      Keeps-bind (gets (λ s. s.storage)) (λ storage. lift (is_configured storage))
        (Keeps-gets (λ s. s.storage) (λ s h. tt))
        (λ storage _. Keeps-lift (is_configured storage) (anyway (is_configured storage)))
    where
      anyway : (r : Result ProfileError (Unit {0})) → Returned Anything r
      anyway (ok u) = tt
      anyway (err e) = tt

  get_profile_state-Keeps :
      (tenant_id : String) → Keeps HasSoundStore Anything (get_profile_state world tenant_id)
  unfolding get_profile_state
  get_profile_state-Keeps tenant_id =
      Keeps-bind (lift (base_config world tenant_id)) _ (checked (base_config world tenant_id))
        (λ config _. Keeps-bind load_store _ load_store-Keeps (λ store h. Keeps-pure _ tt))

  module _ (now : Time) (actor : Option Actor) (api_key_id : Option String) where
    release-Keeps :
        (t : ProfileEventType) (v : ValidationProfileVersionRecord)
        (source : Option ValidationProfileVersionRecord) (store : ProfileStore)
        → IsSound (released v store)
        → Keeps HasSoundStore Anything (release world now actor api_key_id t v source store)
    unfolding release
    release-Keeps t v source store h =
        Keeps-bind (persist_store (released v store)) _ (persist_store-Keeps (released v store) h)
          (λ u _.
            Keeps-bind (record_profile_event _) _ (record_profile_event-Keeps _)
              (λ w _. get_profile_state-Keeps v.tenant_id))

    -- The draft of the version is checked, and its number is above the others.
    next-IsSound :
        (version_id tenant_id : String) (store : ProfileStore) (profile : ValidationProfileData)
        (kind : VersionSource) (source : Option String)
        → IsSound store
        → validate_profile_for_publication world tenant_id profile ≡ ok tt
        → IsSound (
            released
              (build_next_version now version_id store tenant_id profile actor kind source)
              store)
    unfolding build_next_version
    next-IsSound version_id tenant_id store profile kind source h p =
        released-IsSound
          (build_next_version now version_id store tenant_id profile actor kind source) store h
          (omega arith) p

    save_draft-Keeps :
        (tenant_id : String) (profile : ValidationProfileData)
        → Keeps HasSoundStore Anything (save_draft world now actor api_key_id tenant_id profile)
    unfolding save_draft
    save_draft-Keeps tenant_id profile =
        Keeps-bind ensure_storage_configured _ configured-Keeps (λ u _.
          Keeps-bind (lift (base_config world tenant_id)) _ (checked (base_config world tenant_id))
            (λ config _. Keeps-bind load_store _ load_store-Keeps (λ store h.
              Keeps-bind (persist_store _) _
                (persist_store-Keeps _ (record { numbered = h.numbered; approved = h.approved }))
                (λ v _.
                  Keeps-bind (record_profile_event _) _ (record_profile_event-Keeps _)
                    (λ w _. get_profile_state-Keeps config.tenant_id)))))

    -- The part that publication and rollback share: the profile found is checked and released.
    checked_release-Keeps :
        (version_id tenant_id : String) (store : ProfileStore) (profile : ValidationProfileData)
        (t : ProfileEventType) (kind : VersionSource) (from : Option String)
        (source : Option ValidationProfileVersionRecord)
        → IsSound store
        → Keeps HasSoundStore Anything (
            lift (validate_profile_for_publication world tenant_id profile)
            >> release world now actor api_key_id t
                (build_next_version now version_id store tenant_id profile actor kind from)
                source
                store)
    checked_release-Keeps version_id tenant_id store profile t kind from source h =
        Keeps-bind (lift (validate_profile_for_publication world tenant_id profile)) _
          (checked (validate_profile_for_publication world tenant_id profile))
          (λ u valid.
            release-Keeps t
              (build_next_version now version_id store tenant_id profile actor kind from) source
              store (next-IsSound version_id tenant_id store profile kind from h valid))

    publish_draft-Keeps :
        (version_id tenant_id : String)
        → Keeps HasSoundStore Anything
            (publish_draft world now actor api_key_id version_id tenant_id)
    unfolding publish_draft
    publish_draft-Keeps version_id tenant_id =
        Keeps-bind ensure_storage_configured _ configured-Keeps (λ u _.
          Keeps-bind (lift (base_config world tenant_id)) _ (checked (base_config world tenant_id))
            (λ config _. Keeps-bind load_store _ load_store-Keeps (λ store h.
              Keeps-bind
                (lift (
                  found_or 409 "No validation profile draft to publish"
                    (get_draft store config.tenant_id)))
                _
                (checked (
                  found_or 409 "No validation profile draft to publish"
                    (get_draft store config.tenant_id)))
                (λ draft _.
                  checked_release-Keeps version_id config.tenant_id store draft.profile
                    profile_published publish none none h))))

    rollback_to_version-Keeps :
        (new_version_id tenant_id version_id : String)
        → Keeps HasSoundStore Anything
            (rollback_to_version world now actor api_key_id new_version_id tenant_id version_id)
    unfolding rollback_to_version
    rollback_to_version-Keeps new_version_id tenant_id version_id =
        Keeps-bind ensure_storage_configured _ configured-Keeps (λ u _.
          Keeps-bind (lift (base_config world tenant_id)) _ (checked (base_config world tenant_id))
            (λ config _. Keeps-bind load_store _ load_store-Keeps (λ store h.
              Keeps-bind
                (lift (
                  found_or 404 "Validation profile version not found"
                    (version_with world now actor api_key_id config.tenant_id version_id store)))
                _
                (checked (
                  found_or 404 "Validation profile version not found"
                    (version_with world now actor api_key_id config.tenant_id version_id store)))
                (λ source _.
                  checked_release-Keeps new_version_id config.tenant_id store source.profile
                    profile_rolled_back rollback (some source.version_id) (some source) h))))

-- The calls of the service: with the identifier that a new version gets, and what is asked for.
pub data ProfileCall : Type 0 where
  save : String → ValidationProfileData → ProfileCall
  publish_as : String → String → ProfileCall
  roll_back_as : String → String → String → ProfileCall
  show : String → ProfileCall

-- When and by whom a call is made.
pub record ProfileRequest : Type 0 where
  pub now : Time
  pub actor : Option Actor
  pub api_key_id : Option String
  pub asked : ProfileCall

module _ (world : ProfileWorld) where
  unfoldable pub perform_call :
      Time → Option Actor → Option String → ProfileCall → ProfileAction TenantValidationProfileState
  perform_call now actor key (save tenant_id profile) =
      save_draft world now actor key tenant_id profile
  perform_call now actor key (publish_as version_id tenant_id) =
      publish_draft world now actor key version_id tenant_id
  perform_call now actor key (roll_back_as new_version_id tenant_id version_id) =
      rollback_to_version world now actor key new_version_id tenant_id version_id
  perform_call now actor key (show tenant_id) = get_profile_state world tenant_id

  -- The service after the requests, those that raise included.
  unfoldable pub perform_requests : List ProfileRequest → ProfileService → ProfileService
  unfolding perform_call
  perform_requests [] s = s
  perform_requests (r ∷ requests) s =
      perform_requests requests (perform_call r.now r.actor r.api_key_id r.asked s).1

  perform_call-Keeps :
      (now : Time) (actor : Option Actor) (key : Option String) (c : ProfileCall)
      → Keeps (HasSoundStore world) Anything (perform_call now actor key c)
  unfolding perform_call
  perform_call-Keeps now actor key (save tenant_id profile) =
      save_draft-Keeps world now actor key tenant_id profile
  perform_call-Keeps now actor key (publish_as version_id tenant_id) =
      publish_draft-Keeps world now actor key version_id tenant_id
  perform_call-Keeps now actor key (roll_back_as new_version_id tenant_id version_id) =
      rollback_to_version-Keeps world now actor key new_version_id tenant_id version_id
  perform_call-Keeps now actor key (show tenant_id) = get_profile_state-Keeps world tenant_id

  -- From a store of which it holds, and with tenant files that stay, it holds through any
  -- requests, those that raise included: of two versions of a tenant the later one has the larger
  -- number, and every version has a profile that passes validation.
  pub perform_requests-HasSoundStore :
      (requests : List ProfileRequest) (s : ProfileService)
      → HasSoundStore world s
      → HasSoundStore world (perform_requests requests s)
  unfolding perform_requests
  perform_requests-HasSoundStore [] s h = h
  perform_requests-HasSoundStore (r ∷ requests) s h =
      perform_requests-HasSoundStore requests _
        ((perform_call-Keeps r.now r.actor r.api_key_id r.asked).at s h).0
