-- ===== src/Retention/Cleanup.antt =====
-- What a run of app/services/retention_service.py leaves on the disk.
use validador_final.Prelude.{
  String, ◌≡◌, refl, ap, ◌∙◌, ◌⊎◌, inl, inr, true, false, List, [], ◌∷◌, Option, none, some,
  if◌then◌else◌, str_eq, str_eq_iff, str_eq_refl, arith, All, All-map, All-mem, Bool-cases, any-mem,
  Result, ok, err, Option-cases, All-both,
}
use mathlib.Core.List.{Memᴰ}
use mathlib.Core.Path.{subst}
use validador_final.Prelude.Dict
use validador_final.Prelude.Dict.{get, get-remove}
use validador_final.Job.{JobRecord}
use validador_final.JobService.State.{ServiceError}
use validador_final.JobService.Queries.{list_jobs}
use validador_final.Retention.Kinds.{
  ArtifactKind, kind_eq, RetentionPolicy, Disk, artifact_path, prune_empty_parent, retention_days,
}
use validador_final.Retention.{
  RetentionArtifact, RetentionRunResult, Retention, RetentionWorld, Clock, Candidate, Slot, slots,
  candidate_of, is_needed, expired_in, protected_in, remove_empty_parent, delete_artifact,
  delete_artifacts, run, run_listed, run_on, inspect, cleanup,
}
use validador_final.Retention.Expired.{
  kind_eq_refl, IsExpired, expired_in-IsExpired, has_key, needs, none_selected,
}

-- The artifacts of a run that does not raise.
abbrev pub selected : Result ServiceError RetentionRunResult → Option (List RetentionArtifact)
selected (err e) = none
selected (ok result) = some result.artifacts

module _ (world : RetentionWorld) where
  remove_empty_parent-files :
      (path : String) (disk : Disk) → (remove_empty_parent world path disk).files ≡ disk.files
  unfolding remove_empty_parent
  remove_empty_parent-files path disk = ground arith

  get-delete_artifact :
      (a : RetentionArtifact) (p : String) (disk : Disk)
      → get p (delete_artifact world a disk).files
        ≡ (if str_eq a.path p then none else get p disk.files)
  unfolding delete_artifact
  get-delete_artifact a p disk =
      let deleted = record disk { files = Dict.remove a.path disk.files } in
      elim (Bool-cases (prune_empty_parent a.kind)) [
        | inl e ↦
            rw e (
              ap (get p) (remove_empty_parent-files a.path deleted)
              ∙ get-remove a.path p disk.files)
        | inr e ↦ rw e (get-remove a.path p disk.files)
      ]

  -- A file whose path no artifact has stays as it is.
  get-delete_artifacts :
      (artifacts : List RetentionArtifact) (p : String) (disk : Disk)
      → All (λ a. str_eq a.path p ≡ false) artifacts
      → get p (delete_artifacts world artifacts disk).files ≡ get p disk.files
  unfolding delete_artifacts
  get-delete_artifacts [] p disk h = refl
  get-delete_artifacts (a ∷ artifacts) p disk h =
      get-delete_artifacts artifacts p (delete_artifact world a disk) h.1
      ∙ get-delete_artifact a p disk
      ∙ rw h.0 refl

  module _ (policy : RetentionPolicy) (clock : Clock) where
    -- The path is that of an artifact of the kind, or not at all that of an artifact of the job.
    abbrev pub IsOnly : Disk → ArtifactKind → String → Slot → Type 0
    IsOnly disk kind path slot =
        (kind_eq slot.1 kind ≡ true)
        ⊎ (str_eq (artifact_path world.layout disk slot.1 slot.0) path ≡ false)

    candidate_path :
        (disk : Disk) (slot : Slot) (c : Candidate)
        → candidate_of world policy clock.started disk slot ≡ some c
        → (artifact_path world.layout disk slot.1 slot.0 ≡ c.path)
          × (get c.path disk.files ≡ some c.facts)
    unfolding candidate_of
    candidate_path disk (job, kind) c e = elim (Option-cases (retention_days policy kind)) [
      | inl r ↦ let e' = rw (candidate_of, r) at e in cc
      | inr (days, r) ↦
          let path = artifact_path world.layout disk kind job in
          elim (Option-cases (get path disk.files)) [
            | inl f ↦ let e' = rw (candidate_of, r, f) at e in cc
            | inr (facts, f) ↦
                let e' = rw (candidate_of, r, f) at e in
                let found : Candidate = record { days = days; path = path; facts = facts } in
                let same : found ≡ c = cc in
                (
                  ap (λ (x : Candidate). x.path) same,
                  subst (λ (x : Candidate). get x.path disk.files ≡ some x.facts) same f,
                )
          ]
    ]

    module _ (disk : Disk) (jobs : List JobRecord) where
      -- Where a job needs a file, no artifact has its path.
      not_deleted :
          (job : JobRecord) (kind : ArtifactKind) (c : Candidate)
          → Memᴰ (job, kind) (slots jobs)
          → candidate_of world policy clock.started disk (job, kind) ≡ some c
          → is_needed world policy clock.started disk job c ≡ true
          → All (IsOnly disk kind c.path) (slots jobs)
          → All
              (λ a. str_eq a.path c.path ≡ false)
              (expired_in world policy clock.started disk jobs).artifacts
      not_deleted job kind c m e n only =
          let now = clock.started in
          let key = world.resolve c.path in
          let needed =
            any-mem (needs world policy now disk kind key) (job, kind) (slots jobs) m
              (rw (e, n) (ground (arith, kind_eq_refl kind, str_eq_refl key))) in
          All-map _ _ (expired_in world policy now disk jobs).artifacts
            (λ a h. other_path a h.0 h.1)
            (All-both _ _ (expired_in world policy now disk jobs).artifacts
              (expired_in-IsExpired world policy now disk jobs)
              (none_selected world policy now disk jobs kind key needed))
        where
          other_path :
              (a : RetentionArtifact)
              → IsExpired world policy clock.started disk jobs
                  (protected_in world policy clock.started disk jobs)
                  a
              → (has_key world policy clock.started disk kind (world.resolve c.path) a ≡ true
                  → false ≡ true)
              → str_eq a.path c.path ≡ false
          other_path a x f = elim (Bool-cases (str_eq a.path c.path)) [
            | inr s ↦ s
            | inl s ↦
                let path = (str_eq_iff a.path c.path).0 s in
                elim (All-mem _ (slots jobs) only x.is_listed) [
                  | inl k ↦ let t = f (rw (k, path) (str_eq_refl (world.resolve c.path))) in cc
                  | inr d ↦
                      let listed = candidate_path disk (x.job, a.kind) x.c x.is_candidate in
                      let t = rw (listed.0, ← x.same_path, path, str_eq_refl c.path) at d in cc
                ]
          ]

    -- A file that a job of the tenant needs (the job is active, marked for preservation, or was
    -- touched in the days of the policy, or the file was) outlives the cleanup as it is, where no job
    -- has the path as an artifact of another kind.
    pub cleanup-keeps :
        (tenant_id : String) (api_key_id : Option String) (s : Retention) (jobs : List JobRecord)
        (job : JobRecord) (kind : ArtifactKind) (c : Candidate)
        → (list_jobs world.jobs clock.started
            (some (world.jobs.canonicalize_tenant_id tenant_id))
            false
            none
            s.service).0
          ≡ ok jobs
        → Memᴰ (job, kind) (slots jobs)
        → candidate_of world policy clock.started s.disk (job, kind) ≡ some c
        → is_needed world policy clock.started s.disk job c ≡ true
        → All (IsOnly s.disk kind c.path) (slots jobs)
        → get c.path (cleanup world policy clock tenant_id api_key_id s).1.disk.files ≡ some c.facts
    unfolding cleanup run run_listed run_on
    cleanup-keeps tenant_id api_key_id s jobs job kind c h m e n only = rw h (
        get-delete_artifacts (expired_in world policy clock.started s.disk jobs).artifacts c.path
          s.disk (not_deleted s.disk jobs job kind c m e n only)
        ∙ (candidate_path s.disk (job, kind) c e).1)

    -- An inspection leaves the disk as it is, and finds the artifacts that a cleanup selects.
    pub inspect-cleanup :
        (tenant_id : String) (api_key_id : Option String) (s : Retention)
        → ((inspect world policy clock tenant_id s).1.disk ≡ s.disk)
          × (selected (inspect world policy clock tenant_id s).0
              ≡ selected (cleanup world policy clock tenant_id api_key_id s).0)
    unfolding inspect cleanup run run_listed run_on
    inspect-cleanup tenant_id api_key_id s =
        let resolved = world.jobs.canonicalize_tenant_id tenant_id in
        let listed = list_jobs world.jobs clock.started (some resolved) false none s.service in
        both listed.0 resolved (record s { service = listed.1 })
      where
        both :
            (r : Result ServiceError (List JobRecord)) (resolved : String) (t : Retention)
            → ((run_listed world policy clock resolved true none false r t).1.disk ≡ t.disk)
              × (selected (run_listed world policy clock resolved true none false r t).0
                  ≡ selected (run_listed world policy clock resolved false api_key_id true r t).0)
        both (err e) resolved t = (refl, refl)
        both (ok jobs) resolved t = (refl, refl)
