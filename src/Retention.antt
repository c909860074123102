-- ===== src/Retention.antt =====
-- app/services/retention_service.py and the policy of app/core/retention.py. The disk is a list of
-- files and one of directories; a file that cannot be deleted is an error of the system, which is
-- left out, as are logs and durations. No period of retention reaches before the first year.
pub mod Kinds
pub mod Expired
pub mod Cleanup
use validador_final.Prelude.{
  ℕ, ◌+◌, ◌*◌, max, String, Bool, true, false, not, ◌&&◌, ◌||◌, List, [], ◌∷◌, ◌++◌, Option, none,
  some, if◌then◌else◌, str_eq, ltb, length, any, Result, ok, err,
}
use validador_final.Prelude.Dict
use validador_final.Prelude.Dict.{get}
use validador_final.Json.{Value}
use validador_final.Job.{JobRecord, Time, status_in, queued, running}
use validador_final.Operational.{microseconds}
use validador_final.JobService.State.{World, Service, ServiceError}
use validador_final.JobService.Queries.{list_jobs}
use validador_final.LlmCache.{Entries, prune_expired}
use validador_final.Artifacts.{Layout}
use validador_final.Retention.Kinds.{
  ArtifactKind, kind_eq, kinds, prune_empty_parent, RetentionPolicy, retention_days,
  llm_cache_ttl_seconds, is_truthy, Disk, FileFacts, artifact_path,
}

pub record RetentionArtifact : Type 0 where
  pub kind : ArtifactKind
  pub path : String
  pub tenant_id : String
  pub job_id : String
  pub size_bytes : ℕ
  pub reference_time : Time

pub record RetentionRunResult : Type 0 where
  pub tenant_id : String
  pub dry_run : Bool
  pub policy : RetentionPolicy
  pub scanned_jobs : ℕ
  pub protected_artifacts : ℕ
  pub retained_artifacts : ℕ
  pub artifacts : List RetentionArtifact
  pub llm_cache_entries_removed : ℕ
  pub llm_cache_entries_remaining : ℕ
  pub started_at : Time
  pub finished_at : Time

-- An event of type ARTIFACT_RETENTION_RUN: its details are fields of the result.
pub record RetentionEvent : Type 0 where
  pub tenant_id : String
  pub api_key_id : Option String
  pub result : RetentionRunResult

-- The job service, the disk, the file of the cache, and the audit log where there is a service for
-- it.
pub record Retention : Type 0 where
  pub service : Service
  pub disk : Disk
  pub llm_cache : Entries
  pub audit : Option (List RetentionEvent)

-- What the service calls outside: the storage of the jobs, the paths, `str.casefold`, and of pathlib
-- `str(path.resolve())` and `path.parent`.
pub record RetentionWorld : Type 0 where
  pub jobs : World
  pub layout : Layout
  pub casefold : String → String
  pub resolve : String → String
  pub parent : String → String

-- The readings of the clock during a run.
pub record Clock : Type 0 where
  pub started : Time
  pub pruned : Time
  pub finished : Time

-- An artifact that a loop looks at: the retention of its kind is not off, and its file is there.
pub record Candidate : Type 0 where
  pub days : ℕ
  pub path : String
  pub facts : FileFacts

abbrev pub Slot : Type 0
Slot = JobRecord × ArtifactKind

abbrev pub Keys : Type 0
Keys = List (ArtifactKind × String)

-- `path_key in keys[kind]`
unfoldable pub is_key : ArtifactKind → String → Keys → Bool
is_key kind path_key [] = false
is_key kind path_key ((k, p) ∷ keys) =
    (kind_eq k kind && str_eq p path_key) || is_key kind path_key keys

-- `keys[kind].add(path_key)`
unfoldable pub add_key : ArtifactKind → String → Keys → Keys
unfolding is_key
add_key kind path_key keys = if is_key kind path_key keys then keys else (kind, path_key) ∷ keys

-- The turns of the loops over the jobs and, for each, over the kinds of artifacts.
unfoldable pub slots_of : JobRecord → List ArtifactKind → List Slot
slots_of job [] = []
slots_of job (kind ∷ kinds) = (job, kind) ∷ slots_of job kinds

unfoldable pub slots : List JobRecord → List Slot
unfolding slots_of
slots [] = []
slots (job ∷ jobs) = slots_of job kinds ++ slots jobs

unfoldable pub is_active : JobRecord → Bool
is_active job = status_in job.status (queued ∷ running ∷ []) || job.cancel_requested

unfoldable pub reference_time : JobRecord → FileFacts → Time
reference_time job facts = max job.updated_at facts.modified_at

-- `reference_time > cutoff`
unfoldable pub is_recent : Time → ℕ → Time → Bool
is_recent now days reference = ltb now (reference + days * (24 * 60 * 60 * microseconds))

-- What `_collect_expired_artifacts` has so far: its result and the keys it has seen.
pub record Collected : Type 0 where
  pub artifacts : List RetentionArtifact
  pub retained_artifacts : ℕ
  pub candidate_path_keys : Keys

module _ (world : RetentionWorld) where
  unfoldable pub is_explicitly_preserved : JobRecord → Bool
  is_explicitly_preserved job = elim (get "preserve_artifacts" job.params) [
    | none ↦ false
    | some value ↦ is_truthy world.casefold value
  ]

  module _ (policy : RetentionPolicy) (now : Time) (disk : Disk) where
    unfoldable pub candidate_of : Slot → Option Candidate
    unfolding retention_days artifact_path
    candidate_of (job, kind) = elim (retention_days policy kind) [
      | none ↦ none
      | some days ↦
          let path = artifact_path world.layout disk kind job in
          elim (get path disk.files) [
            | none ↦ none
            | some facts ↦ some (record { days = days; path = path; facts = facts })
          ]
    ]

    -- The test that protects a path: the job needs the artifact.
    unfoldable pub is_needed : JobRecord → Candidate → Bool
    unfolding is_active is_explicitly_preserved is_recent reference_time
    is_needed job c =
        is_active job
        || is_explicitly_preserved job
        || is_recent now c.days (reference_time job c.facts)

    unfoldable pub protect : Slot → Option Candidate → Keys → Keys
    unfolding is_needed add_key
    protect (job, kind) none keys = keys
    protect (job, kind) (some c) keys =
        if is_needed job c then add_key kind (world.resolve c.path) keys else keys

    unfoldable pub collect_protected_artifact_paths : List Slot → Keys → Keys
    unfolding candidate_of protect
    collect_protected_artifact_paths [] keys = keys
    collect_protected_artifact_paths (slot ∷ slots) keys =
        collect_protected_artifact_paths slots (protect slot (candidate_of slot) keys)

    module _ (protected_paths : Keys) where
      unfoldable pub collect : Slot → Option Candidate → Collected → Collected
      unfolding is_recent reference_time is_key
      collect (job, kind) none so_far = so_far
      collect (job, kind) (some c) so_far =
          let path_key = world.resolve c.path in
          let reference = reference_time job c.facts in
          if is_key kind path_key protected_paths || is_recent now c.days reference
          then record so_far { retained_artifacts = so_far.retained_artifacts + 1 }
          else if is_key kind path_key so_far.candidate_path_keys
          then so_far
          else record so_far {
            candidate_path_keys = (kind, path_key) ∷ so_far.candidate_path_keys;
            artifacts =
                so_far.artifacts
                ++ (record {
                  kind = kind;
                  path = c.path;
                  tenant_id = job.tenant_id;
                  job_id = job.job_id;
                  size_bytes = c.facts.size;
                  reference_time = reference;
                })
                  ∷ [];
          }

      unfoldable pub collect_expired_artifacts : List Slot → Collected → Collected
      unfolding candidate_of collect
      collect_expired_artifacts [] so_far = so_far
      collect_expired_artifacts (slot ∷ slots) so_far =
          collect_expired_artifacts slots (collect slot (candidate_of slot) so_far)

    unfoldable pub protected_in : List JobRecord → Keys
    unfolding collect_protected_artifact_paths slots
    protected_in jobs = collect_protected_artifact_paths (slots jobs) []

    unfoldable pub expired_in : List JobRecord → Collected
    unfolding collect_expired_artifacts slots protected_in
    expired_in jobs =
        collect_expired_artifacts (protected_in jobs) (slots jobs)
          (record { artifacts = []; retained_artifacts = 0; candidate_path_keys = [] })

  -- `path.parent.rmdir()`, which fails where something is left in the directory.
  unfoldable pub remove_empty_parent : String → Disk → Disk
  remove_empty_parent path disk =
      let inside = λ (p : String). str_eq (world.parent p) (world.parent path) in
      if any (λ f. inside f.0) disk.files || any inside disk.directories
      then disk
      else record disk { directories = without (world.parent path) disk.directories }
    where
      without : String → List String → List String
      without p [] = []
      without p (q ∷ qs) = let rest = without p qs in if str_eq q p then rest else q ∷ rest

  unfoldable pub delete_artifact : RetentionArtifact → Disk → Disk
  unfolding prune_empty_parent remove_empty_parent
  delete_artifact artifact disk =
      let deleted = record disk { files = Dict.remove artifact.path disk.files } in
      if prune_empty_parent artifact.kind
      then remove_empty_parent artifact.path deleted
      else deleted

  unfoldable pub delete_artifacts : List RetentionArtifact → Disk → Disk
  unfolding delete_artifact
  delete_artifacts [] disk = disk
  delete_artifacts (artifact ∷ artifacts) disk =
      delete_artifacts artifacts (delete_artifact artifact disk)

  -- Entries removed, entries remaining, and the cache after it.
  unfoldable pub prune_llm_cache : Option ℕ → Time → Bool → Entries → ℕ × ℕ × Entries
  prune_llm_cache none now dry_run entries = (0, 0, entries)
  prune_llm_cache (some ttl_seconds) now dry_run entries =
      let (r, after) = prune_expired microseconds entries now ttl_seconds dry_run in
      (r.removed_entries, r.remaining_entries, after)

  unfoldable pub recorded :
      Bool
      → Option String
      → RetentionRunResult
      → Option (List RetentionEvent)
      → Option (List RetentionEvent)
  recorded record_audit api_key_id result none = none
  recorded record_audit api_key_id result (some events) =
      if record_audit
      then some (
          events
          ++ (record { tenant_id = result.tenant_id; api_key_id = api_key_id; result = result })
            ∷ [])
      else some events

  module _ (policy : RetentionPolicy) (clock : Clock) where
    -- `_run`, once it has the jobs.
    unfoldable pub run_on :
        String
        → Bool
        → Option String
        → Bool
        → List JobRecord
        → Retention
        → RetentionRunResult × Retention
    unfolding protected_in expired_in delete_artifacts prune_llm_cache recorded
        llm_cache_ttl_seconds
    run_on tenant_id dry_run api_key_id record_audit jobs s =
        let protected_paths = protected_in policy clock.started s.disk jobs in
        let expired = expired_in policy clock.started s.disk jobs in
        let (removed, remaining, llm_cache) =
          prune_llm_cache (llm_cache_ttl_seconds policy) clock.pruned dry_run s.llm_cache in
        let result : RetentionRunResult = record {
          tenant_id = tenant_id;
          dry_run = dry_run;
          policy = policy;
          scanned_jobs = length jobs;
          protected_artifacts = length protected_paths;
          retained_artifacts = expired.retained_artifacts;
          artifacts = expired.artifacts;
          llm_cache_entries_removed = removed;
          llm_cache_entries_remaining = remaining;
          started_at = clock.started;
          finished_at = clock.finished;
        } in
        (
          result,
          record s {
            disk = if dry_run then s.disk else delete_artifacts expired.artifacts s.disk;
            llm_cache = llm_cache;
            audit = recorded record_audit api_key_id result s.audit;
          },
        )

    unfoldable pub run_listed :
        String
        → Bool
        → Option String
        → Bool
        → Result ServiceError (List JobRecord)
        → Retention
        → Result ServiceError RetentionRunResult × Retention
    unfolding run_on
    run_listed tenant_id dry_run api_key_id record_audit (err e) s = (err e, s)
    run_listed tenant_id dry_run api_key_id record_audit (ok jobs) s =
        let (result, s') = run_on tenant_id dry_run api_key_id record_audit jobs s in
        (ok result, s')

    unfoldable pub run :
        String
        → Bool
        → Option String
        → Bool
        → Retention
        → Result ServiceError RetentionRunResult × Retention
    unfolding run_listed
    run tenant_id dry_run api_key_id record_audit s =
        let resolved = world.jobs.canonicalize_tenant_id tenant_id in
        let (jobs, service) =
          list_jobs world.jobs clock.started (some resolved) false none s.service in
        run_listed resolved dry_run api_key_id record_audit jobs (record s { service = service })

    unfoldable pub inspect : String → Retention → Result ServiceError RetentionRunResult × Retention
    unfolding run
    inspect tenant_id = run tenant_id true none false

    unfoldable pub cleanup :
        String → Option String → Retention → Result ServiceError RetentionRunResult × Retention
    unfolding run
    cleanup tenant_id api_key_id = run tenant_id false api_key_id true
