-- ===== src/JobService/State.antt =====
-- The state of `JobService`, and the helpers that read and write it.
use validador_final.Prelude.{
  Bool, true, false, not, ◌||◌, List, [], ◌∷◌, ◌++◌, Option, none, some, if◌then◌else◌, String,
  str_eq, leb, Result, ok, err,
}
use validador_final.Prelude.Dict
use validador_final.Prelude.Dict.{values}
use validador_final.Prelude.Exec.{Exec, pure, raise, lift, gets, modify, ◌>>=◌, ◌>>◌}
use validador_final.Prelude.Sorting.{sort_by}
use validador_final.Json.{Value, null}
use validador_final.Job.{
  JobRecord, JobError, value_error, Time, JobStatus, running, status_eq, mark_canceled, Payload,
}
use validador_final.Operational.{Sql, Table, load_job, upsert_job}

pub data AuditEventType : Type 0 where
  job_created job_completed job_reprocessed : AuditEventType

-- The arguments of `AuditService.record_event`.
pub record AuditEvent : Type 0 where
  pub event_type : AuditEventType
  pub tenant_id : String
  pub job_id : String
  pub api_key_id : Option String
  pub details : Payload

-- Where the jobs outlive the process: nowhere, in a JSON file, or in the SQLite table.
pub data Storage : Type 0 where
  in_memory : Storage
  json_file : List JobRecord → Storage
  sqlite : Table → Storage

pub record Service : Type 0 where
  pub jobs : List (String × JobRecord)
  pub storage : Storage
  pub audit : Option (List AuditEvent)
  pub status_transitions : List (String × JobStatus)

-- What the service calls in modules that read files: the tenants and the database. An identifier that
-- names several tenants makes `canonicalize_tenant_id` raise; here it never does.
pub record World : Type 0 where
  pub canonicalize_tenant_id : String → String
  pub sql : Sql

pub data ServiceError : Type 0 where
  job_error : JobError → ServiceError
  job_not_found : String → ServiceError

abbrev pub Action : Type 0 → Type 0
Action A = Exec Service ServiceError A

-- `ValueError` of the service itself
abbrev pub invalid : String → ServiceError
invalid text = job_error (value_error text)

-- A method of the record that raises ends the method of the service.
abbrev pub of_job {ℓ} : {A : Type ℓ} → Result JobError A → Result ServiceError A
of_job (ok a) = ok a
of_job (err e) = err (job_error e)

unfoldable pub should_finalize_stale_cancellation : Time → JobRecord → Bool
should_finalize_stale_cancellation now job =
    if not (status_eq job.status running) || not job.cancel_requested
    then false
    else elim job.execution_expires_at [ none ↦ true | some expires ↦ leb expires now ]

unfoldable pub finalized : Result JobError JobRecord → Result JobError (JobRecord × Bool)
finalized (ok job) = ok (job, true)
finalized (err e) = err e

unfoldable pub finalize_cancellation : Time → Bool → JobRecord → Result JobError (JobRecord × Bool)
unfolding finalized
finalize_cancellation now updated job =
    if should_finalize_stale_cancellation now job
    then finalized (
        mark_canceled now
          (some "O cancelamento solicitado anteriormente foi finalizado ao recarregar o serviço.")
          job)
    else ok (job, updated)

unfoldable pub created_before : JobRecord → JobRecord → Bool
created_before a b = leb a.created_at b.created_at

-- The file that `_persist_jobs` writes.
unfoldable pub persisted : List (String × JobRecord) → Storage
unfolding created_before
persisted jobs = json_file (sort_by created_before (values jobs))

unfoldable pub persist : JobRecord → List (String × JobRecord) → Storage → Storage
unfolding persisted
persist job jobs in_memory = in_memory
persist job jobs (json_file content) = persisted jobs
persist job jobs (sqlite rows) = sqlite (upsert_job job rows)

-- The service after `_save_job_record`.
unfoldable pub saved : JobRecord → Service → Service
unfolding persist
saved job s =
    let jobs = Dict.put job.job_id job s.jobs in
    record s { jobs = jobs; storage = persist job jobs s.storage }

unfoldable pub save_job_record : JobRecord → Action (Unit {0})
unfolding saved
save_job_record job = modify (saved job)

-- `{key: value for key, value in details.items() if value is not None}`
unfoldable pub present : List (String × Option Value) → Payload
present [] = []
present ((k, none) ∷ details) = present details
present ((k, some null) ∷ details) = present details
present ((k, some v) ∷ details) = (k, v) ∷ present details

unfoldable pub recorded : AuditEvent → Option (List AuditEvent) → Option (List AuditEvent)
recorded event none = none
recorded event (some events) = some (events ++ event ∷ [])

unfoldable pub record_audit_event :
    AuditEventType → JobRecord → List (String × Option Value) → Action (Unit {0})
unfolding recorded present
record_audit_event event_type job details = modify (λ s. record s {
  audit =
      recorded
        (record {
          event_type = event_type;
          tenant_id = job.tenant_id;
          job_id = job.job_id;
          api_key_id = job.api_key_id;
          details = present details;
        })
        s.audit;
})

unfoldable pub record_job_status_transition : JobRecord → Action (Unit {0})
record_job_status_transition job = modify (λ s. record s {
  status_transitions = s.status_transitions ++ (job.tenant_id, job.status) ∷ [];
})

-- `self._jobs[job.job_id] = job`
unfoldable pub cache_job : JobRecord → Action (Unit {0})
cache_job job = modify (λ s. record s { jobs = Dict.put job.job_id job s.jobs })

unfoldable pub save_all : List JobRecord → Action (Unit {0})
save_all [] = pure tt
save_all (job ∷ jobs) = do save_job_record job; save_all jobs

module _ (world : World) (now : Time) where
  -- The job read back from a payload, and whether it was changed on the way.
  unfoldable pub hydrate_job : JobRecord → Result JobError (JobRecord × Bool)
  unfolding finalize_cancellation
  hydrate_job payload =
      let resolved_tenant_id = world.canonicalize_tenant_id payload.tenant_id in
      if not (str_eq payload.tenant_id resolved_tenant_id)
      then finalize_cancellation now true (record payload { tenant_id = resolved_tenant_id })
      else finalize_cancellation now false payload

  unfoldable pub load_found : String → Option JobRecord → Action (Option JobRecord)
  load_found job_id none = do modify (λ s. record s { jobs = Dict.remove job_id s.jobs }); pure none
  load_found job_id (some payload) = do
    (job, updated) ← lift (of_job (hydrate_job payload))
    cache_job job
    if updated then (do save_job_record job; pure (some job)) else pure (some job)

  unfoldable pub get_from : Storage → String → Action (Option JobRecord)
  unfolding load_found
  get_from (sqlite rows) job_id = load_found job_id (load_job job_id rows)
  get_from in_memory job_id = gets (λ s. Dict.get job_id s.jobs)
  get_from (json_file content) job_id = gets (λ s. Dict.get job_id s.jobs)

  unfoldable pub get_job : String → Action (Option JobRecord)
  unfolding get_from
  get_job job_id = do storage ← gets (λ s. s.storage); get_from storage job_id

  unfoldable pub required : String → Option JobRecord → Action JobRecord
  required job_id none = raise (job_not_found job_id)
  required job_id (some job) = pure job

  unfoldable pub get_or_raise : String → Action JobRecord
  unfolding required
  get_or_raise job_id = do found ← get_job job_id; required job_id found

  -- The loop of `list_jobs` over the payloads; the changed jobs are saved after it.
  unfoldable pub hydrate_all : List JobRecord → Action (List JobRecord × List JobRecord)
  hydrate_all [] = pure ([], [])
  hydrate_all (payload ∷ payloads) = do
    (job, updated) ← lift (of_job (hydrate_job payload))
    cache_job job
    (jobs, changed) ← hydrate_all payloads
    pure (job ∷ jobs, if updated then job ∷ changed else changed)
