-- ===== src/JobService/Execution.antt =====
-- Starting, claiming and keeping the execution of a job.
use validador_final.Prelude.{
  ℕ, Bool, false, not, ◌&&◌, ◌||◌, [], ◌∷◌, Option, none, some, if◌then◌else◌, String, leb, filter,
  head?,
}
use validador_final.Prelude.Dict
use validador_final.Prelude.Dict.{values}
use validador_final.Prelude.Exec.{pure, raise, lift, gets, modify, ◌>>=◌, ◌>>◌}
use validador_final.Prelude.Sorting.{sort_by}
use validador_final.Job.{
  JobRecord, Time, queued, running, completed, status_eq, status_in, begin_execution,
  refresh_execution_lease, foreign_owner,
}
use validador_final.Operational
use validador_final.Operational.{Sql, Table, load_jobs, lease_end, has_file}
use validador_final.JobService.State.{
  Storage, sqlite, World, Action, invalid, of_job, save_job_record, record_job_status_transition,
  cache_job, hydrate_job, get_or_raise,
}

-- The claimable jobs of a service without a database.
unfoldable pub claimable_in_memory : Time → JobRecord → Bool
claimable_in_memory now job =
    (status_eq job.status queued && has_file job.file_path)
    || (status_eq job.status running
        && elim job.execution_expires_at [ none ↦ false | some expires ↦ leb expires now ])

unfoldable pub replace_table : Table → Action (Unit {0})
replace_table rows = modify (λ s. record s { storage = sqlite rows })

module _ (now : Time) where
  unfoldable pub claim_memory : String → ℕ → Option JobRecord → Action (Option JobRecord)
  claim_memory worker_id lease_seconds none = pure none
  claim_memory worker_id lease_seconds (some job) = do
    started ←
        lift
          (of_job (begin_execution now (some worker_id) (some (lease_end now lease_seconds)) job))
    save_job_record started
    record_job_status_transition started
    pure (some started)

  -- The guards of `heartbeat_job_execution` on a service without a database.
  unfoldable pub heartbeat_memory : String → ℕ → Option JobRecord → Action (Option JobRecord)
  heartbeat_memory worker_id lease_seconds none = pure none
  heartbeat_memory worker_id lease_seconds (some job) =
      if not (status_eq job.status running)
      then pure none
      else if foreign_owner job.execution_owner_id worker_id
      then pure none
      else do
        renewed ←
            lift (of_job (refresh_execution_lease now worker_id (lease_end now lease_seconds) job))
        save_job_record renewed
        pure (some renewed)

module _ (world : World) (now : Time) where
  unfoldable pub start_job : String → Action JobRecord
  start_job job_id = do
    job ← get_or_raise world now job_id
    started ←
        lift (of_job (begin_execution now job.execution_owner_id job.execution_expires_at job))
    save_job_record started
    record_job_status_transition started
    pure started

  unfoldable pub begin_job_execution : String → Action JobRecord
  begin_job_execution job_id = do
    job ← get_or_raise world now job_id
    if status_in job.status (queued ∷ completed ∷ [])
        then start_job job_id
        else if not (status_eq job.status running)
        then raise (invalid "Only queued or running jobs can begin execution")
        else pure job

  unfoldable pub claim_sqlite : Option JobRecord → Action (Option JobRecord)
  claim_sqlite none = pure none
  claim_sqlite (some payload) = do
    (job, updated) ← lift (of_job (hydrate_job world now payload))
    cache_job job
    record_job_status_transition job
    pure (some job)

  unfoldable pub claim_from :
      (JobRecord → JobRecord → Bool) → Storage → String → ℕ → Action (Option JobRecord)
  unfolding claim_memory replace_table claim_sqlite claimable_in_memory
  claim_from key_le (sqlite rows) worker_id lease_seconds = do
    (claimed, rows') ←
        lift (of_job (Operational.claim_next_job world.sql now worker_id lease_seconds rows))
    replace_table rows'
    claim_sqlite claimed
  claim_from key_le _ worker_id lease_seconds = do
    jobs ← gets (λ s. filter (claimable_in_memory now) (values s.jobs))
    claim_memory now worker_id lease_seconds (head? (sort_by key_le jobs))

  -- `key_le` is the order of the key `(created_at, job_id)` in Python.
  unfoldable pub claim_next_job :
      (JobRecord → JobRecord → Bool) → String → ℕ → Action (Option JobRecord)
  unfolding claim_from
  claim_next_job key_le worker_id lease_seconds = do
    storage ← gets (λ s. s.storage)
    claim_from key_le storage worker_id lease_seconds

  unfoldable pub heartbeat_sqlite : Option JobRecord → Action (Option JobRecord)
  heartbeat_sqlite none = pure none
  heartbeat_sqlite (some payload) = do
    (job, updated) ← lift (of_job (hydrate_job world now payload))
    cache_job job
    pure (some job)

  unfoldable pub heartbeat_from : Storage → String → String → ℕ → Action (Option JobRecord)
  unfolding heartbeat_memory replace_table heartbeat_sqlite
  heartbeat_from (sqlite rows) job_id worker_id lease_seconds = do
    (renewed, rows') ←
        lift (of_job (Operational.heartbeat_job_execution now job_id worker_id lease_seconds rows))
    replace_table rows'
    heartbeat_sqlite renewed
  heartbeat_from _ job_id worker_id lease_seconds = do
    found ← gets (λ s. Dict.get job_id s.jobs)
    heartbeat_memory now worker_id lease_seconds found

  unfoldable pub heartbeat_job_execution : String → String → ℕ → Action (Option JobRecord)
  unfolding heartbeat_from
  heartbeat_job_execution job_id worker_id lease_seconds = do
    storage ← gets (λ s. s.storage)
    heartbeat_from storage job_id worker_id lease_seconds
