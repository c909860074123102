-- ===== src/JobService/Queries.antt =====
-- `create_job` and `list_jobs`.
use validador_final.Prelude.{
  ℕ, Bool, ◌||◌, List, [], ◌∷◌, Option, none, some, if◌then◌else◌, String, str_eq, leb, filter,
  take,
}
use validador_final.Prelude.Dict
use validador_final.Prelude.Dict.{values}
use validador_final.Prelude.Exec.{pure, gets, modify, ◌>>=◌, ◌>>◌}
use validador_final.Prelude.Sorting.{sort_by}
use validador_final.Json.{Value}
use validador_final.Job.{JobRecord, Time, queued, running, status_in, Payload}
use validador_final.Job.Calls.{new_job}
use validador_final.Operational.{Table, upsert_job, load_jobs}
use validador_final.JobService.State.{
  Storage, in_memory, json_file, sqlite, World, Action, job_created, save_job_record,
  record_audit_event, record_job_status_transition, hydrate_all, save_all, persisted,
}

-- The arguments of `create_job`.
pub record NewJob : Type 0 where
  pub tenant_id : String
  pub file_path : Option String
  pub file_name : Option String
  pub api_key_id : Option String
  pub params : Payload
  pub parent_job_id : Option String

abbrev pub text_value : Option String → Option Value
text_value none = none
text_value (some t) = some (Value.text t)

-- `j.status in (QUEUED, RUNNING) or j.cancel_requested`
unfoldable pub is_active : JobRecord → Bool
is_active j = status_in j.status (queued ∷ running ∷ []) || j.cancel_requested

unfoldable pub newest_first : JobRecord → JobRecord → Bool
newest_first a b = leb b.created_at a.created_at

unfoldable pub at_most : Option ℕ → List JobRecord → List JobRecord
at_most none jobs = jobs
at_most (some limit) jobs = take limit jobs

unfoldable pub upsert_all : List JobRecord → Table → Table
upsert_all [] rows = rows
upsert_all (job ∷ jobs) rows = upsert_all jobs (upsert_job job rows)

module _ (world : World) (now : Time) where
  -- `job_id` is the identifier that `uuid4` gives.
  unfoldable pub create_job : String → NewJob → Action JobRecord
  create_job job_id n = do
    let job =
        new_job job_id now (world.canonicalize_tenant_id n.tenant_id) n.api_key_id n.file_path
          n.file_name n.params n.parent_job_id
    save_job_record job
    record_audit_event job_created job (
        ("file_name", text_value job.file_name)
        ∷ ("validation_scope", Dict.get "validation_scope" job.params)
        ∷ ("parent_job_id", text_value job.parent_job_id)
        ∷ [])
    record_job_status_transition job
    pure job

  unfoldable pub all_jobs : Storage → Action (List JobRecord)
  all_jobs (sqlite rows) = do
    (jobs, changed) ← hydrate_all world now (load_jobs world.sql rows)
    save_all changed
    pure jobs
  all_jobs _ = gets (λ s. values s.jobs)

  unfoldable pub of_tenant : Option String → List JobRecord → List JobRecord
  of_tenant none jobs = jobs
  of_tenant (some tenant_id) jobs =
      filter (λ j. str_eq j.tenant_id (world.canonicalize_tenant_id tenant_id)) jobs

  -- What `list_jobs` returns of the jobs that it has read.
  unfoldable pub listed : Option String → Bool → Option ℕ → List JobRecord → List JobRecord
  unfolding of_tenant is_active newest_first at_most
  listed tenant_id active_only limit jobs =
      let mine = of_tenant tenant_id jobs in
      at_most limit (sort_by newest_first (if active_only then filter is_active mine else mine))

  unfoldable pub list_jobs : Option String → Bool → Option ℕ → Action (List JobRecord)
  unfolding all_jobs
  list_jobs tenant_id active_only limit = do
    storage ← gets (λ s. s.storage)
    jobs ← all_jobs storage
    pure (listed tenant_id active_only limit jobs)

  -- The payloads that `_load_jobs` reads.
  unfoldable pub payloads_of : Storage → List JobRecord
  payloads_of in_memory = []
  payloads_of (json_file content) = content
  payloads_of (sqlite rows) = load_jobs world.sql rows

  -- The jobs that were changed on the way in are written back.
  unfoldable pub written_back : List JobRecord → List (String × JobRecord) → Storage → Storage
  written_back changed jobs in_memory = in_memory
  written_back [] jobs (json_file content) = json_file content
  written_back (job ∷ changed) jobs (json_file content) = persisted jobs
  written_back changed jobs (sqlite rows) = sqlite (upsert_all changed rows)

  -- The service over a storage that is there already, as `_load_jobs` builds it.
  unfoldable pub load_service : Action (Unit {0})
  unfolding payloads_of written_back upsert_all
  load_service = do
    storage ← gets (λ s. s.storage)
    modify (λ s. record s { jobs = [] })
    (jobs, changed) ← hydrate_all world now (payloads_of storage)
    modify (λ s. record s { storage = written_back changed s.jobs s.storage })
