-- ===== src/Job/Fields.antt =====
-- What no call changes, and what each call needs.
use validador_final.Prelude.{
  String, ◌≡◌, refl, ◌↔◌, ◌⊎◌, inl, inr, Bool, true, false, Option, none, some, arith, Result, ok,
  err, str_eq_iff,
}
use validador_final.Job.{
  Time, JobStatus, running, failed, canceled, foreign_owner, JobError, JobRecord, begin_execution,
  refresh_execution_lease, mark_completed, mark_failed, request_cancellation, mark_canceled,
  set_partial_result, set_progress,
}
use validador_final.Job.Calls.{Call, begin, call}

-- The two records describe the same upload.
pub record SameUpload (job job' : JobRecord) : Type 0 where
  pub job_id : job'.job_id ≡ job.job_id
  pub tenant_id : job'.tenant_id ≡ job.tenant_id
  pub api_key_id : job'.api_key_id ≡ job.api_key_id
  pub file_path : job'.file_path ≡ job.file_path
  pub file_name : job'.file_name ≡ job.file_name
  pub params : job'.params ≡ job.params
  pub created_at : job'.created_at ≡ job.created_at
  pub parent_job_id : job'.parent_job_id ≡ job.parent_job_id
  pub latest_retry_job_id : job'.latest_retry_job_id ≡ job.latest_retry_job_id

-- Every call on a job that returns stamps the record with its time and keeps what identifies the
-- upload.
pub call-SameUpload :
    (now : Time) (c : Call) (job job' : JobRecord)
    → call now c job ≡ ok job'
    → SameUpload job job' × (job'.updated_at ≡ now)
unfolding call begin_execution refresh_execution_lease mark_completed mark_failed
    request_cancellation mark_canceled set_partial_result set_progress
call-SameUpload now (begin owner expires) job job' e = ground arith
call-SameUpload now c job job' e = ground arith

foreign_owner_iff :
    (o : Option String) (worker : String)
    → (foreign_owner o worker ≡ false) ↔ ((o ≡ none) ⊎ (o ≡ some worker))
foreign_owner_iff none worker = (λ h. inl refl, λ h. refl)
foreign_owner_iff (some owner) worker = (
  λ h. inr (ground (arith, str_eq_iff owner worker)),
  λ h. ground (arith, str_eq_iff owner worker),
)

-- A lease is renewed exactly for a running job that nobody holds, or that the caller holds; only
-- the lease and the time are written.
pub refresh_execution_lease_iff :
    (now expires : Time) (worker : String) (job job' : JobRecord)
    → (refresh_execution_lease now worker expires job ≡ ok job') ↔ (
        (job.status ≡ running)
        × ((job.execution_owner_id ≡ none) ⊎ (job.execution_owner_id ≡ some worker))
        × (job' ≡ record job {
          execution_owner_id = some worker;
          execution_expires_at = some expires;
          updated_at = now;
        }))
unfolding refresh_execution_lease
refresh_execution_lease_iff now expires worker job job' = (
  λ e. ground (arith, foreign_owner_iff job.execution_owner_id worker),
  λ h. ground (arith, foreign_owner_iff job.execution_owner_id worker),
)

-- The record `job'` is `job` at the start of an execution: leased to the owner, its counters, its
-- error, its partial results and a request to cancel it cleared.
pub record IsBegun (owner : Option String) (expires : Option Time) (job job' : JobRecord)
    : Type 0 where
  pub same_job : job'.job_id ≡ job.job_id
  pub now_running : job'.status ≡ running
  pub owned : job'.execution_owner_id ≡ owner
  pub expiry : job'.execution_expires_at ≡ expires
  pub no_cancel : job'.cancel_requested ≡ false
  pub no_error : job'.error_message ≡ none
  pub no_rows : job'.total_rows ≡ 0
  pub nothing_processed : job'.processed_rows ≡ 0
  pub no_partial : job'.is_partial_result_available ≡ false

abbrev pub is_startable : JobStatus → Bool
is_startable failed = false
is_startable canceled = false
is_startable _ = true

-- From the statuses queued, running and completed an execution begins, leased to the owner, with
-- its counters, its error, its partial results and a request to cancel it cleared.
pub begin_execution-IsBegun :
    (now : Time) (owner : Option String) (expires : Option Time) (job : JobRecord)
    → is_startable job.status ≡ true
    → (job' : JobRecord) × (begin_execution now owner expires job ≡ ok job')
      × IsBegun owner expires job job'
unfolding begin_execution
begin_execution-IsBegun now owner expires job h =
    returned (begin_execution now owner expires job) refl
  where
    returned :
        (r : Result JobError JobRecord)
        → begin_execution now owner expires job ≡ r
        → (job' : JobRecord) × (r ≡ ok job') × IsBegun owner expires job job'
    returned (ok job') e = (job', refl, ground arith)
    returned (err x) e = absurd (ground arith)
