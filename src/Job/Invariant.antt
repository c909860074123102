-- ===== src/Job/Invariant.antt =====
-- What holds of a job between two calls.
use validador_final.Prelude.{String, ◌≡◌, ◌⊎◌, Bool, true, false, Option, none, some, arith, ok}
use validador_final.Job.{
  Time, running, failed, status_eq, JobRecord, begin_execution, refresh_execution_lease,
  mark_completed, mark_failed, request_cancellation, mark_canceled, set_partial_result,
  set_progress, Payload,
}
use validador_final.Job.Calls.{Call, begin, call, new_job}

abbrev pub is_some {ℓ} : {A : Type ℓ} → Option A → Bool
is_some none = false
is_some (some a) = true

-- No worker holds the job, and no cancellation is under way.
pub record IsReleased (job : JobRecord) : Type 0 where
  pub no_owner : job.execution_owner_id ≡ none
  pub no_expiry : job.execution_expires_at ≡ none
  pub no_cancel : job.cancel_requested ≡ false

-- Only a running job is leased or being canceled, and exactly a failed job has an error message.
pub record IsValid (job : JobRecord) : Type 0 where
  pub released : (job.status ≡ running) ⊎ IsReleased job
  pub failed_error : is_some job.error_message ≡ status_eq job.status failed

pub new_job-IsValid :
    (job_id : String) (now : Time) (tenant_id : String)
    (api_key_id file_path file_name : Option String) (params : Payload)
    (parent_job_id : Option String)
    → IsValid (new_job job_id now tenant_id api_key_id file_path file_name params parent_job_id)
unfolding new_job
new_job-IsValid job_id now tenant_id api_key_id file_path file_name params parent_job_id =
    ground arith

-- Every call that returns keeps the invariant.
pub call-IsValid :
    (now : Time) (c : Call) (job job' : JobRecord)
    → IsValid job
    → call now c job ≡ ok job'
    → IsValid job'
unfolding call begin_execution refresh_execution_lease mark_completed mark_failed
    request_cancellation mark_canceled set_partial_result set_progress
call-IsValid now (begin owner expires) job job' v e = ground arith
call-IsValid now c job job' v e = ground arith
