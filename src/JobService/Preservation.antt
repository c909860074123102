-- ===== src/JobService/Preservation.antt =====
-- The methods of the service, one by one and in any sequence, keep every job valid.
use validador_final.Prelude.{Option, none, some, String}
use validador_final.Prelude.Exec.{Keeps, Keeps-pure, Keeps-raise, Keeps-gets, Keeps-if, Keeps-bind}
use validador_final.Job.{JobRecord, Time, Completion, PartialResult}
use validador_final.Job.Invariant.{IsValid, new_job-IsValid}
use validador_final.JobService.State.{World}
use validador_final.JobService.Queries.{NewJob, create_job}
use validador_final.JobService.Updates.{
  complete_job, fail_job, request_job_cancellation, cancel_job, update_progress,
  update_partial_result, save_found, save_job, register_reprocess_link,
}
use validador_final.JobService.Execution.{start_job, begin_job_execution}
use validador_final.JobService.Validity.{
  HasValidJobs, OptionIsValid, get-IsValid, save_job_record-HasValidJobs, get_or_raise-HasValidJobs,
}
use validador_final.JobService.Steps.{
  bind_job, bind_unit, record_audit_event-HasValidJobs, record_transition-HasValidJobs,
  progress-IsValid, partial-IsValid, with_progress-IsValid, linked_source-IsValid,
  linked_new-IsValid, IsValid-if, keeps_rules, bind_test, saved_and_returned,
}

module _ (world : World) (now : Time) where
  pub create_job-HasValidJobs :
      (id : String) (n : NewJob) → Keeps HasValidJobs IsValid (create_job world now id n)
  unfolding create_job
  create_job-HasValidJobs id n =
      let v =
        new_job-IsValid id now (world.canonicalize_tenant_id n.tenant_id) n.api_key_id n.file_path
          n.file_name n.params n.parent_job_id in
      bind_unit _ _ (save_job_record-HasValidJobs _ v) λ _.
        bind_unit _ _ (record_audit_event-HasValidJobs _ _ _)
          λ _. bind_unit _ _ (record_transition-HasValidJobs _) (λ _. Keeps-pure _ v)

  pub start_job-HasValidJobs : (id : String) → Keeps HasValidJobs IsValid (start_job world now id)
  unfolding start_job
  start_job-HasValidJobs id = search keeps_rules depth 9

  pub begin_job_execution-HasValidJobs :
      (id : String) → Keeps HasValidJobs IsValid (begin_job_execution world now id)
  unfolding begin_job_execution
  begin_job_execution-HasValidJobs id = search (keeps_rules, start_job-HasValidJobs) depth 9

  pub complete_job-HasValidJobs :
      (id : String) (c : Completion) → Keeps HasValidJobs IsValid (complete_job world now id c)
  unfolding complete_job
  complete_job-HasValidJobs id c = search keeps_rules depth 9

  pub fail_job-HasValidJobs :
      (id message : String) → Keeps HasValidJobs IsValid (fail_job world now id message)
  unfolding fail_job
  fail_job-HasValidJobs id message = search keeps_rules depth 9

  pub request_job_cancellation-HasValidJobs :
      (id : String) → Keeps HasValidJobs IsValid (request_job_cancellation world now id)
  unfolding request_job_cancellation
  request_job_cancellation-HasValidJobs id = search keeps_rules depth 9

  pub cancel_job-HasValidJobs :
      (id : String) (detail : Option String)
      → Keeps HasValidJobs IsValid (cancel_job world now id detail)
  unfolding cancel_job
  cancel_job-HasValidJobs id detail = search keeps_rules depth 9

  pub update_progress-HasValidJobs :
      (id step title detail : String)
      → Keeps HasValidJobs IsValid (update_progress world now id step title detail)
  unfolding update_progress
  update_progress-HasValidJobs id step title detail =
      bind_job _ _ (get_or_raise-HasValidJobs world now id)
        (λ job v. saved_and_returned _ (progress-IsValid now step title detail job v))

  pub update_partial_result-HasValidJobs :
      (id : String) (p : PartialResult) (step title detail : Option String)
      → Keeps HasValidJobs IsValid (update_partial_result world now id p step title detail)
  unfolding update_partial_result
  update_partial_result-HasValidJobs id p step title detail =
      bind_job _ _ (get_or_raise-HasValidJobs world now id) λ job v.
        saved_and_returned _
          (with_progress-IsValid world now step title detail _ (partial-IsValid now p job v))

  pub register_reprocess_link-HasValidJobs :
      (source fresh : String)
      → Keeps HasValidJobs IsValid (register_reprocess_link world now source fresh)
  unfolding register_reprocess_link
  register_reprocess_link-HasValidJobs source fresh =
      bind_job _ _ (get_or_raise-HasValidJobs world now source) λ job v.
        bind_job _ _ (get_or_raise-HasValidJobs world now fresh) λ job' v'. bind_test _ _ λ same.
          let w = linked_source-IsValid world now job job' v in
          let f = linked_new-IsValid world now job.job_id _ (IsValid-if same _ _ w v') in
          let l = IsValid-if same _ _ f w in
          Keeps-if _ _ _ (Keeps-raise _) (
            bind_unit _ _ (save_job_record-HasValidJobs _ f) λ _.
              bind_unit _ _ (save_job_record-HasValidJobs _ l)
                λ _. bind_unit _ _ (record_audit_event-HasValidJobs _ _ _) (λ _. Keeps-pure _ l))

  pub save_found-HasValidJobs :
      (id : String) (o : Option JobRecord)
      → OptionIsValid o
      → Keeps HasValidJobs IsValid (save_found world now id o)
  unfolding save_found
  save_found-HasValidJobs id none v = search keeps_rules depth 9
  save_found-HasValidJobs id (some job) v = search keeps_rules depth 9

  pub save_job-HasValidJobs : (id : String) → Keeps HasValidJobs IsValid (save_job world now id)
  unfolding save_job
  save_job-HasValidJobs id =
      Keeps-bind {Q = OptionIsValid} _ _ (Keeps-gets _ (λ s h. get-IsValid id s.jobs h.cached))
        (λ o v. save_found-HasValidJobs id o v)
