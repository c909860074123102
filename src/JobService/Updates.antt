-- ===== src/JobService/Updates.antt =====
-- The methods that end a job, cancel it, report on it and link it to a new run.
use validador_final.Prelude.{
  ℕ, Bool, false, not, [], ◌∷◌, Option, none, some, if◌then◌else◌, String, str_eq,
}
use validador_final.Prelude.Dict
use validador_final.Prelude.Dict.{values}
use validador_final.Prelude.Exec.{pure, raise, lift, gets, ◌>>=◌, ◌>>◌}
use validador_final.Json.{Value}
use validador_final.Job.{
  JobRecord, Time, queued, running, canceled, status_eq, status_in, mark_canceled, mark_completed,
  mark_failed, request_cancellation, set_progress, set_partial_result, Completion, PartialResult,
}
use validador_final.JobService.State.{
  Storage, sqlite, World, Action, invalid, of_job, job_completed, job_reprocessed, save_job_record,
  record_audit_event, record_job_status_transition, get_or_raise,
}

abbrev pub number_value : ℕ → Option Value
number_value n = some (Value.number n)

module _ (world : World) (now : Time) where
  unfoldable pub complete_job : String → Completion → Action JobRecord
  complete_job job_id c = do
    job ← get_or_raise world now job_id
    done ← lift (of_job (mark_completed now c job))
    save_job_record done
    record_audit_event job_completed done (
        ("total_rows", number_value done.total_rows)
        ∷ ("source_total_rows", number_value done.source_total_rows)
        ∷ ("rows_with_issues", number_value done.rows_with_issues)
        ∷ ("total_issues", number_value done.total_issues)
        ∷ ("validation_scope", Dict.get "validation_scope" done.params)
        ∷ [])
    record_job_status_transition done
    pure done

  unfoldable pub fail_job : String → String → Action JobRecord
  fail_job job_id error_message = do
    job ← get_or_raise world now job_id
    stopped ← lift (of_job (mark_failed now error_message job))
    save_job_record stopped
    record_job_status_transition stopped
    pure stopped

  unfoldable pub request_job_cancellation : String → Action JobRecord
  request_job_cancellation job_id = do
    job ← get_or_raise world now job_id
    if status_eq job.status queued
        then (do
          stopped ← lift (
              of_job (
                mark_canceled now (some "O lote foi cancelado antes do início do processamento.")
                  job))
          save_job_record stopped
          record_job_status_transition stopped
          pure stopped)
        else if status_eq job.status running
        then (do
          flagged ← lift (of_job (request_cancellation now job))
          save_job_record flagged
          pure flagged)
        else if status_eq job.status canceled
        then pure job
        else raise (invalid "Only queued or running jobs can be canceled")

  unfoldable pub cancel_job : String → Option String → Action JobRecord
  cancel_job job_id detail = do
    job ← get_or_raise world now job_id
    if status_eq job.status canceled
        then pure job
        else if not (status_in job.status (queued ∷ running ∷ []))
        then raise (invalid "Only queued or running jobs can be canceled")
        else do
          stopped ← lift (of_job (mark_canceled now detail job))
          save_job_record stopped
          record_job_status_transition stopped
          pure stopped

  unfoldable pub update_progress : String → String → String → String → Action JobRecord
  update_progress job_id current_step status_title status_detail = do
    job ← get_or_raise world now job_id
    let job' = set_progress now current_step status_title status_detail job
    save_job_record job'
    pure job'

  -- `set_progress` runs only if all three texts are given.
  unfoldable pub with_progress :
      Option String → Option String → Option String → JobRecord → JobRecord
  with_progress (some step) (some title) (some detail) job = set_progress now step title detail job
  with_progress _ _ _ job = job

  unfoldable pub update_partial_result :
      String → PartialResult → Option String → Option String → Option String → Action JobRecord
  unfolding with_progress
  update_partial_result job_id p current_step status_title status_detail = do
    job ← get_or_raise world now job_id
    let job' = with_progress current_step status_title status_detail (set_partial_result now p job)
    save_job_record job'
    pure job'

  unfoldable pub save_found : String → Option JobRecord → Action JobRecord
  save_found job_id (some job) = do save_job_record job; pure job
  save_found job_id none = do job ← get_or_raise world now job_id; save_job_record job; pure job

  unfoldable pub save_job : String → Action JobRecord
  unfolding save_found
  save_job job_id = do found ← gets (λ s. Dict.get job_id s.jobs); save_found job_id found

  -- Without a database the two reads of one identifier give one object.
  unfoldable pub one_object : Storage → JobRecord → JobRecord → Bool
  one_object (sqlite rows) source fresh = false
  one_object _ source fresh = str_eq source.job_id fresh.job_id

  unfoldable pub linked_source : JobRecord → JobRecord → JobRecord
  linked_source source fresh = record source {
    latest_retry_job_id = some fresh.job_id;
    updated_at = now;
  }

  unfoldable pub linked_new : String → JobRecord → JobRecord
  linked_new source_job_id fresh = record fresh {
    parent_job_id = elim fresh.parent_job_id [
      | none ↦ some source_job_id
      | some parent ↦ some parent
    ];
  }

  unfoldable pub register_reprocess_link : String → String → Action JobRecord
  unfolding one_object linked_source linked_new
  register_reprocess_link source_job_id new_job_id = do
    source ← get_or_raise world now source_job_id
    fresh ← get_or_raise world now new_job_id
    same ← gets (λ s. one_object s.storage source fresh)
    if not (str_eq fresh.tenant_id source.tenant_id)
        then raise (invalid "Reprocess link must keep the same tenant for source and new job")
        else do
          let written = linked_source source fresh
          let fresh' = linked_new source.job_id (if same then written else fresh)
          let source' = if same then fresh' else written
          save_job_record fresh'
          save_job_record source'
          record_audit_event job_reprocessed source' (
              ("parent_job_id", some (Value.text source'.job_id))
              ∷ ("new_job_id", some (Value.text fresh'.job_id))
              ∷ [])
          pure source'
