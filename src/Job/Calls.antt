-- ===== src/Job/Calls.antt =====
-- The calls that change a job, as data, so that statements can range over sequences of them.
use validador_final.Prelude.{String, false, List, [], ◌∷◌, Option, none, some, Result, ok, err}
use validador_final.Job.{
  Time, queued, JobError, JobRecord, Payload, Completion, PartialResult, begin_execution,
  refresh_execution_lease, mark_completed, mark_failed, request_cancellation, mark_canceled,
  set_partial_result, set_progress,
}

pub data Call : Type 0 where
  begin : Option String → Option Time → Call
  refresh : String → Time → Call
  complete : Completion → Call
  fail : String → Call
  request_cancel : Call
  cancel : Option String → Call
  partial : PartialResult → Call
  progress : String → String → String → Call

unfoldable pub call : Time → Call → JobRecord → Result JobError JobRecord
call now (begin owner expires) job = begin_execution now owner expires job
call now (refresh owner expires) job = refresh_execution_lease now owner expires job
call now (complete c) job = mark_completed now c job
call now (fail message) job = mark_failed now message job
call now request_cancel job = request_cancellation now job
call now (cancel detail) job = mark_canceled now detail job
call now (partial p) job = ok (set_partial_result now p job)
call now (progress step title detail) job = ok (set_progress now step title detail job)

-- A call that raises leaves the record as it was.
abbrev pub after : JobRecord → Result JobError JobRecord → JobRecord
after job (ok job') = job'
after job (err e) = job

unfoldable pub run : JobRecord → List (Time × Call) → JobRecord
run job [] = job
run job ((now, c) ∷ calls) = run (after job (call now c job)) calls

-- The defaults of `JobRecord`; the identifier and the time come from outside.
unfoldable pub new_job :
    String
    → Time
    → String
    → Option String
    → Option String
    → Option String
    → Payload
    → Option String
    → JobRecord
new_job job_id now tenant_id api_key_id file_path file_name params parent_job_id = record {
  job_id = job_id;
  tenant_id = tenant_id;
  api_key_id = api_key_id;
  status = queued;
  file_path = file_path;
  file_name = file_name;
  result_path = none;
  report_path = none;
  parent_job_id = parent_job_id;
  latest_retry_job_id = none;
  total_rows = 0;
  source_total_rows = 0;
  rows_with_issues = 0;
  total_issues = 0;
  processed_rows = 0;
  batch_size = 0;
  params = params;
  created_at = now;
  updated_at = now;
  error_message = none;
  cancel_requested = false;
  execution_owner_id = none;
  execution_expires_at = none;
  partial_summary = [];
  is_partial_result_available = false;
  partial_grouped_problems = [];
  partial_duplicates = [];
  row_results_preview = [];
  current_step = some "file_received";
  status_title = some "Arquivo recebido";
  status_detail = some "O lote foi recebido e aguarda processamento.";
}
