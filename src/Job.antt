-- ===== src/Job.antt =====
-- app/core/job.py: the record of a validation job and its state machine. A method that mutates
-- the record returns the new one, or raises before it has written anything. `now` is the reading
-- of the clock that the method leaves in `updated_at`; times are numbers of microseconds.
pub mod Calls
pub mod Edges
pub mod Invariant
pub mod Runs
pub mod Fields
use validador_final.Prelude.{
  ℕ, zero, suc, String, ◌≡◌, Bool, true, false, not, ◌&&◌, ◌||◌, List, [], ◌∷◌, Option, none, some,
  if◌then◌else◌, str_eq, Result, ok, err, ◌>>=◌,
}
use validador_final.Prelude.Text.{truthy}
use validador_final.Json
use validador_final.Json.{Value, is_nonempty, is_true}

pub data JobStatus : Type 0 where
  queued running completed failed canceled : JobStatus

-- What a method raises: `ValueError` with the two statuses, or with its text.
pub data JobError : Type 0 where
  invalid_transition : JobStatus → JobStatus → JobError
  value_error : String → JobError

abbrev pub Time : Type 0
Time = ℕ

-- `dict[str, Any]`, in insertion order
abbrev pub Payload : Type 0
Payload = List (String × Value)

pub record JobRecord : Type 0 where
  pub job_id : String
  pub tenant_id : String
  pub api_key_id : Option String
  pub status : JobStatus
  pub file_path : Option String
  pub file_name : Option String
  pub result_path : Option String
  pub report_path : Option String
  pub parent_job_id : Option String
  pub latest_retry_job_id : Option String
  pub total_rows : ℕ
  pub source_total_rows : ℕ
  pub rows_with_issues : ℕ
  pub total_issues : ℕ
  pub processed_rows : ℕ
  pub batch_size : ℕ
  pub params : Payload
  pub created_at : Time
  pub updated_at : Time
  pub error_message : Option String
  pub cancel_requested : Bool
  pub execution_owner_id : Option String
  pub execution_expires_at : Option Time
  pub partial_summary : Payload
  pub is_partial_result_available : Bool
  pub partial_grouped_problems : List (String × List Payload)
  pub partial_duplicates : List Payload
  pub row_results_preview : List Payload
  pub current_step : Option String
  pub status_title : Option String
  pub status_detail : Option String

abbrev pub status_eq : JobStatus → JobStatus → Bool
status_eq queued queued = true
status_eq running running = true
status_eq completed completed = true
status_eq failed failed = true
status_eq canceled canceled = true
status_eq _ _ = false

-- `status in statuses`
abbrev pub status_in : JobStatus → List JobStatus → Bool
status_in s [] = false
status_in s (t ∷ ts) = status_eq s t || status_in s ts

-- `text or default`
abbrev pub text_or : Option String → String → String
text_or none d = d
text_or (some t) d = if truthy t then t else d

-- `value if value is not None else old`
abbrev pub given_or {ℓ} : {A : Type ℓ} → Option A → A → A
given_or none a = a
given_or (some b) a = b

-- `if value is not None: self.field = value`, for a field that may itself be None
abbrev pub given_else {ℓ} : {A : Type ℓ} → Option A → Option A → Option A
given_else none a = a
given_else (some b) a = some b

-- The dictionary in `transition_to`.
abbrev pub valid_transitions : JobStatus → List JobStatus
valid_transitions queued = running ∷ failed ∷ canceled ∷ []
valid_transitions running = completed ∷ failed ∷ canceled ∷ []
valid_transitions completed = running ∷ []
valid_transitions failed = []
valid_transitions canceled = []

unfoldable pub transition_to : Time → JobStatus → JobRecord → Result JobError JobRecord
transition_to now new_status job =
    if not (status_in new_status (valid_transitions job.status))
    then err (invalid_transition job.status new_status)
    else ok (record job { status = new_status; updated_at = now })

unfoldable pub set_progress : Time → String → String → String → JobRecord → JobRecord
set_progress now step title detail job = record job {
  current_step = some step;
  status_title = some title;
  status_detail = some detail;
  updated_at = now;
}

unfoldable pub clear_partial_preview : Bool → JobRecord → JobRecord
clear_partial_preview reset_progress_metrics job = record job {
  processed_rows = if reset_progress_metrics then 0 else job.processed_rows;
  batch_size = if reset_progress_metrics then 0 else job.batch_size;
  partial_summary = [];
  is_partial_result_available = false;
  partial_grouped_problems = [];
  partial_duplicates = [];
  row_results_preview = [];
}

-- The three branches on the status that open `begin_execution`.
enter_running : Time → JobRecord → Result JobError JobRecord
unfolding transition_to
enter_running now job =
    if status_in job.status (queued ∷ completed ∷ [])
    then transition_to now running job
    else if status_eq job.status running
    then ok (record job { updated_at = now })
    else transition_to now running job

unfoldable pub begin_execution :
    Time → Option String → Option Time → JobRecord → Result JobError JobRecord
unfolding enter_running clear_partial_preview set_progress
begin_execution now execution_owner_id execution_expires_at job = do
  started ← enter_running now job
  let cleared = clear_partial_preview true (record started {
    total_rows = 0;
    source_total_rows = 0;
    rows_with_issues = 0;
    total_issues = 0;
    error_message = none;
    cancel_requested = false;
    execution_owner_id = execution_owner_id;
    execution_expires_at = execution_expires_at;
  })
  ok (
      set_progress now "reading_lot" "Leitura do lote em andamento"
        "O arquivo está sendo lido e preparado para validação." cleared)

-- `self.execution_owner_id not in (None, execution_owner_id)`
abbrev pub foreign_owner : Option String → String → Bool
foreign_owner none worker = false
foreign_owner (some owner) worker = not (str_eq owner worker)

unfoldable pub refresh_execution_lease :
    Time → String → Time → JobRecord → Result JobError JobRecord
refresh_execution_lease now execution_owner_id execution_expires_at job =
    if not (status_eq job.status running)
    then err (value_error "Execution lease can only be refreshed for running jobs")
    else if foreign_owner job.execution_owner_id execution_owner_id
    then err (value_error "Execution lease can only be refreshed by the active owner")
    else ok (record job {
      execution_owner_id = some execution_owner_id;
      execution_expires_at = some execution_expires_at;
      updated_at = now;
    })

-- The arguments of `mark_completed`.
pub record Completion : Type 0 where
  pub result_path : Option String
  pub report_path : Option String
  pub total_rows : ℕ
  pub source_total_rows : Option ℕ
  pub rows_with_issues : ℕ
  pub total_issues : ℕ

unfoldable pub mark_completed : Time → Completion → JobRecord → Result JobError JobRecord
unfolding transition_to clear_partial_preview set_progress
mark_completed now c job = do
  done ← transition_to now completed job
  let filled = record done {
    result_path = given_else c.result_path done.result_path;
    report_path = given_else c.report_path done.report_path;
    total_rows = c.total_rows;
    source_total_rows = given_or c.source_total_rows done.source_total_rows;
    rows_with_issues = c.rows_with_issues;
    total_issues = c.total_issues;
    processed_rows = c.total_rows;
    error_message = none;
    cancel_requested = false;
    execution_owner_id = none;
    execution_expires_at = none;
  }
  ok (
      set_progress now "report_ready" "Relatório pronto"
        "O resumo executivo, os dados estruturados e o PDF estão disponíveis para consulta."
        (clear_partial_preview false filled))

unfoldable pub mark_failed : Time → String → JobRecord → Result JobError JobRecord
unfolding transition_to clear_partial_preview set_progress
mark_failed now error_message job = do
  stopped ← transition_to now failed job
  let released = record stopped {
    error_message = some error_message;
    cancel_requested = false;
    execution_owner_id = none;
    execution_expires_at = none;
  }
  ok (
      set_progress now "failed" "Falha no processamento"
        (text_or (some error_message) "Não foi possível concluir o processamento do lote.")
        (clear_partial_preview false released))

unfoldable pub request_cancellation : Time → JobRecord → Result JobError JobRecord
unfolding set_progress
request_cancellation now job =
    if not (status_eq job.status running)
    then err (value_error "Cancellation can only be requested for jobs that are running")
    else ok (
        set_progress now (text_or job.current_step "reading_lot") "Cancelamento solicitado"
          "O lote será interrompido assim que a etapa segura atual terminar."
          (record job { cancel_requested = true; updated_at = now }))

unfoldable pub mark_canceled : Time → Option String → JobRecord → Result JobError JobRecord
unfolding transition_to clear_partial_preview set_progress
mark_canceled now detail job = do
  stopped ← transition_to now canceled job
  let released = record stopped {
    error_message = none;
    cancel_requested = false;
    execution_owner_id = none;
    execution_expires_at = none;
  }
  ok (
      set_progress now (text_or released.current_step "file_received") "Processamento cancelado"
        (text_or detail "O lote foi cancelado a pedido do usuário.")
        (clear_partial_preview false released))

-- The arguments of `set_partial_result`.
pub record PartialResult : Type 0 where
  pub total_rows : ℕ
  pub source_total_rows : Option ℕ
  pub processed_rows : ℕ
  pub batch_size : ℕ
  pub partial_summary : Option Payload
  pub partial_grouped_problems : Option (List (String × List Payload))
  pub partial_duplicates : Option (List Payload)
  pub row_results_preview : Option (List Payload)
  pub is_partial_result_available : Option Bool

-- `bool(partial_summary.get("processed_rows", 0) or partial_summary or …)`
unfoldable pub has_partial_result : JobRecord → Bool
has_partial_result job =
    is_true (given_or (Json.get "processed_rows" job.partial_summary) (Value.number 0))
    || is_nonempty job.partial_summary
    || is_nonempty job.partial_grouped_problems
    || is_nonempty job.partial_duplicates
    || is_nonempty job.row_results_preview

unfoldable pub set_partial_result : Time → PartialResult → JobRecord → JobRecord
unfolding has_partial_result
set_partial_result now p job =
    let filled = record job {
      total_rows = p.total_rows;
      source_total_rows = given_or p.source_total_rows job.source_total_rows;
      processed_rows = p.processed_rows;
      batch_size = p.batch_size;
      partial_summary = given_or p.partial_summary job.partial_summary;
      partial_grouped_problems = given_or p.partial_grouped_problems job.partial_grouped_problems;
      partial_duplicates = given_or p.partial_duplicates job.partial_duplicates;
      row_results_preview = given_or p.row_results_preview job.row_results_preview;
    } in
    record filled {
      is_partial_result_available =
          given_or p.is_partial_result_available (has_partial_result filled);
      updated_at = now;
    }
