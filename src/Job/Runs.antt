-- ===== src/Job/Runs.antt =====
-- What holds of a job after any sequence of calls, those that raise included.
use validador_final.Prelude.{
  ◌≡◌, refl, ◌⊎◌, ◌≢◌, inl, inr, Bool, true, false, ◌||◌, ◌&&◌, List, [], ◌∷◌, arith, Result, ok,
  err,
}
use validador_final.Job.{
  Time, JobStatus, running, completed, failed, canceled, JobError, JobRecord, begin_execution,
  refresh_execution_lease, mark_completed, mark_failed, request_cancellation, mark_canceled,
  set_partial_result, set_progress,
}
use validador_final.Job.Calls.{
  Call, begin, refresh, complete, fail, request_cancel, cancel, partial, progress, call, run, after,
}
use validador_final.Job.Invariant.{IsValid, call-IsValid}

after-IsValid :
    (now : Time) (c : Call) (job : JobRecord) (r : Result JobError JobRecord)
    → call now c job ≡ r
    → IsValid job
    → IsValid (after job r)
after-IsValid now c job (ok job') e v = call-IsValid now c job job' v e
after-IsValid now c job (err x) e v = v

-- From a valid job, any calls in any order, those that raise included, lead to a valid job.
pub run-IsValid :
    (job : JobRecord) (calls : List (Time × Call)) → IsValid job → IsValid (run job calls)
unfolding run
run-IsValid job [] v = v
run-IsValid job ((now, c) ∷ calls) v =
    run-IsValid (after job (call now c job)) calls (after-IsValid now c job (call now c job) refl v)

abbrev pub is_terminal : JobStatus → Bool
is_terminal failed = true
is_terminal canceled = true
is_terminal _ = false

-- A call that is refused for every job whose status is terminal.
abbrev pub moves_status : Call → Bool
moves_status (partial p) = false
moves_status (progress step title detail) = false
moves_status _ = true

-- A failed or canceled job refuses every call but a report of progress or of a partial result.
pub terminal_refuses :
    (now : Time) (c : Call) (job : JobRecord)
    → is_terminal job.status ≡ true
    → moves_status c ≡ true
    → (e : JobError) × (call now c job ≡ err e)
unfolding call begin_execution refresh_execution_lease mark_completed mark_failed
    request_cancellation mark_canceled
terminal_refuses now (begin owner expires) job t m =
    (JobError.invalid_transition job.status running, ground arith)
terminal_refuses now (refresh owner expires) job t m =
    (JobError.value_error "Execution lease can only be refreshed for running jobs", ground arith)
terminal_refuses now (complete x) job t m =
    (JobError.invalid_transition job.status completed, ground arith)
terminal_refuses now (fail x) job t m =
    (JobError.invalid_transition job.status failed, ground arith)
terminal_refuses now request_cancel job t m = (
  JobError.value_error "Cancellation can only be requested for jobs that are running",
  ground arith,
)
terminal_refuses now (cancel x) job t m =
    (JobError.invalid_transition job.status canceled, ground arith)
terminal_refuses now (partial p) job t m = cc
terminal_refuses now (progress a b d) job t m = cc

after_terminal :
    (now : Time) (c : Call) (job : JobRecord)
    → is_terminal job.status ≡ true
    → ((after job (call now c job)).status ≡ job.status)
      × ((after job (call now c job)).error_message ≡ job.error_message)
unfolding call begin_execution refresh_execution_lease mark_completed mark_failed
    request_cancellation mark_canceled set_partial_result set_progress
after_terminal now (begin owner expires) job t = ground arith
after_terminal now c job t = ground arith

-- Nothing leads out of failure or cancellation: whatever is called, status and error stay.
pub run_terminal :
    (job : JobRecord) (calls : List (Time × Call))
    → is_terminal job.status ≡ true
    → ((run job calls).status ≡ job.status) × ((run job calls).error_message ≡ job.error_message)
unfolding run
run_terminal job [] t = (refl, refl)
run_terminal job ((now, c) ∷ calls) t =
    let job' = after job (call now c job) in
    ground (arith, after_terminal now c job t, run_terminal job' calls)

abbrev pub is_begin : Call → Bool
is_begin (begin owner expires) = true
is_begin _ = false

abbrev pub is_complete : Call → Bool
is_complete (complete c) = true
is_complete _ = false

-- Some call completes the job.
abbrev pub completes : List (Time × Call) → Bool
completes [] = false
completes ((now, c) ∷ calls) = is_complete c || completes calls

-- Some call begins the execution, and a later one completes the job.
abbrev pub begins_then_completes : List (Time × Call) → Bool
begins_then_completes [] = false
begins_then_completes ((now, c) ∷ calls) =
    (is_begin c && completes calls) || begins_then_completes calls

call_completes :
    (now : Time) (c : Call) (job : JobRecord)
    → (after job (call now c job)).status ≡ completed
    → (is_complete c ≡ true) ⊎ (job.status ≡ completed)
unfolding call begin_execution refresh_execution_lease mark_completed mark_failed
    request_cancellation mark_canceled set_partial_result set_progress
call_completes now (begin owner expires) job h = ground arith
call_completes now c job h = ground arith

run-completes :
    (job : JobRecord) (calls : List (Time × Call))
    → (run job calls).status ≡ completed
    → (completes calls ≡ true) ⊎ (job.status ≡ completed)
unfolding run
run-completes job [] h = inr h
run-completes job ((now, c) ∷ calls) h =
    ground (arith, run-completes (after job (call now c job)) calls h, call_completes now c job)

-- Queued, or terminal without a result: no execution has begun since.
abbrev pub is_unbegun : JobStatus → Bool
is_unbegun running = false
is_unbegun completed = false
is_unbegun _ = true

call_unbegun :
    (now : Time) (c : Call) (job : JobRecord)
    → is_unbegun job.status ≡ true
    → ((is_begin c ≡ true) × ((after job (call now c job)).status ≢ completed))
      ⊎ (is_unbegun (after job (call now c job)).status ≡ true)
unfolding call begin_execution refresh_execution_lease mark_completed mark_failed
    request_cancellation mark_canceled set_partial_result set_progress
call_unbegun now (begin owner expires) job u = ground arith
call_unbegun now c job u = ground arith

-- A job that has not begun is completed only by calls of which one begins its execution and a later
-- one completes it.
pub completed_needs_begin :
    (job : JobRecord) (calls : List (Time × Call))
    → is_unbegun job.status ≡ true
    → (run job calls).status ≡ completed
    → begins_then_completes calls ≡ true
unfolding run
completed_needs_begin job [] u h = ground arith
completed_needs_begin job ((now, c) ∷ calls) u h =
    let job' = after job (call now c job) in
    elim (call_unbegun now c job u) [
      | inl p ↦ ground (arith, run-completes job' calls h, p.1)
      | inr v ↦ ground (arith, completed_needs_begin job' calls v h)
    ]
