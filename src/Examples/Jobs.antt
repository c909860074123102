-- ===== src/Examples/Jobs.antt =====
-- Jobs of app/core/job.py at concrete inputs.
use validador_final.Prelude.{◌≡◌, refl, ◌↔◌, ◌⊎◌, true, List, [], ◌∷◌, none, some, ok}
use validador_final.Job.{
  Time, JobRecord, running, failed, transition_to, begin_execution, refresh_execution_lease,
  mark_completed, Completion,
}
use validador_final.Job.Calls.{Call, call, after, run, new_job, begin, complete, fail}
use validador_final.Job.Edges.{◌⟶◌, transition_to_iff, call-⟶}
use validador_final.Job.Invariant.{IsValid, new_job-IsValid, call-IsValid}
use validador_final.Job.Fields.{refresh_execution_lease_iff}
use validador_final.Job.Runs.{run-IsValid, completed_needs_begin, begins_then_completes}

abbrev upload : JobRecord
upload = new_job "job-1" 5 "acme" none (some "lot.csv") (some "lot.csv") [] none

abbrev started : JobRecord
unfolding new_job
started = record upload {
  status = running;
  execution_owner_id = some "worker-1";
  execution_expires_at = some 90;
}

abbrev broken : JobRecord
unfolding new_job
broken = record upload { status = failed; error_message = some "unreadable" }

abbrev done : Completion
done = record {
  result_path = some "result.json";
  report_path = none;
  total_rows = 3;
  source_total_rows = none;
  rows_with_issues = 1;
  total_issues = 2;
}

abbrev history : List (Time × Call)
history = (6, begin (some "worker-1") (some 90)) ∷ (7, complete done) ∷ []

abbrev failing : List (Time × Call)
failing = (6, complete done) ∷ (7, fail "unreadable") ∷ (8, begin none none) ∷ []

transition_to_iff_example :
    (transition_to 6 running upload ≡ ok (record upload { status = running; updated_at = 6 })) ↔ (
      (upload.status ⟶ running)
      × (◌≡◌ {A = JobRecord}
          (record upload { status = running; updated_at = 6 })
          (record upload { status = running; updated_at = 6 })))
transition_to_iff_example =
    transition_to_iff running 6 upload (record upload { status = running; updated_at = 6 })

abbrev began : JobRecord
began = after upload (call 6 (begin (some "worker-1") (some 90)) upload)

began_lem : call 6 (begin (some "worker-1") (some 90)) upload ≡ ok began
unfolding call new_job begin_execution
began_lem = refl

upload-IsValid : IsValid upload
upload-IsValid = new_job-IsValid "job-1" 5 "acme" none (some "lot.csv") (some "lot.csv") [] none

call-⟶_example : (began.status ≡ upload.status) ⊎ (upload.status ⟶ began.status)
call-⟶_example = call-⟶ 6 (begin (some "worker-1") (some 90)) upload began began_lem

call-IsValid_example : IsValid began
call-IsValid_example =
    call-IsValid 6 (begin (some "worker-1") (some 90)) upload began upload-IsValid began_lem

refresh_execution_lease_iff_example :
    (refresh_execution_lease 7 "worker-1" 95 started
      ≡ ok (record started { execution_expires_at = some 95; updated_at = 7 }))
    ↔ ((started.status ≡ running)
        × ((started.execution_owner_id ≡ none) ⊎ (started.execution_owner_id ≡ some "worker-1"))
        × (◌≡◌ {A = JobRecord}
            (record started { execution_expires_at = some 95; updated_at = 7 })
            (record started { execution_expires_at = some 95; updated_at = 7 })))
unfolding started
refresh_execution_lease_iff_example =
    refresh_execution_lease_iff 7 95 "worker-1" started
      (record started { execution_expires_at = some 95; updated_at = 7 })

run-IsValid_example : IsValid (run upload history)
run-IsValid_example = run-IsValid upload history upload-IsValid

completed_needs_begin_example : begins_then_completes history ≡ true
unfolding run call new_job begin_execution transition_to mark_completed
completed_needs_begin_example = completed_needs_begin upload history refl refl
