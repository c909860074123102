-- ===== src/Examples/Services.antt =====
-- The service of jobs at a concrete run.
use validador_final.Prelude.{true, false, List, [], ◌∷◌, none, some, leb}
use validador_final.Job.{Time}
use validador_final.JobService.State.{Service, sqlite, World}
use validador_final.JobService.Validity.{HasValidJobs}
use validador_final.Prelude.{◌≡◌, refl, ok}
use validador_final.Job.{JobRecord, mark_canceled}
use validador_final.Job.Calls.{new_job, after}
use validador_final.Operational.{load_job}
use validador_final.Prelude.Exec.{◌>>=◌}
use validador_final.JobService.State.{
  get_job, saved, should_finalize_stale_cancellation, get_or_raise, hydrate_job, cache_job,
  save_job_record, record_job_status_transition,
}
use validador_final.JobService.Updates.{request_job_cancellation}
use validador_final.JobService.Reads.{Answer, get_job-Answer, get_job-saved}
use validador_final.JobService.Cancellation.{
  IsCancellationNoted, request_job_cancellation-IsCancellationNoted,
}
use validador_final.JobService.Runs.{
  Method, create, claim, cancel, list, perform_all, perform_all-HasValidJobs,
}

abbrev here : World
here = record {
  canonicalize_tenant_id = λ t. t;
  sql = record {
    stamp_le = λ expires now. leb expires now;
    row_before = λ a b. leb a.created_at b.created_at;
  };
}

abbrev empty_service : Service
empty_service = record { jobs = []; storage = sqlite []; audit = some []; status_transitions = [] }

abbrev calls : List (Time × Method)
calls =
    (
      5,
      create "job-1" (record {
        tenant_id = "acme";
        api_key_id = none;
        file_path = some "a.csv";
        file_name = some "a.csv";
        params = [];
        parent_job_id = none;
      }),
    )
    ∷ (6, claim (λ a b. true) "worker-1" 30)
    ∷ (7, cancel "job-1" none)
    ∷ (8, list (some "acme") false none)
    ∷ []

perform_all-HasValidJobs_example : HasValidJobs (perform_all here calls empty_service)
perform_all-HasValidJobs_example =
    perform_all-HasValidJobs here calls empty_service (record { cached = tt; stored = tt })

abbrev lot : JobRecord
lot = new_job "job-1" 5 "acme" none (some "a.csv") (some "a.csv") [] none

abbrev stocked : Service
unfolding new_job
stocked = record {
  jobs = ("job-1", lot) ∷ [];
  storage = sqlite (lot ∷ []);
  audit = none;
  status_transitions = [];
}

get_job-Answer_example :
    Answer here 9 (load_job "job-1" (lot ∷ [])) (get_job here 9 "job-1" stocked).0
unfolding stocked
get_job-Answer_example = get_job-Answer here 9 "job-1" (lot ∷ []) stocked refl

get_job-saved_example : (get_job here 9 lot.job_id (saved lot empty_service)).0 ≡ ok (some lot)
unfolding new_job should_finalize_stale_cancellation
get_job-saved_example = get_job-saved here 9 lot empty_service refl refl

abbrev stopped : JobRecord
stopped =
    after lot (mark_canceled 9 (some "O lote foi cancelado antes do início do processamento.") lot)

request_job_cancellation-IsCancellationNoted_example :
    IsCancellationNoted here 9 "job-1" stocked stopped
      (request_job_cancellation here 9 "job-1" stocked).1
unfolding request_job_cancellation ◌>>=◌ get_or_raise get_job stocked load_job hydrate_job
    should_finalize_stale_cancellation cache_job mark_canceled save_job_record
    record_job_status_transition
request_job_cancellation-IsCancellationNoted_example =
    request_job_cancellation-IsCancellationNoted here 9 "job-1" stocked stopped refl

abbrev ended : JobRecord
ended = after lot (mark_canceled 9 none lot)
