-- ===== src/JobService/Runs.antt =====
-- The service through any sequence of calls.
use validador_final.Prelude.{
  ℕ, Bool, true, false, List, [], ◌∷◌, Option, if◌then◌else◌, String, All,
}
use validador_final.Prelude.Dict.{values}
use validador_final.Prelude.Exec.{gets, Keeps, Anything, Keeps-pure, Keeps-gets, Keeps-bind}
use validador_final.Prelude.Sorting.{sort_by-All}
use validador_final.Job.{JobRecord, Time, Completion, PartialResult}
use validador_final.Job.Invariant.{IsValid}
use validador_final.Operational.{load_jobs}
use validador_final.JobService.State.{
  Service, Storage, in_memory, json_file, sqlite, World, ServiceError, get_job, hydrate_all,
  save_all,
}
use validador_final.JobService.Queries.{NewJob, create_job, all_jobs, list_jobs}
use validador_final.JobService.Updates.{
  complete_job, fail_job, request_job_cancellation, cancel_job, update_progress,
  update_partial_result, save_job, register_reprocess_link,
}
use validador_final.JobService.Execution.{
  start_job, begin_job_execution, claim_next_job, heartbeat_job_execution,
}
use validador_final.JobService.Validity.{
  HasValidJobs, StorageIsValid, save_job_record-HasValidJobs, lift_hydrate, cache_job-HasValidJobs,
  get_job-HasValidJobs,
}
use validador_final.JobService.Steps.{bind_unit}
use validador_final.JobService.Preservation.{
  create_job-HasValidJobs, start_job-HasValidJobs, begin_job_execution-HasValidJobs,
  complete_job-HasValidJobs, fail_job-HasValidJobs, request_job_cancellation-HasValidJobs,
  cancel_job-HasValidJobs, update_progress-HasValidJobs, update_partial_result-HasValidJobs,
  register_reprocess_link-HasValidJobs, save_job-HasValidJobs,
}
use validador_final.JobService.Workers.{claim_next_job-HasValidJobs, heartbeat-HasValidJobs}

abbrev AreValid : List JobRecord × List JobRecord → Type 0
AreValid p = All IsValid p.0 × All IsValid p.1

All-if :
    (b : Bool) (xs ys : List JobRecord)
    → All IsValid xs
    → All IsValid ys
    → All IsValid (if b then xs else ys)
All-if true xs ys h k = h
All-if false xs ys h k = k

save_all-HasValidJobs :
    (jobs : List JobRecord) → All IsValid jobs → Keeps HasValidJobs Anything (save_all jobs)
unfolding save_all
save_all-HasValidJobs [] h = Keeps-pure _ tt
save_all-HasValidJobs (job ∷ jobs) h =
    bind_unit _ _ (save_job_record-HasValidJobs job h.0) (λ _. save_all-HasValidJobs jobs h.1)

hydrate_all-HasValidJobs :
    (world : World) (now : Time) (payloads : List JobRecord)
    → All IsValid payloads
    → Keeps HasValidJobs AreValid (hydrate_all world now payloads)
unfolding hydrate_all
hydrate_all-HasValidJobs world now [] h = Keeps-pure ([], []) (tt, tt)
hydrate_all-HasValidJobs world now (payload ∷ payloads) h =
    Keeps-bind _ _ (lift_hydrate world now payload h.0) λ p q.
      bind_unit _ _ (cache_job-HasValidJobs p.0 q) λ _.
        Keeps-bind {Q = AreValid} _ _ (hydrate_all-HasValidJobs world now payloads h.1)
          λ r v. Keeps-pure _ ((q, v.0), All-if p.1 (p.0 ∷ r.1) r.1 (q, v.1) v.1)

values-Keeps : Keeps {E = ServiceError} HasValidJobs (All IsValid) (gets (λ s. values s.jobs))
values-Keeps = Keeps-gets _ (λ s h. h.cached)

all_jobs-HasValidJobs :
    (world : World) (now : Time) (st : Storage)
    → StorageIsValid st
    → Keeps HasValidJobs (All IsValid) (all_jobs world now st)
unfolding all_jobs load_jobs
all_jobs-HasValidJobs world now (sqlite rows) h =
    Keeps-bind {Q = AreValid} _ _
      (hydrate_all-HasValidJobs world now _ (sort_by-All world.sql.row_before IsValid rows h))
      λ p v. bind_unit _ _ (save_all-HasValidJobs p.1 v.1) (λ _. Keeps-pure p.0 v.0)
all_jobs-HasValidJobs world now in_memory h = values-Keeps
all_jobs-HasValidJobs world now (json_file content) h = values-Keeps

list_jobs-HasValidJobs :
    (world : World) (now : Time) (t : Option String) (a : Bool) (l : Option ℕ)
    → Keeps HasValidJobs Anything (list_jobs world now t a l)
unfolding list_jobs
list_jobs-HasValidJobs world now t a l =
    Keeps-bind {Q = StorageIsValid} _ _ (Keeps-gets _ (λ s h. h.stored)) λ st h.
      Keeps-bind {Q = All IsValid} _ _ (all_jobs-HasValidJobs world now st h)
        (λ jobs v. Keeps-pure _ tt)

-- The public methods of the service with their arguments.
pub data Method : Type 0 where
  create : String → NewJob → Method
  get : String → Method
  list : Option String → Bool → Option ℕ → Method
  start begin : String → Method
  claim : (JobRecord → JobRecord → Bool) → String → ℕ → Method
  heartbeat : String → String → ℕ → Method
  complete : String → Completion → Method
  fail : String → String → Method
  request_cancellation : String → Method
  cancel : String → Option String → Method
  progress : String → String → String → String → Method
  partial : String → PartialResult → Option String → Option String → Option String → Method
  save : String → Method
  link : String → String → Method

module _ (world : World) where
  -- The service after a call at a time; a raise ends the call and keeps what it wrote.
  unfoldable pub perform : Time → Method → Service → Service
  perform now (create id n) s = (create_job world now id n s).1
  perform now (get id) s = (get_job world now id s).1
  perform now (list t a l) s = (list_jobs world now t a l s).1
  perform now (start id) s = (start_job world now id s).1
  perform now (begin id) s = (begin_job_execution world now id s).1
  perform now (claim le w l) s = (claim_next_job world now le w l s).1
  perform now (heartbeat id w l) s = (heartbeat_job_execution world now id w l s).1
  perform now (complete id c) s = (complete_job world now id c s).1
  perform now (fail id m) s = (fail_job world now id m s).1
  perform now (request_cancellation id) s = (request_job_cancellation world now id s).1
  perform now (cancel id d) s = (cancel_job world now id d s).1
  perform now (progress id a b c) s = (update_progress world now id a b c s).1
  perform now (partial id p a b c) s = (update_partial_result world now id p a b c s).1
  perform now (save id) s = (save_job world now id s).1
  perform now (link a b) s = (register_reprocess_link world now a b s).1

  unfoldable pub perform_all : List (Time × Method) → Service → Service
  perform_all [] s = s
  perform_all ((now, m) ∷ ms) s = perform_all ms (perform now m s)

  perform-HasValidJobs :
      (now : Time) (m : Method) (s : Service) → HasValidJobs s → HasValidJobs (perform now m s)
  unfolding perform
  perform-HasValidJobs now (create id n) s h = ((create_job-HasValidJobs world now id n).at s h).0
  perform-HasValidJobs now (get id) s h = ((get_job-HasValidJobs world now id).at s h).0
  perform-HasValidJobs now (list t a l) s h = ((list_jobs-HasValidJobs world now t a l).at s h).0
  perform-HasValidJobs now (start id) s h = ((start_job-HasValidJobs world now id).at s h).0
  perform-HasValidJobs now (begin id) s h =
      ((begin_job_execution-HasValidJobs world now id).at s h).0
  perform-HasValidJobs now (claim le w l) s h =
      ((claim_next_job-HasValidJobs world now le w l).at s h).0
  perform-HasValidJobs now (heartbeat id w l) s h =
      ((heartbeat-HasValidJobs world now id w l).at s h).0
  perform-HasValidJobs now (complete id c) s h =
      ((complete_job-HasValidJobs world now id c).at s h).0
  perform-HasValidJobs now (fail id m) s h = ((fail_job-HasValidJobs world now id m).at s h).0
  perform-HasValidJobs now (request_cancellation id) s h =
      ((request_job_cancellation-HasValidJobs world now id).at s h).0
  perform-HasValidJobs now (cancel id d) s h = ((cancel_job-HasValidJobs world now id d).at s h).0
  perform-HasValidJobs now (progress id a b c) s h =
      ((update_progress-HasValidJobs world now id a b c).at s h).0
  perform-HasValidJobs now (partial id p a b c) s h =
      ((update_partial_result-HasValidJobs world now id p a b c).at s h).0
  perform-HasValidJobs now (save id) s h = ((save_job-HasValidJobs world now id).at s h).0
  perform-HasValidJobs now (link a b) s h =
      ((register_reprocess_link-HasValidJobs world now a b).at s h).0

  -- From a service whose jobs are all valid, any calls of its methods in any order, those that
  -- raise included, leave every job in the cache and in the storage valid.
  pub perform_all-HasValidJobs :
      (ms : List (Time × Method)) (s : Service) → HasValidJobs s → HasValidJobs (perform_all ms s)
  unfolding perform_all
  perform_all-HasValidJobs [] s h = h
  perform_all-HasValidJobs ((now, m) ∷ ms) s h =
      perform_all-HasValidJobs ms (perform now m s) (perform-HasValidJobs now m s h)
