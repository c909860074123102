-- ===== src/JobService/Workers.antt =====
-- Claims, heartbeats and the reads of all jobs keep every job valid.
use validador_final.Prelude.{
  ℕ, Bool, not, ◌&&◌, List, [], ◌∷◌, Option, none, some, filter, head?, String, str_eq, All,
  All-filter, Bool-cases, inl, inr, Result, ok, err,
}
use validador_final.Prelude.{◌>>=◌ as then_result}
use validador_final.Prelude.Dict.{values}
use validador_final.Prelude.Exec.{
  lift, gets, Keeps, Returned, Anything, Keeps-pure, Keeps-lift, Keeps-gets, Keeps-if, Keeps-modify,
  Keeps-bind,
}
use validador_final.Prelude.Sorting.{sort_by-All}
use validador_final.Job.{
  JobRecord, JobError, Time, refresh_execution_lease, running, foreign_owner, status_eq,
}
use validador_final.Job.Calls.{call, begin, refresh}
use validador_final.Job.Invariant.{IsValid}
use validador_final.Operational
use validador_final.Operational.{
  Sql, Table, load_jobs, upsert_job, claim_row, renew_row, heartbeat_row, owned_by, lease_end,
  claimable,
}
use validador_final.Operational.Rows.{upsert_job-All}
use validador_final.JobService.State.{
  Storage, in_memory, json_file, sqlite, World, ServiceError, of_job,
}
use validador_final.JobService.Execution.{
  claim_next_job, claim_from, claim_memory, claim_sqlite, replace_table, heartbeat_job_execution,
  heartbeat_from, heartbeat_memory, heartbeat_sqlite,
}
use validador_final.JobService.Validity.{
  HasValidJobs, OptionIsValid, StorageIsValid, get-IsValid, call-Returned,
  save_job_record-HasValidJobs, lift_hydrate, cache_job-HasValidJobs,
}
use validador_final.JobService.Steps.{
  bind_job, bind_unit, record_transition-HasValidJobs, begin_execution-Keeps,
}

-- What the store hands back: a valid job or none, beside a table of valid jobs.
abbrev CommitIsValid : Option JobRecord × Table → Type 0
CommitIsValid p = OptionIsValid p.0 × All IsValid p.1

head?-IsValid : (jobs : List JobRecord) → All IsValid jobs → OptionIsValid (head? jobs)
head?-IsValid [] h = tt
head?-IsValid (job ∷ jobs) h = h.0

-- The job that was written goes back beside the table that holds it.
commit-Returned :
    (rows : Table) (r : Result JobError JobRecord)
    → Returned IsValid (of_job r)
    → All IsValid rows
    → Returned CommitIsValid (of_job (then_result r (λ job. ok (some job, upsert_job job rows))))
commit-Returned rows (ok job) q h = (q, upsert_job-All IsValid job rows q h)
commit-Returned rows (err e) q h = tt

claim_row-Returned :
    (sql : Sql) (now : Time) (w : String) (l : ℕ) (o : Option JobRecord) (rows : Table)
    → OptionIsValid o
    → All IsValid rows
    → Returned CommitIsValid (of_job (claim_row sql now w l o rows))
unfolding claim_row call
claim_row-Returned sql now w l none rows v h = (tt, h)
claim_row-Returned sql now w l (some row) rows v h =
    commit-Returned rows _ (call-Returned now (begin (some w) (some (lease_end now l))) row v) h

claim-Returned :
    (sql : Sql) (now : Time) (w : String) (l : ℕ) (rows : Table)
    → All IsValid rows
    → Returned CommitIsValid (of_job (Operational.claim_next_job sql now w l rows))
unfolding Operational.claim_next_job load_jobs
claim-Returned sql now w l rows h =
    claim_row-Returned sql now w l _ rows
      (head?-IsValid _ (sort_by-All sql.row_before IsValid _ (All-filter IsValid _ rows h))) h

heartbeat_row-IsValid :
    (id w : String) (rows : Table) → All IsValid rows → OptionIsValid (heartbeat_row id w rows)
unfolding heartbeat_row
heartbeat_row-IsValid id w [] h = tt
heartbeat_row-IsValid id w (row ∷ rows) h =
    elim (Bool-cases
      (str_eq row.job_id id && status_eq row.status running && owned_by w row.execution_owner_id)) [
        | inl e ↦ rw e h.0
        | inr e ↦ rw e (heartbeat_row-IsValid id w rows h.1)
      ]

renew_row-Returned :
    (now : Time) (w : String) (l : ℕ) (o : Option JobRecord) (rows : Table)
    → OptionIsValid o
    → All IsValid rows
    → Returned CommitIsValid (of_job (renew_row now w l o rows))
unfolding renew_row call
renew_row-Returned now w l none rows v h = (tt, h)
renew_row-Returned now w l (some row) rows v h =
    commit-Returned rows _ (call-Returned now (refresh w (lease_end now l)) row v) h

heartbeat-Returned :
    (now : Time) (id w : String) (l : ℕ) (rows : Table)
    → All IsValid rows
    → Returned CommitIsValid (of_job (Operational.heartbeat_job_execution now id w l rows))
unfolding Operational.heartbeat_job_execution
heartbeat-Returned now id w l rows h =
    renew_row-Returned now w l _ rows (heartbeat_row-IsValid id w rows h) h

replace_table-HasValidJobs :
    (rows : Table) → All IsValid rows → Keeps HasValidJobs Anything (replace_table rows)
unfolding replace_table
replace_table-HasValidJobs rows h = Keeps-modify _ (λ s v. record { cached = v.cached; stored = h })

values-IsValid :
    (p : JobRecord → Bool)
    → Keeps {E = ServiceError} HasValidJobs (All IsValid) (gets (λ s. filter p (values s.jobs)))
values-IsValid p = Keeps-gets _ (λ s h. All-filter IsValid p _ h.cached)

refresh-Keeps :
    (now : Time) (w : String) (e : Time) (job : JobRecord)
    → IsValid job
    → Keeps HasValidJobs IsValid (lift (of_job (refresh_execution_lease now w e job)))
unfolding call
refresh-Keeps now w e job v = Keeps-lift _ (call-Returned now (refresh w e) job v)

module _ (world : World) (now : Time) where
  claim_memory-HasValidJobs :
      (w : String) (l : ℕ) (o : Option JobRecord)
      → OptionIsValid o
      → Keeps HasValidJobs OptionIsValid (claim_memory now w l o)
  unfolding claim_memory
  claim_memory-HasValidJobs w l none v = Keeps-pure _ tt
  claim_memory-HasValidJobs w l (some job) v =
      bind_job _ _ (begin_execution-Keeps now _ _ job v) λ started q.
        bind_unit _ _ (save_job_record-HasValidJobs started q)
          λ _. bind_unit _ _ (record_transition-HasValidJobs started) (λ _. Keeps-pure _ q)

  claim_sqlite-HasValidJobs :
      (o : Option JobRecord)
      → OptionIsValid o
      → Keeps HasValidJobs OptionIsValid (claim_sqlite world now o)
  unfolding claim_sqlite
  claim_sqlite-HasValidJobs none v = Keeps-pure _ tt
  claim_sqlite-HasValidJobs (some payload) v =
      Keeps-bind _ _ (lift_hydrate world now payload v) λ p q.
        bind_unit _ _ (cache_job-HasValidJobs p.0 q)
          λ _. bind_unit _ _ (record_transition-HasValidJobs p.0) (λ _. Keeps-pure _ q)

  claim_from-HasValidJobs :
      (le : JobRecord → JobRecord → Bool) (st : Storage) (w : String) (l : ℕ)
      → StorageIsValid st
      → Keeps HasValidJobs OptionIsValid (claim_from world now le st w l)
  unfolding claim_from
  claim_from-HasValidJobs le (sqlite rows) w l h =
      Keeps-bind {Q = CommitIsValid} _ _ (Keeps-lift _ (claim-Returned world.sql now w l rows h))
        λ p q.
          bind_unit _ _ (replace_table-HasValidJobs p.1 q.1)
            (λ _. claim_sqlite-HasValidJobs p.0 q.0)
  claim_from-HasValidJobs le in_memory w l h =
      Keeps-bind {Q = All IsValid} _ _ (values-IsValid _)
        λ jobs q. claim_memory-HasValidJobs w l _ (head?-IsValid _ (sort_by-All le IsValid jobs q))
  claim_from-HasValidJobs le (json_file content) w l h =
      Keeps-bind {Q = All IsValid} _ _ (values-IsValid _)
        λ jobs q. claim_memory-HasValidJobs w l _ (head?-IsValid _ (sort_by-All le IsValid jobs q))

  pub claim_next_job-HasValidJobs :
      (le : JobRecord → JobRecord → Bool) (w : String) (l : ℕ)
      → Keeps HasValidJobs OptionIsValid (claim_next_job world now le w l)
  unfolding claim_next_job
  claim_next_job-HasValidJobs le w l =
      Keeps-bind {Q = StorageIsValid} _ _ (Keeps-gets _ (λ s h. h.stored))
        (λ st h. claim_from-HasValidJobs le st w l h)

  heartbeat_memory-HasValidJobs :
      (w : String) (l : ℕ) (o : Option JobRecord)
      → OptionIsValid o
      → Keeps HasValidJobs OptionIsValid (heartbeat_memory now w l o)
  unfolding heartbeat_memory
  heartbeat_memory-HasValidJobs w l none v = Keeps-pure _ tt
  heartbeat_memory-HasValidJobs w l (some job) v =
      Keeps-if (not (status_eq job.status running)) _ _ (Keeps-pure none tt) (
        Keeps-if (foreign_owner job.execution_owner_id w) _ _ (Keeps-pure none tt) (
          bind_job _ _ (refresh-Keeps now w (lease_end now l) job v) λ renewed q.
            bind_unit _ _ (save_job_record-HasValidJobs renewed q)
              (λ _. Keeps-pure (some renewed) q)))

  heartbeat_sqlite-HasValidJobs :
      (o : Option JobRecord)
      → OptionIsValid o
      → Keeps HasValidJobs OptionIsValid (heartbeat_sqlite world now o)
  unfolding heartbeat_sqlite
  heartbeat_sqlite-HasValidJobs none v = Keeps-pure _ tt
  heartbeat_sqlite-HasValidJobs (some payload) v =
      Keeps-bind _ _ (lift_hydrate world now payload v)
        λ p q. bind_unit _ _ (cache_job-HasValidJobs p.0 q) (λ _. Keeps-pure _ q)

  heartbeat_from-HasValidJobs :
      (st : Storage) (id w : String) (l : ℕ)
      → StorageIsValid st
      → Keeps HasValidJobs OptionIsValid (heartbeat_from world now st id w l)
  unfolding heartbeat_from
  heartbeat_from-HasValidJobs (sqlite rows) id w l h =
      Keeps-bind {Q = CommitIsValid} _ _ (Keeps-lift _ (heartbeat-Returned now id w l rows h))
        λ p q.
          bind_unit _ _ (replace_table-HasValidJobs p.1 q.1)
            (λ _. heartbeat_sqlite-HasValidJobs p.0 q.0)
  heartbeat_from-HasValidJobs in_memory id w l h =
      Keeps-bind {Q = OptionIsValid} _ _ (Keeps-gets _ (λ s v. get-IsValid id s.jobs v.cached))
        (λ o v. heartbeat_memory-HasValidJobs w l o v)
  heartbeat_from-HasValidJobs (json_file content) id w l h =
      Keeps-bind {Q = OptionIsValid} _ _ (Keeps-gets _ (λ s v. get-IsValid id s.jobs v.cached))
        (λ o v. heartbeat_memory-HasValidJobs w l o v)

  pub heartbeat-HasValidJobs :
      (id w : String) (l : ℕ)
      → Keeps HasValidJobs OptionIsValid (heartbeat_job_execution world now id w l)
  unfolding heartbeat_job_execution
  heartbeat-HasValidJobs id w l =
      Keeps-bind {Q = StorageIsValid} _ _ (Keeps-gets _ (λ s h. h.stored))
        (λ st h. heartbeat_from-HasValidJobs st id w l h)
