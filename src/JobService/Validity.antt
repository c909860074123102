-- ===== src/JobService/Validity.antt =====
-- Every method of the service keeps every job that it holds, in memory and in the storage, valid.
use validador_final.Prelude.{
  ◌≡◌, refl, Bool, true, false, List, [], ◌∷◌, Option, none, some, String, str_eq, arith, All,
  Bool-cases, inl, inr, Result, ok, err,
}
use validador_final.Prelude.Dict
use validador_final.Prelude.Dict.{values}
use validador_final.Prelude.Exec.{
  lift, Keeps, Returned, Anything, Keeps-pure, Keeps-raise, Keeps-lift, Keeps-gets, Keeps-if,
  Keeps-modify, Keeps-bind,
}
use validador_final.Prelude.Sorting.{sort_by-All}
use validador_final.Job.{JobRecord, JobError, Time}
use validador_final.Job.Calls.{Call, call, cancel}
use validador_final.Job.Invariant.{IsValid, call-IsValid}
use validador_final.Operational.{Table, load_job}
use validador_final.Operational.Rows.{upsert_job-All}
use validador_final.JobService.State.{
  Service, Storage, in_memory, json_file, sqlite, World, of_job, save_job_record, cache_job,
  hydrate_job, get_job, get_or_raise, saved, finalize_cancellation,
  should_finalize_stale_cancellation, finalized, persist, of_job, load_found, get_from, required,
}

abbrev pub StorageIsValid : Storage → Type 0
StorageIsValid in_memory = Unit
StorageIsValid (json_file content) = All IsValid content
StorageIsValid (sqlite rows) = All IsValid rows

-- Every job of the service satisfies the invariant of a job, in the cache and in the storage.
pub record HasValidJobs (s : Service) : Type 0 where
  pub cached : All IsValid (values s.jobs)
  pub stored : StorageIsValid s.storage

values-put :
    (k : String) (job : JobRecord) (d : List (String × JobRecord))
    → IsValid job
    → All IsValid (values d)
    → All IsValid (values (Dict.put k job d))
unfolding Dict.put
values-put k job [] v h = (v, tt)
values-put k job ((j, w) ∷ d) v h = elim (Bool-cases (str_eq j k)) [
  | inl e ↦ rw e (v, h.1)
  | inr e ↦ rw e (h.0, values-put k job d v h.1)
]

values-remove :
    (k : String) (d : List (String × JobRecord))
    → All IsValid (values d)
    → All IsValid (values (Dict.remove k d))
unfolding Dict.remove
values-remove k [] h = tt
values-remove k ((j, w) ∷ d) h = elim (Bool-cases (str_eq j k)) [
  | inl e ↦ rw e (values-remove k d h.1)
  | inr e ↦ rw e (h.0, values-remove k d h.1)
]

persist-IsValid :
    (job : JobRecord) (jobs : List (String × JobRecord)) (st : Storage)
    → IsValid job
    → All IsValid (values jobs)
    → StorageIsValid st
    → StorageIsValid (persist job jobs st)
unfolding persist
persist-IsValid job jobs in_memory v h st = tt
persist-IsValid job jobs (json_file content) v h st = sort_by-All _ IsValid (values jobs) h
persist-IsValid job jobs (sqlite rows) v h st = upsert_job-All IsValid job rows v st

pub save_job_record-HasValidJobs :
    (job : JobRecord) → IsValid job → Keeps HasValidJobs Anything (save_job_record job)
unfolding save_job_record saved
save_job_record-HasValidJobs job v = Keeps-modify _ λ s h.
    let jobs = values-put job.job_id job s.jobs v h.cached in
    record { cached = jobs; stored = persist-IsValid job _ s.storage v jobs h.stored }

pub call-Returned :
    (now : Time) (c : Call) (job : JobRecord)
    → IsValid job
    → Returned IsValid (of_job (call now c job))
call-Returned now c job v = go (call now c job) refl
  where
    go : (r : Result JobError JobRecord) → call now c job ≡ r → Returned IsValid (of_job r)
    go (ok job') e = call-IsValid now c job job' v e
    go (err x) e = tt

pub lift-call :
    (now : Time) (c : Call) (job : JobRecord)
    → IsValid job
    → Keeps HasValidJobs IsValid (lift (of_job (call now c job)))
lift-call now c job v = Keeps-lift _ (call-Returned now c job v)

abbrev pub FirstIsValid : JobRecord × Bool → Type 0
FirstIsValid p = IsValid p.0

finalize-Returned :
    (now : Time) (updated : Bool) (job : JobRecord)
    → IsValid job
    → Returned FirstIsValid (finalize_cancellation now updated job)
unfolding finalize_cancellation call
finalize-Returned now updated job v =
    elim (Bool-cases (should_finalize_stale_cancellation now job)) [
      | inl e ↦ rw e (go _ (call-Returned now (cancel _) job v))
      | inr e ↦ rw e v
    ]
  where
    go :
        (r : Result JobError JobRecord)
        → Returned IsValid (of_job r)
        → Returned FirstIsValid (finalized r)
    go (ok job') q = q
    go (err x) q = tt

with_tenant :
    (tenant : String) (job : JobRecord) → IsValid job → IsValid (record job { tenant_id = tenant })
with_tenant tenant job v = record { released = ground arith; failed_error = v.failed_error }

to_service :
    (r : Result JobError (JobRecord × Bool))
    → Returned FirstIsValid r
    → Returned FirstIsValid (of_job r)
to_service (ok p) q = q
to_service (err e) q = tt

pub cache_job-HasValidJobs :
    (job : JobRecord) → IsValid job → Keeps HasValidJobs Anything (cache_job job)
unfolding cache_job
cache_job-HasValidJobs job v =
    Keeps-modify _
      (λ s h. record { cached = values-put job.job_id job s.jobs v h.cached; stored = h.stored })

abbrev pub OptionIsValid : Option JobRecord → Type 0
OptionIsValid none = Unit
OptionIsValid (some job) = IsValid job

pub get-IsValid :
    (k : String) (d : List (String × JobRecord))
    → All IsValid (values d)
    → OptionIsValid (Dict.get k d)
unfolding Dict.get
get-IsValid k [] h = tt
get-IsValid k ((j, w) ∷ d) h = elim (Bool-cases (str_eq j k)) [
  | inl e ↦ rw e h.0
  | inr e ↦ rw e (get-IsValid k d h.1)
]

pub load_job-IsValid :
    (k : String) (rows : Table) → All IsValid rows → OptionIsValid (load_job k rows)
unfolding load_job
load_job-IsValid k [] h = tt
load_job-IsValid k (row ∷ rows) h = elim (Bool-cases (str_eq row.job_id k)) [
  | inl e ↦ rw e h.0
  | inr e ↦ rw e (load_job-IsValid k rows h.1)
]

module _ (world : World) (now : Time) where
  hydrate_job-Returned :
      (payload : JobRecord)
      → IsValid payload
      → Returned FirstIsValid (hydrate_job world now payload)
  unfolding hydrate_job
  hydrate_job-Returned payload v =
      elim (Bool-cases
        (str_eq payload.tenant_id (world.canonicalize_tenant_id payload.tenant_id))) [
          | inl e ↦ rw e (finalize-Returned now false payload v)
          | inr e ↦ rw e (finalize-Returned now true _ (with_tenant _ payload v))
        ]

  pub lift_hydrate :
      (payload : JobRecord)
      → IsValid payload
      → Keeps HasValidJobs FirstIsValid (lift (of_job (hydrate_job world now payload)))
  lift_hydrate payload v = Keeps-lift _ (to_service _ (hydrate_job-Returned payload v))

  load_found-HasValidJobs :
      (job_id : String) (o : Option JobRecord)
      → OptionIsValid o
      → Keeps HasValidJobs OptionIsValid (load_found world now job_id o)
  unfolding load_found
  load_found-HasValidJobs job_id none v =
      Keeps-bind _ _
        (Keeps-modify _
          (λ s h. record { cached = values-remove job_id s.jobs h.cached; stored = h.stored }))
        (λ _ _. Keeps-pure _ tt)
  load_found-HasValidJobs job_id (some payload) v = Keeps-bind _ _ (lift_hydrate payload v) λ p q.
      Keeps-bind _ _ (cache_job-HasValidJobs p.0 q) λ _ _.
        Keeps-if p.1 _ _
          (Keeps-bind _ _ (save_job_record-HasValidJobs p.0 q) (λ _ _. Keeps-pure _ q))
          (Keeps-pure _ q)

  get_from-HasValidJobs :
      (st : Storage) (job_id : String)
      → StorageIsValid st
      → Keeps HasValidJobs OptionIsValid (get_from world now st job_id)
  unfolding get_from
  get_from-HasValidJobs in_memory job_id v =
      Keeps-gets _ (λ s h. get-IsValid job_id s.jobs h.cached)
  get_from-HasValidJobs (json_file content) job_id v =
      Keeps-gets _ (λ s h. get-IsValid job_id s.jobs h.cached)
  get_from-HasValidJobs (sqlite rows) job_id v =
      load_found-HasValidJobs job_id _ (load_job-IsValid job_id rows v)

  pub get_job-HasValidJobs :
      (job_id : String) → Keeps HasValidJobs OptionIsValid (get_job world now job_id)
  unfolding get_job
  get_job-HasValidJobs job_id =
      Keeps-bind {Q = StorageIsValid} _ _ (Keeps-gets _ (λ s h. h.stored))
        (λ st v. get_from-HasValidJobs st job_id v)

  required-HasValidJobs :
      (job_id : String) (o : Option JobRecord)
      → OptionIsValid o
      → Keeps HasValidJobs IsValid (required world now job_id o)
  unfolding required
  required-HasValidJobs job_id none v = Keeps-raise _
  required-HasValidJobs job_id (some job) v = Keeps-pure _ v

  pub get_or_raise-HasValidJobs :
      (job_id : String) → Keeps HasValidJobs IsValid (get_or_raise world now job_id)
  unfolding get_or_raise
  get_or_raise-HasValidJobs job_id =
      Keeps-bind _ _ (get_job-HasValidJobs job_id) (λ o v. required-HasValidJobs job_id o v)
