-- ===== src/JobService/Cancellation.antt =====
-- What the methods of app/services/job_service.py that end a job answer.
use validador_final.Prelude.{
  ◌≡◌, refl, sym, ap, ◌∙◌, ok_injective, if◌then◌else◌, some, ◌⊎◌, inl, inr, true, [], ◌∷◌, Option,
  String, arith, Result, ok, err, Bool-cases, not,
}
use mathlib.Core.Path.{subst}
use validador_final.Prelude.Exec.{bind_ok, bind_returns, lift, pure, raise, modify, ◌>>=◌, ◌>>◌}
use validador_final.Job.{
  JobRecord, JobError, Time, queued, running, canceled, status_eq, status_in, mark_canceled,
  request_cancellation,
}
use validador_final.JobService.State.{
  Service, World, Action, invalid, saved, of_job, get_or_raise, save_job_record,
  record_job_status_transition,
}
use validador_final.JobService.Updates.{request_job_cancellation, cancel_job}

of_job_ok : {A : Type 0} (r : Result JobError A) (a : A) → of_job r ≡ ok a → r ≡ ok a
of_job_ok (ok b) a h = cc
of_job_ok (err e) a h = cc

mark_canceled_status :
    (now : Time) (detail : Option String) (job job' : JobRecord)
    → mark_canceled now detail job ≡ ok job'
    → (job'.status ≡ canceled) × (job'.job_id ≡ job.job_id)
unfolding mark_canceled
mark_canceled_status now detail job job' h = (ground arith, ground arith)

request_cancellation_noted :
    (now : Time) (job job' : JobRecord)
    → request_cancellation now job ≡ ok job'
    → (job'.status ≡ running) × (job'.cancel_requested ≡ true) × (job'.job_id ≡ job.job_id)
unfolding request_cancellation
request_cancellation_noted now job job' h = (ground arith, ground arith, ground arith)

module _ (world : World) (now : Time) (job_id : String) (s : Service) where
  -- The job is in the dict and, where there is one, in the storage of the service.
  abbrev IsWritten : JobRecord → Service → Service → Type 0
  IsWritten job before after =
      (after.jobs ≡ (saved job before).jobs) × (after.storage ≡ (saved job before).storage)

  -- The job that was found in the state `before`: it was canceled already and nothing is written, or
  -- it waited and is written canceled, or it runs and is written with the request noted.
  abbrev IsNotedFor : JobRecord → Service → JobRecord → Service → Type 0
  IsNotedFor found before job after =
      ((found.status ≡ canceled) × (job ≡ found) × (after ≡ before))
      ⊎ ((found.status ≡ queued)
          × (job.status ≡ canceled)
          × (job.job_id ≡ found.job_id)
          × IsWritten job before after)
      ⊎ ((found.status ≡ running)
          × (job.status ≡ running)
          × (job.cancel_requested ≡ true)
          × (job.job_id ≡ found.job_id)
          × IsWritten job before after)

  abbrev pub IsCancellationNoted : JobRecord → Service → Type 0
  IsCancellationNoted job after =
      (found : JobRecord) × (before : Service) × (get_or_raise world now job_id s
        ≡ (ok found, before))
      × IsNotedFor found before job after

  -- The two ends of the method, with what the method of the record answered.
  stop : Result JobError JobRecord → Action JobRecord
  stop r = do
    stopped ← lift (of_job r)
    save_job_record stopped
    record_job_status_transition stopped
    pure stopped

  flag : Result JobError JobRecord → Action JobRecord
  flag r = do flagged ← lift (of_job r); save_job_record flagged; pure flagged

  stop_lem :
      (r : Result JobError JobRecord) (job : JobRecord) (before : Service)
      → (stop r before).0 ≡ ok job
      → (r ≡ ok job) × IsWritten job before (stop r before).1
  unfolding stop ◌>>=◌ lift pure modify save_job_record record_job_status_transition
  stop_lem (ok found) job before h = (
    ap ok (ok_injective h),
    subst (λ x. IsWritten x before (stop (ok found) before).1) (ok_injective h) (refl, refl),
  )
  stop_lem (err e) job before h = cc

  flag_lem :
      (r : Result JobError JobRecord) (job : JobRecord) (before : Service)
      → (flag r before).0 ≡ ok job
      → (r ≡ ok job) × IsWritten job before (flag r before).1
  unfolding flag ◌>>=◌ lift pure modify save_job_record
  flag_lem (ok found) job before h = (
    ap ok (ok_injective h),
    subst (λ x. IsWritten x before (flag (ok found) before).1) (ok_injective h) (refl, refl),
  )
  flag_lem (err e) job before h = cc

  rest : JobRecord → Action JobRecord
  unfolding stop flag
  rest job =
      if status_eq job.status queued
      then stop
          (mark_canceled now (some "O lote foi cancelado antes do início do processamento.") job)
      else if status_eq job.status running
      then flag (request_cancellation now job)
      else if status_eq job.status canceled
      then pure job
      else raise (invalid "Only queued or running jobs can be canceled")

  rest_noted :
      (found job : JobRecord) (before : Service)
      → (rest found before).0 ≡ ok job
      → IsNotedFor found before job (rest found before).1
  unfolding rest pure raise
  rest_noted found job before e = elim (Bool-cases (status_eq found.status queued)) [
    | inl q ↦
        let (m, written) = stop_lem (mark_canceled now _ found) job before (rw q at e) in
        let st = mark_canceled_status now _ found job m in
        rw q (inr (inl (ground arith, st.0, st.1, written)))
    | inr q ↦ elim (Bool-cases (status_eq found.status running)) [
      | inl r ↦
          let (m, written) =
            flag_lem (request_cancellation now found) job before (rw (q, r) at e) in
          let st = request_cancellation_noted now found job m in
          rw (q, r) (inr (inr (ground arith, st.0, st.1, st.2, written)))
      | inr r ↦ elim (Bool-cases (status_eq found.status canceled)) [
        | inl c ↦
            let e' = rw (q, r, c) at e in
            rw (q, r, c) (inl (ground arith, sym (ok_injective e'), refl))
        | inr c ↦ let e' = rw (q, r, c) at e in cc
      ]
    ]
  ]

  -- A request for cancellation that returns has first read the job as get_or_raise does. From the
  -- state after that: a job canceled already is returned as it is and nothing is written; one in
  -- the queue is returned canceled, one that runs is returned running with the request noted, and
  -- either is written under the identifier of the job that was read, in the dict and in the
  -- storage, as save_job_record writes it.
  pub request_job_cancellation-IsCancellationNoted :
      (job : JobRecord)
      → (request_job_cancellation world now job_id s).0 ≡ ok job
      → IsCancellationNoted job (request_job_cancellation world now job_id s).1
  unfolding request_job_cancellation rest
  request_job_cancellation-IsCancellationNoted job e =
      let (found, got, q) = bind_returns (get_or_raise world now job_id) rest s job e in
      let before = (get_or_raise world now job_id s).1 in
      (
        found,
        before,
        got,
        subst (λ x. IsNotedFor found before job x.1) (sym q)
            (rest_noted found job before (sym (ap (λ x. x.0) q) ∙ e)),
      )

  -- A job that cancel_job returns is canceled.
  pub cancel_job-status :
      (detail : Option String) (job : JobRecord)
      → (cancel_job world now job_id detail s).0 ≡ ok job
      → job.status ≡ canceled
  unfolding cancel_job ◌>>=◌ lift pure raise modify save_job_record record_job_status_transition
  cancel_job-status detail job e =
      let (found, s', got, e') = bind_ok (get_or_raise world now job_id) _ s job e in
      elim (Bool-cases (status_eq found.status canceled)) [
        | inl c ↦ let e'' = rw c at e' in ground arith
        | inr c ↦ elim (Bool-cases (not (status_in found.status (queued ∷ running ∷ [])))) [
          | inl w ↦ let e'' = rw (c, w) at e' in cc
          | inr w ↦
              let (stopped, s'', m, f) = bind_ok (lift _) _ s' job (rw (c, w) at e') in
              let st = mark_canceled_status now _ found stopped (of_job_ok _ stopped m) in
              ground arith
        ]
      ]
