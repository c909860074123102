-- ===== src/JobService/Steps.antt =====
-- The steps that the methods are made of keep every job valid: the rules of the proofs.
use validador_final.Prelude.{refl, Bool, true, false, Option, some, if◌then◌else◌, String, arith}
use validador_final.Prelude.Exec.{
  Exec, lift, gets, pure, Keeps, Returned, Anything, Keeps-pure, Keeps-raise, Keeps-lift,
  Keeps-gets, Keeps-if, Keeps-modify, Keeps-bind, ◌>>=◌, ◌>>◌,
}
use validador_final.Job.{
  JobRecord, Time, mark_canceled, begin_execution, mark_completed, mark_failed,
  request_cancellation, set_progress, set_partial_result, Completion, PartialResult,
}
use validador_final.Job.Calls.{
  call, begin, complete, fail, request_cancel, cancel, partial, progress,
}
use validador_final.Job.Invariant.{IsValid, call-IsValid}
use validador_final.JobService.State.{
  Service, World, Action, of_job, save_job_record, record_audit_event, record_job_status_transition,
}
use validador_final.JobService.Updates.{with_progress, linked_source, linked_new}
use validador_final.JobService.Validity.{
  HasValidJobs, OptionIsValid, get-IsValid, call-Returned, save_job_record-HasValidJobs,
  get_or_raise-HasValidJobs,
}

module _ {B : Type 0} {R : B → Type 0} where
  -- A step that returns a job, or nothing, and the rest of the method.
  pub bind_job :
      (m : Action JobRecord) (f : JobRecord → Action B)
      → Keeps HasValidJobs IsValid m
      → ((job : JobRecord) → IsValid job → Keeps HasValidJobs R (f job))
      → Keeps HasValidJobs R (m >>= f)
  bind_job = Keeps-bind

  pub bind_unit :
      (m : Action (Unit {0})) (f : Unit {0} → Action B)
      → Keeps HasValidJobs Anything m
      → ((u : Unit {0}) → Keeps HasValidJobs R (f u))
      → Keeps HasValidJobs R (m >>= f)
  bind_unit m f km kf = Keeps-bind m f km (λ u _. kf u)

pub record_audit_event-HasValidJobs :
    (t : _) (job : JobRecord) (details : _)
    → Keeps HasValidJobs Anything (record_audit_event t job details)
unfolding record_audit_event
record_audit_event-HasValidJobs t job details =
    Keeps-modify _ (λ s h. record { cached = h.cached; stored = h.stored })

pub record_transition-HasValidJobs :
    (job : JobRecord) → Keeps HasValidJobs Anything (record_job_status_transition job)
unfolding record_job_status_transition
record_transition-HasValidJobs job =
    Keeps-modify _ (λ s h. record { cached = h.cached; stored = h.stored })

module _ (now : Time) where
  pub mark_completed-Keeps :
      (c : Completion) (job : JobRecord)
      → IsValid job
      → Keeps HasValidJobs IsValid (lift (of_job (mark_completed now c job)))
  unfolding call
  mark_completed-Keeps c job v = Keeps-lift _ (call-Returned now (complete c) job v)

  pub mark_failed-Keeps :
      (m : String) (job : JobRecord)
      → IsValid job
      → Keeps HasValidJobs IsValid (lift (of_job (mark_failed now m job)))
  unfolding call
  mark_failed-Keeps m job v = Keeps-lift _ (call-Returned now (fail m) job v)

  pub mark_canceled-Keeps :
      (d : Option String) (job : JobRecord)
      → IsValid job
      → Keeps HasValidJobs IsValid (lift (of_job (mark_canceled now d job)))
  unfolding call
  mark_canceled-Keeps d job v = Keeps-lift _ (call-Returned now (cancel d) job v)

  pub request_cancellation-Keeps :
      (job : JobRecord)
      → IsValid job
      → Keeps HasValidJobs IsValid (lift (of_job (request_cancellation now job)))
  unfolding call
  request_cancellation-Keeps job v = Keeps-lift _ (call-Returned now request_cancel job v)

  pub begin_execution-Keeps :
      (o : Option String) (e : Option Time) (job : JobRecord)
      → IsValid job
      → Keeps HasValidJobs IsValid (lift (of_job (begin_execution now o e job)))
  unfolding call
  begin_execution-Keeps o e job v = Keeps-lift _ (call-Returned now (begin o e) job v)

pub progress-IsValid :
    (now : Time) (step title detail : String) (job : JobRecord)
    → IsValid job
    → IsValid (set_progress now step title detail job)
unfolding call
progress-IsValid now step title detail job v =
    call-IsValid now (progress step title detail) job _ v refl

pub partial-IsValid :
    (now : Time) (p : PartialResult) (job : JobRecord)
    → IsValid job
    → IsValid (set_partial_result now p job)
unfolding call
partial-IsValid now p job v = call-IsValid now (partial p) job _ v refl

pub with_progress-IsValid :
    (world : World) (now : Time) (step title detail : Option String) (job : JobRecord)
    → IsValid job
    → IsValid (with_progress world now step title detail job)
unfolding with_progress
with_progress-IsValid world now (some step) (some title) (some detail) job v =
    progress-IsValid now step title detail job v
with_progress-IsValid world now _ _ _ job v = v

pub linked_source-IsValid :
    (world : World) (now : Time) (source fresh : JobRecord)
    → IsValid source
    → IsValid (linked_source world now source fresh)
unfolding linked_source
linked_source-IsValid world now source fresh v = record {
  released = ground arith;
  failed_error = v.failed_error;
}

pub linked_new-IsValid :
    (world : World) (now : Time) (id : String) (fresh : JobRecord)
    → IsValid fresh
    → IsValid (linked_new world now id fresh)
unfolding linked_new
linked_new-IsValid world now id fresh v = record {
  released = ground arith;
  failed_error = v.failed_error;
}

pub IsValid-if :
    (b : Bool) (job job' : JobRecord)
    → IsValid job
    → IsValid job'
    → IsValid (if b then job else job')
IsValid-if true job job' v w = v
IsValid-if false job job' v w = w

pub ruleset keeps_rules = (
  Keeps-pure, Keeps-raise, Keeps-if, bind_job, bind_unit, save_job_record-HasValidJobs,
  record_audit_event-HasValidJobs, record_transition-HasValidJobs, get_or_raise-HasValidJobs,
  mark_completed-Keeps, mark_failed-Keeps, mark_canceled-Keeps, request_cancellation-Keeps,
  begin_execution-Keeps,
)

-- The two jobs that a link relates, and whether they are one object.
pub bind_test :
    {B : Type 0} {R : B → Type 0} (f : Service → Bool) (k : Bool → Action B)
    → ((b : Bool) → Keeps HasValidJobs R (k b))
    → Keeps HasValidJobs R (gets f >>= k)
bind_test f k kk = Keeps-bind {Q = Anything} _ _ (Keeps-gets f (λ s h. tt)) (λ b _. kk b)

pub saved_and_returned :
    (job : JobRecord) → IsValid job → Keeps HasValidJobs IsValid (do save_job_record job; pure job)
saved_and_returned job v = bind_unit _ _ (save_job_record-HasValidJobs job v) (λ _. Keeps-pure _ v)
