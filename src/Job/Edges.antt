-- ===== src/Job/Edges.antt =====
-- The life cycle as a relation, and the code against it.
use validador_final.Prelude.{◌≡◌, refl, ◌↔◌, sym, ◌∙◌, ok_injective, ◌⊎◌, true, arith, ok}
use validador_final.Job.{
  Time, JobStatus, queued, running, completed, failed, canceled, JobRecord, status_in,
  valid_transitions, transition_to, begin_execution, refresh_execution_lease, mark_completed,
  mark_failed, request_cancellation, mark_canceled, set_partial_result, set_progress,
}
use validador_final.Job.Calls.{Call, begin, call}

infix 40 ◌⟶◌
pub data ◌⟶◌ : JobStatus → JobStatus → Type 0 where
  start : queued ⟶ running
  rerun : completed ⟶ running
  finish : running ⟶ completed
  fail_queued : queued ⟶ failed
  fail_running : running ⟶ failed
  cancel_queued : queued ⟶ canceled
  cancel_running : running ⟶ canceled

pub ruleset edges = (start, rerun, finish, fail_queued, fail_running, cancel_queued, cancel_running)

allowed_edge : (s t : JobStatus) → status_in t (valid_transitions s) ≡ true → s ⟶ t
allowed_edge s t h = grind (arith, edges)

edge_allowed : {s t : JobStatus} → s ⟶ t → status_in t (valid_transitions s) ≡ true
edge_allowed start = refl
edge_allowed _ = refl

transition_of_edge :
    (t : JobStatus) (now : Time) (job : JobRecord)
    → job.status ⟶ t
    → transition_to now t job ≡ ok (record job { status = t; updated_at = now })
unfolding transition_to
transition_of_edge t now job e = rw (edge_allowed e)

edge_of_transition :
    (t : JobStatus) (now : Time) (job job' : JobRecord)
    → transition_to now t job ≡ ok job'
    → job.status ⟶ t
unfolding transition_to
edge_of_transition t now job job' e = allowed_edge job.status t (ground arith)

-- transition_to returns exactly along an edge of the life cycle; it then writes the new status and
-- the time and nothing else.
pub transition_to_iff :
    (t : JobStatus) (now : Time) (job job' : JobRecord)
    → (transition_to now t job ≡ ok job')
      ↔ ((job.status ⟶ t) × (job' ≡ record job { status = t; updated_at = now }))
transition_to_iff t now job job' = (
  λ e.
      let edge = edge_of_transition t now job job' e in
      (edge, ok_injective (sym e ∙ transition_of_edge t now job edge)),
  λ h. rw h.1 (transition_of_edge t now job h.0),
)

-- Every call on a job that returns leaves the status alone or moves it along an edge of the life
-- cycle.
pub call-⟶ :
    (now : Time) (c : Call) (job job' : JobRecord)
    → call now c job ≡ ok job'
    → (job'.status ≡ job.status) ⊎ (job.status ⟶ job'.status)
unfolding call begin_execution refresh_execution_lease mark_completed mark_failed
    request_cancellation mark_canceled set_partial_result set_progress
call-⟶ now (begin owner expires) job job' e = grind (arith, edges)
call-⟶ now c job job' e = grind (arith, edges)
