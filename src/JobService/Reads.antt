-- ===== src/JobService/Reads.antt =====
-- What `get_job` of app/services/job_service.py reads back.
use validador_final.Prelude.{
  ◌≡◌, refl, sym, ◌∙◌, ◌⊎◌, Bool, true, false, Option, none, some, String, str_eq, str_eq_iff,
  str_eq_refl, arith, Bool-cases, inl, inr, Result, ok, err,
}
use mathlib.Core.Path.{subst}
use validador_final.Prelude.Dict.{get-put_self}
use validador_final.Prelude.Exec
use validador_final.Prelude.Exec.{lift, gets, pure, modify, ◌>>◌}
use validador_final.Job.{JobRecord, JobError, Time, mark_canceled}
use validador_final.Operational.{Table, load_job, upsert_job}
use validador_final.Operational.Rows.{load_job-upsert_job}
use validador_final.JobService.State.{
  Service, Storage, in_memory, json_file, sqlite, World, ServiceError, saved, persist, persisted,
  should_finalize_stale_cancellation, finalize_cancellation, finalized, hydrate_job, load_found,
  get_from, get_job, cache_job, save_job_record,
}

-- The payload under the canonical identifier of its tenant.
abbrev pub canonical_job : World → JobRecord → JobRecord
canonical_job world payload = record payload {
  tenant_id = world.canonicalize_tenant_id payload.tenant_id;
}

-- The payload's job as the service returns it: as it stands, or canceled where it waits for a worker
-- whose lease is over. Either way nothing is left to finalize.
pub record IsHydrated (world : World) (now : Time) (payload job : JobRecord) : Type 0 where
  pub reread :
      ((should_finalize_stale_cancellation now (canonical_job world payload) ≡ false)
        × (job ≡ canonical_job world payload))
      ⊎ ((should_finalize_stale_cancellation now (canonical_job world payload) ≡ true)
          × (mark_canceled now
                (some
                  "O cancelamento solicitado anteriormente foi finalizado ao recarregar o serviço.")
                (canonical_job world payload)
              ≡ ok job))
  pub same_job : job.job_id ≡ payload.job_id
  pub canonical : job.tenant_id ≡ world.canonicalize_tenant_id payload.tenant_id
  pub settled : should_finalize_stale_cancellation now job ≡ false

Hydrated : World → Time → JobRecord → Result JobError (JobRecord × Bool) → Type 0
Hydrated world now payload r =
    (job : JobRecord) × (updated : Bool) × (r ≡ ok (job, updated))
    × IsHydrated world now payload job

module _ (world : World) (now : Time) where
  finalize_lem :
      (updated : Bool) (payload : JobRecord)
      → Hydrated world now payload (finalize_cancellation now updated (canonical_job world payload))
  unfolding Hydrated finalize_cancellation mark_canceled should_finalize_stale_cancellation
      finalized
  finalize_lem updated payload =
      let job = canonical_job world payload in
      let detail =
        some "O cancelamento solicitado anteriormente foi finalizado ao recarregar o serviço." in
      elim (Bool-cases (should_finalize_stale_cancellation now job)) [
        | inl s ↦ rw s (canceled_now (mark_canceled now detail job) refl s)
        | inr s ↦ rw s (
          job,
          updated,
          refl,
          record { reread = inl (s, refl); same_job = refl; canonical = refl; settled = s },
        )
      ]
    where
      canceled_now :
          (r : Result JobError JobRecord)
          → mark_canceled now
              (some
                "O cancelamento solicitado anteriormente foi finalizado ao recarregar o serviço.")
              (canonical_job world payload)
            ≡ r
          → should_finalize_stale_cancellation now (canonical_job world payload) ≡ true
          → Hydrated world now payload (finalized r)
      canceled_now (ok job') e s = (
        job',
        true,
        refl,
        record {
          reread = inr (s, e);
          same_job = ground arith;
          canonical = ground arith;
          settled = ground arith;
        },
      )
      canceled_now (err x) e s = absurd (ground arith)

  hydrate_job_lem :
      (payload : JobRecord) → Hydrated world now payload (hydrate_job world now payload)
  unfolding hydrate_job
  hydrate_job_lem payload =
      let tenant = world.canonicalize_tenant_id payload.tenant_id in
      elim (Bool-cases (str_eq payload.tenant_id tenant)) [
        | inl e ↦
            let same = (str_eq_iff payload.tenant_id tenant).0 e in
            rw e (
              subst
                (λ t.
                  Hydrated world now payload
                    (finalize_cancellation now false (record payload { tenant_id = t })))
                (sym same) (finalize_lem false payload))
        | inr e ↦ rw e (finalize_lem true payload)
      ]

  -- What `get_job` answers over a table: `None` exactly for a row that is missing, and otherwise the
  -- row's job, hydrated.
  abbrev pub Answer : Option JobRecord → Result ServiceError (Option JobRecord) → Type 0
  Answer none r = r ≡ ok none
  Answer (some payload) r =
      (job : JobRecord) × (r ≡ ok (some job)) × IsHydrated world now payload job

  -- Over the SQLite table, where the tenants' identifiers are made canonical without an error,
  -- get_job does not raise: it answers None for a job that has no row, and otherwise the job of
  -- that row with the canonical identifier of its tenant, unchanged unless it waits for
  -- cancellation by a worker whose lease is over, and then as mark_canceled leaves it.
  pub get_job-Answer :
      (job_id : String) (rows : Table) (s : Service)
      → s.storage ≡ sqlite rows
      → Answer (load_job job_id rows) (get_job world now job_id s).0
  unfolding get_job get_from load_found Hydrated Exec.◌>>=◌ gets lift pure modify cache_job
      save_job_record
  get_job-Answer job_id rows s e = from s.storage e
    where
      found : (o : Option JobRecord) → Answer o (load_found world now job_id o s).0
      found none = refl
      found (some payload) =
          let (job, updated, h, hydrated) = hydrate_job_lem payload in
          elim (Bool-cases updated) [
            | inl u ↦ (job, rw (h, u) refl, hydrated)
            | inr u ↦ (job, rw (h, u) refl, hydrated)
          ]

      from :
          (st : Storage)
          → st ≡ sqlite rows
          → Answer (load_job job_id rows) (get_from world now st job_id s).0
      from st e = rw e (found (load_job job_id rows))

  hydrate_settled :
      (job : JobRecord)
      → world.canonicalize_tenant_id job.tenant_id ≡ job.tenant_id
      → should_finalize_stale_cancellation now job ≡ false
      → hydrate_job world now job ≡ ok (job, false)
  unfolding hydrate_job finalize_cancellation
  hydrate_settled job t s = rw (t, str_eq_refl job.tenant_id, s) refl

  load_saved :
      (job : JobRecord) (rows : Table) → load_job job.job_id (upsert_job job rows) ≡ some job
  load_saved job rows = load_job-upsert_job job.job_id job rows ∙ rw (str_eq_refl job.job_id) refl

  -- A job of a canonical tenant, with no stale cancellation, is read back as it was saved, whatever
  -- the storage of the service.
  pub get_job-saved :
      (job : JobRecord) (s : Service)
      → world.canonicalize_tenant_id job.tenant_id ≡ job.tenant_id
      → should_finalize_stale_cancellation now job ≡ false
      → (get_job world now job.job_id (saved job s)).0 ≡ ok (some job)
  unfolding get_job get_from load_found saved persist persisted Exec.◌>>=◌ gets lift pure modify
      cache_job
  get_job-saved job s t settled = from s.storage refl
    where
      from :
          (st : Storage)
          → s.storage ≡ st
          → (get_job world now job.job_id (saved job s)).0 ≡ ok (some job)
      from in_memory e = rw (e, get-put_self job.job_id job s.jobs) refl
      from (json_file content) e = rw (e, get-put_self job.job_id job s.jobs) refl
      from (sqlite rows) e = rw (e, load_saved job rows, hydrate_settled job t settled) refl
